-- ===== src/Contracts/Versions.antt =====
-- repositories/contractRepository.ts: versions guard updates, and the moment at which the purges of
-- the two repositories differ.
use talenttrust_backend.Prelude.{
  List, [], ◌∷◌, Result, err, ◌≤◌, if◌then◌else◌, Bool, ℕ, suc, ◌+◌, ◌*◌, String, true, false, ◌==◌,
  leb, Option, none, some, get, put, get-put_self, IsMap, get-keep_entries, ok, err, Bool-cases,
  ◌≡◌, refl, inl, inr, arith,
}
use talenttrust_backend.SoftDelete.{day_ms, is_past_retention_window, is_within_retention_window}
use talenttrust_backend.Contracts.{
  ContractError, with_columns, is_current, sql_write, changes, update_rows, Contract,
  ContractFields, ContractTable, with_fields, with_deleted_at, memory_find_by_id, update_found,
  memory_restore, memory_purge_expired, sql_purge_expired,
}

abbrev is_done : Result ContractError Contract → Bool
is_done (ok c) = true
is_done (err e) = false

-- How many of some writes succeed, one after another, that all expect the same version of a contract.
-- Each comes with what its read had found, at whatever time.
unfoldable pub writes_done :
    String → ℕ → List (ContractFields × Option Contract) → ContractTable → ℕ
writes_done id expected [] t = 0
writes_done id expected ((f, found) ∷ us) t =
    let (r, after) = sql_write id f expected found t in
    let rest = writes_done id expected us after in if is_done r then suc rest else rest

changes-update_rows :
    (id : String) (f : ContractFields) (expected : ℕ) (t : ContractTable)
    → changes (is_current expected) id (update_rows (is_current expected) (with_columns f) id t) ≡ 0
unfolding changes update_rows
changes-update_rows id f expected [] = refl
changes-update_rows id f expected ((key, c) ∷ t) =
    ground (arith, changes-update_rows id f expected t)

-- A write leaves no row that the next one could change, or changes no row itself.
write_outdates :
    (id : String) (f : ContractFields) (expected : ℕ) (found : Option Contract) (t : ContractTable)
    → is_done (sql_write id f expected found t).0 ≡ true
    → changes (is_current expected) id (sql_write id f expected found t).1 ≡ 0
unfolding sql_write
write_outdates id f expected found t h =
    let outdated = changes-update_rows id f expected t in ground (arith, outdated)

write_refused :
    (id : String) (f : ContractFields) (expected : ℕ) (found : Option Contract) (t : ContractTable)
    → changes (is_current expected) id t ≡ 0
    → (is_done (sql_write id f expected found t).0 ≡ false)
      × (changes (is_current expected) id (sql_write id f expected found t).1 ≡ 0)
unfolding sql_write
write_refused id f expected found t h =
    let outdated = changes-update_rows id f expected t in ground (arith, outdated)

writes_refused :
    (id : String) (expected : ℕ) (us : List (ContractFields × Option Contract)) (t : ContractTable)
    → changes (is_current expected) id t ≡ 0
    → writes_done id expected us t ≡ 0
unfolding writes_done
writes_refused id expected [] t h = refl
writes_refused id expected ((f, found) ∷ us) t h =
    let (refused, outdated) = write_refused id f expected found t h in
    rw refused (writes_refused id expected us _ outdated)

-- Of any updates of a contract in the table that expect the same version, at most one succeeds,
-- whatever their reads had found and however early they were made.
pub one_write_wins :
    (id : String) (expected : ℕ) (us : List (ContractFields × Option Contract)) (t : ContractTable)
    → writes_done id expected us t ≤ 1
unfolding writes_done
one_write_wins id expected [] t = omega arith
one_write_wins id expected ((f, found) ∷ us) t =
    elim (Bool-cases (is_done (sql_write id f expected found t).0)) [
      | inl done ↦
          let none_left =
            writes_refused id expected us _ (write_outdates id f expected found t done) in
          rw done (omega (arith, none_left))
      | inr refused ↦ rw refused (one_write_wins id expected us _)
    ]

number_refl : (n : ℕ) → (n == n) ≡ true
number_refl n = ground arith

-- In memory, two updates that both found a contract at the version that they expect, before either
-- wrote, both succeed, and the contract is then the second's: what the first wrote is lost.
pub overlapping_updates_lost :
    (id : String) (f g : ContractFields) (c : Contract) (t : ContractTable)
    → memory_find_by_id false id t ≡ some c
    → let (r, t') = update_found id f c.version t (memory_find_by_id false id t) in
      let (r', t'') = update_found id g c.version t' (memory_find_by_id false id t) in
      (r ≡ ok (with_fields f c))
      × (r' ≡ ok (with_fields g c))
      × (get id t'' ≡ some (with_fields g c))
overlapping_updates_lost id f g c t found =
    rw (found, number_refl c.version)
      (refl, refl, get-put_self id (with_fields g c) (put id (with_fields f c) t))

leb_refl : (n : ℕ) → leb n n ≡ true
leb_refl n = ground arith

-- At the last moment of the retention window, a deleted contract can be restored and is kept by the
-- purge of the map in memory, but the purge of the table removes it.
pub purge_at_boundary :
    (id : String) (days date : ℕ) (c : Contract) (t : ContractTable)
    → IsMap t
    → get id t ≡ some c
    → c.deleted_at ≡ some date
    → ((memory_restore id (date + days * day_ms) days t).0 ≡ ok (with_deleted_at none c))
      × (get id (memory_purge_expired (date + days * day_ms) days t) ≡ some c)
      × (get id (sql_purge_expired (date + days * day_ms) days t) ≡ none)
unfolding memory_restore memory_purge_expired sql_purge_expired is_past_retention_window
    is_within_retention_window
purge_at_boundary id days date c t h found deleted = (
  simp (found, deleted, leb_refl),
  simp (get-keep_entries _ id t h, found, deleted, leb_refl),
  simp (get-keep_entries _ id t h, found, deleted, leb_refl),
)
