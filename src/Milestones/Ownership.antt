-- ===== src/Milestones/Ownership.antt =====
-- services/milestones.service.ts: a contract reaches its own milestones only, and gets back those
-- it deletes in time.
use mathlib.Core.List.{Perm}
use talenttrust_backend.Prelude.{
  ℕ, ◌+◌, ◌*◌, String, Bool, true, false, not, ◌&&◌, leb, if◌then◌else◌, none, some, List, [], ◌∷◌,
  get, put, get-put_self, ◌≡◌, refl, inl, inr, ok, err, arith, Bool-cases, str_eq, eq_refl, keep_if,
  values, sort-perm, IsSorted, sort-IsSorted,
}
use talenttrust_backend.SoftDelete.{JsDate, at, day_ms, is_soft_deleted, is_within_retention_window}
use talenttrust_backend.Milestones.Service.{
  MilestoneRecord, MilestoneStore, milestone_not_found, milestone_retention_expired,
  get_milestone_by_id, soft_delete_milestone, restore_milestone, list_by_contract, oldest_first,
}

abbrev pub gone : JsDate → MilestoneRecord → MilestoneRecord
gone t m = record m { deleted_at = some t; updated_at = t }

abbrev pub back : JsDate → MilestoneRecord → MilestoneRecord
back u m = record m { deleted_at = none; updated_at = u }

-- For a contract that a milestone does not belong to, the milestone is not there: reading, deleting
-- and restoring it by its id all answer that it is not found.
foreign_not_found :
    (days : ℕ) (contract id : String) (now : JsDate) (include_deleted : Bool)
    (store : MilestoneStore) (m : MilestoneRecord)
    → get id store ≡ some m
    → str_eq m.contract_id contract ≡ false
    → (get_milestone_by_id contract id include_deleted store ≡ err milestone_not_found)
      × (soft_delete_milestone contract id now store ≡ err milestone_not_found)
      × (restore_milestone days contract id now store ≡ err milestone_not_found)
unfolding get_milestone_by_id soft_delete_milestone restore_milestone
foreign_not_found days contract id now include_deleted store m found foreign =
    (simp (found, foreign) refl, simp (found, foreign) refl, simp (found, foreign) refl)

-- A milestone deleted by its contract at `t` is hidden from reads, and restored by a call of the
-- contract at `u` exactly up to the end of the retention window, with all but its update time as
-- before the deletion; later, the call throws the retention error.
restore_after_soft_delete :
    (days t u : ℕ) (id : String) (store : MilestoneStore) (m : MilestoneRecord)
    → get id store ≡ some m
    → m.deleted_at ≡ none
    → let store' = put id (gone (at t) m) store in
      (soft_delete_milestone m.contract_id id (at t) store ≡ ok (gone (at t) m, store'))
      × (get_milestone_by_id m.contract_id id false store' ≡ err milestone_not_found)
      × (restore_milestone days m.contract_id id (at u) store' ≡ (
          if leb u (t + days * day_ms)
          then ok (back (at u) m, put id (back (at u) m) store')
          else err milestone_retention_expired))
unfolding get_milestone_by_id soft_delete_milestone restore_milestone is_within_retention_window
restore_after_soft_delete days t u id store m found active = (
  simp (found, eq_refl, active) refl,
  simp (get-put_self, eq_refl) refl,
  elim (Bool-cases (leb u (t + days * day_ms))) [
    | inl within ↦ simp (get-put_self, eq_refl, within) refl
    | inr past ↦ simp (get-put_self, eq_refl, past) refl
  ],
)

oldest_total : (a b : MilestoneRecord) → oldest_first a b ≡ false → oldest_first b a ≡ true
oldest_total a b h = ground arith

oldest_trans :
    (a b c : MilestoneRecord)
    → oldest_first a b ≡ true
    → oldest_first b c ≡ true
    → oldest_first a c ≡ true
oldest_trans a b c h k = ground arith

keep_if-both :
    (p q : MilestoneRecord → Bool) (ms : List MilestoneRecord)
    → keep_if q (keep_if p ms) ≡ keep_if (λ m. p m && q m) ms
keep_if-both p q [] = refl
keep_if-both p q (m ∷ ms) = ground (arith, keep_if-both p q ms)

-- The default listing of a contract is its stored milestones that are not deleted, each as often
-- as it is stored, oldest first.
pub list_by_contract_lem :
    (contract : String) (store : MilestoneStore)
    → Perm (list_by_contract contract false store) (
        keep_if
          (λ m. str_eq m.contract_id contract && not (is_soft_deleted m.deleted_at))
          (values store))
      × IsSorted oldest_first (list_by_contract contract false store)
unfolding list_by_contract
list_by_contract_lem contract store = (
  rw
      (keep_if-both (λ m. str_eq m.contract_id contract) (λ m. not (is_soft_deleted m.deleted_at))
        (values store))
      (sort-perm oldest_first _),
  sort-IsSorted oldest_first oldest_total oldest_trans _,
)
