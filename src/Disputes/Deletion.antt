-- ===== src/Disputes/Deletion.antt =====
-- services/disputes.service.ts: soft deletion, restoration, purge and listing.
use mathlib.Core.List.{Perm}
use talenttrust_backend.Prelude.{
  ◌≡◌, refl, ℕ, ◌+◌, ◌*◌, String, Bool, true, false, none, some, arith, get, put, get-put_self, ok,
  err, [], ◌∷◌, IsMap, keep_entries, get-keep_entries, not, length, values, keep_found, leb,
  if◌then◌else◌, Bool-cases, inl, inr, sort-perm, IsSorted, sort-IsSorted, keep_if,
}
use talenttrust_backend.SoftDelete.{JsDate, at, is_within_retention_window, day_ms, is_soft_deleted}
use talenttrust_backend.Disputes.{
  DisputeRecord, DisputeStore, dispute_not_found, dispute_already_deleted,
  soft_delete_retention_expired, get_dispute_by_id, soft_delete_dispute, restore_dispute,
  purge_expired_disputes, list_disputes, newest_first, is_expired, count_if,
}
use talenttrust_backend.Disputes.Transitions.{IsActive}

abbrev pub gone_since : JsDate → DisputeRecord → DisputeRecord
gone_since t d = record d { deleted_at = some t; updated_at = t }

abbrev pub back_at : JsDate → DisputeRecord → DisputeRecord
back_at u d = record d { deleted_at = none; updated_at = u }

-- Deleting an active dispute hides it from reads, and a second deletion is refused.
pub soft_delete_hides :
    (id : String) (t u : JsDate) (d : DisputeRecord) (m : DisputeStore)
    → IsActive id d m
    → let m1 = put id (gone_since t d) m in
      (soft_delete_dispute id t m ≡ ok (gone_since t d, m1))
      × (get_dispute_by_id id false m1 ≡ err dispute_not_found)
      × (get_dispute_by_id id true m1 ≡ ok (gone_since t d))
      × (soft_delete_dispute id u m1 ≡ err dispute_already_deleted)
unfolding soft_delete_dispute get_dispute_by_id
soft_delete_hides id t u d m (found, active) =
    (rw (found, active) refl, rw get-put_self refl, rw get-put_self refl, rw get-put_self refl)

-- A dispute deleted at `t` is restored by a call at `u` exactly up to the end of the retention
-- window, with all but its update time as before the deletion; later, the call throws the
-- retention error.
restore_after_delete :
    (days t u : ℕ) (id : String) (d : DisputeRecord) (m : DisputeStore)
    → IsActive id d m
    → let m1 = put id (gone_since (at t) d) m in
      restore_dispute days id (at u) m1 ≡ (
        if leb u (t + days * day_ms)
        then ok (back_at (at u) d, put id (back_at (at u) d) m1)
        else err soft_delete_retention_expired)
unfolding restore_dispute is_within_retention_window
restore_after_delete days t u id d m (found, active) =
    elim (Bool-cases (leb u (t + days * day_ms))) [
      | inl within ↦ rw (get-put_self, within) refl
      | inr past ↦ rw (get-put_self, past) refl
    ]

-- A purge removes exactly the disputes that are deleted and past the retention window; every
-- other key holds what it held.
get-purge :
    (days : ℕ) (now : JsDate) (k : String) (m : DisputeStore)
    → IsMap m
    → get k (purge_expired_disputes days now m).0
      ≡ keep_found (λ d. not (is_expired days now d)) (get k m)
unfolding purge_expired_disputes
get-purge days now k m v = get-keep_entries (λ d. not (is_expired days now d)) k m v

count-keep_entries :
    (p : DisputeRecord → Bool) (m : DisputeStore)
    → length (keep_entries (λ d. not (p d)) m) + count_if p (values m) ≡ length m
unfolding keep_entries
count-keep_entries p [] = refl
count-keep_entries p ((k, d) ∷ m) = ground (arith, count-keep_entries p m)

-- The number that a purge returns is by how many entries the store has shrunk.
pub purge-count :
    (days : ℕ) (now : JsDate) (m : DisputeStore)
    → let (m', purged) = purge_expired_disputes days now m in length m' + purged ≡ length m
unfolding purge_expired_disputes
purge-count days now m = count-keep_entries (is_expired days now) m

newest_total : (a b : DisputeRecord) → newest_first a b ≡ false → newest_first b a ≡ true
newest_total a b h = ground arith

newest_trans :
    (a b c : DisputeRecord)
    → newest_first a b ≡ true
    → newest_first b c ≡ true
    → newest_first a c ≡ true
newest_trans a b c h k = ground arith

-- The default listing is the stored disputes that are not deleted, each as often as it is stored,
-- newest first.
list_disputes_lem :
    (m : DisputeStore)
    → Perm (list_disputes false m) (keep_if (λ d. not (is_soft_deleted d.deleted_at)) (values m))
      × IsSorted newest_first (list_disputes false m)
unfolding list_disputes
list_disputes_lem m =
    (sort-perm newest_first _, sort-IsSorted newest_first newest_total newest_trans _)
