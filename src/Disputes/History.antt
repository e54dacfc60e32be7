-- ===== src/Disputes/History.antt =====
-- services/disputes.service.ts: what becomes of one dispute over any sequence of operations.
use talenttrust_backend.Prelude.{
  ◌≡◌, refl, sym, ◌∙◌, inl, inr, ℕ, ◌≤◌, String, false, none, some, arith, get, put, get-put,
  get-put_cases, Result-cases, Result, ok, err, Bool-cases, Option-cases, List, [], ◌∷◌, All,
  str_eq, IsMap, put-IsMap, keep_entries-IsMap, get-keep_entries, keep_found-some, subst, not,
}
use talenttrust_backend.SoftDelete.{JsDate, is_within_retention_window}
use talenttrust_backend.Disputes.{
  DisputeStatus, opened, under_review, resolved, escalated, DisputeRecord, DisputeStore,
  DisputeError, CreateDisputeInput, UpdateDisputePayload, Updated, create_dispute,
  soft_delete_dispute, restore_dispute, purge_expired_disputes, update_dispute, apply_update,
  is_expired,
}
use talenttrust_backend.Disputes.Transitions.{
  Allowed, no_op, review, settle, escalate, settle_reviewed, escalate_reviewed, settle_escalated,
  update_dispute_inv,
}

-- The calls of the service that change its store, with the time and the fresh id that they use.
pub data Operation : Type 0 where
  created : ℕ → String → CreateDisputeInput → Operation
  deleted restored : String → JsDate → Operation
  purged : JsDate → Operation
  updated : ℕ → String → UpdateDisputePayload → Operation

abbrev store_of : Result DisputeError (DisputeRecord × DisputeStore) → DisputeStore → DisputeStore
store_of (ok r) m = r.1
store_of (err e) m = m

abbrev pub updated_store : Result DisputeError Updated → DisputeStore → DisputeStore
updated_store (ok u) m = u.store
updated_store (err e) m = m

-- The store after one call, with a retention window of `days`.
unfoldable pub step : ℕ → Operation → DisputeStore → DisputeStore
unfolding create_dispute soft_delete_dispute restore_dispute purge_expired_disputes
step days (created now uuid input) m = (create_dispute now uuid input m).1
step days (deleted id now) m = store_of (soft_delete_dispute id now m) m
step days (restored id now) m = store_of (restore_dispute days id now m) m
step days (purged now) m = (purge_expired_disputes days now m).0
step days (updated now id p) m = updated_store (update_dispute now id p m) m

unfoldable pub run : ℕ → List Operation → DisputeStore → DisputeStore
unfolding step
run days [] m = m
run days (o ∷ os) m = run days os (step days o m)

-- How far a status is along the state machine.
abbrev pub rank : DisputeStatus → ℕ
rank opened = 0
rank under_review = 1
rank escalated = 2
rank resolved = 3

rank-Allowed : {s t : DisputeStatus} → Allowed s t → rank s ≤ rank t
rank-Allowed (no_op {s}) = omega arith
rank-Allowed review = omega arith
rank-Allowed settle = omega arith
rank-Allowed escalate = omega arith
rank-Allowed settle_reviewed = omega arith
rank-Allowed escalate_reviewed = omega arith
rank-Allowed settle_escalated = omega arith

-- The same dispute, its status as far along or further.
pub record Follows (d e : DisputeRecord) : Type 0 where
  pub further : rank d.status ≤ rank e.status
  pub same_contract : e.contract_id ≡ d.contract_id
  pub same_creation : e.created_at ≡ d.created_at

Follows-trans : {c d e : DisputeRecord} → Follows c d → Follows d e → Follows c e
Follows-trans f g = record {
  further = omega arith;
  same_contract = g.same_contract ∙ f.same_contract;
  same_creation = g.same_creation ∙ f.same_creation;
}

-- The operation does not create a dispute under the key `k`.
abbrev pub Spares : String → Operation → Type 0
Spares k (created now uuid input) = str_eq uuid k ≡ false
Spares k _ = Unit

-- Where the entry of `k` came from.
abbrev Came : String → DisputeStore → DisputeRecord → Type 0
Came k m e = (d : DisputeRecord) × (get k m ≡ some d) × Follows d e

Came-unchanged : (k : String) (m : DisputeStore) (e : DisputeRecord) → get k m ≡ some e → Came k m e
Came-unchanged k m e h = (e, h, ground arith)

-- A write over a stored dispute.
Came-put :
    (k id : String) (m : DisputeStore) (d d1 e : DisputeRecord)
    → get id m ≡ some d
    → Follows d d1
    → get k (put id d1 m) ≡ some e
    → Came k m e
Came-put k id m d d1 e found f h = elim (get-put_cases id k d1 m h) [
  | inl (same, written) ↦
      (d, subst (λ i. get i m ≡ some d) same found, subst (Follows d) (sym written) f)
  | inr kept ↦ Came-unchanged k m e kept
]

Came-update :
    (k : String) (days now : ℕ) (id : String) (p : UpdateDisputePayload) (m : DisputeStore)
    (e : DisputeRecord)
    → get k (updated_store (update_dispute now id p m) m) ≡ some e
    → Came k m e
Came-update k days now id p m e h = elim (Result-cases (update_dispute now id p m)) [
  | inl (u, done) ↦
      let (d, active, a, written) = update_dispute_inv now id p m done in
      let f : Follows d (apply_update now p d) = record {
        further = rank-Allowed a;
        same_contract = refl;
        same_creation = refl;
      } in
      Came-put k id m d (apply_update now p d) e active.0 f (rw (done, written) at h)
  | inr (x, failed) ↦ Came-unchanged k m e (rw failed at h)
]

Came-deleted :
    (k id : String) (now : JsDate) (m : DisputeStore) (e : DisputeRecord)
    → get k (store_of (soft_delete_dispute id now m) m) ≡ some e
    → Came k m e
unfolding soft_delete_dispute
Came-deleted k id now m e h = elim (Option-cases (get id m)) [
  | inl missing ↦ Came-unchanged k m e (rw missing at h)
  | inr (d, found) ↦ elim (Option-cases d.deleted_at) [
    | inl active ↦
        Came-put k id m d (record d { deleted_at = some now; updated_at = now }) e found
          (ground arith) (rw (found, active) at h)
    | inr (t, gone) ↦ Came-unchanged k m e (rw (found, gone) at h)
  ]
]

Came-restored :
    (days : ℕ) (k id : String) (now : JsDate) (m : DisputeStore) (e : DisputeRecord)
    → get k (store_of (restore_dispute days id now m) m) ≡ some e
    → Came k m e
unfolding restore_dispute
Came-restored days k id now m e h = elim (Option-cases (get id m)) [
  | inl missing ↦ Came-unchanged k m e (rw missing at h)
  | inr (d, found) ↦ elim (Option-cases d.deleted_at) [
    | inl active ↦ Came-unchanged k m e (rw (found, active) at h)
    | inr (t, gone) ↦ elim (Bool-cases (is_within_retention_window t days now)) [
      | inl within ↦
          Came-put k id m d (record d { deleted_at = none; updated_at = now }) e found
            (ground arith) (rw (found, gone, within) at h)
      | inr past ↦ Came-unchanged k m e (rw (found, gone, past) at h)
    ]
  ]
]

Came-created :
    (k : String) (now : ℕ) (uuid : String) (input : CreateDisputeInput) (m : DisputeStore)
    (e : DisputeRecord)
    → str_eq uuid k ≡ false
    → get k (create_dispute now uuid input m).1 ≡ some e
    → Came k m e
unfolding create_dispute
Came-created k now uuid input m e s h = Came-unchanged k m e (rw (get-put, s) at h)

Came-step :
    (days : ℕ) (o : Operation) (k : String) (m : DisputeStore) (e : DisputeRecord)
    → IsMap m
    → Spares k o
    → get k (step days o m) ≡ some e
    → Came k m e
unfolding step
Came-step days (created now uuid input) k m e v s h = Came-created k now uuid input m e s h
Came-step days (deleted id now) k m e v s h = Came-deleted k id now m e h
Came-step days (restored id now) k m e v s h = Came-restored days k id now m e h
Came-step days (purged now) k m e v s h =
    let (kept, _) =
      keep_found-some (λ d. not (is_expired days now d)) (get k m)
        (rw (get-keep_entries (λ d. not (is_expired days now d)) k m v) at h) in
    Came-unchanged k m e kept
Came-step days (updated now id p) k m e v s h = Came-update k days now id p m e h

deleted-IsMap :
    (id : String) (now : JsDate) (m : DisputeStore)
    → IsMap m
    → IsMap (store_of (soft_delete_dispute id now m) m)
unfolding soft_delete_dispute
deleted-IsMap id now m v = elim (Option-cases (get id m)) [
  | inl missing ↦ rw missing v
  | inr (d, found) ↦ elim (Option-cases d.deleted_at) [
    | inl active ↦ rw (found, active) (put-IsMap id _ m v)
    | inr (t, gone) ↦ rw (found, gone) v
  ]
]

restored-IsMap :
    (days : ℕ) (id : String) (now : JsDate) (m : DisputeStore)
    → IsMap m
    → IsMap (store_of (restore_dispute days id now m) m)
unfolding restore_dispute
restored-IsMap days id now m v = elim (Option-cases (get id m)) [
  | inl missing ↦ rw missing v
  | inr (d, found) ↦ elim (Option-cases d.deleted_at) [
    | inl active ↦ rw (found, active) v
    | inr (t, gone) ↦ elim (Bool-cases (is_within_retention_window t days now)) [
      | inl within ↦ rw (found, gone, within) (put-IsMap id _ m v)
      | inr past ↦ rw (found, gone, past) v
    ]
  ]
]

updated-IsMap :
    (now : ℕ) (id : String) (p : UpdateDisputePayload) (m : DisputeStore)
    → IsMap m
    → IsMap (updated_store (update_dispute now id p m) m)
updated-IsMap now id p m v = elim (Result-cases (update_dispute now id p m)) [
  | inl (u, done) ↦
      let (d, _, _, written) = update_dispute_inv now id p m done in
      rw (done, written) (put-IsMap id _ m v)
  | inr (x, failed) ↦ rw failed v
]

-- Every operation of the service keeps the keys of its store apart.
pub step-IsMap : (days : ℕ) (o : Operation) (m : DisputeStore) → IsMap m → IsMap (step days o m)
unfolding step
step-IsMap days (created now uuid input) m v = put-IsMap uuid _ m v
step-IsMap days (deleted id now) m v = deleted-IsMap id now m v
step-IsMap days (restored id now) m v = restored-IsMap days id now m v
step-IsMap days (purged now) m v = keep_entries-IsMap _ m v
step-IsMap days (updated now id p) m v = updated-IsMap now id p m v

-- Over any sequence of creations, deletions, restorations, purges and updates, none of which
-- creates a dispute under the key again, a dispute that is stored at the end was stored at the
-- start, with the same contract and creation time, and its status has not moved back along the
-- state machine: a resolved dispute stays resolved.
pub run-Follows :
    (days : ℕ) (os : List Operation) (k : String) (m : DisputeStore) (e : DisputeRecord)
    → IsMap m
    → All (Spares k) os
    → get k (run days os m) ≡ some e
    → (d : DisputeRecord) × (get k m ≡ some d) × Follows d e
unfolding run
run-Follows days [] k m e v s h = Came-unchanged k m e h
run-Follows days (o ∷ os) k m e v (s, ss) h =
    let (d1, found1, f1) = run-Follows days os k (step days o m) e (step-IsMap days o m v) ss h in
    let (d, found, f) = Came-step days o k m d1 v s found1 in (d, found, Follows-trans f f1)
