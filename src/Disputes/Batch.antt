-- ===== src/Disputes/Batch.antt =====
-- services/disputes.service.ts: batches of updates.
use talenttrust_backend.Prelude.{
  put, ◌≡◌, refl, sym, ap, ap₂, ◌∙◌, ℕ, ◌+◌, String, Option, none, some, arith, get-put_self,
  Result, ok, err, Result-cases, inl, inr, List, [], ◌∷◌, ◌++◌, map, or_else,
}
use talenttrust_backend.SoftDelete.{at}
use talenttrust_backend.Disputes.{
  DisputeRecord, DisputeStatus, update_to, DisputeStore, DisputeError, BatchDisputeOperation,
  BatchOperationResult, payload_of, settle_item, process_item, process_from, process_batch,
  update_dispute, UpdateDisputePayload, Updated, apply_update,
}
use talenttrust_backend.Disputes.Transitions.{
  update_dispute_inv, update_dispute_active, Allowed, no_op,
}

-- The outcomes of a batch without their positions.
abbrev pub outcomes : List BatchOperationResult → List (Result DisputeError DisputeRecord)
outcomes rs = map (λ r. r.outcome) rs

-- The positions of the items from `i` on.
abbrev pub positions : ℕ → List BatchDisputeOperation → List ℕ
positions i [] = []
positions i (o ∷ os) = i ∷ positions (i + 1) os

process_item-index :
    (now i : ℕ) (o : BatchDisputeOperation) (m : DisputeStore)
    → (process_item now i o m).1.index ≡ i
unfolding process_item
process_item-index now i o m = elim (Result-cases (update_dispute now o.id (payload_of o) m)) [
  | inl (u, done) ↦ rw (done, settle_item) refl
  | inr (x, failed) ↦ rw (failed, settle_item) refl
]

process_from-positions :
    (clock : ℕ → ℕ) (i : ℕ) (os : List BatchDisputeOperation) (m : DisputeStore)
    → map (λ r. r.index) (process_from clock i os m).1 ≡ positions i os
unfolding process_from
process_from-positions clock i [] m = refl
process_from-positions clock i (o ∷ os) m =
    let m1 = (process_item (clock i) i o m).0 in
    ap₂ ◌∷◌ (process_item-index (clock i) i o m) (process_from-positions clock (i + 1) os m1)

-- A batch answers every item once, in order, under its position.
pub process_batch-positions :
    (clock : ℕ → ℕ) (os : List BatchDisputeOperation) (m : DisputeStore)
    → map (λ r. r.index) (process_batch clock os m).1 ≡ positions 0 os
unfolding process_batch
process_batch-positions clock os m = process_from-positions clock 0 os m

abbrev first {ℓ κ} : {A : Type ℓ} {B : Type κ} → A → B × List A → B × List A
first r p = (p.0, r ∷ p.1)

-- The updates of a batch made one after the other at the time `t`: each item sees the store that
-- the last one left, and an item that throws leaves it alone.
replay_item :
    Result DisputeError Updated → DisputeStore → DisputeStore × Result DisputeError DisputeRecord
replay_item (ok u) m = (u.store, ok u.dispute)
replay_item (err x) m = (m, err x)

pub replay :
    ℕ
    → List BatchDisputeOperation
    → DisputeStore
    → DisputeStore × List (Result DisputeError DisputeRecord)
replay t [] m = (m, [])
replay t (o ∷ os) m =
    let (m1, r) = replay_item (update_dispute t o.id (payload_of o) m) m in
    let (m2, rs) = replay t os m1 in (m2, r ∷ rs)

process_item-replay :
    (t i : ℕ) (o : BatchDisputeOperation) (m : DisputeStore)
    → let r = replay_item (update_dispute t o.id (payload_of o) m) m in
      process_item t i o m ≡ (r.0, record { index = i; outcome = r.1 })
unfolding process_item replay_item
process_item-replay t i o m = elim (Result-cases (update_dispute t o.id (payload_of o) m)) [
  | inl (u, done) ↦ rw (done, settle_item) refl
  | inr (x, failed) ↦ rw (failed, settle_item) refl
]

process_from-replay :
    (t i : ℕ) (os : List BatchDisputeOperation) (m : DisputeStore)
    → let b = process_from (λ _. t) i os m in (b.0, outcomes b.1) ≡ replay t os m
unfolding process_from replay
process_from-replay t i [] m = refl
process_from-replay t i (o ∷ os) m =
    let (m1, r) = replay_item (update_dispute t o.id (payload_of o) m) m in
    rw (process_item-replay t i o m) (ap (first r) (process_from-replay t (i + 1) os m1))

replay-append :
    (t : ℕ) (xs ys : List BatchDisputeOperation) (m : DisputeStore)
    → let (m1, rs) = replay t xs m in
      let (m2, ss) = replay t ys m1 in replay t (xs ++ ys) m ≡ (m2, rs ++ ss)
unfolding replay
replay-append t [] ys m = refl
replay-append t (o ∷ xs) ys m =
    let (m1, r) = replay_item (update_dispute t o.id (payload_of o) m) m in
    ap (first r) (replay-append t xs ys m1)

-- A batch whose items are all made at one time does what the same updates do one after the other:
-- the same store at the end, the same outcome for each item.
pub process_batch-replay :
    (t : ℕ) (os : List BatchDisputeOperation) (m : DisputeStore)
    → let b = process_batch (λ _. t) os m in (b.0, outcomes b.1) ≡ replay t os m
unfolding process_batch
process_batch-replay t os m = process_from-replay t 0 os m

process_batch-store :
    (t : ℕ) (os : List BatchDisputeOperation) (m : DisputeStore)
    → (process_batch (λ _. t) os m).0 ≡ (replay t os m).0
process_batch-store t os m = ap (λ p. p.0) (process_batch-replay t os m)

process_batch-outcomes :
    (t : ℕ) (os : List BatchDisputeOperation) (m : DisputeStore)
    → outcomes (process_batch (λ _. t) os m).1 ≡ (replay t os m).1
process_batch-outcomes t os m = ap (λ p. p.1) (process_batch-replay t os m)

-- A batch in two parts: the second part works on what the first one left.
process_batch-append :
    (t : ℕ) (xs ys : List BatchDisputeOperation) (m : DisputeStore)
    → let before = process_batch (λ _. t) xs m in
      let after = replay t ys before.0 in
      ((process_batch (λ _. t) (xs ++ ys) m).0 ≡ after.0)
      × (outcomes (process_batch (λ _. t) (xs ++ ys) m).1 ≡ outcomes before.1 ++ after.1)
process_batch-append t xs ys m =
    rw (process_batch-store t xs m, process_batch-outcomes t xs m)
      (
        process_batch-store t (xs ++ ys) m ∙ ap (λ p. p.0) (replay-append t xs ys m),
        process_batch-outcomes t (xs ++ ys) m ∙ ap (λ p. p.1) (replay-append t xs ys m),
      )

replay-skip :
    (t : ℕ) (o : BatchDisputeOperation) (ys : List BatchDisputeOperation) (m : DisputeStore)
    {x : DisputeError}
    → update_dispute t o.id (payload_of o) m ≡ err x
    → let (m2, ss) = replay t ys m in replay t (o ∷ ys) m ≡ (m2, err x ∷ ss)
unfolding replay replay_item
replay-skip t o ys m e = rw (e, replay_item) refl

-- An item of a batch that throws does not affect the others: after any items `xs`, the store at
-- the end and the outcomes of all other items are those of the batch without it, and its own
-- outcome is its error.
process_batch-isolation :
    (t : ℕ) (xs ys : List BatchDisputeOperation) (o : BatchDisputeOperation) (m : DisputeStore)
    {x : DisputeError}
    → update_dispute t o.id (payload_of o) (process_batch (λ _. t) xs m).0 ≡ err x
    → let whole = process_batch (λ _. t) (xs ++ o ∷ ys) m in
      let without = process_batch (λ _. t) (xs ++ ys) m in
      let before = process_batch (λ _. t) xs m in
      let after = process_batch (λ _. t) ys before.0 in
      (whole.0 ≡ without.0)
      × (outcomes without.1 ≡ outcomes before.1 ++ outcomes after.1)
      × (outcomes whole.1 ≡ outcomes before.1 ++ err x ∷ outcomes after.1)
process_batch-isolation t xs ys o m e =
    let mid = (process_batch (λ _. t) xs m).0 in
    let skipped = replay-skip t o ys mid e in
    let (whole_store, whole_outcomes) = process_batch-append t xs (o ∷ ys) m in
    let (store, rest) = process_batch-append t xs ys m in
    (
      whole_store ∙ ap (λ p. p.0) skipped ∙ sym store,
      rw (process_batch-outcomes t ys mid) rest,
      rw (process_batch-outcomes t ys mid)
          (whole_outcomes ∙ ap (λ p. outcomes (process_batch (λ _. t) xs m).1 ++ p.1) skipped),
    )

repeat-Allowed :
    (p : Option DisputeStatus) (s : DisputeStatus) → Allowed (or_else p s) (or_else p (or_else p s))
repeat-Allowed none s = no_op
repeat-Allowed (some t) s = no_op

apply_update_twice :
    (t u : ℕ) (p : UpdateDisputePayload) (d : DisputeRecord)
    → apply_update u p (apply_update t p d) ≡ record (apply_update t p d) { updated_at = at u }
apply_update_twice t u p d = ground arith

update_again :
    (t u : ℕ) (id : String) (p : UpdateDisputePayload) (m : DisputeStore) (d : DisputeRecord)
    → d.deleted_at ≡ none
    → let d1 = apply_update t p d in
      (s : Updated) × (update_dispute u id p (put id d1 m) ≡ ok s)
      × (s.dispute ≡ record d1 { updated_at = at u })
update_again t u id p m d active =
    let d1 = apply_update t p d in
    let m1 = put id d1 m in
    elim (update_dispute_active u id p m1 d1 (get-put_self id d1 m, active)) [
      | inl (_, e) ↦
          (update_to u id (apply_update u p d1) d1.status m1, e, apply_update_twice t u p d)
      | inr (n, e) ↦ absurd (n (repeat-Allowed p.status d.status))
    ]

-- Repeating an update that succeeded succeeds again and changes nothing but the update time.
update_dispute_idempotent :
    (t u : ℕ) (id : String) (p : UpdateDisputePayload) (m : DisputeStore) {r : Updated}
    → update_dispute t id p m ≡ ok r
    → (s : Updated) × (update_dispute u id p r.store ≡ ok s)
      × (s.dispute ≡ record (r.dispute) { updated_at = at u })
update_dispute_idempotent t u id p m {r} h =
    let (d, active, _, written) = update_dispute_inv t id p m h in
    let (s, done, same) = update_again t u id p m d active.1 in
    (s, rw written done, rw written same)
