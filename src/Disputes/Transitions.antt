-- ===== src/Disputes/Transitions.antt =====
-- services/disputes.service.ts: which status changes an update makes, and what it notifies of.
use talenttrust_backend.Prelude.{
  ◌≡◌, refl, ◌↔◌, ◌⊎◌, inl, inr, ℕ, String, false, Option, none, some, arith, get, ok, err, or_else,
}
use talenttrust_backend.Disputes.{
  DisputeStatus, opened, under_review, resolved, escalated, DisputeRecord, DisputeStore,
  dispute_not_found, invalid_state_transition, validate_transition, status_text,
  UpdateDisputePayload, Updated, update_dispute, update_to, apply_update, get_dispute_by_id,
  validate_change,
}
use talenttrust_backend.Escrow.{transition_event}

-- The documented state machine: a status may stay, and otherwise moves along one of these.
pub data Allowed : DisputeStatus → DisputeStatus → Type 0 where
  no_op : {s : DisputeStatus} → Allowed s s
  review : Allowed opened under_review
  settle : Allowed opened resolved
  escalate : Allowed opened escalated
  settle_reviewed : Allowed under_review resolved
  escalate_reviewed : Allowed under_review escalated
  settle_escalated : Allowed escalated resolved

ruleset allowed =
    (no_op, review, settle, escalate, settle_reviewed, escalate_reviewed, settle_escalated)

validate_sound : (s t : DisputeStatus) → validate_transition s t ≡ ok tt → Allowed s t
unfolding validate_transition
validate_sound s t h = grind (arith, allowed)

validate_complete : {s t : DisputeStatus} → Allowed s t → validate_transition s t ≡ ok tt
unfolding validate_transition
validate_complete (no_op {s}) = ground arith
validate_complete review = refl
validate_complete settle = refl
validate_complete escalate = refl
validate_complete settle_reviewed = refl
validate_complete escalate_reviewed = refl
validate_complete settle_escalated = refl

validate_cases :
    (s t : DisputeStatus)
    → (validate_transition s t ≡ ok tt) ⊎ (validate_transition s t ≡ err invalid_state_transition)
unfolding validate_transition
validate_cases s t = ground arith

-- The check of a status change passes exactly for the changes of the documented state machine, and
-- otherwise throws the invalid-transition error.
pub validate_transition_iff :
    (s t : DisputeStatus)
    → ((validate_transition s t ≡ ok tt) ↔ Allowed s t)
      × ((validate_transition s t ≡ ok tt)
          ⊎ (validate_transition s t ≡ err invalid_state_transition))
validate_transition_iff s t = ((validate_sound s t, validate_complete), validate_cases s t)

-- No change between two dispute statuses is one that the escrow hooks know.
pub no_transition_event :
    (s t : DisputeStatus) → transition_event (status_text s) (status_text t) ≡ none
unfolding transition_event
no_transition_event opened opened = refl
no_transition_event opened _ = refl
no_transition_event under_review opened = refl
no_transition_event under_review _ = refl
no_transition_event resolved opened = refl
no_transition_event resolved _ = refl
no_transition_event escalated opened = refl
no_transition_event escalated _ = refl

-- An active dispute that the store holds.
abbrev pub IsActive : String → DisputeRecord → DisputeStore → Type 0
IsActive id d m = (get id m ≡ some d) × (d.deleted_at ≡ none)

validate_change_cases :
    (s : DisputeStatus) (p : Option DisputeStatus)
    → ((validate_change s p ≡ ok tt) × Allowed s (or_else p s))
      ⊎ ((validate_change s p ≡ err invalid_state_transition) × (¬ Allowed s (or_else p s)))
unfolding validate_change
validate_change_cases s none = inl (refl, no_op)
validate_change_cases s (some t) = elim (validate_cases s t) [
  | inl e ↦ inl (e, validate_sound s t e)
  | inr e ↦ inr (e, λ a. cc (validate_complete a))
]

-- A read that hides deleted disputes either finds an active one or throws not-found.
pub get-IsActive_cases :
    (id : String) (m : DisputeStore)
    → (get_dispute_by_id id false m ≡ err dispute_not_found)
      ⊎ ((d : DisputeRecord) × IsActive id d m × (get_dispute_by_id id false m ≡ ok d))
unfolding get_dispute_by_id
get-IsActive_cases id m = ground arith

get-IsActive :
    (id : String) (d : DisputeRecord) (m : DisputeStore)
    → IsActive id d m
    → get_dispute_by_id id false m ≡ ok d
unfolding get_dispute_by_id
get-IsActive id d m h = ground arith

-- An update of a stored, active dispute: either its status may change as asked, and the update
-- writes exactly that record with the new status, the new resolution if one is given and the time;
-- or it may not, and the update throws the invalid-transition error.
pub update_dispute_active :
    (now : ℕ) (id : String) (p : UpdateDisputePayload) (m : DisputeStore) (d : DisputeRecord)
    → IsActive id d m
    → (Allowed d.status (or_else p.status d.status)
        × (update_dispute now id p m ≡ ok (update_to now id (apply_update now p d) d.status m)))
      ⊎ ((¬ Allowed d.status (or_else p.status d.status))
          × (update_dispute now id p m ≡ err invalid_state_transition))
unfolding update_dispute
update_dispute_active now id p m d h = elim (validate_change_cases d.status p.status) [
  | inl (e, a) ↦ inl (a, rw (get-IsActive id d m h, e) refl)
  | inr (e, n) ↦ inr (n, rw (get-IsActive id d m h, e) refl)
]

-- An update of a dispute that is missing or deleted throws not-found.
pub update_dispute_missing :
    (now : ℕ) (id : String) (p : UpdateDisputePayload) (m : DisputeStore)
    → get_dispute_by_id id false m ≡ err dispute_not_found
    → update_dispute now id p m ≡ err dispute_not_found
unfolding update_dispute
update_dispute_missing now id p m e = rw e refl

-- What a successful update tells: the dispute was active, the change allowed, and the write.
pub update_dispute_inv :
    (now : ℕ) (id : String) (p : UpdateDisputePayload) (m : DisputeStore) {u : Updated}
    → update_dispute now id p m ≡ ok u
    → (d : DisputeRecord) × IsActive id d m
      × Allowed d.status (or_else p.status d.status)
      × (u ≡ update_to now id (apply_update now p d) d.status m)
update_dispute_inv now id p m h = elim (get-IsActive_cases id m) [
  | inl e ↦ cc (update_dispute_missing now id p m e)
  | inr (d, active, _) ↦ elim (update_dispute_active now id p m d active) [
    | inl (a, e) ↦ (d, active, a, cc)
    | inr (n, e) ↦ cc
  ]
]

-- An update that succeeds sends no notification, whatever status it sets: the escrow hooks know
-- the statuses of contracts only.
pub update_dispute_silent :
    (now : ℕ) (id : String) (p : UpdateDisputePayload) (m : DisputeStore) {u : Updated}
    → update_dispute now id p m ≡ ok u
    → u.notified ≡ none
update_dispute_silent now id p m h =
    let (d, _, _, e) = update_dispute_inv now id p m h in
    rw e (ground (arith, no_transition_event d.status (or_else p.status d.status)))
