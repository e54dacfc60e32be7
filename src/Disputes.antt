-- ===== src/Disputes.antt =====
-- services/disputes.service.ts with modules/disputes/dto/dispute.dto.ts: the store of disputes and
-- its operations. `new Date()` and `randomUUID()` are arguments. `updateDispute` writes the store
-- before its only `await`, so each operation is one step; a thrown error leaves the store alone.
pub mod Transitions
pub mod History
pub mod Deletion
pub mod Batch
mod Tests
use talenttrust_backend.Prelude.{
  ℕ, suc, ◌+◌, String, Bool, true, false, not, ◌&&◌, ◌||◌, Option, none, some, List, [], ◌∷◌, map,
  leb, if◌then◌else◌, or_else, Table, get, put, keep_entries, values, length, Result, ok, err,
  ◌>>=◌, ◌>>◌, guard, sort,
}
use talenttrust_backend.SoftDelete.{
  JsDate, at, is_soft_deleted, is_within_retention_window, is_past_retention_window,
  filter_not_deleted,
}
use talenttrust_backend.Escrow.{KeyEscrowEvent, transition_event}

pub data DisputeStatus : Type 0 where
  opened under_review resolved escalated : DisputeStatus

-- The text of a status.
abbrev pub status_text : DisputeStatus → String
status_text opened = "open"
status_text under_review = "under_review"
status_text resolved = "resolved"
status_text escalated = "escalated"

pub record DisputeRecord : Type 0 where
  pub id : String
  pub contract_id : String
  pub status : DisputeStatus
  pub resolution : Option String
  pub reason : Option String
  pub raised_by : Option String
  pub created_at : ℕ
  pub updated_at : JsDate
  pub deleted_at : Option JsDate

abbrev pub DisputeStore : Type 0
DisputeStore = Table DisputeRecord

pub data DisputeError : Type 0 where
  dispute_not_found dispute_already_deleted dispute_not_deleted : DisputeError
  soft_delete_retention_expired invalid_state_transition : DisputeError

abbrev pub status_code : DisputeError → ℕ
status_code dispute_not_found = 404
status_code dispute_already_deleted = 409
status_code dispute_not_deleted = 409
status_code soft_delete_retention_expired = 410
status_code invalid_state_transition = 400

-- `VALID_TRANSITIONS[from].has(to)`
abbrev pub is_valid_transition : DisputeStatus → DisputeStatus → Bool
is_valid_transition opened under_review = true
is_valid_transition opened resolved = true
is_valid_transition opened escalated = true
is_valid_transition under_review resolved = true
is_valid_transition under_review escalated = true
is_valid_transition escalated resolved = true
is_valid_transition _ _ = false

abbrev pub same_status : DisputeStatus → DisputeStatus → Bool
same_status opened opened = true
same_status under_review under_review = true
same_status resolved resolved = true
same_status escalated escalated = true
same_status _ _ = false

unfoldable pub validate_transition : DisputeStatus → DisputeStatus → Result DisputeError (Unit {0})
validate_transition from to =
    guard (same_status from to || is_valid_transition from to) invalid_state_transition

abbrev found_or_404 {ℓ} : {A : Type ℓ} → Option A → Result DisputeError A
found_or_404 none = err dispute_not_found
found_or_404 (some d) = ok d

unfoldable pub get_dispute_by_id : String → Bool → DisputeStore → Result DisputeError DisputeRecord
get_dispute_by_id id include_deleted store = do
  dispute ← found_or_404 (get id store)
  guard (include_deleted || not (is_soft_deleted dispute.deleted_at)) dispute_not_found
  ok dispute

-- `b.createdAt - a.createdAt`, newest first.
abbrev pub newest_first : DisputeRecord → DisputeRecord → Bool
newest_first a b = leb b.created_at a.created_at

unfoldable pub list_disputes : Bool → DisputeStore → List DisputeRecord
list_disputes include_deleted store =
    let all = values store in
    let filtered = if include_deleted then all else filter_not_deleted (λ d. d.deleted_at) all in
    sort newest_first filtered

pub record CreateDisputeInput : Type 0 where
  pub contract_id : String
  pub reason : Option String
  pub raised_by : Option String
  pub status : Option DisputeStatus

abbrev pub new_dispute : ℕ → String → CreateDisputeInput → DisputeRecord
new_dispute now uuid input = record {
  id = uuid;
  contract_id = input.contract_id;
  status = or_else input.status opened;
  resolution = none;
  reason = input.reason;
  raised_by = input.raised_by;
  created_at = now;
  updated_at = at now;
  deleted_at = none;
}

unfoldable pub create_dispute :
    ℕ → String → CreateDisputeInput → DisputeStore → DisputeRecord × DisputeStore
create_dispute now uuid input store = let d = new_dispute now uuid input in (d, put uuid d store)

unfoldable pub soft_delete_dispute :
    String → JsDate → DisputeStore → Result DisputeError (DisputeRecord × DisputeStore)
soft_delete_dispute id now store = do
  dispute ← found_or_404 (get id store)
  guard (not (is_soft_deleted dispute.deleted_at)) dispute_already_deleted
  let updated = record dispute { deleted_at = some now; updated_at = now }
  ok (updated, put id updated store)

abbrev deleted_or_409 : Option JsDate → Result DisputeError JsDate
deleted_or_409 none = err dispute_not_deleted
deleted_or_409 (some t) = ok t

unfoldable pub restore_dispute :
    ℕ → String → JsDate → DisputeStore → Result DisputeError (DisputeRecord × DisputeStore)
restore_dispute retention_days id now store = do
  dispute ← found_or_404 (get id store)
  deleted_at ← deleted_or_409 dispute.deleted_at
  guard (is_within_retention_window deleted_at retention_days now) soft_delete_retention_expired
  let updated = record dispute { deleted_at = none; updated_at = now }
  ok (updated, put id updated store)

-- The test of the purge loop.
abbrev pub is_expired : ℕ → JsDate → DisputeRecord → Bool
is_expired retention_days now d = elim d.deleted_at [
  | none ↦ false
  | some t ↦ is_past_retention_window t retention_days now
]

abbrev pub count_if {ℓ} : {A : Type ℓ} → (A → Bool) → List A → ℕ
count_if p [] = 0
count_if p (x ∷ xs) = let n = count_if p xs in if p x then suc n else n

unfoldable pub purge_expired_disputes : ℕ → JsDate → DisputeStore → DisputeStore × ℕ
purge_expired_disputes retention_days now store = (
  keep_entries (λ d. not (is_expired retention_days now d)) store,
  count_if (is_expired retention_days now) (values store),
)

pub record UpdateDisputePayload : Type 0 where
  pub status : Option DisputeStatus
  pub resolution : Option String

-- What `updateDispute` returns and does: the record, the store, and the event that it sends out.
pub record Updated : Type 0 where
  pub dispute : DisputeRecord
  pub store : DisputeStore
  pub notified : Option KeyEscrowEvent

unfoldable pub validate_change :
    DisputeStatus → Option DisputeStatus → Result DisputeError (Unit {0})
unfolding validate_transition
validate_change from none = ok tt
validate_change from (some to) = validate_transition from to

abbrev pub first_some {ℓ} : {A : Type ℓ} → Option A → Option A → Option A
first_some none b = b
first_some (some a) b = some a

abbrev pub apply_update : ℕ → UpdateDisputePayload → DisputeRecord → DisputeRecord
apply_update now updates d = record d {
  status = or_else updates.status d.status;
  resolution = first_some updates.resolution d.resolution;
  updated_at = at now;
}

-- The write, and the event of a changed status.
abbrev pub update_to : ℕ → String → DisputeRecord → DisputeStatus → DisputeStore → Updated
update_to now id updated old_status store = record {
  dispute = updated;
  store = put id updated store;
  notified =
      if same_status old_status updated.status
      then none
      else transition_event (status_text old_status) (status_text updated.status);
}

unfoldable pub update_dispute :
    ℕ → String → UpdateDisputePayload → DisputeStore → Result DisputeError Updated
unfolding get_dispute_by_id validate_change
update_dispute now id updates store = do
  dispute ← get_dispute_by_id id false store
  validate_change dispute.status updates.status
  ok (update_to now id (apply_update now updates dispute) dispute.status store)

pub record BatchDisputeOperation : Type 0 where
  pub id : String
  pub status : Option DisputeStatus
  pub resolution : Option String

pub record BatchOperationResult : Type 0 where
  pub index : ℕ
  pub outcome : Result DisputeError DisputeRecord

abbrev payload_of : BatchDisputeOperation → UpdateDisputePayload
payload_of o = record { status = o.status; resolution = o.resolution }

-- One round of the batch loop: the store afterwards, and the item's result.
abbrev settle_item :
    ℕ → DisputeStore → Result DisputeError Updated → DisputeStore × BatchOperationResult
settle_item index store (ok u) = (u.store, record { index = index; outcome = ok u.dispute })
settle_item index store (err e) = (store, record { index = index; outcome = err e })

unfoldable pub process_item :
    ℕ → ℕ → BatchDisputeOperation → DisputeStore → DisputeStore × BatchOperationResult
unfolding update_dispute
process_item now index o store =
    settle_item index store (update_dispute now o.id (payload_of o) store)

-- The loop of `processBatch` from `index` on; `clock` gives the time of each round.
unfoldable pub process_from :
    (ℕ → ℕ)
    → ℕ
    → List BatchDisputeOperation
    → DisputeStore
    → DisputeStore × List BatchOperationResult
unfolding process_item
process_from clock index [] store = (store, [])
process_from clock index (o ∷ os) store =
    let (store', result) = process_item (clock index) index o store in
    let (store'', results) = process_from clock (index + 1) os store' in (store'', result ∷ results)

unfoldable pub process_batch :
    (ℕ → ℕ) → List BatchDisputeOperation → DisputeStore → DisputeStore × List BatchOperationResult
unfolding process_from
process_batch clock operations store = process_from clock 0 operations store
