-- ===== src/Events.antt =====
-- contracts/{types,validation,dedupe,repository,processor}.ts: the ingestion of contract events into
-- the in-memory repository, a map from event key to event. `decimal` writes a number as text.
pub mod Indexer
pub mod Validation
pub mod Ingest
pub mod Replay
pub mod Batch
pub mod Checkpoint
mod Tests
use talenttrust_backend.Prelude.{
  ◌<>◌, ℕ, String, Bool, true, false, Option, none, some, List, [], ◌∷◌, Table, get, put, has,
  values, str_eq, if◌then◌else◌, Result, ok, err,
}
use talenttrust_backend.Envelope.{
  JsValue, string, number, natural, object, Fields, no_field, field, FieldError, iso,
  EnvelopeValidationOptions, validate_event_envelope_preamble,
}

pub data EventType : Type 0 where
  contract_created : EventType
  contract_funded : EventType
  milestone_released : EventType
  contract_completed : EventType
  contract_cancelled : EventType

pub record ContractEvent : Type 0 where
  pub contract_id : String
  pub event_id : String
  pub sequence : ℕ
  pub timestamp : String
  pub type : EventType
  pub payload : Fields

pub record PersistedContractEvent : Type 0 where
  pub event : ContractEvent
  pub event_key : String
  pub received_at : String

pub data IngestResult : Type 0 where
  accepted : String → IngestResult
  duplicate : String → IngestResult
  invalid : String → IngestResult

abbrev event_type : String → Option EventType
event_type s =
    if str_eq s "CONTRACT_CREATED"
    then some contract_created
    else if str_eq s "CONTRACT_FUNDED"
    then some contract_funded
    else if str_eq s "MILESTONE_RELEASED"
    then some milestone_released
    else if str_eq s "CONTRACT_COMPLETED"
    then some contract_completed
    else if str_eq s "CONTRACT_CANCELLED"
    then some contract_cancelled
    else none

abbrev pub type_of : JsValue → Option EventType
type_of (string s) = event_type s
type_of _ = none

-- The casts `as string`, `as number` and `as Record` of fields that the preamble has checked.
abbrev pub as_text : JsValue → String
as_text (string s) = s
as_text _ = ""

abbrev pub as_natural : JsValue → ℕ
as_natural (number (natural n)) = n
as_natural _ = 0

abbrev pub as_fields : JsValue → Fields
as_fields (object fs) = fs
as_fields _ = no_field

abbrev pub contract_preamble_options : EnvelopeValidationOptions
contract_preamble_options = record {
  root_error_message = "Payload must be a JSON object";
  message_suffix = "";
  timestamp_rule = iso;
  abort_early = true;
}

abbrev pub Store : Type 0
Store = Table PersistedContractEvent

unfoldable pub list_events : Store → List PersistedContractEvent
list_events st = values st

module _ (trim : String → String) (is_date is_numeric : String → Bool) (decimal : ℕ → String) where
  -- The event of the checked fields.
  abbrev pub event_of : Fields → EventType → ContractEvent
  event_of fs ty = record {
    contract_id = trim (as_text (field "contractId" fs));
    event_id = trim (as_text (field "eventId" fs));
    sequence = as_natural (field "sequence" fs);
    timestamp = as_text (field "timestamp" fs);
    type = ty;
    payload = as_fields (field "payload" fs);
  }

  abbrev pub typed_event : Fields → Option EventType → Result String ContractEvent
  typed_event fs none = err "type is invalid"
  typed_event fs (some ty) = ok (event_of fs ty)

  abbrev checked_event : Fields → List FieldError → Result String ContractEvent
  checked_event fs (e ∷ errors) = err e.message
  checked_event fs [] = typed_event fs (type_of (field "type" fs))

  unfoldable pub validate_contract_event_payload : JsValue → Result String ContractEvent
  unfolding validate_event_envelope_preamble
  validate_contract_event_payload v =
      checked_event (as_fields v)
        (validate_event_envelope_preamble trim is_date is_numeric v contract_preamble_options)

  unfoldable pub build_event_key : ContractEvent → String
  build_event_key e = e.contract_id <> (":" <> (e.event_id <> (":" <> decimal e.sequence)))

  abbrev persist : String → String → Bool → ContractEvent → Store → IngestResult × Store
  persist now key true e st = (duplicate key, st)
  persist now key false e st =
      (accepted key, put key (record { event = e; event_key = key; received_at = now }) st)

  abbrev ingest_event : String → Result String ContractEvent → Store → IngestResult × Store
  ingest_event now (err reason) st = (invalid reason, st)
  ingest_event now (ok e) st = let key = build_event_key e in persist now key (has key st) e st

  unfoldable pub ingest : String → JsValue → Store → IngestResult × Store
  unfolding build_event_key validate_contract_event_payload
  ingest now v st = ingest_event now (validate_contract_event_payload v) st
