-- ===== src/Events/Tests.antt =====
-- The theorems on contract events at a batch with a duplicate, an event out of order and a payload
-- that is no object. Ids need no trimming, every text is a date, and numbers are written in unary.
use talenttrust_backend.Prelude.{
  ℕ, zero, suc, ◌+◌, ◌^◌, some, ◌<◌, ◌<>◌, String, Bool, true, List, [], ◌∷◌, get, put, sort, ◌≡◌,
  refl, ◌↔◌, ok, arith, All,
}
use talenttrust_backend.Envelope.{
  JsValue, null, string, number, natural, object, Fields, no_field, set, field,
  validate_event_envelope_preamble,
}
use talenttrust_backend.Events.{
  ContractEvent, PersistedContractEvent, contract_funded, EventType, event_of,
  validate_contract_event_payload, build_event_key, ingest, duplicate, Store,
}
use talenttrust_backend.Events.Indexer.{
  Indexer, IndexerBatchResult, index_batch, index_events, sort_events_by_sequence, extract_sequence,
}
use talenttrust_backend.Events.Validation.{IsEvent, validate_contract_event_payload_lem}
use talenttrust_backend.Events.Ingest.{validated, IsStore, colon_ids_collide}
use talenttrust_backend.Events.Replay.{index_batch_again, Kept, sequence_of, batch}
use talenttrust_backend.Events.Checkpoint.{
  resume_after_batch, resumed, valid_events, IsExact, valid-sequence,
}

abbrev same : String → String
same s = s

abbrev always : String → Bool
always s = true

abbrev unary : ℕ → String
unary zero = ""
unary (suc n) = "i" <> unary n

abbrev clock : ℕ → String
clock n = "now"

abbrev fields : String → String → ℕ → Fields
fields contract event n = set "contractId" (string contract) (
    set "eventId" (string event) (
      set "sequence" (number (natural n)) (
        set "timestamp" (string "2024-01-01")
          (set "payload" (object no_field) (set "type" (string "CONTRACT_FUNDED") no_field)))))

abbrev payload : String → String → ℕ → JsValue
payload contract event n = object (fields contract event n)

abbrev events : List JsValue
events = payload "c1" "e2" 2 ∷ null ∷ payload "c1" "e1" 1 ∷ payload "c1" "e2" 2 ∷ []

abbrev start : Indexer
start = record { events = []; cursors = [] }

abbrev run : List JsValue → Indexer → IndexerBatchResult × Indexer
run vs s = batch same always always unary clock 0 "chain" vs s

abbrev after : Indexer
after = (run events start).1

counts : (run events start).0.processed_count ≡ 2
unfolding index_batch sort_events_by_sequence sort extract_sequence index_events ingest
    validate_contract_event_payload validate_event_envelope_preamble field build_event_key get put
counts = refl

abbrev event : String → String → ℕ → ContractEvent
event contract id n = event_of same always always unary (fields contract id n) contract_funded

validate_contract_event_payload_lem_example :
    (validate_contract_event_payload same always always unary (payload "c1" "e1" 1)
      ≡ ok (event "c1" "e1" 1))
    ↔ ((fs : Fields) × (ty : EventType) × (payload "c1" "e1" 1 ≡ object fs)
        × IsEvent same always always unary fs ty
        × (event "c1" "e1" 1 ≡ event_of same always always unary fs ty))
validate_contract_event_payload_lem_example =
    validate_contract_event_payload_lem same always always unary (payload "c1" "e1" 1)
      (event "c1" "e1" 1)

abbrev stored : PersistedContractEvent
stored = record { event = event "a" "b:c" 1; event_key = "a:b:c:i"; received_at = "then" }

abbrev colon_store : Store
colon_store = ("a:b:c:i", stored) ∷ []

colon_ids_collide_example :
    ingest same always always unary "now" (payload "a:b" "c" 1) colon_store
    ≡ (duplicate (build_event_key same always always unary (event "a" "b:c" 1)), colon_store)
unfolding build_event_key validate_contract_event_payload validate_event_envelope_preamble field get
colon_ids_collide_example =
    colon_ids_collide same always always unary "now" "a" "b" "c" (payload "a:b" "c" 1) colon_store
      (event "a" "b:c" 1) (event "a:b" "c" 1) refl refl refl refl refl refl refl

index_batch_again_example :
    let (r, s) = run events start in
    let (r', s') = run events s in
    (r'.processed_count ≡ 0)
    × (r'.duplicate_count ≡ r.processed_count + r.duplicate_count)
    × (r'.errors ≡ r.errors)
    × (s'.events ≡ s.events)
    × (sequence_of r'.new_cursor ≡ sequence_of r.new_cursor)
    × ((other : String) → Kept "chain" other s.cursors s'.cursors)
index_batch_again_example =
    index_batch_again same always always unary clock 0 0 "chain" events start

no_events-IsStore : IsStore same always always unary []
unfolding get
no_events-IsStore = record { keyed = λ k p h. cc h; unique = tt }

below_limit :
    (v : JsValue) (e : ContractEvent) (n : ℕ)
    → validated same always always unary v ≡ ok e
    → extract_sequence v ≡ some n
    → n < 2 ^ 53
    → e.sequence < 2 ^ 53
below_limit v e n valid is small =
    let own = valid-sequence same always always unary clock v e valid in
    ground (arith, own, is, small)

none_valid : (e : ContractEvent) → ¬ (validated same always always unary null ≡ ok e)
unfolding validate_contract_event_payload validate_event_envelope_preamble
none_valid e h = cc h

exact : All (IsExact same always always unary clock) events
unfolding extract_sequence field
exact = (
  λ e h. below_limit (payload "c1" "e2" 2) e 2 h refl (omega arith),
  (
    λ e h. absurd (none_valid e h),
    (
      λ e h. below_limit (payload "c1" "e1" 1) e 1 h refl (omega arith),
      (λ e h. below_limit (payload "c1" "e2" 2) e 2 h refl (omega arith), tt),
    ),
  ),
)

resume_after_batch_example :
    All
      (λ e. e.sequence < resumed same always always unary clock "chain" after.cursors)
      (valid_events same always always unary clock events)
resume_after_batch_example =
    resume_after_batch same always always unary clock 0 "chain" events start exact

abbrev older : List JsValue
older = payload "c1" "e1" 1 ∷ []
