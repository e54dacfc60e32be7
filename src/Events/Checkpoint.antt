-- ===== src/Events/Checkpoint.antt =====
-- contracts/{indexer,cursor.repository}.ts: the checkpoint that a batch leaves.
use talenttrust_backend.Prelude.{
  ℕ, suc, ◌^◌, ◌≤◌, ◌<◌, String, Bool, Option, none, some, List, [], ◌∷◌, get, ◌≡◌, refl, inl, inr,
  Result, ok, err, arith, All, All-map, sort-unsorted, sort-All, get-put_self,
}
use talenttrust_backend.Envelope.{JsValue}
use talenttrust_backend.Events.{ContractEvent, Store}
use talenttrust_backend.Events.Validation.{validate_contract_event_payload_lem}
use talenttrust_backend.Events.Ingest.{
  validated, ingested, ingest_cases, ingest_invalid, ingest_known, ingest_new,
}
use talenttrust_backend.Events.Indexer.{
  Tally, no_tally, count_result, update_max_sequence, index_events, index_batch, Indexer,
  IndexerCursor, double_suc, extract_sequence, sort_events_by_sequence, sequence_order,
  resume_from_cursor, update_cursor, get_cursor, Cursors, checkpoint,
}
use talenttrust_backend.Events.Replay.{batch}

abbrev Reaches : ℕ → Option ℕ → Type 0
Reaches n none = ⊥
Reaches n (some m) = n ≤ m

abbrev Below : Option ℕ → Type 0
Below none = Unit
Below (some m) = m < 2 ^ 53

double_suc_exact : (n : ℕ) → n < 2 ^ 53 → double_suc n ≡ suc n
double_suc_exact n h = ground (arith, h)

module _ (trim : String → String) (is_date is_numeric : String → Bool) (decimal : ℕ → String)
    (clock : ℕ → String) where
  abbrev checked : JsValue → Result String ContractEvent
  checked v = validated trim is_date is_numeric decimal v

  abbrev indexed : ℕ → List JsValue → Tally → Store → Tally × Store
  indexed time vs t st = index_events trim is_date is_numeric decimal clock time vs t st

  pub valid-sequence :
      (v : JsValue) (e : ContractEvent) → checked v ≡ ok e → extract_sequence v ≡ some e.sequence
  unfolding extract_sequence
  valid-sequence v e valid =
      let (fs, ty, shape, ev, built) =
        (validate_contract_event_payload_lem trim is_date is_numeric decimal v e).0 valid in
      rw (shape, built) (ground (arith, ev.numbered))

  max-reached :
      (v : JsValue) (n : ℕ) (o : Option ℕ) → Reaches n o → Reaches n (update_max_sequence v o)
  unfolding update_max_sequence
  max-reached v n o h = ground arith

  max-own :
      (v : JsValue) (n : ℕ) (o : Option ℕ)
      → extract_sequence v ≡ some n
      → Reaches n (update_max_sequence v o)
  unfolding update_max_sequence
  max-own v n o h = ground arith

  count-reached :
      (now : String) (v : JsValue) (st : Store) (t : Tally) (n : ℕ)
      → Reaches n t.max_sequence
      → Reaches n
          (count_result v (ingested trim is_date is_numeric decimal now v st).0 t).max_sequence
  count-reached now v st t n h = elim (ingest_cases trim is_date is_numeric decimal now v st) [
    | inl (reason, bad) ↦ rw (ingest_invalid trim is_date is_numeric decimal now v st bad) h
    | inr (inl (e, valid, known)) ↦
        rw (ingest_known trim is_date is_numeric decimal now v st valid known)
          (max-reached v n t.max_sequence h)
    | inr (inr (e, valid, fresh)) ↦
        rw (ingest_new trim is_date is_numeric decimal now v st valid fresh)
          (max-reached v n t.max_sequence h)
  ]

  count-own :
      (now : String) (v : JsValue) (st : Store) (t : Tally) (e : ContractEvent)
      → checked v ≡ ok e
      → Reaches e.sequence
          (count_result v (ingested trim is_date is_numeric decimal now v st).0 t).max_sequence
  count-own now v st t e h =
      let own = max-own v e.sequence t.max_sequence (valid-sequence v e h) in
      elim (ingest_cases trim is_date is_numeric decimal now v st) [
        | inl (reason, bad) ↦ cc (h, bad)
        | inr (inl (d, valid, known)) ↦
            rw (ingest_known trim is_date is_numeric decimal now v st valid known) own
        | inr (inr (d, valid, fresh)) ↦
            rw (ingest_new trim is_date is_numeric decimal now v st valid fresh) own
      ]

  index-reached :
      (time : ℕ) (vs : List JsValue) (t : Tally) (st : Store) (n : ℕ)
      → Reaches n t.max_sequence
      → Reaches n (indexed time vs t st).0.max_sequence
  unfolding index_events
  index-reached time [] t st n h = h
  index-reached time (v ∷ vs) t st n h =
      index-reached (suc time) vs _ _ n (count-reached (clock time) v st t n h)

  index-own :
      (time : ℕ) (vs : List JsValue) (t : Tally) (st : Store)
      → All
          (λ v.
            (e : ContractEvent)
            → checked v ≡ ok e
            → Reaches e.sequence (indexed time vs t st).0.max_sequence)
          vs
  unfolding index_events
  index-own time [] t st = tt
  index-own time (v ∷ vs) t st = (
    λ e h. index-reached (suc time) vs _ _ e.sequence (count-own (clock time) v st t e h),
    index-own (suc time) vs _ _,
  )

  -- Whether a payload, if it is valid, has a sequence number that JavaScript counts exactly.
  abbrev pub IsExact : JsValue → Type 0
  IsExact v = (e : ContractEvent) → checked v ≡ ok e → e.sequence < 2 ^ 53

  max-Below :
      (v : JsValue) (e : ContractEvent) (o : Option ℕ)
      → checked v ≡ ok e
      → e.sequence < 2 ^ 53
      → Below o
      → Below (update_max_sequence v o)
  unfolding update_max_sequence
  max-Below v e none valid small h = rw (valid-sequence v e valid) small
  max-Below v e (some m) valid small h = rw (valid-sequence v e valid) (ground (arith, small, h))

  count-Below :
      (now : String) (v : JsValue) (st : Store) (t : Tally)
      → IsExact v
      → Below t.max_sequence
      → Below (count_result v (ingested trim is_date is_numeric decimal now v st).0 t).max_sequence
  count-Below now v st t exact h = elim (ingest_cases trim is_date is_numeric decimal now v st) [
    | inl (reason, bad) ↦ rw (ingest_invalid trim is_date is_numeric decimal now v st bad) h
    | inr (inl (e, valid, known)) ↦
        rw (ingest_known trim is_date is_numeric decimal now v st valid known)
          (max-Below v e t.max_sequence valid (exact e valid) h)
    | inr (inr (e, valid, fresh)) ↦
        rw (ingest_new trim is_date is_numeric decimal now v st valid fresh)
          (max-Below v e t.max_sequence valid (exact e valid) h)
  ]

  index-Below :
      (time : ℕ) (vs : List JsValue) (t : Tally) (st : Store)
      → All IsExact vs
      → Below t.max_sequence
      → Below (indexed time vs t st).0.max_sequence
  unfolding index_events
  index-Below time [] t st q h = h
  index-Below time (v ∷ vs) t st (exact, q) h =
      index-Below (suc time) vs _ _ q (count-Below (clock time) v st t exact h)

  abbrev pub resumed : String → Cursors → ℕ
  resumed source cs =
      (resume_from_cursor (record { source_id = source; from_sequence = none })
        cs).resume_from_sequence

  found-resumed :
      (source : String) (cs : Cursors) (c : IndexerCursor)
      → get source cs ≡ some c
      → resumed source cs ≡ double_suc c.last_sequence
  unfolding resume_from_cursor get_cursor
  found-resumed source cs c h = ground (arith, h)

  checkpoint-written :
      (source now : String) (n : ℕ) (cs : Cursors)
      → resumed source (checkpoint source now (some n) cs).1 ≡ double_suc n
  unfolding update_cursor
  checkpoint-written source now n cs = found-resumed source _ _ (get-put_self source _ cs)

  checkpoint-resumed :
      (source now : String) (m : Option ℕ) (cs : Cursors) (n : ℕ)
      → Reaches n m
      → Below m
      → n < resumed source (checkpoint source now m cs).1
  checkpoint-resumed source now none cs n h b = absurd h
  checkpoint-resumed source now (some m) cs n h b =
      omega (arith, h, checkpoint-written source now m cs, double_suc_exact m b)

  abbrev with_event : Result String ContractEvent → List ContractEvent → List ContractEvent
  with_event (ok e) es = e ∷ es
  with_event (err reason) es = es

  -- The events of the valid payloads.
  unfoldable pub valid_events : List JsValue → List ContractEvent
  valid_events [] = []
  valid_events (v ∷ vs) = with_event (checked v) (valid_events vs)

  with_event-All :
      (P : ContractEvent → Type 0) (r : Result String ContractEvent) (es : List ContractEvent)
      → ((e : ContractEvent) → r ≡ ok e → P e)
      → All P es
      → All P (with_event r es)
  with_event-All P (ok e) es p h = (p e refl, h)
  with_event-All P (err reason) es p h = h

  valid_events-All :
      (P : ContractEvent → Type 0) (vs : List JsValue)
      → All (λ v. (e : ContractEvent) → checked v ≡ ok e → P e) vs
      → All P (valid_events vs)
  unfolding valid_events
  valid_events-All P [] h = tt
  valid_events-All P (v ∷ vs) (p, h) = with_event-All P (checked v) _ p (valid_events-All P vs h)

  -- After a batch whose valid events have sequence numbers below 2^53, indexing resumes beyond every
  -- valid event of the batch.
  pub resume_after_batch :
      (time : ℕ) (source : String) (events : List JsValue) (s : Indexer)
      → All IsExact events
      → let s' = (batch trim is_date is_numeric decimal clock time source events s).1 in
        All (λ e. e.sequence < resumed source s'.cursors) (valid_events events)
  unfolding index_batch sort_events_by_sequence
  resume_after_batch time source events s exact =
      let vs = sort_events_by_sequence events in
      let small =
        index-Below time vs no_tally s.events (sort-All sequence_order _ events exact) tt in
      valid_events-All _ events (
        sort-unsorted sequence_order _ events (
          All-map _ _ vs
            (λ v h e valid. checkpoint-resumed source _ _ s.cursors e.sequence (h e valid) small)
            (index-own time vs no_tally s.events)))
