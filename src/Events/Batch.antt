-- ===== src/Events/Batch.antt =====
-- contracts/indexer.ts: what a batch does to the stored events, its counts and its checkpoint.
use talenttrust_backend.Prelude.{
  ℕ, suc, ◌+◌, String, Bool, some, List, [], ◌∷◌, get, ◌≡◌, inl, inr, arith, length, length-append,
  sort, length-sort,
}
use talenttrust_backend.Envelope.{JsValue}
use talenttrust_backend.Events.{PersistedContractEvent, Store}
use talenttrust_backend.Events.Ingest.{
  ingested, ingest_cases, ingest_invalid, ingest_known, ingest_new, ingest-keeps, IsStore,
  ingest-IsStore,
}
use talenttrust_backend.Events.Indexer.{
  Tally, no_tally, count_result, index_events, index_batch, IndexerBatchResult, Indexer,
  sort_events_by_sequence, sequence_order,
}
use talenttrust_backend.Events.Replay.{batch}

module _ (trim : String → String) (is_date is_numeric : String → Bool) (decimal : ℕ → String)
    (clock : ℕ → String) where
  abbrev indexed : ℕ → List JsValue → Tally → Store → Tally × Store
  indexed time vs t st = index_events trim is_date is_numeric decimal clock time vs t st

  abbrev run_batch : ℕ → String → List JsValue → Indexer → IndexerBatchResult × Indexer
  run_batch time source events s = batch trim is_date is_numeric decimal clock time source events s

  abbrev IsKeyed : Store → Type 0
  IsKeyed st = IsStore trim is_date is_numeric decimal st

  index-IsStore :
      (time : ℕ) (vs : List JsValue) (t : Tally) (st : Store)
      → IsKeyed st
      → IsKeyed (indexed time vs t st).1
  unfolding index_events
  index-IsStore time [] t st s = s
  index-IsStore time (v ∷ vs) t st s =
      index-IsStore (suc time) vs _ _
        (ingest-IsStore trim is_date is_numeric decimal (clock time) v st s)

  index-keeps :
      (time : ℕ) (vs : List JsValue) (t : Tally) (st : Store) (k : String)
      {p : PersistedContractEvent}
      → get k st ≡ some p
      → get k (indexed time vs t st).1 ≡ some p
  unfolding index_events
  index-keeps time [] t st k h = h
  index-keeps time (v ∷ vs) t st k h =
      index-keeps (suc time) vs _ _ k
        (ingest-keeps trim is_date is_numeric decimal (clock time) k v st h)

  -- A batch keeps the repository well formed: every event is stored once, under its own key.
  index_batch-IsStore :
      (time : ℕ) (source : String) (events : List JsValue) (s : Indexer)
      → IsKeyed s.events
      → IsKeyed (run_batch time source events s).1.events
  unfolding index_batch
  index_batch-IsStore time source events s h =
      index-IsStore time (sort_events_by_sequence events) no_tally s.events h

  -- A batch neither changes nor drops an event that is stored.
  index_batch-keeps :
      (time : ℕ) (source : String) (events : List JsValue) (s : Indexer) (k : String)
      {p : PersistedContractEvent}
      → get k s.events ≡ some p
      → get k (run_batch time source events s).1.events ≡ some p
  unfolding index_batch
  index_batch-keeps time source events s k found =
      index-keeps time (sort_events_by_sequence events) no_tally s.events k found

  abbrev size : Tally → ℕ
  size t = t.processed + t.duplicates + length t.errors

  count-size :
      (now : String) (v : JsValue) (st : Store) (t : Tally)
      → size (count_result v (ingested trim is_date is_numeric decimal now v st).0 t) ≡ suc (size t)
  count-size now v st t = elim (ingest_cases trim is_date is_numeric decimal now v st) [
    | inl (reason, bad) ↦
        rw (ingest_invalid trim is_date is_numeric decimal now v st bad, length-append)
          (omega arith)
    | inr (inl (e, valid, known)) ↦
        rw (ingest_known trim is_date is_numeric decimal now v st valid known) (omega arith)
    | inr (inr (e, valid, fresh)) ↦
        rw (ingest_new trim is_date is_numeric decimal now v st valid fresh) (omega arith)
  ]

  index-size :
      (time : ℕ) (vs : List JsValue) (t : Tally) (st : Store)
      → size (indexed time vs t st).0 ≡ size t + length vs
  unfolding index_events
  index-size time [] t st = omega arith
  index-size time (v ∷ vs) t st = omega (
    arith,
    index-size (suc time) vs
        (count_result v (ingested trim is_date is_numeric decimal (clock time) v st).0 t)
        (ingested trim is_date is_numeric decimal (clock time) v st).1,
    count-size (clock time) v st t,
  )

  -- Every payload of a batch is counted once: as processed, as a duplicate or as an error.
  pub index_batch_counts :
      (time : ℕ) (source : String) (events : List JsValue) (s : Indexer)
      → let r = (run_batch time source events s).0 in
        r.processed_count + r.duplicate_count + length r.errors ≡ length events
  unfolding index_batch sort_events_by_sequence
  index_batch_counts time source events s = omega (
    arith,
    index-size time (sort sequence_order events) no_tally s.events,
    length-sort sequence_order events,
  )
