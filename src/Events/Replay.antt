-- ===== src/Events/Replay.antt =====
-- contracts/indexer.ts: a batch of events, and the same batch again.
use talenttrust_backend.Prelude.{
  ℕ, suc, ◌+◌, String, Bool, true, Option, none, some, List, [], ◌∷◌, length, get, get-put, has,
  Bool-cases, str_eq, eq_iff, ◌⊎◌, ◌≡◌, refl, sym, ◌∙◌, inl, inr, Result, ok, err, Result-cases,
  arith, Option-cases, All,
}
use talenttrust_backend.Envelope.{JsValue, Fields}
use talenttrust_backend.Events.{ContractEvent, IngestResult, duplicate, invalid, Store}
use talenttrust_backend.Events.Ingest.{
  validated, key_of, ingested, ingest_cases, ingest_invalid, ingest_known, ingest_new, ingest-keeps,
  ingest-has,
}
use talenttrust_backend.Events.Indexer.{
  Tally, no_tally, count_result, index_events, index_batch, IndexerBatchResult, Indexer,
  IndexerCursor, sort_events_by_sequence, update_cursor, checkpoint, Cursors,
}

-- The sequence number of the cursor that a batch answers.
abbrev pub sequence_of : Option IndexerCursor → Option ℕ
sequence_of none = none
sequence_of (some c) = some c.last_sequence

-- A cursor but for the time of its last update.
abbrev pub without_time : Option IndexerCursor → Option (String × ℕ × Option Fields)
without_time none = none
without_time (some c) = some (c.source_id, c.last_sequence, c.metadata)

-- A cursor is what it was, or it is that of the source and differs in its time only.
abbrev pub Kept : String → String → Cursors → Cursors → Type 0
Kept source other before after =
    (get other after ≡ get other before)
    ⊎ ((other ≡ source) × (without_time (get other after) ≡ without_time (get other before)))

module _ (trim : String → String) (is_date is_numeric : String → Bool) (decimal : ℕ → String)
    (clock : ℕ → String) where
  abbrev checked : JsValue → Result String ContractEvent
  checked v = validated trim is_date is_numeric decimal v

  abbrev key : ContractEvent → String
  key e = key_of trim is_date is_numeric decimal e

  abbrev indexed : ℕ → List JsValue → Tally → Store → Tally × Store
  indexed time vs t st = index_events trim is_date is_numeric decimal clock time vs t st

  -- Every valid event of a batch is stored.
  abbrev Stored : Store → JsValue → Type 0
  Stored st v = (e : ContractEvent) → checked v ≡ ok e → has (key e) st ≡ true

  -- The answer to a payload that has been ingested before.
  abbrev answer_of : Result String ContractEvent → IngestResult
  answer_of (err reason) = invalid reason
  answer_of (ok e) = duplicate (key e)

  unfoldable tally_again : List JsValue → Tally → Tally
  tally_again [] t = t
  tally_again (v ∷ vs) t = tally_again vs (count_result v (answer_of (checked v)) t)

  ingest_again :
      (now : String) (v : JsValue) (st : Store)
      → Stored st v
      → ingested trim is_date is_numeric decimal now v st ≡ (answer_of (checked v), st)
  ingest_again now v st h = elim (Result-cases (checked v)) [
    | inl (e, valid) ↦
        rw (valid) (ingest_known trim is_date is_numeric decimal now v st valid (h e valid))
    | inr (reason, bad) ↦ rw bad (ingest_invalid trim is_date is_numeric decimal now v st bad)
  ]

  index_again :
      (time : ℕ) (vs : List JsValue) (t : Tally) (st : Store)
      → All (Stored st) vs
      → indexed time vs t st ≡ (tally_again vs t, st)
  unfolding index_events tally_again
  index_again time [] t st h = refl
  index_again time (v ∷ vs) t st (p, h) =
      rw (ingest_again (clock time) v st p) (index_again (suc time) vs _ st h)

  index-keeps :
      (time : ℕ) (vs : List JsValue) (t : Tally) (st : Store) (k : String)
      → has k st ≡ true
      → has k (indexed time vs t st).1 ≡ true
  unfolding index_events
  index-keeps time [] t st k h = h
  index-keeps time (v ∷ vs) t st k h =
      index-keeps (suc time) vs _ _ k (elim (Option-cases (get k st)) [
        | inl missing ↦ cc (rw missing at h)
        | inr (p, found) ↦
            rw (ingest-keeps trim is_date is_numeric decimal (clock time) k v st found) refl
      ])

  index-Stored :
      (time : ℕ) (vs : List JsValue) (t : Tally) (st : Store)
      → All (Stored (indexed time vs t st).1) vs
  unfolding index_events
  index-Stored time [] t st = tt
  index-Stored time (v ∷ vs) t st = (
    λ e valid.
        index-keeps (suc time) vs _ _ (key e)
          (ingest-has trim is_date is_numeric decimal (clock time) v st valid),
    index-Stored (suc time) vs _ _,
  )

  -- Two tallies that differ only in which of the valid events were duplicates.
  record Alike (t u : Tally) : Type 0 where
    pub total : t.processed + t.duplicates ≡ u.processed + u.duplicates
    pub errors : t.errors ≡ u.errors
    pub max_sequence : t.max_sequence ≡ u.max_sequence

  count-Alike :
      (now : String) (v : JsValue) (st : Store) (t u : Tally)
      → Alike t u
      → Alike
          (count_result v (ingested trim is_date is_numeric decimal now v st).0 t)
          (count_result v (answer_of (checked v)) u)
  count-Alike now v st t u a = elim (ingest_cases trim is_date is_numeric decimal now v st) [
    | inl (reason, bad) ↦
        rw (ingest_invalid trim is_date is_numeric decimal now v st bad, bad)
          (record { total = a.total; errors = simp a.errors refl; max_sequence = a.max_sequence })
    | inr (inl (e, valid, known)) ↦
        rw (ingest_known trim is_date is_numeric decimal now v st valid known, valid)
          (record {
            total = omega (arith, a.total);
            errors = a.errors;
            max_sequence = simp a.max_sequence refl;
          })
    | inr (inr (e, valid, fresh)) ↦
        rw (ingest_new trim is_date is_numeric decimal now v st valid fresh, valid)
          (record {
            total = omega (arith, a.total);
            errors = a.errors;
            max_sequence = simp a.max_sequence refl;
          })
  ]

  index-Alike :
      (time : ℕ) (vs : List JsValue) (t u : Tally) (st : Store)
      → Alike t u
      → Alike (indexed time vs t st).0 (tally_again vs u)
  unfolding index_events tally_again
  index-Alike time [] t u st a = a
  index-Alike time (v ∷ vs) t u st a =
      index-Alike (suc time) vs _ _ _ (count-Alike (clock time) v st t u a)

  count-processed :
      (v : JsValue) (r : Result String ContractEvent) (t : Tally)
      → (count_result v (answer_of r) t).processed ≡ t.processed
  count-processed v (ok e) t = refl
  count-processed v (err reason) t = refl

  again-processed : (vs : List JsValue) (t : Tally) → (tally_again vs t).processed ≡ t.processed
  unfolding tally_again
  again-processed [] t = refl
  again-processed (v ∷ vs) t = again-processed vs _ ∙ count-processed v (checked v) t

  checkpoint-sequence :
      (source now : String) (m : Option ℕ) (cs : Cursors)
      → sequence_of (checkpoint source now m cs).0 ≡ m
  unfolding update_cursor
  checkpoint-sequence source now none cs = refl
  checkpoint-sequence source now (some n) cs = refl

  checkpoint-Kept :
      (source now later : String) (m again : Option ℕ) (other : String) (cs : Cursors)
      → again ≡ m
      → Kept source other
          (checkpoint source now m cs).1
          (checkpoint source later again (checkpoint source now m cs).1).1
  unfolding update_cursor
  checkpoint-Kept source now later none none other cs e = inl refl
  checkpoint-Kept source now later none (some k) other cs e = cc e
  checkpoint-Kept source now later (some n) none other cs e = cc e
  checkpoint-Kept source now later (some n) (some k) other cs e =
      let same : k ≡ n = ground (arith, e) in
      elim (Bool-cases (str_eq source other)) [
        | inl own ↦ inr (sym ((eq_iff source other).0 own), simp (get-put, own, same))
        | inr else ↦ inl (simp (get-put, else))
      ]

  abbrev pub batch : ℕ → String → List JsValue → Indexer → IndexerBatchResult × Indexer
  batch time source events s =
      index_batch trim is_date is_numeric decimal clock time source events s

  -- Indexing a batch again, at any later time and for the same source, processes no event and
  -- counts as duplicates all those that were processed or duplicates the first time; the errors,
  -- the stored events and the sequence number of the checkpoint are those of the first time. The
  -- cursors of other sources stay what they are, and that of the source changes its time at most.
  pub index_batch_again :
      (time later : ℕ) (source : String) (events : List JsValue) (s : Indexer)
      → let (r, s') = batch time source events s in
        let (r', s'') = batch later source events s' in
        (r'.processed_count ≡ 0)
        × (r'.duplicate_count ≡ r.processed_count + r.duplicate_count)
        × (r'.errors ≡ r.errors)
        × (s''.events ≡ s'.events)
        × (sequence_of r'.new_cursor ≡ sequence_of r.new_cursor)
        × ((other : String) → Kept source other s'.cursors s''.cursors)
  unfolding index_batch
  index_batch_again time later source events s =
      let vs = sort_events_by_sequence events in
      let again = index_again later vs no_tally _ (index-Stored time vs no_tally s.events) in
      let alike =
        index-Alike time vs no_tally no_tally s.events
          (record { total = refl; errors = refl; max_sequence = refl }) in
      let none_new = again-processed vs no_tally in
      rw again (
        none_new,
        omega (arith, none_new, alike.total),
        sym alike.errors,
        refl,
        checkpoint-sequence source _ _ _
            ∙ (sym alike.max_sequence ∙ sym (checkpoint-sequence source _ _ s.cursors)),
        λ other.
            checkpoint-Kept source (clock (time + length events)) (clock (later + length events)) _
              _ other s.cursors (sym alike.max_sequence),
      )
