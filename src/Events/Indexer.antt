-- ===== src/Events/Indexer.antt =====
-- contracts/{indexer,cursor.repository,cursor.types}.ts: the indexer over batches of events, and its
-- checkpoints in the in-memory cursor repository. The clock gives the time at each of its readings.
use talenttrust_backend.Prelude.{
  ℕ, suc, ◌+◌, ◌/◌, ◌%◌, ◌^◌, ◌&&◌, ◌==◌, ltb, max, String, Bool, true, false, Option, none, some,
  List, [], ◌∷◌, ◌++◌, Table, get, put, remove, has, values, leb, length, sort, str_eq,
  if◌then◌else◌,
}
use talenttrust_backend.Envelope.{JsValue, number, natural, object, Fields, field}
use talenttrust_backend.Events.{Store, IngestResult, accepted, duplicate, invalid, ingest}

pub record IndexerCursor : Type 0 where
  pub source_id : String
  pub last_sequence : ℕ
  pub updated_at : String
  pub metadata : Option Fields

abbrev pub Cursors : Type 0
Cursors = Table IndexerCursor

unfoldable pub get_cursor : String → Cursors → Option IndexerCursor
get_cursor source cs = get source cs

-- The new cursor, with which every update succeeds, and the map.
unfoldable pub update_cursor :
    String → ℕ → Option Fields → String → Cursors → IndexerCursor × Cursors
update_cursor source sequence metadata now cs =
    let c : IndexerCursor = record {
      source_id = source;
      last_sequence = sequence;
      updated_at = now;
      metadata = metadata;
    } in
    (c, put source c cs)

unfoldable pub list_cursors : Cursors → List IndexerCursor
list_cursors cs = values cs

unfoldable pub delete_cursor : String → Cursors → Bool × Cursors
delete_cursor source cs = (has source cs, remove source cs)

pub record CursorResumeRequest : Type 0 where
  pub source_id : String
  pub from_sequence : Option ℕ

pub record CursorResumeResult : Type 0 where
  pub cursor : Option IndexerCursor
  pub resume_from_sequence : ℕ
  pub is_fresh_start : Bool

-- `n + 1` on the numbers of JavaScript: the next even number or the number itself from 2^53 on,
-- whichever has the even half, and the number itself from 2^54 on.
abbrev pub double_suc : ℕ → ℕ
double_suc n =
    if ltb n (2 ^ 53) then suc n else if ltb n (2 ^ 54) && (n / 2) % 2 == 1 then n + 2 else n

abbrev resume_at : Option IndexerCursor → Option ℕ → CursorResumeResult
resume_at none (some n) = record { cursor = none; resume_from_sequence = n; is_fresh_start = true }
resume_at (some c) (some n) = record {
  cursor = some c;
  resume_from_sequence = n;
  is_fresh_start = false;
}
resume_at none none = record { cursor = none; resume_from_sequence = 0; is_fresh_start = true }
resume_at (some c) none = record {
  cursor = some c;
  resume_from_sequence = double_suc c.last_sequence;
  is_fresh_start = false;
}

unfoldable pub resume_from_cursor : CursorResumeRequest → Cursors → CursorResumeResult
unfolding get_cursor
resume_from_cursor r cs = resume_at (get_cursor r.source_id cs) r.from_sequence

-- The sequence number of a value; none stands for infinity.
abbrev natural_of : JsValue → Option ℕ
natural_of (number (natural n)) = some n
natural_of _ = none

unfoldable pub extract_sequence : JsValue → Option ℕ
extract_sequence (object fs) = natural_of (field "sequence" fs)
extract_sequence _ = none

abbrev no_later : Option ℕ → Option ℕ → Bool
no_later _ none = true
no_later none (some b) = false
no_later (some a) (some b) = leb a b

abbrev pub sequence_order : JsValue → JsValue → Bool
sequence_order a b = no_later (extract_sequence a) (extract_sequence b)

unfoldable pub sort_events_by_sequence : List JsValue → List JsValue
sort_events_by_sequence events = sort sequence_order events

-- The greatest sequence number so far; none stands for -1.
abbrev pub max_of : Option ℕ → Option ℕ → Option ℕ
max_of none current = current
max_of (some n) none = some n
max_of (some n) (some m) = some (max m n)

unfoldable pub update_max_sequence : JsValue → Option ℕ → Option ℕ
unfolding extract_sequence
update_max_sequence v current = max_of (extract_sequence v) current

pub record Tally : Type 0 where
  pub processed : ℕ
  pub duplicates : ℕ
  pub errors : List String
  pub max_sequence : Option ℕ

abbrev pub no_tally : Tally
no_tally = record { processed = 0; duplicates = 0; errors = []; max_sequence = none }

-- `result.reason || 'Event validation failed'`
abbrev pub reason_of : String → String
reason_of reason = if str_eq reason "" then "Event validation failed" else reason

abbrev pub count_result : JsValue → IngestResult → Tally → Tally
count_result v (accepted key) t = record t {
  processed = t.processed + 1;
  max_sequence = update_max_sequence v t.max_sequence;
}
count_result v (duplicate key) t = record t {
  duplicates = t.duplicates + 1;
  max_sequence = update_max_sequence v t.max_sequence;
}
count_result v (invalid reason) t = record t { errors = t.errors ++ (reason_of reason ∷ []) }

pub record IndexerBatchResult : Type 0 where
  pub processed_count : ℕ
  pub duplicate_count : ℕ
  pub errors : List String
  pub new_cursor : Option IndexerCursor

pub record Indexer : Type 0 where
  pub events : Store
  pub cursors : Cursors

abbrev pub checkpoint : String → String → Option ℕ → Cursors → Option IndexerCursor × Cursors
checkpoint source now none cs = (none, cs)
checkpoint source now (some n) cs =
    let (c, cs') = update_cursor source n none now cs in (some c, cs')

module _ (trim : String → String) (is_date is_numeric : String → Bool) (decimal : ℕ → String)
    (clock : ℕ → String) where
  unfoldable pub index_events : ℕ → List JsValue → Tally → Store → Tally × Store
  unfolding ingest update_max_sequence
  index_events time [] t st = (t, st)
  index_events time (v ∷ vs) t st =
      let (result, st') = ingest trim is_date is_numeric decimal (clock time) v st in
      index_events (suc time) vs (count_result v result t) st'

  unfoldable pub index_batch : ℕ → String → List JsValue → Indexer → IndexerBatchResult × Indexer
  unfolding sort_events_by_sequence index_events update_cursor
  index_batch time source events s =
      let sorted = sort_events_by_sequence events in
      let (t, st) = index_events time sorted no_tally s.events in
      let (c, cs) = checkpoint source (clock (time + length events)) t.max_sequence s.cursors in
      (
        record {
          processed_count = t.processed;
          duplicate_count = t.duplicates;
          errors = t.errors;
          new_cursor = c;
        },
        record { events = st; cursors = cs },
      )
