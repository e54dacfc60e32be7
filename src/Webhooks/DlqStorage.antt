-- ===== src/Webhooks/DlqStorage.antt =====
-- queue/webhook-dlq.ts: the table of webhook deliveries that failed. A body is the JavaScript value
-- that its JSON text stands for. Counters of operations are left out. Of the oldest entries, the one
-- that was inserted first is evicted, where SQL leaves the choice open.
use talenttrust_backend.Prelude.{
  ℕ, ◌+◌, ◌<>◌, String, Bool, true, false, not, ◌&&◌, leb, if◌then◌else◌, Option, none, some, List,
  [], ◌∷◌, ◌++◌, length, keep_if, find, is_some, str_eq, text_before, Result, ok, err,
}
use talenttrust_backend.Envelope.{JsValue}

-- The reason of a failure: its code, and the numbers or the host in its text.
pub data DeliveryFailure : Type 0 where
  payload_too_large : ℕ → DeliveryFailure
  ssrf_blocked : DeliveryFailure
  rate_limited : String → DeliveryFailure
  delivery_4xx : ℕ → DeliveryFailure
  retry_exhausted : DeliveryFailure

pub record WebhookDlqEntry : Type 0 where
  pub id : String
  pub webhook_id : String
  pub url : String
  pub body : JsValue
  pub retry_count : ℕ
  pub webhook_secret : Option String
  pub failed_at : String
  pub last_error : DeliveryFailure
  pub dedupe_key : String
  pub replayed_at : Option String
  pub replay_attempts : ℕ
  pub created_at : String
  pub updated_at : String

abbrev pub DeadLetters : Type 0
DeadLetters = List WebhookDlqEntry

pub record DlqConfig : Type 0 where
  pub max_capacity : ℕ
  pub max_replay_attempts : ℕ

pub data DlqError : Type 0 where
  duplicate_entry : DlqError
  id_taken : DlqError

pub record ReplayAttempts : Type 0 where
  pub success : Bool
  pub attempts : ℕ
  pub max_exceeded : Bool

pub record DlqStats : Type 0 where
  pub total : ℕ
  pub pending : ℕ
  pub replayed : ℕ

abbrev pub is_unreplayed : WebhookDlqEntry → Bool
is_unreplayed e = not (is_some e.replayed_at)

unfoldable pub get_pending_count : DeadLetters → ℕ
get_pending_count rows = length (keep_if is_unreplayed rows)

-- The first of the pending rows that failed the earliest.
abbrev older_of : WebhookDlqEntry → Option WebhookDlqEntry → WebhookDlqEntry
older_of e none = e
older_of e (some d) = if text_before d.failed_at e.failed_at then d else e

unfoldable pub oldest_pending : DeadLetters → Option WebhookDlqEntry
oldest_pending [] = none
oldest_pending (e ∷ rows) =
    let rest = oldest_pending rows in if is_unreplayed e then some (older_of e rest) else rest

unfoldable pub delete_entry : String → DeadLetters → DeadLetters
delete_entry id rows = keep_if (λ e. not (str_eq e.id id)) rows

abbrev pub delete_found : DeadLetters → Option WebhookDlqEntry → DeadLetters
delete_found rows none = rows
delete_found rows (some e) = delete_entry e.id rows

unfoldable pub evict_oldest : DeadLetters → DeadLetters
evict_oldest rows = delete_found rows (oldest_pending rows)

unfoldable pub get_entry : String → DeadLetters → Option WebhookDlqEntry
get_entry id rows = find (λ e. str_eq e.id id) rows

abbrev pub marked : String → WebhookDlqEntry → WebhookDlqEntry
marked now e = record e { replayed_at = some now; updated_at = now }

unfoldable pub mark_replayed : String → String → DeadLetters → DeadLetters
mark_replayed now id [] = []
mark_replayed now id (e ∷ rows) =
    (if str_eq e.id id then marked now e else e) ∷ mark_replayed now id rows

abbrev counted : String → ℕ → WebhookDlqEntry → WebhookDlqEntry
counted now n e = record e { replay_attempts = n; updated_at = now }

abbrev set_attempts : String → String → ℕ → DeadLetters → DeadLetters
set_attempts now id n [] = []
set_attempts now id n (e ∷ rows) =
    (if str_eq e.id id then counted now n e else e) ∷ set_attempts now id n rows

abbrev increment_found :
    DlqConfig
    → String
    → String
    → DeadLetters
    → Option WebhookDlqEntry
    → ReplayAttempts × DeadLetters
increment_found c now id rows none =
    (record { success = false; attempts = 0; max_exceeded = false }, rows)
increment_found c now id rows (some e) =
    let attempts = e.replay_attempts + 1 in
    if leb c.max_replay_attempts attempts
    then (record { success = true; attempts = attempts; max_exceeded = true }, delete_entry id rows)
    else (
      record { success = true; attempts = attempts; max_exceeded = false },
      set_attempts now id attempts rows,
    )

unfoldable pub increment_replay_attempts :
    DlqConfig → String → String → DeadLetters → ReplayAttempts × DeadLetters
increment_replay_attempts c now id rows = increment_found c now id rows (get_entry id rows)

abbrev pub dead_letter_stats : DeadLetters → DlqStats
dead_letter_stats rows = record {
  total = length rows;
  pending = get_pending_count rows;
  replayed = length (keep_if (λ e. is_some e.replayed_at) rows);
}

abbrev pub has_dedupe_key : String → DeadLetters → Bool
has_dedupe_key key rows = is_some (find (λ e. str_eq e.dedupe_key key) rows)

unfoldable pub insert_dead_letter : WebhookDlqEntry → DeadLetters → Result DlqError DeadLetters
insert_dead_letter e rows =
    if is_some (get_entry e.id rows)
    then err id_taken
    else if has_dedupe_key e.dedupe_key rows
    then err duplicate_entry
    else ok (rows ++ e ∷ [])

module _ (stringify : JsValue → String) (sha256 : String → String) where
  abbrev pub generate_dedupe_key : String → JsValue → String
  generate_dedupe_key webhook_id body = sha256 (webhook_id <> (":" <> stringify body))

  abbrev pub check_dedupe : String → JsValue → DeadLetters → Bool
  check_dedupe webhook_id body rows =
      let key = generate_dedupe_key webhook_id body in
      is_some (find (λ e. str_eq e.dedupe_key key && is_unreplayed e) rows)

  abbrev pub inserted :
      DeadLetters → Result DlqError DeadLetters → Result DlqError (Unit {0}) × DeadLetters
  inserted rows (err e) = (err e, rows)
  inserted rows (ok added) = (ok tt, added)

  abbrev pub new_letter :
      String
      → String
      → String
      → String
      → JsValue
      → ℕ
      → DeliveryFailure
      → Option String
      → WebhookDlqEntry
  new_letter id now webhook_id url body retries failure secret = record {
    id = id;
    webhook_id = webhook_id;
    url = url;
    body = body;
    retry_count = retries;
    webhook_secret = secret;
    failed_at = now;
    last_error = failure;
    dedupe_key = generate_dedupe_key webhook_id body;
    replayed_at = none;
    replay_attempts = 0;
    created_at = now;
    updated_at = now;
  }

  -- What follows the count of the pending letters: the eviction, which stands whether or not the
  -- insertion succeeds, and the insertion, where nothing else runs between the two.
  unfoldable pub add_counted :
      DlqConfig → ℕ → WebhookDlqEntry → DeadLetters → Result DlqError (Unit {0}) × DeadLetters
  add_counted c count e rows =
      let room = if leb c.max_capacity count then evict_oldest rows else rows in
      inserted room (insert_dead_letter e room)

  -- `addEntry` where nothing else runs while it waits for the count and for the eviction.
  unfoldable pub add_entry :
      DlqConfig
      → String
      → String
      → String
      → String
      → JsValue
      → ℕ
      → DeliveryFailure
      → Option String
      → DeadLetters
      → Result DlqError (Unit {0}) × DeadLetters
  unfolding add_counted
  add_entry c id now webhook_id url body retries failure secret rows =
      add_counted c (get_pending_count rows)
        (new_letter id now webhook_id url body retries failure secret) rows
