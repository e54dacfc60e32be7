-- ===== src/Webhooks.antt =====
-- services/webhook.service.ts: the delivery of webhooks with retries, per-host limits and the dead
-- letters. The other end answers each attempt of a delivery in some way, at some time. Whether a
-- URL is safe (utils/ssrf.ts) is a parameter, and so are the host of a URL and the JSON text of a
-- body. Signatures, headers and the delay between attempts are left out.
pub mod Capacity
pub mod Delivery
pub mod DlqStorage
pub mod Replay
mod Tests
use talenttrust_backend.Prelude.{
  ℕ, zero, suc, ◌+◌, String, Bool, true, false, not, ◌&&◌, leb, ltb, if◌then◌else◌, Option, none,
  some, or_else, str_eq, Table, get, put, Result, ok, err,
}
use talenttrust_backend.Envelope.{JsValue}
use talenttrust_backend.Webhooks.DlqStorage.{
  DeadLetters, DeliveryFailure, payload_too_large, ssrf_blocked, rate_limited, delivery_4xx,
  retry_exhausted, WebhookDlqEntry, DlqConfig, duplicate_entry, DlqError, add_entry, get_entry,
  check_dedupe, mark_replayed, is_unreplayed,
}

pub record WebhookPayload : Type 0 where
  pub id : String
  pub url : String
  pub event_data : JsValue
  pub retry_count : ℕ
  pub webhook_secret : Option String

-- How a post ends: delivered, refused with a status, or without a response.
pub data PostOutcome : Type 0 where
  delivered : PostOutcome
  refused : ℕ → PostOutcome
  no_response : PostOutcome

-- The time of an attempt, and how its post would end.
pub record Attempt : Type 0 where
  pub now : ℕ
  pub outcome : PostOutcome

pub record HostWindow : Type 0 where
  pub count : ℕ
  pub window_start : ℕ

pub record WebhookConfig : Type 0 where
  pub max_payload_size_bytes : ℕ
  pub max_attempts : ℕ
  pub host_rate_limit_max : ℕ
  pub host_rate_limit_window_ms : ℕ
  pub dlq : DlqConfig

pub record WebhookPlatform : Type 0 where
  pub stringify : JsValue → String
  pub byte_length : String → ℕ
  pub sha256 : String → String
  pub is_safe_url : String → Bool
  pub hostname : String → String

-- The id and the time that a dead letter gets.
pub record Stamp : Type 0 where
  pub id : String
  pub now : String

pub record WebhookState : Type 0 where
  pub dead_letters : DeadLetters
  pub hosts : Table HostWindow

-- The number of posts, whether the last was delivered, and whether the call threw.
pub record SendResult : Type 0 where
  pub posts : ℕ
  pub sent : Bool
  pub thrown : Bool

pub data ReplayResult : Type 0 where
  entry_not_found : ReplayResult
  already_replayed : ReplayResult
  deduplicated : ReplayResult
  replay_successful : ReplayResult
  replay_failed : ReplayResult

abbrev one_post_more : SendResult × WebhookState → SendResult × WebhookState
one_post_more (r, s) = (record { posts = suc r.posts; sent = r.sent; thrown = r.thrown }, s)

module _ (p : WebhookPlatform) (c : WebhookConfig) where
  abbrev in_window : ℕ → HostWindow → HostWindow
  in_window now w =
      if ltb (w.window_start + c.host_rate_limit_window_ms) now
      then record { count = 0; window_start = now }
      else w

  abbrev counted_in : ℕ → Option HostWindow → HostWindow
  counted_in now o =
      let w = in_window now (or_else o (record { count = 0; window_start = now })) in
      record { count = suc w.count; window_start = w.window_start }

  abbrev pub check_host_rate_limit : ℕ → String → Table HostWindow → Bool × Table HostWindow
  check_host_rate_limit now host hosts =
      let key = p.sha256 host in
      let w = counted_in now (get key hosts) in (leb w.count c.host_rate_limit_max, put key w hosts)

  abbrev recorded_in :
      Table HostWindow → Result DlqError (Unit {0}) × DeadLetters → SendResult × WebhookState
  recorded_in hosts (ok _, rows) = (
    record { posts = 0; sent = false; thrown = false },
    record { dead_letters = rows; hosts = hosts },
  )
  recorded_in hosts (err duplicate_entry, rows) = (
    record { posts = 0; sent = false; thrown = false },
    record { dead_letters = rows; hosts = hosts },
  )
  recorded_in hosts (err e, rows) = (
    record { posts = 0; sent = false; thrown = true },
    record { dead_letters = rows; hosts = hosts },
  )

  -- A duplicate is not an error; other errors of the table are thrown.
  abbrev pub persist_to_dlq :
      Stamp → WebhookPayload → DeliveryFailure → WebhookState → SendResult × WebhookState
  persist_to_dlq stamp payload failure s = recorded_in s.hosts (
      add_entry p.stringify p.sha256 c.dlq stamp.id stamp.now payload.id payload.url
        payload.event_data payload.retry_count failure payload.webhook_secret s.dead_letters)

  abbrev with_retry_count : ℕ → WebhookPayload → WebhookPayload
  with_retry_count n payload = record payload { retry_count = n }

  -- What follows a post; `rest` is what the attempts after it come to.
  abbrev pub after_post :
      Stamp
      → WebhookPayload
      → WebhookState
      → SendResult × WebhookState
      → PostOutcome
      → SendResult × WebhookState
  after_post stamp payload s rest delivered = (record { posts = 1; sent = true; thrown = false }, s)
  after_post stamp payload s rest (refused status) =
      if leb 400 status && ltb status 500
      then one_post_more (persist_to_dlq stamp payload (delivery_4xx status) s)
      else one_post_more rest
  after_post stamp payload s rest no_response = one_post_more rest

  -- The loop, with the number of attempts left and the number of the next one.
  unfoldable pub send_attempts :
      (ℕ → Attempt) → Stamp → ℕ → ℕ → WebhookPayload → WebhookState → SendResult × WebhookState
  send_attempts remote stamp zero attempt payload s = persist_to_dlq stamp payload retry_exhausted s
  send_attempts remote stamp (suc left) attempt payload s =
      let host = p.hostname payload.url in
      let (allowed, hosts) = check_host_rate_limit (remote attempt).now host s.hosts in
      let next : WebhookState = record { dead_letters = s.dead_letters; hosts = hosts } in
      let failed = with_retry_count (suc attempt) payload in
      let rest = send_attempts remote stamp left (suc attempt) failed next in
      if not (p.is_safe_url payload.url)
      then persist_to_dlq stamp payload ssrf_blocked s
      else if not allowed
      then persist_to_dlq stamp payload (rate_limited host) next
      else after_post stamp failed next rest (remote attempt).outcome

  unfoldable pub send :
      (ℕ → Attempt) → Stamp → WebhookPayload → WebhookState → SendResult × WebhookState
  send remote stamp payload s =
      let bytes = p.byte_length (p.stringify payload.event_data) in
      if ltb c.max_payload_size_bytes bytes
      then persist_to_dlq stamp payload (payload_too_large bytes) s
      else send_attempts remote stamp c.max_attempts 0 payload s

  abbrev replay_sent : String → String → SendResult × WebhookState → ReplayResult × ℕ × WebhookState
  replay_sent now id (r, s) = if r.thrown then (replay_failed, r.posts, s) else (
    replay_successful,
    r.posts,
    record { dead_letters = mark_replayed now id s.dead_letters; hosts = s.hosts },
  )

  abbrev replay_payload : WebhookDlqEntry → WebhookPayload
  replay_payload e = record {
    id = e.webhook_id;
    url = e.url;
    event_data = e.body;
    retry_count = 0;
    webhook_secret = e.webhook_secret;
  }

  abbrev replay_found :
      (ℕ → Attempt)
      → Stamp
      → String
      → WebhookState
      → Option WebhookDlqEntry
      → ReplayResult × ℕ × WebhookState
  replay_found remote stamp id s none = (entry_not_found, 0, s)
  replay_found remote stamp id s (some e) =
      if not (is_unreplayed e)
      then (already_replayed, 0, s)
      else if check_dedupe p.stringify p.sha256 e.webhook_id e.body s.dead_letters
      then (
        deduplicated,
        0,
        record { dead_letters = mark_replayed stamp.now id s.dead_letters; hosts = s.hosts },
      )
      else replay_sent stamp.now id (send remote stamp (replay_payload e) s)

  -- The result of a replay, and how many posts it made.
  unfoldable pub replay_dlq_entry :
      (ℕ → Attempt) → Stamp → String → WebhookState → ReplayResult × ℕ × WebhookState
  replay_dlq_entry remote stamp id s = replay_found remote stamp id s (get_entry id s.dead_letters)
