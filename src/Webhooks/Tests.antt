-- ===== src/Webhooks/Tests.antt =====
-- The theorems on webhooks at one event, with a policy of three attempts and an end that never
-- answers. The digest is the identity.
use talenttrust_backend.Prelude.{
  ◌+◌, ok, ℕ, ◌≤◌, String, true, none, List, [], ◌∷◌, get, put, ◌≡◌, refl, ◌⊎◌, arith,
}
use talenttrust_backend.Envelope.{null}
use talenttrust_backend.Webhooks.DlqStorage.{
  new_letter, DlqConfig, WebhookDlqEntry, ssrf_blocked, add_entry, add_counted, insert_dead_letter,
  get_entry, has_dedupe_key, get_pending_count,
}
use talenttrust_backend.Webhooks.{
  WebhookPayload, Attempt, no_response, WebhookConfig, WebhookPlatform, Stamp, WebhookState, send,
  send_attempts, replay_dlq_entry, deduplicated,
}
use talenttrust_backend.Webhooks.Delivery.{send_settles}
use talenttrust_backend.Webhooks.Capacity.{add_entry_within_capacity, overlapping_adds_exceed}
use talenttrust_backend.Webhooks.Replay.{Action, sending, act_all, SendsNothing, replay_never_posts}

abbrev platform : WebhookPlatform
platform = record {
  stringify = λ v. "null";
  byte_length = λ s. 4;
  sha256 = λ s. s;
  is_safe_url = λ url. true;
  hostname = λ url. "host";
}

abbrev config : WebhookConfig
config = record {
  max_payload_size_bytes = 100;
  max_attempts = 3;
  host_rate_limit_max = 60;
  host_rate_limit_window_ms = 60000;
  dlq = record { max_capacity = 1; max_replay_attempts = 5 };
}

abbrev payload : String → WebhookPayload
payload id = record {
  id = id;
  url = "https://host";
  event_data = null;
  retry_count = 0;
  webhook_secret = none;
}

abbrev stamp : String → Stamp
stamp id = record { id = id; now = "now" }

abbrev silence : ℕ → Attempt
silence n = record { now = n; outcome = no_response }

abbrev start : WebhookState
start = record { dead_letters = []; hosts = [] }

abbrev failed : WebhookState
failed = (send platform config silence (stamp "d1") (payload "e1") start).1

posted : (send platform config silence (stamp "d1") (payload "e1") start).0.posts ≡ 3
unfolding send send_attempts add_entry add_counted insert_dead_letter get_entry get_pending_count
    get put
posted = refl

-- The letter is taken for its own duplicate.
replayed : (replay_dlq_entry platform config silence (stamp "d2") "d1" failed).0 ≡ deduplicated
unfolding replay_dlq_entry send send_attempts add_entry add_counted insert_dead_letter get_entry
    get_pending_count get put
replayed = refl

send_settles_example :
    ((send platform config silence (stamp "d1") (payload "e1") start).0.posts ≤ 3)
    × (((send platform config silence (stamp "d1") (payload "e1") start).0.sent ≡ true)
        ⊎ (((send platform config silence (stamp "d1") (payload "e1") start).0.thrown ≡ true)
            ⊎ (has_dedupe_key "e1:null" failed.dead_letters ≡ true)))
send_settles_example = send_settles platform config silence (stamp "d1") (payload "e1") start

abbrev steps : List Action
steps = sending silence (stamp "d1") (payload "e1") ∷ []

replay_never_posts_example : SendsNothing platform config (
    replay_dlq_entry platform config silence
      (stamp "d2")
      "d1"
      (act_all platform config steps (record { dead_letters = []; hosts = [] })))
replay_never_posts_example = replay_never_posts platform config steps [] silence (stamp "d2") "d1"

full : get_pending_count failed.dead_letters ≤ 1
unfolding send send_attempts add_entry add_counted insert_dead_letter get_entry get_pending_count
    get put
full = omega arith

add_entry_within_capacity_example :
    get_pending_count
      (add_entry
        (λ v. "null")
        (λ s. s)
        config.dlq
        "d2"
        "later"
        "e2"
        "https://host"
        null
        0
        ssrf_blocked
        none
        failed.dead_letters).1
    ≤ 1
add_entry_within_capacity_example =
    add_entry_within_capacity (λ v. "null") (λ s. s) config.dlq "d2" "later" "e2" "https://host"
      null 0 ssrf_blocked none failed.dead_letters (omega arith) full

abbrev small : DlqConfig
small = record { max_capacity = 1; max_replay_attempts = 3 }

abbrev letter : String → WebhookDlqEntry
letter id = new_letter (λ v. "null") (λ s. s) id "now" id "https://host" null 0 ssrf_blocked none

none_yet : get_pending_count [] + 1 ≡ small.max_capacity
unfolding get_pending_count
none_yet = refl

first_added :
    (add_counted (λ v. "null") (λ s. s) small (get_pending_count []) (letter "e1") []).0 ≡ ok tt
unfolding add_counted get_pending_count insert_dead_letter get_entry
first_added = refl

second_added :
    (add_counted
      (λ v. "null")
      (λ s. s)
      small
      (get_pending_count [])
      (letter "e2")
      (add_counted (λ v. "null") (λ s. s) small (get_pending_count []) (letter "e1") []).1).0
    ≡ ok tt
unfolding add_counted get_pending_count insert_dead_letter get_entry
second_added = refl

overlapping_adds_exceed_example :
    get_pending_count
      (add_counted
        (λ v. "null")
        (λ s. s)
        small
        (get_pending_count [])
        (letter "e2")
        (add_counted (λ v. "null") (λ s. s) small (get_pending_count []) (letter "e1") []).1).1
    ≡ 2
overlapping_adds_exceed_example =
    overlapping_adds_exceed (λ v. "null") (λ s. s) small (letter "e1") (letter "e2") [] none_yet
      refl refl first_added second_added
