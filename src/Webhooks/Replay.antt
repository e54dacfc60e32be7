-- ===== src/Webhooks/Replay.antt =====
-- services/webhook.service.ts: the replay of a dead letter.
use talenttrust_backend.Prelude.{
  ℕ, zero, suc, String, Bool, true, not, ◌&&◌, Option, none, some, List, [], ◌∷◌, ◌++◌, find,
  is_some, keep_if, Table, str_eq, eq_iff, All, ◌≡◌, refl, ◌⊎◌, inl, inr, arith, Bool-cases,
  Option-cases, leb, ltb,
}
use talenttrust_backend.Webhooks.DlqStorage.{
  DeadLetters, DeliveryFailure, delivery_4xx, retry_exhausted, ssrf_blocked, rate_limited,
  payload_too_large, WebhookDlqEntry, add_entry, add_counted, insert_dead_letter, inserted,
  delete_entry, evict_oldest, delete_found, oldest_pending, get_entry, mark_replayed, is_unreplayed,
  generate_dedupe_key, get_pending_count, has_dedupe_key,
}
use talenttrust_backend.Webhooks.{
  WebhookPayload, Attempt, PostOutcome, delivered, refused, no_response, WebhookConfig,
  WebhookPlatform, Stamp, WebhookState, SendResult, HostWindow, ReplayResult, entry_not_found,
  already_replayed, deduplicated, check_host_rate_limit, persist_to_dlq, recorded_in,
  with_retry_count, after_post, send_attempts, send, replay_dlq_entry,
}

-- The row that a search by id gives stands in the table under that id.
find_pending :
    (id key : String) (rows : DeadLetters) {e : WebhookDlqEntry}
    → get_entry id rows ≡ some e
    → str_eq e.dedupe_key key ≡ true
    → is_unreplayed e ≡ true
    → is_some (find (λ d. str_eq d.dedupe_key key && is_unreplayed d) rows) ≡ true
unfolding get_entry
find_pending id key [] found same pending = cc found
find_pending id key (d ∷ rows) {e} found same pending = elim (Bool-cases (str_eq d.id id)) [
  | inl hit ↦ let e_is : some d ≡ some e = rw hit at found in rw (head_passes e_is) refl
  | inr miss ↦
      let rest = find_pending id key rows (rw miss at found) same pending in
      elim (Bool-cases (str_eq d.dedupe_key key && is_unreplayed d)) [
        | inl head ↦ rw head refl
        | inr skip ↦ rw skip rest
      ]
]
  where
    head_passes : some d ≡ some e → (str_eq d.dedupe_key key && is_unreplayed d) ≡ true
    head_passes h = ground arith

-- Sending an event, or replaying a dead letter by its id.
pub data Action : Type 0 where
  sending : (ℕ → Attempt) → Stamp → WebhookPayload → Action
  replaying : (ℕ → Attempt) → Stamp → String → Action

module _ (p : WebhookPlatform) (c : WebhookConfig) where
  -- Each row's key is that of its webhook id and body.
  abbrev pub IsKeyed : DeadLetters → Type 0
  IsKeyed rows =
      All (λ e. e.dedupe_key ≡ generate_dedupe_key p.stringify p.sha256 e.webhook_id e.body) rows

  get_entry_keyed :
      (id : String) (rows : DeadLetters) {e : WebhookDlqEntry}
      → get_entry id rows ≡ some e
      → IsKeyed rows
      → e.dedupe_key ≡ generate_dedupe_key p.stringify p.sha256 e.webhook_id e.body
  unfolding get_entry
  get_entry_keyed id [] found h = cc found
  get_entry_keyed id (d ∷ rows) {e} found (q, h) = elim (Bool-cases (str_eq d.id id)) [
    | inl hit ↦ let e_is : some d ≡ some e = rw hit at found in head_keyed e_is
    | inr miss ↦ get_entry_keyed id rows (rw miss at found) h
  ]
    where
      head_keyed :
          some d ≡ some e
          → e.dedupe_key ≡ generate_dedupe_key p.stringify p.sha256 e.webhook_id e.body
      head_keyed h = ground arith

  -- A replay of a pending dead letter sends nothing: the letter is found to be its own duplicate, and
  -- is marked as replayed. Each row of the table has the key of its webhook id and body.
  pub pending_replay_sends_nothing :
      (remote : ℕ → Attempt) (stamp : Stamp) (id : String) (s : WebhookState) (e : WebhookDlqEntry)
      → IsKeyed s.dead_letters
      → get_entry id s.dead_letters ≡ some e
      → is_unreplayed e ≡ true
      → replay_dlq_entry p c remote stamp id s ≡ (
        deduplicated,
        0,
        record { dead_letters = mark_replayed stamp.now id s.dead_letters; hosts = s.hosts },
      )
  unfolding replay_dlq_entry
  pending_replay_sends_nothing remote stamp id s e keyed found pending =
      let key = generate_dedupe_key p.stringify p.sha256 e.webhook_id e.body in
      let known =
        find_pending id key s.dead_letters found
          ((eq_iff _ _).1 (get_entry_keyed id s.dead_letters found keyed)) pending in
      rw (found, pending, known) refl

  keep_if-IsKeyed :
      (test : WebhookDlqEntry → Bool) (rows : DeadLetters)
      → IsKeyed rows
      → IsKeyed (keep_if test rows)
  keep_if-IsKeyed test [] h = tt
  keep_if-IsKeyed test (e ∷ rows) (q, h) = elim (Bool-cases (test e)) [
    | inl stays ↦ rw stays (q, keep_if-IsKeyed test rows h)
    | inr goes ↦ rw goes (keep_if-IsKeyed test rows h)
  ]

  evict_oldest-IsKeyed : (rows : DeadLetters) → IsKeyed rows → IsKeyed (evict_oldest rows)
  unfolding evict_oldest delete_entry
  evict_oldest-IsKeyed rows h = without (oldest_pending rows)
    where
      without : (o : Option WebhookDlqEntry) → IsKeyed (delete_found rows o)
      without none = h
      without (some e) = keep_if-IsKeyed (λ d. not (str_eq d.id e.id)) rows h

  append-IsKeyed :
      (rows : DeadLetters) (e : WebhookDlqEntry)
      → e.dedupe_key ≡ generate_dedupe_key p.stringify p.sha256 e.webhook_id e.body
      → IsKeyed rows
      → IsKeyed (rows ++ e ∷ [])
  append-IsKeyed [] e q h = (q, tt)
  append-IsKeyed (d ∷ rows) e q (r, h) = (r, append-IsKeyed rows e q h)

  recorded_in-IsKeyed :
      (e : WebhookDlqEntry) (room : DeadLetters) (hosts : Table HostWindow)
      → e.dedupe_key ≡ generate_dedupe_key p.stringify p.sha256 e.webhook_id e.body
      → IsKeyed room
      → IsKeyed
          (recorded_in p c hosts
            (inserted p.stringify p.sha256 room (insert_dead_letter e room))).1.dead_letters
  unfolding insert_dead_letter
  recorded_in-IsKeyed e room hosts q h = elim (Bool-cases (is_some (get_entry e.id room))) [
    | inl taken ↦ rw taken h
    | inr free ↦ elim (Bool-cases (has_dedupe_key e.dedupe_key room)) [
      | inl known ↦ rw (free, known) h
      | inr new ↦ rw (free, new) (append-IsKeyed room e q h)
    ]
  ]

  persist_to_dlq-IsKeyed :
      (stamp : Stamp) (payload : WebhookPayload) (failure : DeliveryFailure) (s : WebhookState)
      → IsKeyed s.dead_letters
      → IsKeyed (persist_to_dlq p c stamp payload failure s).1.dead_letters
  unfolding add_entry add_counted
  persist_to_dlq-IsKeyed stamp payload failure s h =
      elim (Bool-cases (leb c.dlq.max_capacity (get_pending_count s.dead_letters))) [
        | inl full ↦
            rw full (recorded_in-IsKeyed _ _ s.hosts refl (evict_oldest-IsKeyed s.dead_letters h))
        | inr roomy ↦ rw roomy (recorded_in-IsKeyed _ _ s.hosts refl h)
      ]

  after_post-IsKeyed :
      (stamp : Stamp) (payload : WebhookPayload) (s : WebhookState)
      (rest : SendResult × WebhookState) (o : PostOutcome)
      → IsKeyed s.dead_letters
      → IsKeyed rest.1.dead_letters
      → IsKeyed (after_post p c stamp payload s rest o).1.dead_letters
  after_post-IsKeyed stamp payload s rest delivered h later = h
  after_post-IsKeyed stamp payload s rest no_response h later = later
  after_post-IsKeyed stamp payload s rest (refused status) h later =
      elim (Bool-cases (leb 400 status && ltb status 500)) [
        | inl final ↦ rw final (persist_to_dlq-IsKeyed stamp payload (delivery_4xx status) s h)
        | inr again ↦ rw again later
      ]

  send_attempts-IsKeyed :
      (remote : ℕ → Attempt) (stamp : Stamp) (left attempt : ℕ) (payload : WebhookPayload)
      (s : WebhookState)
      → IsKeyed s.dead_letters
      → IsKeyed (send_attempts p c remote stamp left attempt payload s).1.dead_letters
  unfolding send_attempts
  send_attempts-IsKeyed remote stamp zero attempt payload s h =
      persist_to_dlq-IsKeyed stamp payload retry_exhausted s h
  send_attempts-IsKeyed remote stamp (suc left) attempt payload s h =
      let failed = with_retry_count p c (suc attempt) payload in
      let host = p.hostname payload.url in
      let checked = check_host_rate_limit p c (remote attempt).now host s.hosts in
      let next : WebhookState = record { dead_letters = s.dead_letters; hosts = checked.1 } in
      let rest = send_attempts-IsKeyed remote stamp left (suc attempt) failed next h in
      elim (Bool-cases (p.is_safe_url payload.url)) [
        | inr unsafe ↦ rw unsafe (persist_to_dlq-IsKeyed stamp payload ssrf_blocked s h)
        | inl safe ↦ elim (Bool-cases checked.0) [
          | inr limited ↦
              rw (safe, limited) (persist_to_dlq-IsKeyed stamp payload (rate_limited host) next h)
          | inl allowed ↦
              rw (safe, allowed)
                (after_post-IsKeyed stamp failed next
                  (send_attempts p c remote stamp left (suc attempt) failed next)
                  (remote attempt).outcome h rest)
        ]
      ]

  send-IsKeyed :
      (remote : ℕ → Attempt) (stamp : Stamp) (payload : WebhookPayload) (s : WebhookState)
      → IsKeyed s.dead_letters
      → IsKeyed (send p c remote stamp payload s).1.dead_letters
  unfolding send
  send-IsKeyed remote stamp payload s h =
      let bytes = p.byte_length (p.stringify payload.event_data) in
      elim (Bool-cases (ltb c.max_payload_size_bytes bytes)) [
        | inl large ↦ rw large (persist_to_dlq-IsKeyed stamp payload (payload_too_large bytes) s h)
        | inr fits ↦ rw fits (send_attempts-IsKeyed remote stamp c.max_attempts 0 payload s h)
      ]

  mark_replayed-IsKeyed :
      (now id : String) (rows : DeadLetters) → IsKeyed rows → IsKeyed (mark_replayed now id rows)
  unfolding mark_replayed
  mark_replayed-IsKeyed now id [] h = tt
  mark_replayed-IsKeyed now id (e ∷ rows) (q, h) = elim (Bool-cases (str_eq e.id id)) [
    | inl hit ↦ rw hit (q, mark_replayed-IsKeyed now id rows h)
    | inr miss ↦ rw miss (q, mark_replayed-IsKeyed now id rows h)
  ]

  abbrev pub act : Action → WebhookState → WebhookState
  act (sending remote stamp payload) s = (send p c remote stamp payload s).1
  act (replaying remote stamp id) s = (replay_dlq_entry p c remote stamp id s).2

  abbrev pub act_all : List Action → WebhookState → WebhookState
  act_all [] s = s
  act_all (a ∷ actions) s = act_all actions (act a s)

  abbrev pub SendsNothing : ReplayResult × ℕ × WebhookState → Type 0
  SendsNothing x =
      (x.1 ≡ 0) × ((x.0 ≡ entry_not_found) ⊎ ((x.0 ≡ already_replayed) ⊎ (x.0 ≡ deduplicated)))

  replay_dlq_entry_cases :
      (remote : ℕ → Attempt) (stamp : Stamp) (id : String) (s : WebhookState)
      → IsKeyed s.dead_letters
      → SendsNothing (replay_dlq_entry p c remote stamp id s)
        × IsKeyed (replay_dlq_entry p c remote stamp id s).2.dead_letters
  unfolding replay_dlq_entry
  replay_dlq_entry_cases remote stamp id s h = elim (Option-cases (get_entry id s.dead_letters)) [
    | inl absent ↦ rw absent ((refl, inl refl), h)
    | inr (e, found) ↦ elim (Bool-cases (is_unreplayed e)) [
      | inr done ↦ rw (found, done) ((refl, inr (inl refl)), h)
      | inl pending ↦
          rw (pending_replay_sends_nothing remote stamp id s e h found pending)
            ((refl, inr (inr refl)), mark_replayed-IsKeyed stamp.now id s.dead_letters h)
    ]
  ]

  act_all-IsKeyed :
      (actions : List Action) (s : WebhookState)
      → IsKeyed s.dead_letters
      → IsKeyed (act_all actions s).dead_letters
  act_all-IsKeyed [] s h = h
  act_all-IsKeyed (sending remote stamp payload ∷ actions) s h =
      act_all-IsKeyed actions _ (send-IsKeyed remote stamp payload s h)
  act_all-IsKeyed (replaying remote stamp id ∷ actions) s h =
      act_all-IsKeyed actions _ (replay_dlq_entry_cases remote stamp id s h).1

  -- No replay ever posts: from the empty table, after any deliveries and replays, a replay makes no
  -- post, and says that the letter is not there, was replayed already, or is a duplicate.
  pub replay_never_posts :
      (actions : List Action) (hosts : Table HostWindow) (remote : ℕ → Attempt) (stamp : Stamp)
      (id : String)
      → SendsNothing (
          replay_dlq_entry p c remote stamp id
            (act_all actions (record { dead_letters = []; hosts = hosts })))
  replay_never_posts actions hosts remote stamp id =
      (replay_dlq_entry_cases remote stamp id
        (act_all actions (record { dead_letters = []; hosts = hosts }))
        (act_all-IsKeyed actions (record { dead_letters = []; hosts = hosts }) tt)).0
