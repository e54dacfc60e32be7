-- ===== src/Webhooks/Delivery.antt =====
-- services/webhook.service.ts: a delivery ends, and no event is dropped.
use talenttrust_backend.Prelude.{
  ℕ, zero, suc, ◌≤◌, String, true, false, ◌&&◌, leb, ltb, [], ◌∷◌, ◌++◌, is_some, eq_refl, Table,
  ◌≡◌, refl, ◌⊎◌, inl, inr, arith, Bool-cases,
}
use talenttrust_backend.Webhooks.DlqStorage.{
  DeadLetters, DeliveryFailure, delivery_4xx, retry_exhausted, ssrf_blocked, rate_limited,
  payload_too_large, WebhookDlqEntry, add_entry, add_counted, insert_dead_letter, inserted,
  get_entry, has_dedupe_key, generate_dedupe_key,
}
use talenttrust_backend.Webhooks.{
  WebhookPayload, Attempt, PostOutcome, delivered, refused, no_response, WebhookConfig,
  WebhookPlatform, Stamp, WebhookState, SendResult, HostWindow, check_host_rate_limit,
  persist_to_dlq, recorded_in, with_retry_count, after_post, send_attempts, send,
}

has_dedupe_key-append :
    (rows : DeadLetters) (e : WebhookDlqEntry) → has_dedupe_key e.dedupe_key (rows ++ e ∷ []) ≡ true
has_dedupe_key-append [] e = rw (eq_refl e.dedupe_key) refl
has_dedupe_key-append (d ∷ rows) e = ground (arith, has_dedupe_key-append rows e)

module _ (p : WebhookPlatform) (c : WebhookConfig) where
  -- What a delivery that made no post comes to: it threw, or the key is in the table.
  abbrev Recorded : String → SendResult × WebhookState → Type 0
  Recorded key (r, s) =
      (r.posts ≡ 0)
      × (r.sent ≡ false)
      × ((r.thrown ≡ true) ⊎ (has_dedupe_key key s.dead_letters ≡ true))

  recorded_in-Recorded :
      (e : WebhookDlqEntry) (room : DeadLetters) (hosts : Table HostWindow)
      → Recorded e.dedupe_key
          (recorded_in p c hosts (inserted p.stringify p.sha256 room (insert_dead_letter e room)))
  unfolding insert_dead_letter
  recorded_in-Recorded e room hosts = elim (Bool-cases (is_some (get_entry e.id room))) [
    | inl taken ↦ rw taken (refl, refl, inl refl)
    | inr free ↦ elim (Bool-cases (has_dedupe_key e.dedupe_key room)) [
      | inl known ↦ rw (free, known) (refl, refl, inr known)
      | inr new ↦ rw (free, new) (refl, refl, inr (has_dedupe_key-append room e))
    ]
  ]

  abbrev key_of : WebhookPayload → String
  key_of payload = generate_dedupe_key p.stringify p.sha256 payload.id payload.event_data

  persist_to_dlq-Recorded :
      (stamp : Stamp) (payload : WebhookPayload) (failure : DeliveryFailure) (s : WebhookState)
      → Recorded (key_of payload) (persist_to_dlq p c stamp payload failure s)
  unfolding add_entry add_counted
  persist_to_dlq-Recorded stamp payload failure s = recorded_in-Recorded _ _ s.hosts

  -- At most so many posts, and the event was delivered, the call threw, or the key is in the table.
  abbrev DeliveryEnds : ℕ → String → SendResult × WebhookState → Type 0
  DeliveryEnds n key (r, s) =
      (r.posts ≤ n)
      × ((r.sent ≡ true) ⊎ ((r.thrown ≡ true) ⊎ (has_dedupe_key key s.dead_letters ≡ true)))

  Recorded-DeliveryEnds :
      (n : ℕ) (key : String) (x : SendResult × WebhookState) → Recorded key x → DeliveryEnds n key x
  Recorded-DeliveryEnds n key (r, s) (none_posted, _, end) = (omega (arith, none_posted), inr end)

  after_post-DeliveryEnds :
      (n : ℕ) (stamp : Stamp) (payload : WebhookPayload) (s : WebhookState)
      (rest : SendResult × WebhookState) (o : PostOutcome)
      → DeliveryEnds n (key_of payload) rest
      → DeliveryEnds (suc n) (key_of payload) (after_post p c stamp payload s rest o)
  after_post-DeliveryEnds n stamp payload s rest delivered (few, end) = (omega arith, inl refl)
  after_post-DeliveryEnds n stamp payload s rest no_response (few, end) = (omega (arith, few), end)
  after_post-DeliveryEnds n stamp payload s rest (refused status) (few, end) =
      elim (Bool-cases (leb 400 status && ltb status 500)) [
        | inl final ↦
            let (none_posted, _, kept) =
              persist_to_dlq-Recorded stamp payload (delivery_4xx status) s in
            rw final (omega (arith, none_posted), inr kept)
        | inr again ↦ rw again (omega (arith, few), end)
      ]

  send_attempts-DeliveryEnds :
      (remote : ℕ → Attempt) (stamp : Stamp) (left attempt : ℕ) (payload : WebhookPayload)
      (s : WebhookState)
      → DeliveryEnds left (key_of payload) (send_attempts p c remote stamp left attempt payload s)
  unfolding send_attempts
  send_attempts-DeliveryEnds remote stamp zero attempt payload s =
      Recorded-DeliveryEnds 0 (key_of payload) (persist_to_dlq p c stamp payload retry_exhausted s)
        (persist_to_dlq-Recorded stamp payload retry_exhausted s)
  send_attempts-DeliveryEnds remote stamp (suc left) attempt payload s =
      let failed = with_retry_count p c (suc attempt) payload in
      let host = p.hostname payload.url in
      let checked = check_host_rate_limit p c (remote attempt).now host s.hosts in
      let next : WebhookState = record { dead_letters = s.dead_letters; hosts = checked.1 } in
      let rest = send_attempts-DeliveryEnds remote stamp left (suc attempt) failed next in
      elim (Bool-cases (p.is_safe_url payload.url)) [
        | inr unsafe ↦ rw unsafe (
            Recorded-DeliveryEnds (suc left) (key_of payload)
              (persist_to_dlq p c stamp payload ssrf_blocked s)
              (persist_to_dlq-Recorded stamp payload ssrf_blocked s))
        | inl safe ↦ elim (Bool-cases checked.0) [
          | inr limited ↦
              rw (safe, limited)
                (Recorded-DeliveryEnds (suc left) (key_of payload)
                  (persist_to_dlq p c stamp payload (rate_limited host) next)
                  (persist_to_dlq-Recorded stamp payload (rate_limited host) next))
          | inl allowed ↦
              rw (safe, allowed)
                (after_post-DeliveryEnds left stamp failed next
                  (send_attempts p c remote stamp left (suc attempt) failed next)
                  (remote attempt).outcome rest)
        ]
      ]

  -- A delivery posts at most as often as the policy allows, and in the end the event was delivered,
  -- the call threw, or a dead letter with the event's key is in the table.
  pub send_settles :
      (remote : ℕ → Attempt) (stamp : Stamp) (payload : WebhookPayload) (s : WebhookState)
      → ((send p c remote stamp payload s).0.posts ≤ c.max_attempts)
        × (((send p c remote stamp payload s).0.sent ≡ true)
            ⊎ (((send p c remote stamp payload s).0.thrown ≡ true)
                ⊎ (has_dedupe_key
                      (generate_dedupe_key p.stringify p.sha256 payload.id payload.event_data)
                      (send p c remote stamp payload s).1.dead_letters
                    ≡ true)))
  unfolding send
  send_settles remote stamp payload s =
      let bytes = p.byte_length (p.stringify payload.event_data) in
      elim (Bool-cases (ltb c.max_payload_size_bytes bytes)) [
        | inl large ↦ rw large (
            Recorded-DeliveryEnds c.max_attempts (key_of payload)
              (persist_to_dlq p c stamp payload (payload_too_large bytes) s)
              (persist_to_dlq-Recorded stamp payload (payload_too_large bytes) s))
        | inr fits ↦ rw fits (send_attempts-DeliveryEnds remote stamp c.max_attempts 0 payload s)
      ]
