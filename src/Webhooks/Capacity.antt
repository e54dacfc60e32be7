-- ===== src/Webhooks/Capacity.antt =====
-- queue/webhook-dlq.ts: the number of pending dead letters.
use talenttrust_backend.Prelude.{
  ok, ℕ, ◌+◌, ◌≤◌, ◌<◌, String, Bool, true, false, ◌&&◌, Option, none, some, [], ◌∷◌, ◌++◌, find,
  is_some, str_eq, eq_refl, leb, ◌≡◌, refl, ◌⊎◌, inl, inr, arith, Bool-cases, Option-cases,
}
use talenttrust_backend.Envelope.{JsValue}
use talenttrust_backend.Webhooks.DlqStorage.{
  DeadLetters, DeliveryFailure, WebhookDlqEntry, DlqConfig, add_entry, add_counted,
  insert_dead_letter, inserted, delete_entry, evict_oldest, oldest_pending, is_unreplayed,
  get_pending_count, get_entry, has_dedupe_key,
}

delete_entry_fewer :
    (id : String) (rows : DeadLetters)
    → get_pending_count (delete_entry id rows) ≤ get_pending_count rows
unfolding get_pending_count delete_entry
delete_entry_fewer id [] = omega arith
delete_entry_fewer id (e ∷ rows) = ground (arith, delete_entry_fewer id rows)

abbrev has_pending : String → DeadLetters → Bool
has_pending id rows = is_some (find (λ e. str_eq e.id id && is_unreplayed e) rows)

delete_entry_one :
    (id : String) (rows : DeadLetters)
    → has_pending id rows ≡ true
    → get_pending_count (delete_entry id rows) + 1 ≤ get_pending_count rows
unfolding get_pending_count delete_entry
delete_entry_one id [] h = cc h
delete_entry_one id (e ∷ rows) h = elim (Bool-cases (str_eq e.id id && is_unreplayed e)) [
  | inl hit ↦ ground (arith, delete_entry_fewer id rows)
  | inr miss ↦ let rest = delete_entry_one id rows (rw miss at h) in ground arith
]

-- The row to evict is pending.
oldest_pending_there :
    (rows : DeadLetters) {e : WebhookDlqEntry}
    → oldest_pending rows ≡ some e
    → has_pending e.id rows ≡ true
unfolding oldest_pending
oldest_pending_there [] h = cc h
oldest_pending_there (d ∷ rows) {e} h = elim (Option-cases (oldest_pending rows)) [
  | inl bare ↦ ground (arith, eq_refl e.id)
  | inr (f, found) ↦ let rest = oldest_pending_there rows found in ground (arith, eq_refl e.id)
]

none_pending : (rows : DeadLetters) → oldest_pending rows ≡ none → get_pending_count rows ≡ 0
unfolding oldest_pending get_pending_count
none_pending [] h = refl
none_pending (d ∷ rows) h = ground (arith, none_pending rows)

evict_oldest_cases :
    (rows : DeadLetters)
    → (get_pending_count (evict_oldest rows) + 1 ≤ get_pending_count rows)
      ⊎ (get_pending_count (evict_oldest rows) ≡ 0)
unfolding evict_oldest
evict_oldest_cases rows = elim (Option-cases (oldest_pending rows)) [
  | inl bare ↦ inr (rw bare (none_pending rows bare))
  | inr (e, found) ↦ inl (rw found (delete_entry_one e.id rows (oldest_pending_there rows found)))
]

gt_of_leb : (a b : ℕ) → leb a b ≡ false → b < a
gt_of_leb a b h = ground arith

pending_append :
    (rows : DeadLetters) (e : WebhookDlqEntry)
    → get_pending_count (rows ++ e ∷ []) ≤ get_pending_count rows + 1
unfolding get_pending_count
pending_append [] e = ground arith
pending_append (d ∷ rows) e = ground (arith, pending_append rows e)

insert_dead_letter_more :
    (e : WebhookDlqEntry) (rows : DeadLetters) (stringify : JsValue → String)
    (sha256 : String → String)
    → get_pending_count (inserted stringify sha256 rows (insert_dead_letter e rows)).1
      ≤ get_pending_count rows + 1
unfolding insert_dead_letter
insert_dead_letter_more e rows stringify sha256 =
    elim (Bool-cases (is_some (get_entry e.id rows))) [
      | inl taken ↦ rw taken (omega arith)
      | inr free ↦ elim (Bool-cases (has_dedupe_key e.dedupe_key rows)) [
        | inl known ↦ rw (free, known) (omega arith)
        | inr new ↦ rw (free, new) (pending_append rows e)
      ]
    ]

inserted_within :
    (max : ℕ) (e : WebhookDlqEntry) (rows : DeadLetters) (stringify : JsValue → String)
    (sha256 : String → String)
    → get_pending_count rows + 1 ≤ max
    → get_pending_count (inserted stringify sha256 rows (insert_dead_letter e rows)).1 ≤ max
inserted_within max e rows stringify sha256 room =
    let more = insert_dead_letter_more e rows stringify sha256 in omega (arith, more, room)

evicted_room :
    (max : ℕ) (rows : DeadLetters)
    → 0 < max
    → get_pending_count rows ≤ max
    → get_pending_count (evict_oldest rows) + 1 ≤ max
evicted_room max rows some_room within = elim (evict_oldest_cases rows) [
  | inl fewer ↦ omega (arith, fewer, within)
  | inr bare ↦ omega (arith, bare, some_room)
]

-- With room for at least one, adding a dead letter leaves no more pending ones than the capacity,
-- where nothing else runs between its count, its eviction and its insertion.
pub add_entry_within_capacity :
    (stringify : JsValue → String) (sha256 : String → String) (c : DlqConfig)
    (id now webhook_id url : String) (body : JsValue) (retries : ℕ) (failure : DeliveryFailure)
    (secret : Option String) (rows : DeadLetters)
    → 0 < c.max_capacity
    → get_pending_count rows ≤ c.max_capacity
    → get_pending_count
        (add_entry stringify sha256 c id now webhook_id url body retries failure secret rows).1
      ≤ c.max_capacity
unfolding add_entry add_counted
add_entry_within_capacity stringify sha256 c id now webhook_id url body retries failure secret rows
      some_room within =
    elim (Bool-cases (leb c.max_capacity (get_pending_count rows))) [
      | inl full ↦ rw full (
          inserted_within c.max_capacity _ (evict_oldest rows) stringify sha256
            (evicted_room c.max_capacity rows some_room within))
      | inr roomy ↦
          let below = gt_of_leb c.max_capacity (get_pending_count rows) roomy in
          rw roomy (inserted_within c.max_capacity _ rows stringify sha256 (omega (arith, below)))
    ]

pending_added :
    (rows : DeadLetters) (e : WebhookDlqEntry)
    → is_unreplayed e ≡ true
    → get_pending_count (rows ++ e ∷ []) ≡ get_pending_count rows + 1
unfolding get_pending_count
pending_added [] e h = ground (arith, h)
pending_added (d ∷ rows) e h = ground (arith, pending_added rows e h)

below_capacity : (n max : ℕ) → n + 1 ≡ max → leb max n ≡ false
below_capacity n max h = ground arith

-- A letter that is inserted after a count below the capacity is one more pending letter.
counted_below :
    (stringify : JsValue → String) (sha256 : String → String) (c : DlqConfig) (count : ℕ)
    (e : WebhookDlqEntry) (rows : DeadLetters)
    → count + 1 ≡ c.max_capacity
    → is_unreplayed e ≡ true
    → (add_counted stringify sha256 c count e rows).0 ≡ ok tt
    → get_pending_count (add_counted stringify sha256 c count e rows).1 ≡ get_pending_count rows + 1
unfolding add_counted insert_dead_letter
counted_below stringify sha256 c count e rows last pending done =
    let one_more = pending_added rows e pending in
    let roomy = below_capacity count c.max_capacity last in
    elim (Bool-cases (is_some (get_entry e.id rows))) [
      | inl taken ↦ cc (rw (roomy, taken) at done)
      | inr free ↦ elim (Bool-cases (has_dedupe_key e.dedupe_key rows)) [
        | inl known ↦ cc (rw (roomy, free, known) at done)
        | inr new ↦ rw (roomy, free, new) one_more
      ]
    ]

-- Two additions that both counted the pending letters while there was room for one, before either
-- inserted, leave one more pending letter than the capacity if both succeed.
pub overlapping_adds_exceed :
    (stringify : JsValue → String) (sha256 : String → String) (c : DlqConfig)
    (e d : WebhookDlqEntry) (rows : DeadLetters)
    → get_pending_count rows + 1 ≡ c.max_capacity
    → is_unreplayed e ≡ true
    → is_unreplayed d ≡ true
    → let add = add_counted stringify sha256 c (get_pending_count rows) in
      (add e rows).0 ≡ ok tt
      → (add d (add e rows).1).0 ≡ ok tt
      → get_pending_count (add d (add e rows).1).1 ≡ c.max_capacity + 1
overlapping_adds_exceed stringify sha256 c e d rows last new newer first second =
    let one = counted_below stringify sha256 c _ e rows last new first in
    let two = counted_below stringify sha256 c _ d _ last newer second in
    omega (arith, one, two, last)
