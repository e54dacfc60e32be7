-- ===== src/Limiter/Windows.antt =====
-- middleware/rateLimiter.ts: how many requests of a key pass in a window.
use talenttrust_backend.Prelude.{
  ℕ, suc, ◌+◌, ◌≤◌, ◌<◌, ◌≡◌, true, false, if◌then◌else◌, none, some, List, [], ◌∷◌, All, arith,
  ◌⊎◌, inl, inr, Bool-cases,
}
use talenttrust_backend.Limiter.{
  RateLimiterConfig, KeyState, unseen, admit, limit_request, sweep_store, sweep_window_ms,
}

-- What happens to a key: a request, or a sweep of the store by its timer.
pub data Event : Type 0 where
  requested : ℕ → Event
  swept : ℕ → Event

abbrev pub time_of : Event → ℕ
time_of (requested t) = t
time_of (swept t) = t

-- How many requests are passed on.
unfoldable pub passes : RateLimiterConfig → List Event → KeyState → ℕ
passes c [] s = 0
passes c (requested t ∷ es) s =
    let a = limit_request c t s in
    let rest = passes c es a.kept in if a.passed then suc rest else rest
passes c (swept t ∷ es) s = passes c es (sweep_store sweep_window_ms t s)

-- Within the window from `w`: the window of the entry is this one, at most the given number has
-- passed, and a block outlasts the window.
abbrev InWindow : RateLimiterConfig → ℕ → ℕ → KeyState → Type 0
InWindow c w n s = elim s.entry [
  | none ↦ ⊥
  | some e ↦
      (e.window_start ≡ w)
      × (n ≤ e.count)
      × (n ≤ c.max_requests)
      × (e.blocked ≡ true → w + c.window_ms ≤ e.blocked_until)
]

-- A duration other than the configured one is only noted while the key is blocked.
abbrev pub Unescalated : RateLimiterConfig → KeyState → Type 0
Unescalated c s = elim s.abuse [
  | none ↦ Unit
  | some a ↦
      (a.block_duration ≡ c.block_duration_ms)
      ⊎ (elim s.entry [ none ↦ false | some e ↦ e.blocked ] ≡ true)
]

request-Unescalated :
    (c : RateLimiterConfig) (t : ℕ) (s : KeyState)
    → Unescalated c s
    → Unescalated c (limit_request c t s).kept
unfolding limit_request admit
request-Unescalated c t s h = ground arith

first-InWindow :
    (c : RateLimiterConfig) (w : ℕ)
    → c.window_ms ≤ c.block_duration_ms
    → c.window_ms ≤ c.max_block_duration_ms
    → let a = limit_request c w unseen in InWindow c w (if a.passed then 1 else 0) a.kept
unfolding limit_request admit
first-InWindow c w h k = ground arith

request-InWindow :
    (c : RateLimiterConfig) (w n t : ℕ) (s : KeyState)
    → c.window_ms ≤ c.block_duration_ms
    → c.window_ms ≤ c.max_block_duration_ms
    → w ≤ t
    → t < w + c.window_ms
    → Unescalated c s
    → InWindow c w n s
    → let a = limit_request c t s in InWindow c w (if a.passed then suc n else n) a.kept
unfolding limit_request admit
request-InWindow c w n t s h k from to u v = ground arith

-- A sweep within a window that is no longer than its own changes nothing.
sweep-InWindow :
    (c : RateLimiterConfig) (w n t : ℕ) (s : KeyState)
    → c.window_ms ≤ sweep_window_ms
    → t < w + c.window_ms
    → InWindow c w n s
    → (InWindow c w n (sweep_store sweep_window_ms t s))
      × (Unescalated c s → Unescalated c (sweep_store sweep_window_ms t s))
unfolding sweep_store
sweep-InWindow c w n t s short to i = ground arith

passes-InWindow :
    (c : RateLimiterConfig) (w n : ℕ) (es : List Event) (s : KeyState)
    → c.window_ms ≤ sweep_window_ms
    → c.window_ms ≤ c.block_duration_ms
    → c.window_ms ≤ c.max_block_duration_ms
    → All (λ e. (w ≤ time_of e) × (time_of e < w + c.window_ms)) es
    → Unescalated c s
    → InWindow c w n s
    → n + passes c es s ≤ c.max_requests
unfolding passes
passes-InWindow c w n [] s short h k v u i = ground (arith, i)
passes-InWindow c w n (swept t ∷ es) s short h k ((from, to), v) u i =
    let (i', u') = sweep-InWindow c w n t s short to i in
    passes-InWindow c w n es _ short h k v (u' u) i'
passes-InWindow c w n (requested t ∷ es) s short h k ((from, to), v) u i =
    let next = request-InWindow c w n t s h k from to u i in
    let u' = request-Unescalated c t s u in
    elim (Bool-cases (limit_request c t s).passed) [
      | inl pass ↦
          rw pass (omega (arith, passes-InWindow c w (suc n) es _ short h k v u' (rw pass at next)))
      | inr refused ↦ rw refused (passes-InWindow c w n es _ short h k v u' (rw refused at next))
    ]

-- Where the window is no longer than the sweep's 60 seconds and a block is at least as long as the
-- window, of the requests of a new key in the window that its first request opens, at most the
-- configured number is passed on, however many there are and however often the store is swept.
pub window_bounded :
    (c : RateLimiterConfig) (w : ℕ) (es : List Event)
    → c.window_ms ≤ sweep_window_ms
    → c.window_ms ≤ c.block_duration_ms
    → c.window_ms ≤ c.max_block_duration_ms
    → All (λ e. (w ≤ time_of e) × (time_of e < w + c.window_ms)) es
    → passes c (requested w ∷ es) unseen ≤ c.max_requests
unfolding passes
window_bounded c w es short h k v =
    let first = first-InWindow c w h k in
    let u = request-Unescalated c w unseen tt in
    elim (Bool-cases (limit_request c w unseen).passed) [
      | inl pass ↦
          rw pass (omega (arith, passes-InWindow c w 1 es _ short h k v u (rw pass at first)))
      | inr refused ↦
          rw refused (omega (arith, passes-InWindow c w 0 es _ short h k v u (rw refused at first)))
    ]
