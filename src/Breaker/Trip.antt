-- ===== src/Breaker/Trip.antt =====
-- Calls that do not overlap: how the breaker trips, fails fast and recovers.
use talenttrust_backend.Prelude.{
  ℕ, ◌+◌, ◌≤◌, ◌<◌, ◌≡◌, refl, ◌≢◌, ◌⊎◌, inl, inr, Bool, true, false, some, List, [], ◌∷◌, All,
  length, arith,
}
use talenttrust_backend.Breaker.{
  closed, open_state, half_open, Breaker, Outcome, returned, threw, circuit_open, execute,
}

-- Open since the failure at `t`, or probing after it with `n` successes.
abbrev IsReady : ℕ → ℕ → Breaker → Type 0
IsReady t n b =
    ((b.state ≡ open_state) × (b.last_failure_time ≡ some t) × (n ≡ 0))
    ⊎ ((b.state ≡ half_open) × (b.probe_in_flight ≡ false) × (b.success_count ≡ n))

module _ {ℓ κ} {E : Type ℓ} {A : Type κ} where
  -- Calls at the given times, each settled at once.
  unfoldable pub calls : List (ℕ × Outcome E A) → Breaker → Breaker
  calls [] b = b
  calls ((now, fn) ∷ rest) b = calls rest (execute now now fn b).0

  -- The result of each of these calls.
  unfoldable pub results : List (ℕ × Outcome E A) → Breaker → List (Outcome E A)
  results [] b = []
  results ((now, fn) ∷ rest) b = (execute now now fn b).1 ∷ results rest (execute now now fn b).0

  abbrev pub is_returned : Outcome E A → Bool
  is_returned (returned a) = true
  is_returned (threw e) = false
  is_returned (circuit_open n) = false

  fail_once :
      (now : ℕ) (fn : Outcome E A) (b : Breaker)
      → is_returned fn ≡ false
      → b.state ≡ closed
      → b.failure_count + 1 < b.failure_threshold
      → let c = (execute now now fn b).0 in
        (c.state ≡ closed)
        × (c.failure_count ≡ b.failure_count + 1)
        × (c.failure_threshold ≡ b.failure_threshold)
  unfolding execute
  fail_once now fn b f c below = ground arith

  fail_last :
      (now : ℕ) (fn : Outcome E A) (b : Breaker)
      → is_returned fn ≡ false
      → b.state ≡ closed
      → b.failure_count + 1 ≡ b.failure_threshold
      → let c = (execute now now fn b).0 in
        (c.state ≡ open_state) × (c.last_failure_time ≡ some now)
  unfolding execute
  fail_last now fn b f c below = ground arith

  -- A closed breaker stays closed under consecutive failing calls while their number, with the
  -- failures counted before, is below the threshold; the failing call that reaches the threshold
  -- opens it and dates the failure.
  pub trip_at_threshold :
      (cs : List (ℕ × Outcome E A)) (now : ℕ) (fn : Outcome E A) (b : Breaker)
      → b.state ≡ closed
      → All (λ c. is_returned c.1 ≡ false) cs
      → is_returned fn ≡ false
      → b.failure_count + length cs + 1 ≡ b.failure_threshold
      → let c = (execute now now fn (calls cs b)).0 in
        ((calls cs b).state ≡ closed) × (c.state ≡ open_state) × (c.last_failure_time ≡ some now)
  unfolding calls
  trip_at_threshold [] now fn b c h f e =
      let (opened, dated) = fail_last now fn b f c (omega arith) in (c, opened, dated)
  trip_at_threshold ((t, g) ∷ cs) now fn b c (p, h) f e =
      let (shut, counted, same) = fail_once t g b p c (omega arith) in
      trip_at_threshold cs now fn (execute t t g b).0 shut h f (omega arith)

  refuse_once :
      (now t : ℕ) (fn : Outcome E A) (b : Breaker)
      → b.state ≡ open_state
      → b.last_failure_time ≡ some t
      → now < t + b.timeout
      → execute now now fn b ≡ (b, circuit_open b.name)
  unfolding execute
  refuse_once now t fn b o d early = ground arith

  -- Until the timeout since the last failure has passed, an open breaker refuses every call with
  -- the open-circuit error, and no call changes it, whatever its operation would have done.
  open_fails_fast :
      (cs : List (ℕ × Outcome E A)) (t : ℕ) (b : Breaker)
      → b.state ≡ open_state
      → b.last_failure_time ≡ some t
      → All (λ c. c.0 < t + b.timeout) cs
      → (calls cs b ≡ b) × All (λ r. r ≡ circuit_open b.name) (results cs b)
  unfolding calls results
  open_fails_fast [] t b o d h = (refl, tt)
  open_fails_fast ((now, fn) ∷ cs) t b o d (early, h) =
      ground (arith, refuse_once now t fn b o d early, open_fails_fast cs t b o d h)

  succeed_once :
      (now t n : ℕ) (fn : Outcome E A) (b : Breaker)
      → is_returned fn ≡ true
      → t + b.timeout ≤ now
      → IsReady t n b
      → n + 1 < b.success_threshold
      → let c = (execute now now fn b).0 in
        (c.state ≡ half_open)
        × (c.probe_in_flight ≡ false)
        × (c.success_count ≡ n + 1)
        × (c.success_threshold ≡ b.success_threshold)
        × (c.timeout ≡ b.timeout)
  unfolding execute
  succeed_once now t n fn b f late r below = ground arith

  succeed_last :
      (now t n : ℕ) (fn : Outcome E A) (b : Breaker)
      → is_returned fn ≡ true
      → t + b.timeout ≤ now
      → IsReady t n b
      → n + 1 ≡ b.success_threshold
      → let c = (execute now now fn b).0 in (c.state ≡ closed) × (c.failure_count ≡ 0)
  unfolding execute
  succeed_last now t n fn b f late r reached = ground arith

  recover_from :
      (cs : List (ℕ × Outcome E A)) (now t n : ℕ) (fn : Outcome E A) (b : Breaker)
      → IsReady t n b
      → All (λ c. (t + b.timeout ≤ c.0) × (is_returned c.1 ≡ true)) cs
      → t + b.timeout ≤ now
      → is_returned fn ≡ true
      → n + length cs + 1 ≡ b.success_threshold
      → let c = (execute now now fn (calls cs b)).0 in
        ((calls cs b).state ≢ closed) × (c.state ≡ closed) × (c.failure_count ≡ 0)
  unfolding calls
  recover_from [] now t n fn b r h late f e =
      let (shut, zeroed) = succeed_last now t n fn b f late r (omega arith) in
      (λ c. ground arith, shut, zeroed)
  recover_from ((u, g) ∷ cs) now t n fn b r ((later, p), h) late f e =
      let (halved, idle, counted, same, wait) = succeed_once u t n g b p later r (omega arith) in
      recover_from cs now t (n + 1) fn (execute u u g b).0 (inr (halved, idle, counted)) (rw wait h)
        (rw wait late) f (omega arith)

  -- Once the timeout since the last failure has passed, an open breaker closes after exactly as
  -- many consecutive successful calls as its success threshold, and forgets its failures.
  pub open_recovers :
      (cs : List (ℕ × Outcome E A)) (now t : ℕ) (fn : Outcome E A) (b : Breaker)
      → b.state ≡ open_state
      → b.last_failure_time ≡ some t
      → All (λ c. (t + b.timeout ≤ c.0) × (is_returned c.1 ≡ true)) cs
      → t + b.timeout ≤ now
      → is_returned fn ≡ true
      → length cs + 1 ≡ b.success_threshold
      → let c = (execute now now fn (calls cs b)).0 in
        ((calls cs b).state ≢ closed) × (c.state ≡ closed) × (c.failure_count ≡ 0)
  open_recovers cs now t fn b o d h late f e =
      recover_from cs now t 0 fn b (inl (o, d, refl)) h late f (omega arith)

  -- A call that fails after the timeout, on an open breaker, opens it again and starts the wait
  -- afresh from its own time.
  pub probe_failure_reopens :
      (now later t : ℕ) (fn : Outcome E A) (b : Breaker)
      → b.state ≡ open_state
      → b.last_failure_time ≡ some t
      → t + b.timeout ≤ now
      → is_returned fn ≡ false
      → let c = (execute now later fn b).0 in
        (c.state ≡ open_state) × (c.last_failure_time ≡ some later) × (c.success_count ≡ 0)
  unfolding execute
  probe_failure_reopens now later t fn b o d late f = ground arith
