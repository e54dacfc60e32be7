-- ===== src/Breaker/Invariant.antt =====
-- What holds of a breaker between any two steps of any calls, and the edges of its state machine.
use talenttrust_backend.Prelude.{
  ℕ, ◌+◌, ◌≤◌, ◌<◌, ◌≡◌, refl, ◌≢◌, ◌⊎◌, inl, inr, true, false, none, some, List, [], ◌∷◌, arith,
  or_else,
}
use talenttrust_backend.Breaker.{
  CircuitState, closed, open_state, half_open, Breaker, Options, create, enter, settle, get_state,
  get_stats, reset, transition_if_needed,
}

-- One atomic step of some call on a breaker: the start of an `execute`, the end of one whose
-- operation succeeded or failed, a read of the state or the counters, a reset.
pub data Event : Type 0 where
  entered : ℕ → Event
  succeeded failed : ℕ → Event
  state_read stats_read : ℕ → Event
  was_reset : Event

unfoldable pub step : Event → Breaker → Breaker
unfolding enter settle get_state get_stats reset
step (entered now) b = (enter now b).0
step (succeeded now) b = settle now true b
step (failed now) b = settle now false b
step (state_read now) b = (get_state now b).0
step (stats_read now) b = (get_stats now b).0
step was_reset b = reset b

unfoldable pub run : List Event → Breaker → Breaker
unfolding step
run [] b = b
run (e ∷ es) b = run es (step e b)

pub record IsValid (b : Breaker) : Type 0 where
  pub thresholds_pos : (0 < b.failure_threshold) × (0 < b.success_threshold)
  pub closed_below : b.state ≡ closed → b.failure_count < b.failure_threshold
  pub half_open_below : b.state ≡ half_open → b.success_count < b.success_threshold
  pub successes_probing : b.state ≢ half_open → b.success_count ≡ 0
  pub open_dated : b.state ≡ open_state → b.last_failure_time ≢ none
  pub probe_half_open : b.probe_in_flight ≡ true → b.state ≡ half_open

pub step-IsValid : (e : Event) (b : Breaker) → IsValid b → IsValid (step e b)
unfolding step
step-IsValid (entered now) b v = ground arith
step-IsValid (succeeded now) b v = ground arith
step-IsValid (failed now) b v = ground arith
step-IsValid (state_read now) b v = ground arith
step-IsValid (stats_read now) b v = ground arith
step-IsValid was_reset b v = ground arith

pub create-IsValid :
    (o : Options)
    → 0 < or_else o.failure_threshold 5
    → 0 < or_else o.success_threshold 1
    → IsValid (create o)
unfolding create
create-IsValid o p q = ground arith

-- A breaker built with positive thresholds satisfies the invariant after any sequence of steps of
-- any calls, overlapping or not: while closed its failures stay below the threshold, while half
-- open its successes do, outside half open it has no successes, while open its last failure is
-- dated, and a probe is marked in flight only while half open.
pub run-IsValid : (es : List Event) (b : Breaker) → IsValid b → IsValid (run es b)
unfolding run
run-IsValid [] b v = v
run-IsValid (e ∷ es) b v = run-IsValid es (step e b) (step-IsValid e b v)

-- The steps that look at the clock before they act.
pub data Looks : Event → ℕ → Type 0 where
  entering : (now : ℕ) → Looks (entered now) now
  reading : (now : ℕ) → Looks (state_read now) now
  counting : (now : ℕ) → Looks (stats_read now) now

-- How one step may change the state, and when. The half-open state is left by the end of any call,
-- be it the probe's or that of a call admitted before the breaker tripped.
pub data Edge (e : Event) (b : Breaker) (s : CircuitState) : Type 0 where
  stay : s ≡ b.state → Edge e b s
  trip :
      (now : ℕ)
      → e ≡ failed now
      → b.state ≡ closed
      → b.failure_count + 1 ≡ b.failure_threshold
      → s ≡ open_state
      → Edge e b s
  wake :
      (now t : ℕ)
      → Looks e now
      → b.state ≡ open_state
      → b.last_failure_time ≡ some t
      → t + b.timeout ≤ now
      → s ≡ half_open
      → Edge e b s
  heal :
      (now : ℕ)
      → e ≡ succeeded now
      → b.state ≡ half_open
      → b.success_count + 1 ≡ b.success_threshold
      → s ≡ closed
      → Edge e b s
  relapse : (now : ℕ) → e ≡ failed now → b.state ≡ half_open → s ≡ open_state → Edge e b s
  cleared : e ≡ was_reset → s ≡ closed → Edge e b s

transition_cases :
    (now : ℕ) (b : Breaker)
    → ((transition_if_needed now b).state ≡ b.state)
      ⊎ ((t : ℕ) × (b.state ≡ open_state)
          × (b.last_failure_time ≡ some t)
          × (t + b.timeout ≤ now)
          × ((transition_if_needed now b).state ≡ half_open))
unfolding transition_if_needed
transition_cases now b = ground arith

transition-Edge :
    (e : Event) (now : ℕ) (b : Breaker) → Looks e now → Edge e b (transition_if_needed now b).state
transition-Edge e now b l = elim (transition_cases now b) [
  | inl same ↦ stay same
  | inr (t, opened, dated, late, halved) ↦ wake now t l opened dated late halved
]

enter-state : (now : ℕ) (b : Breaker) → (enter now b).0.state ≡ (transition_if_needed now b).state
unfolding enter
enter-state now b = ground arith

State-cases : (s : CircuitState) → (s ≡ closed) ⊎ (s ≡ open_state) ⊎ (s ≡ half_open)
State-cases closed = inl refl
State-cases open_state = inr (inl refl)
State-cases half_open = inr (inr refl)

settle_cases :
    (now : ℕ) (b : Breaker)
    → IsValid b
    → ((settle now true b).state ≡ b.state)
      ⊎ ((b.state ≡ half_open)
          × (b.success_count + 1 ≡ b.success_threshold)
          × ((settle now true b).state ≡ closed))
unfolding settle
settle_cases now b v = ground arith

succeeded-Edge :
    (now : ℕ) (b : Breaker) → IsValid b → Edge (succeeded now) b (settle now true b).state
succeeded-Edge now b v = elim (settle_cases now b v) [
  | inl same ↦ stay same
  | inr (halved, reached, shut) ↦ heal now refl halved reached shut
]

failed_cases :
    (now : ℕ) (b : Breaker)
    → IsValid b
    → ((settle now false b).state ≡ b.state)
      ⊎ ((b.state ≡ half_open) × ((settle now false b).state ≡ open_state))
      ⊎ ((b.state ≡ closed)
          × (b.failure_count + 1 ≡ b.failure_threshold)
          × ((settle now false b).state ≡ open_state))
unfolding settle
failed_cases now b v = elim (State-cases b.state) [
  | inl c ↦ ground arith
  | inr (inl o) ↦ ground arith
  | inr (inr h) ↦ ground arith
]

failed-Edge : (now : ℕ) (b : Breaker) → IsValid b → Edge (failed now) b (settle now false b).state
failed-Edge now b v = elim (failed_cases now b v) [
  | inl same ↦ stay same
  | inr (inl (halved, opened)) ↦ relapse now refl halved opened
  | inr (inr (shut, reached, opened)) ↦ trip now refl shut reached opened
]

-- A step on a breaker that satisfies the invariant changes the state only so: closed to open by the
-- failure that reaches the threshold, open to half open by a call or a read once the timeout since
-- the last failure has passed, half open to closed by the success of any call, the probe or not,
-- that reaches the threshold of successes, half open to open by the failure of any call, the probe
-- or not, and to closed by a reset.
pub step-Edge : (e : Event) (b : Breaker) → IsValid b → Edge e b (step e b).state
unfolding step
step-Edge (entered now) b v =
    rw (enter-state now b) (transition-Edge (entered now) now b (entering now))
step-Edge (succeeded now) b v = succeeded-Edge now b v
step-Edge (failed now) b v = failed-Edge now b v
step-Edge (state_read now) b v = transition-Edge (state_read now) now b (reading now)
step-Edge (stats_read now) b v = transition-Edge (stats_read now) now b (counting now)
step-Edge was_reset b v = cleared refl refl
