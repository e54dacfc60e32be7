-- ===== src/Breaker.antt =====
-- circuit-breaker/CircuitBreaker.ts: one breaker. `Date.now()` is an argument, in milliseconds. A
-- call of `execute` is cut at its `await`: `enter` runs up to the guarded operation, `settle` from
-- its outcome on, so other calls may run between the two.
pub mod Invariant
pub mod Trip
pub mod Overlap
pub mod Registry
mod Tests
use talenttrust_backend.Prelude.{
  ℕ, ◌+◌, String, Bool, true, false, ◌&&◌, Option, none, some, leb, if◌then◌else◌, or_else,
}

pub data CircuitState : Type 0 where
  closed open_state half_open : CircuitState

pub record Options : Type 0 where
  pub failure_threshold : Option ℕ
  pub success_threshold : Option ℕ
  pub timeout : Option ℕ
  pub name : Option String

pub record Breaker : Type 0 where
  pub name : String
  pub failure_threshold : ℕ
  pub success_threshold : ℕ
  pub timeout : ℕ
  pub state : CircuitState
  pub failure_count : ℕ
  pub success_count : ℕ
  pub last_failure_time : Option ℕ
  pub probe_in_flight : Bool

-- The constructor.
unfoldable pub create : Options → Breaker
create o = record {
  name = or_else o.name "default";
  failure_threshold = or_else o.failure_threshold 5;
  success_threshold = or_else o.success_threshold 1;
  timeout = or_else o.timeout 30_000;
  state = closed;
  failure_count = 0;
  success_count = 0;
  last_failure_time = none;
  probe_in_flight = false;
}

to_closed : Breaker → Breaker
to_closed b = record b { state = closed; failure_count = 0; success_count = 0 }

to_open : Breaker → Breaker
to_open b = record b { state = open_state }

to_half_open : Breaker → Breaker
to_half_open b = record b { state = half_open; success_count = 0; probe_in_flight = false }

abbrev pub is_open : CircuitState → Bool
is_open open_state = true
is_open _ = false

abbrev pub is_half_open : CircuitState → Bool
is_half_open half_open = true
is_half_open _ = false

-- `lastFailureTime !== null && now - lastFailureTime >= timeout`
abbrev pub elapsed : Option ℕ → ℕ → ℕ → Bool
elapsed none timeout now = false
elapsed (some t) timeout now = leb (t + timeout) now

unfoldable pub transition_if_needed : ℕ → Breaker → Breaker
unfolding to_half_open
transition_if_needed now b =
    if is_open b.state && elapsed b.last_failure_time b.timeout now then to_half_open b else b

on_success : Breaker → Breaker
unfolding to_closed
on_success b =
    let c = record b { failure_count = 0 } in
    let d = record c { success_count = c.success_count + 1 } in
    if is_half_open c.state
    then (if leb d.success_threshold d.success_count then to_closed d else d)
    else c

on_failure : ℕ → Breaker → Breaker
unfolding to_open
on_failure now b =
    let c = record b { last_failure_time = some now; success_count = 0 } in
    let d = record c { failure_count = c.failure_count + 1 } in
    if is_half_open c.state
    then to_open c
    else if leb d.failure_threshold d.failure_count
    then to_open d
    else d

-- Whether `execute` reaches `fn()`; `rejected` is the thrown `CircuitOpenError`.
pub data Admission : Type 0 where
  admitted : Admission
  rejected : String → Admission

-- `execute` up to `await fn()`.
unfoldable pub enter : ℕ → Breaker → Breaker × Admission
unfolding transition_if_needed
enter now b =
    let c = transition_if_needed now b in
    if is_open c.state
    then (c, rejected c.name)
    else if is_half_open c.state
    then (if c.probe_in_flight
        then (c, rejected c.name)
        else (record c { probe_in_flight = true }, admitted))
    else (c, admitted)

-- `execute` from the outcome of `fn()` on, with its `finally`.
unfoldable pub settle : ℕ → Bool → Breaker → Breaker
unfolding on_success on_failure
settle now succeeded b =
    let c = if succeeded then on_success b else on_failure now b in
    record c { probe_in_flight = false }

pub data Outcome {ℓ κ} (E : Type ℓ) (A : Type κ) : Type (ℓ ⊔ κ) where
  returned : A → Outcome E A
  threw : E → Outcome E A
  circuit_open : String → Outcome E A

abbrev settle_outcome {ℓ κ} :
    {E : Type ℓ} {A : Type κ} → ℕ → Outcome E A → Breaker → Breaker × Outcome E A
settle_outcome now (returned a) b = (settle now true b, returned a)
settle_outcome now (threw e) b = (settle now false b, threw e)
settle_outcome now (circuit_open n) b = (settle now false b, circuit_open n)

abbrev finish {ℓ κ} :
    {E : Type ℓ} {A : Type κ} → ℕ → Outcome E A → Breaker × Admission → Breaker × Outcome E A
finish later fn (b, admitted) = settle_outcome later fn b
finish later fn (b, rejected n) = (b, circuit_open n)

-- `execute` when no other call runs during its `await`: called at `now`, settled at `later`. `fn`
-- is the outcome that the operation would have; it is not read when the call is rejected.
unfoldable pub execute {ℓ κ} :
    {E : Type ℓ} {A : Type κ} → ℕ → ℕ → Outcome E A → Breaker → Breaker × Outcome E A
unfolding enter settle
execute now later fn b = finish later fn (enter now b)

unfoldable pub get_state : ℕ → Breaker → Breaker × CircuitState
unfolding transition_if_needed
get_state now b = let c = transition_if_needed now b in (c, c.state)

pub record Stats : Type 0 where
  pub state : CircuitState
  pub failure_count : ℕ
  pub success_count : ℕ
  pub last_failure_time : Option ℕ

abbrev pub stats_of : Breaker → Stats
stats_of c = record {
  state = c.state;
  failure_count = c.failure_count;
  success_count = c.success_count;
  last_failure_time = c.last_failure_time;
}

unfoldable pub get_stats : ℕ → Breaker → Breaker × Stats
unfolding transition_if_needed
get_stats now b = let c = transition_if_needed now b in (c, stats_of c)

unfoldable pub reset : Breaker → Breaker
reset b = record b {
  state = closed;
  failure_count = 0;
  success_count = 0;
  last_failure_time = none;
  probe_in_flight = false;
}
