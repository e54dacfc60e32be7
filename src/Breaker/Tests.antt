-- ===== src/Breaker/Tests.antt =====
-- Runs of a breaker, and the theorems on it at concrete inputs.
use talenttrust_backend.Prelude.{ℕ, ◌≡◌, refl, ◌≢◌, true, false, none, some, [], ◌∷◌, arith}
use talenttrust_backend.Breaker.{
  Breaker, Options, Outcome, returned, threw, closed, open_state, half_open, create, enter, execute,
  admitted, rejected,
}
use talenttrust_backend.Breaker.Invariant.{
  entered, succeeded, failed, state_read, IsValid, create-IsValid, run, run-IsValid, Edge, step,
  step-Edge,
}
use talenttrust_backend.Breaker.Trip.{
  calls, trip_at_threshold, open_recovers, probe_failure_reopens,
}
use talenttrust_backend.Breaker.Overlap.{half_open_admits_one}
use talenttrust_backend.Breaker.Registry.{
  Registry, get_or_create, get_or_create-IsConfigured, IsConfigured,
}

abbrev rpc_options : Options
rpc_options = record {
  failure_threshold = some 2;
  success_threshold = some 2;
  timeout = some 1000;
  name = some "stellar-rpc";
}

abbrev rpc : Breaker
rpc = record {
  name = "stellar-rpc";
  failure_threshold = 2;
  success_threshold = 2;
  timeout = 1000;
  state = closed;
  failure_count = 0;
  success_count = 0;
  last_failure_time = none;
  probe_in_flight = false;
}

abbrev tripped : Breaker
tripped = record rpc { state = open_state; failure_count = 2; last_failure_time = some 20 }

abbrev probing : Breaker
probing = record tripped { state = half_open; probe_in_flight = true }

create_runs : create rpc_options ≡ rpc
unfolding create
create_runs = refl

abbrev failure : Outcome ℕ ℕ
failure = threw 503

abbrev success : Outcome ℕ ℕ
success = returned 200

trips : calls ((10, failure) ∷ (20, failure) ∷ []) rpc ≡ tripped
unfolding calls execute
trips = refl

rpc-IsValid : IsValid rpc
unfolding create
rpc-IsValid = create-IsValid rpc_options (omega arith) (omega arith)

run-IsValid_example :
    IsValid (run (entered 5 ∷ failed 10 ∷ failed 20 ∷ entered 1020 ∷ succeeded 1030 ∷ []) rpc)
run-IsValid_example =
    run-IsValid (entered 5 ∷ failed 10 ∷ failed 20 ∷ entered 1020 ∷ succeeded 1030 ∷ []) rpc
      rpc-IsValid

tripped-IsValid : IsValid tripped
tripped-IsValid = ground arith

step-Edge_example : Edge (state_read 1020) tripped (step (state_read 1020) tripped).state
step-Edge_example = step-Edge (state_read 1020) tripped tripped-IsValid

trip_at_threshold_example :
    let b = calls ((10, failure) ∷ []) rpc in
    let c = (execute 20 20 failure b).0 in
    (b.state ≡ closed) × (c.state ≡ open_state) × (c.last_failure_time ≡ some 20)
trip_at_threshold_example =
    trip_at_threshold ((10, failure) ∷ []) 20 failure rpc refl (refl, tt) refl (omega arith)

open_recovers_example :
    let b = calls ((1020, success) ∷ []) tripped in
    let c = (execute 1040 1040 success b).0 in
    (b.state ≢ closed) × (c.state ≡ closed) × (c.failure_count ≡ 0)
open_recovers_example =
    open_recovers ((1020, success) ∷ []) 1040 20 success tripped refl refl ((omega arith, refl), tt)
      (omega arith) refl (omega arith)

probe_failure_reopens_example :
    let c = (execute 1020 1050 failure tripped).0 in
    (c.state ≡ open_state) × (c.last_failure_time ≡ some 1050) × (c.success_count ≡ 0)
probe_failure_reopens_example =
    probe_failure_reopens 1020 1050 20 failure tripped refl refl (omega arith) refl

half_open_admits_one_example :
    let idle = record probing { probe_in_flight = false } in
    ((enter 1030 idle).1 ≡ admitted)
    × (enter 1040 (enter 1030 idle).0 ≡ ((enter 1030 idle).0, rejected "stellar-rpc"))
half_open_admits_one_example =
    half_open_admits_one 1030 1040 (record probing { probe_in_flight = false }) refl refl

abbrev empty : Registry
empty = record { breakers = []; configs = [] }

get_or_create-IsConfigured_example :
    IsConfigured (get_or_create "webhook" rpc_options (get_or_create "rpc" rpc_options empty))
get_or_create-IsConfigured_example =
    get_or_create-IsConfigured "webhook" rpc_options (get_or_create "rpc" rpc_options empty)
      (get_or_create-IsConfigured "rpc" rpc_options empty tt)
