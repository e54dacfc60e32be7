-- ===== src/Breaker/Overlap.antt =====
-- Calls that overlap while the breaker probes. `probeInFlight` is one flag for all calls, and the
-- `finally` of `execute` clears it whichever call ends.
use talenttrust_backend.Prelude.{ℕ, ◌≡◌, false, arith}
use talenttrust_backend.Breaker.{Breaker, half_open, admitted, rejected, enter}

-- A half-open breaker with no probe in flight admits one call, and refuses a second one that
-- arrives before any call has ended, with no change to the breaker.
pub half_open_admits_one :
    (now later : ℕ) (b : Breaker)
    → b.state ≡ half_open
    → b.probe_in_flight ≡ false
    → ((enter now b).1 ≡ admitted)
      × (enter later (enter now b).0 ≡ ((enter now b).0, rejected b.name))
unfolding enter
half_open_admits_one now later b h p = ground arith
