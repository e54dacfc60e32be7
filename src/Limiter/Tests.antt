-- ===== src/Limiter/Tests.antt =====
-- The theorems on the limiter with two requests a window.
use talenttrust_backend.Prelude.{◌≤◌, ◌≡◌, refl, List, [], ◌∷◌, arith}
use talenttrust_backend.Limiter.{RateLimiterConfig, unseen, limit_request, admit, sweep_store}
use talenttrust_backend.Limiter.Windows.{Event, requested, swept, passes, window_bounded}

abbrev two : RateLimiterConfig
two = record {
  max_requests = 2;
  window_ms = 100;
  abuse_threshold = 2;
  block_window_ms = 500;
  block_duration_ms = 200;
  max_block_duration_ms = 1000;
}

abbrev burst : List Event
burst = requested 11 ∷ swept 12 ∷ requested 12 ∷ requested 13 ∷ []

two_pass : passes two (requested 10 ∷ burst) unseen ≡ 2
unfolding passes limit_request admit sweep_store
two_pass = refl

window_bounded_example : passes two (requested 10 ∷ burst) unseen ≤ 2
window_bounded_example = window_bounded two 10 burst (omega arith) (omega arith) (omega arith) (
  (omega arith, omega arith),
  ((omega arith, omega arith), ((omega arith, omega arith), ((omega arith, omega arith), tt))),
)

-- The sweep cuts a longer window short: four requests pass in it.
abbrev hourly : RateLimiterConfig
hourly = record two { window_ms = 3_600_000; block_duration_ms = 3_600_000 }

four_pass :
    passes hourly
      (requested 0 ∷ requested 1 ∷ swept 60_001 ∷ requested 60_002 ∷ requested 60_003 ∷ [])
      unseen
    ≡ 4
unfolding passes limit_request admit sweep_store
four_pass = refl
