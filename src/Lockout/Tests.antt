-- ===== src/Lockout/Tests.antt =====
-- The theorems on the lockout with the default settings, a few accounts and a digest that is the
-- identity.
use talenttrust_backend.Prelude.{
  ℕ, ◌≡◌, refl, true, false, none, List, [], ◌∷◌, All, get, arith, String,
}
use talenttrust_backend.Lockout.{
  LockoutConfig, default_lockout_config, FailureRecord, Records, empty_record, fail_record,
  assess_record, refresh_in_place,
}
use talenttrust_backend.Lockout.Record.{
  IsConsistent, locked_to_deadline, decay_unlocks, fail_at, failures_at,
}
use talenttrust_backend.Lockout.Tracker.{IsSound}

abbrev same : String → String
same s = s

abbrev locked : FailureRecord
locked = record {
  failed = 5;
  first_failure_at = 100;
  last_failure_at = 1000;
  locked_until = 901000;
}

locked-IsConsistent : IsConsistent default_lockout_config locked
locked-IsConsistent = ground arith

abbrev patient : LockoutConfig
patient = record default_lockout_config { lockout_duration_ms = 3600000 }

abbrev locked_long : FailureRecord
locked_long = record locked { locked_until = 3601000 }

locked_long-IsConsistent : IsConsistent patient locked_long
locked_long-IsConsistent = ground arith

abbrev four : List ℕ
four = 100 ∷ 200 ∷ 300 ∷ 400 ∷ []

counts : (fail_at default_lockout_config four empty_record).failed ≡ 4
unfolding fail_at fail_record refresh_in_place
counts = refl

locked_to_deadline_example :
    (fail_at default_lockout_config (2000 ∷ 900999 ∷ []) locked ≡ locked)
    × All
        (λ f. (f.result.is_now_locked ≡ true) × (f.result.wait_ms ≡ 5000) × (f.audit ≡ none))
        (failures_at default_lockout_config (2000 ∷ 900999 ∷ []) locked)
locked_to_deadline_example =
    locked_to_deadline default_lockout_config (2000 ∷ 900999 ∷ []) locked locked-IsConsistent
      (omega arith) (omega arith, (omega arith, tt))

decay_unlocks_example :
    let f = fail_record patient 901001 locked_long in
    ((assess_record patient 901001 locked_long).is_locked ≡ true)
    × (f.result.is_now_locked ≡ false)
    × (f.kept.failed ≡ 1)
    × (f.kept.locked_until ≡ 0)
decay_unlocks_example =
    decay_unlocks patient 901001 locked_long (omega arith) locked_long-IsConsistent (omega arith)
      (omega arith)

abbrev accounts : Records
accounts = ("ann", locked) ∷ []

empty-IsSound : IsSound default_lockout_config []
unfolding get
empty-IsSound = record { consistent = λ k r e. cc e; unique = tt }
