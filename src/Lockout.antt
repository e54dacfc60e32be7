-- ===== src/Lockout.antt =====
-- auth/accountLockout.ts: the lockout of an account after repeated failed logins. `now` is in
-- milliseconds; the settings are natural numbers, as their loader makes them. `normalizeEmail` and
-- the SHA-256 digest are parameters. Audit entries are returned.
pub mod Locked
pub mod Record
pub mod Tracker
pub mod Config
mod Tests
use talenttrust_backend.Prelude.{
  ℕ, zero, suc, ◌+◌, ◌-◌, ◌*◌, ◌^◌, min, String, Bool, true, false, ◌&&◌, ◌||◌, not, Option, none,
  some, ltb, leb, ◌==◌, if◌then◌else◌, Table, get, put, remove, keep_entries, values, or_else,
  str_eq, List, [], ◌∷◌,
}

pub record LockoutConfig : Type 0 where
  pub enabled : Bool
  pub max_failures : ℕ
  pub decay_window_ms : ℕ
  pub lockout_duration_ms : ℕ
  pub base_delay_ms : ℕ
  pub delay_multiplier : ℕ
  pub max_delay_ms : ℕ

abbrev pub default_lockout_config : LockoutConfig
default_lockout_config = record {
  enabled = true;
  max_failures = 5;
  decay_window_ms = 15 * 60 * 1000;
  lockout_duration_ms = 15 * 60 * 1000;
  base_delay_ms = 250;
  delay_multiplier = 2;
  max_delay_ms = 5000;
}

pub record FailureRecord : Type 0 where
  pub failed : ℕ
  pub first_failure_at : ℕ
  pub last_failure_at : ℕ
  pub locked_until : ℕ

abbrev pub empty_record : FailureRecord
empty_record = record { failed = 0; first_failure_at = 0; last_failure_at = 0; locked_until = 0 }

pub record AccountAssessment : Type 0 where
  pub is_locked : Bool
  pub failures : ℕ
  pub remaining_lockout_ms : ℕ
  pub pre_delay_ms : ℕ

abbrev pub zero_assessment : AccountAssessment
zero_assessment = record {
  is_locked = false;
  failures = 0;
  remaining_lockout_ms = 0;
  pre_delay_ms = 0;
}

pub record FailureResult : Type 0 where
  pub is_now_locked : Bool
  pub failures : ℕ
  pub wait_ms : ℕ
  pub triggered_lockout : Bool

pub record SuccessResult : Type 0 where
  pub released_lockout : Bool
  pub previous_failures : ℕ

-- The audit entries: a lockout set off with so many failures, until then; a lockout released.
pub data LockoutAudit : Type 0 where
  triggered : ℕ → ℕ → LockoutAudit
  released : ℕ → LockoutAudit

unfoldable pub compute_delay : LockoutConfig → ℕ → ℕ
compute_delay c zero = 0
compute_delay c (suc n) = min (c.base_delay_ms * c.delay_multiplier ^ n) c.max_delay_ms

-- `lockedUntil > 0 && now < lockedUntil`, and `lockedUntil > 0 && now >= lockedUntil`
abbrev pub is_locked_at : ℕ → FailureRecord → Bool
is_locked_at now r = ltb 0 r.locked_until && ltb now r.locked_until

abbrev pub is_lock_over : ℕ → FailureRecord → Bool
is_lock_over now r = ltb 0 r.locked_until && leb r.locked_until now

-- `failed > 0 && lastFailureAt > 0 && now - lastFailureAt > decayWindowMs`
abbrev pub is_decayed : LockoutConfig → ℕ → FailureRecord → Bool
is_decayed c now r =
    ltb 0 r.failed && (ltb 0 r.last_failure_at && ltb (r.last_failure_at + c.decay_window_ms) now)

unfoldable pub refresh_in_place : LockoutConfig → ℕ → FailureRecord → FailureRecord
refresh_in_place c now r =
    if is_lock_over now r then empty_record else if is_decayed c now r then empty_record else r

-- What `assess` computes from a stored record.
unfoldable pub assess_record : LockoutConfig → ℕ → FailureRecord → AccountAssessment
unfolding compute_delay
assess_record c now r =
    let locked = is_locked_at now r in
    let live = if is_lock_over now r then 0 else if is_decayed c now r then 0 else r.failed in
    record {
      is_locked = locked;
      failures = live;
      remaining_lockout_ms = if locked then r.locked_until - now else 0;
      pre_delay_ms = if locked then c.max_delay_ms else compute_delay c live;
    }

-- The increment of `recordFailure` on a record that is refreshed and not locked.
abbrev pub count_failure : LockoutConfig → ℕ → FailureRecord → FailureRecord
count_failure c now r = record {
  failed = r.failed + 1;
  first_failure_at = if r.first_failure_at == 0 then now else r.first_failure_at;
  last_failure_at = now;
  locked_until =
      if r.failed + 1 == c.max_failures then now + c.lockout_duration_ms else r.locked_until;
}

pub record Failure : Type 0 where
  pub kept : FailureRecord
  pub result : FailureResult
  pub audit : Option LockoutAudit

abbrev already_locked : LockoutConfig → FailureRecord → Failure
already_locked c r = record {
  kept = r;
  result = record {
    is_now_locked = true;
    failures = r.failed;
    wait_ms = c.max_delay_ms;
    triggered_lockout = false;
  };
  audit = none;
}

abbrev one_more : LockoutConfig → ℕ → FailureRecord → Failure
one_more c now r =
    let s = count_failure c now r in
    let triggers = s.failed == c.max_failures in
    record {
      kept = s;
      result = record {
        is_now_locked = is_locked_at now s;
        failures = s.failed;
        wait_ms = if triggers then c.max_delay_ms else compute_delay c s.failed;
        triggered_lockout = triggers;
      };
      audit = if triggers then some (triggered s.failed s.locked_until) else none;
    }

-- What `recordFailure` does to the record of the account.
unfoldable pub fail_record : LockoutConfig → ℕ → FailureRecord → Failure
unfolding refresh_in_place
fail_record c now r =
    let live = refresh_in_place c now r in
    if is_locked_at now live then already_locked c live else one_more c now live

abbrev pub no_failure : FailureResult
no_failure = record { is_now_locked = false; failures = 0; wait_ms = 0; triggered_lockout = false }

abbrev pub no_success : SuccessResult
no_success = record { released_lockout = false; previous_failures = 0 }

abbrev pub Records : Type 0
Records = Table FailureRecord

-- The test of the sweep loop.
abbrev pub is_swept : LockoutConfig → ℕ → FailureRecord → Bool
is_swept c now r =
    is_lock_over now r || (ltb 0 r.failed && ltb (r.last_failure_at + c.decay_window_ms) now)

abbrev assess_found : LockoutConfig → ℕ → Option FailureRecord → AccountAssessment
assess_found c now none = zero_assessment
assess_found c now (some r) = assess_record c now r

abbrev assess_key : LockoutConfig → ℕ → Records → Option String → AccountAssessment
assess_key c now m none = zero_assessment
assess_key c now m (some key) = assess_found c now (get key m)

abbrev fail_key :
    LockoutConfig → ℕ → Records → Option String → Records × FailureResult × Option LockoutAudit
fail_key c now m none = (m, no_failure, none)
fail_key c now m (some key) =
    let f = fail_record c now (or_else (get key m) empty_record) in
    (put key f.kept m, f.result, f.audit)

abbrev clear_found :
    Records → String → Option FailureRecord → Records × SuccessResult × Option LockoutAudit
clear_found m key none = (m, no_success, none)
clear_found m key (some r) =
    let was_locked = ltb 0 r.locked_until in
    (
      remove key m,
      record { released_lockout = was_locked; previous_failures = r.failed },
      if was_locked then some (released r.failed) else none,
    )

abbrev clear_key : Records → Option String → Records × SuccessResult × Option LockoutAudit
clear_key m none = (m, no_success, none)
clear_key m (some key) = clear_found m key (get key m)

module _ (normalize sha256 : String → String) where
  unfoldable pub key_for : String → Option String
  key_for raw = let norm = normalize raw in if str_eq norm "" then none else some (sha256 norm)

  unfoldable pub assess : LockoutConfig → ℕ → String → Records → AccountAssessment
  unfolding key_for
  assess c now email m = if c.enabled then assess_key c now m (key_for email) else zero_assessment

  unfoldable pub record_failure :
      LockoutConfig → ℕ → String → Records → Records × FailureResult × Option LockoutAudit
  unfolding key_for
  record_failure c now email m =
      if c.enabled then fail_key c now m (key_for email) else (m, no_failure, none)

  unfoldable pub record_success :
      LockoutConfig → String → Records → Records × SuccessResult × Option LockoutAudit
  unfolding key_for
  record_success c email m =
      if c.enabled then clear_key m (key_for email) else (m, no_success, none)

unfoldable pub sweep : LockoutConfig → ℕ → Records → Records
sweep c now m = keep_entries (λ r. not (is_swept c now r)) m
