-- ===== src/Lockout/Config.antt =====
-- auth/accountLockout.ts: the settings from the environment. `to_number` is `Math.floor(Number(_))`.
use talenttrust_backend.Prelude.{
  ℕ, ◌≤◌, String, Bool, true, false, ◌&&◌, ◌||◌, Option, none, some, arith, max, leb, if◌then◌else◌,
  str_eq,
}
use talenttrust_backend.SoftDelete.{ParsedInt, not_a_number, minus, plus}
use talenttrust_backend.Lockout.{LockoutConfig, default_lockout_config}

pub record LockoutEnv : Type 0 where
  pub enabled : Option String
  pub max_failures : Option String
  pub decay_window_ms : Option String
  pub lockout_duration_ms : Option String
  pub base_delay_ms : Option String
  pub delay_multiplier : Option String
  pub max_delay_ms : Option String

abbrev count_or : ℕ → ParsedInt → ℕ
count_or fallback not_a_number = fallback
count_or fallback (minus n) = fallback
count_or fallback (plus n) = n

module _ (to_lower_case : String → String) (to_number : String → ParsedInt) where
  unfoldable pub to_bool : Option String → Bool → Bool
  to_bool none fallback = fallback
  to_bool (some value) fallback =
      let lower = to_lower_case value in
      if str_eq lower "true" || (str_eq lower "1" || str_eq lower "yes")
      then true
      else if str_eq lower "false" || (str_eq lower "0" || str_eq lower "no")
      then false
      else fallback

  unfoldable pub to_count : Option String → ℕ → ℕ
  to_count none fallback = fallback
  to_count (some value) fallback = count_or fallback (to_number value)

  -- The same function under the name that the times are read by.
  unfoldable pub to_ms : Option String → ℕ → ℕ
  to_ms none fallback = fallback
  to_ms (some value) fallback = count_or fallback (to_number value)

  unfoldable pub load_lockout_config : LockoutEnv → LockoutConfig
  unfolding to_bool to_count to_ms
  load_lockout_config env =
      let d = default_lockout_config in
      let multiplier = to_count env.delay_multiplier d.delay_multiplier in
      record {
        enabled = to_bool env.enabled true;
        max_failures = max 1 (to_count env.max_failures d.max_failures);
        decay_window_ms = to_ms env.decay_window_ms d.decay_window_ms;
        lockout_duration_ms = to_ms env.lockout_duration_ms d.lockout_duration_ms;
        base_delay_ms = to_ms env.base_delay_ms d.base_delay_ms;
        delay_multiplier =
            if leb 1 multiplier && leb multiplier 16 then multiplier else d.delay_multiplier;
        max_delay_ms = to_ms env.max_delay_ms d.max_delay_ms;
      }

  -- Whatever the environment says, the loaded limit is at least one failure and the multiplier of
  -- the delay is between 1 and 16.
  pub load_lockout_config_bounds :
      (env : LockoutEnv)
      → let c = load_lockout_config env in
        (1 ≤ c.max_failures) × (1 ≤ c.delay_multiplier) × (c.delay_multiplier ≤ 16)
  unfolding load_lockout_config
  load_lockout_config_bounds env = (omega arith, ground arith, ground arith)
