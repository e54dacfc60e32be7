-- ===== src/Lockout/Locked.antt =====
-- auth/accountLockout.ts: what an account that is assessed as locked meets.
use talenttrust_backend.Prelude.{
  ℕ, ◌≤◌, ◌<◌, String, true, Option, none, some, get, ◌≡◌, inl, inr, arith, Bool-cases,
  Option-cases,
}
use talenttrust_backend.Lockout.{
  LockoutConfig, Records, FailureRecord, assess, assess_record, record_failure, key_for, fail_key,
  assess_key, fail_record,
}
use talenttrust_backend.Lockout.Record.{fail_locked}
use talenttrust_backend.Lockout.Tracker.{IsSound}

assess_record-locked :
    (c : LockoutConfig) (now : ℕ) (r : FailureRecord)
    → (assess_record c now r).is_locked ≡ true
    → now < r.locked_until
unfolding assess_record
assess_record-locked c now r h = ground arith

fail_key-locked :
    (c : LockoutConfig) (now : ℕ) (m : Records) (o : Option String)
    → IsSound c m
    → c.lockout_duration_ms ≤ c.decay_window_ms
    → (assess_key c now m o).is_locked ≡ true
    → ((fail_key c now m o).1.wait_ms ≡ c.max_delay_ms) × ((fail_key c now m o).2 ≡ none)
fail_key-locked c now m none sound short h = cc h
fail_key-locked c now m (some key) sound short h = elim (Option-cases (get key m)) [
  | inl absent ↦ cc (rw absent at h)
  | inr (r, found) ↦
      let (_, _, wait, silent) =
        fail_locked c now r (sound.consistent key r found) short
          (assess_record-locked c now r (rw found at h)) in
      rw found (wait, silent)
]

module _ (normalize sha256 : String → String) where
  -- A locked account is given the largest delay.
  pub assess_locked_delay :
      (c : LockoutConfig) (now : ℕ) (email : String) (m : Records)
      → (assess normalize sha256 c now email m).is_locked ≡ true
      → (assess normalize sha256 c now email m).pre_delay_ms ≡ c.max_delay_ms
  unfolding assess assess_record
  assess_locked_delay c now email m h = ground arith

  -- So is a failed login to it, which is not audited.
  pub record_failure_locked :
      (c : LockoutConfig) (now : ℕ) (email : String) (m : Records)
      → IsSound c m
      → c.lockout_duration_ms ≤ c.decay_window_ms
      → (assess normalize sha256 c now email m).is_locked ≡ true
      → ((record_failure normalize sha256 c now email m).1.wait_ms ≡ c.max_delay_ms)
        × ((record_failure normalize sha256 c now email m).2 ≡ none)
  unfolding assess record_failure assess_record fail_record
  record_failure_locked c now email m sound short h = elim (Bool-cases c.enabled) [
    | inl on ↦
        rw on (fail_key-locked c now m (key_for normalize sha256 email) sound short (rw on at h))
    | inr off ↦ cc (rw off at h)
  ]
