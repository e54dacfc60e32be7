-- ===== src/Lockout/Record.antt =====
-- auth/accountLockout.ts: the record of one account over its failures.
use native.Mathlib.Nat.{pow-le-pow_right}
use talenttrust_backend.Prelude.{
  ℕ, zero, suc, ◌+◌, ◌*◌, ◌^◌, ◌≤◌, ◌<◌, ◌≡◌, refl, ◌⊎◌, true, false, none, some, List, [], ◌∷◌,
  All, length, arith,
}
use talenttrust_backend.Lockout.{
  LockoutConfig, FailureRecord, triggered, empty_record, Failure, fail_record, assess_record,
  compute_delay,
}

-- What holds of a stored record: it is locked exactly from the failure that reached the limit on,
-- for the configured time after that failure.
pub record IsConsistent (c : LockoutConfig) (r : FailureRecord) : Type 0 where
  pub within_limit : r.failed ≤ c.max_failures
  pub dated : 0 < r.failed → 0 < r.last_failure_at
  pub unlocked_below : r.failed < c.max_failures → r.locked_until ≡ 0
  pub locked_at_limit :
      r.failed ≡ c.max_failures → r.locked_until ≡ r.last_failure_at + c.lockout_duration_ms

pub empty-IsConsistent : (c : LockoutConfig) → 0 < c.max_failures → IsConsistent c empty_record
empty-IsConsistent c h = ground arith

pub fail_record-IsConsistent :
    (c : LockoutConfig) (now : ℕ) (r : FailureRecord)
    → 0 < c.max_failures
    → 0 < now
    → IsConsistent c r
    → IsConsistent c (fail_record c now r).kept
unfolding fail_record
fail_record-IsConsistent c now r pos h v = ground arith

fail_below :
    (c : LockoutConfig) (now : ℕ) (r : FailureRecord)
    → r.locked_until ≡ 0
    → now ≤ r.last_failure_at + c.decay_window_ms
    → r.failed + 1 < c.max_failures
    → let f = fail_record c now r in
      (f.kept.failed ≡ r.failed + 1)
      × (f.kept.last_failure_at ≡ now)
      × (f.kept.locked_until ≡ 0)
      × (f.result.is_now_locked ≡ false)
      × (f.audit ≡ none)
unfolding fail_record
fail_below c now r free near below = ground arith

fail_limit :
    (c : LockoutConfig) (now : ℕ) (r : FailureRecord)
    → r.locked_until ≡ 0
    → now ≤ r.last_failure_at + c.decay_window_ms
    → r.failed + 1 ≡ c.max_failures
    → let f = fail_record c now r in
      (f.kept.failed ≡ c.max_failures)
      × (f.kept.locked_until ≡ now + c.lockout_duration_ms)
      × (f.audit ≡ some (triggered c.max_failures (now + c.lockout_duration_ms)))
unfolding fail_record
fail_limit c now r free near e = ground arith

-- Failures at the given times, one after the other.
unfoldable pub fail_at : LockoutConfig → List ℕ → FailureRecord → FailureRecord
fail_at c [] r = r
fail_at c (t ∷ ts) r = fail_at c ts (fail_record c t r).kept

-- The audit entries and results of these failures.
unfoldable pub failures_at : LockoutConfig → List ℕ → FailureRecord → List Failure
failures_at c [] r = []
failures_at c (t ∷ ts) r = let f = fail_record c t r in f ∷ failures_at c ts f.kept

-- Each time is within the decay window of the one before.
abbrev pub Close : LockoutConfig → ℕ → List ℕ → Type 0
Close c last [] = Unit
Close c last (t ∷ ts) = (t ≤ last + c.decay_window_ms) × Close c t ts

-- Failures that follow one another within the decay window lock an unlocked account at exactly the
-- configured number: those before it lock nothing and audit nothing, and the one that reaches it
-- is audited as the trigger and locks the account until the configured time after it.
lock_at_limit :
    (c : LockoutConfig) (ts : List ℕ) (now : ℕ) (r : FailureRecord)
    → r.locked_until ≡ 0
    → Close c r.last_failure_at ts
    → now ≤ (fail_at c ts r).last_failure_at + c.decay_window_ms
    → r.failed + length ts + 1 ≡ c.max_failures
    → let f = fail_record c now (fail_at c ts r) in
      All (λ g. (g.result.is_now_locked ≡ false) × (g.audit ≡ none)) (failures_at c ts r)
      × (f.kept.failed ≡ c.max_failures)
      × (f.kept.locked_until ≡ now + c.lockout_duration_ms)
      × (f.audit ≡ some (triggered c.max_failures (now + c.lockout_duration_ms)))
unfolding fail_at failures_at
lock_at_limit c [] now r free near h e =
    let (count, deadline, audit) = fail_limit c now r free h (omega arith) in
    (tt, count, deadline, audit)
lock_at_limit c (t ∷ ts) now r free (p, near) h e =
    let (counted, dated, still, loose, silent) = fail_below c t r free p (omega arith) in
    let (quiet, count, deadline, audit) =
      lock_at_limit c ts now (fail_record c t r).kept still (rw dated near) h (omega arith) in
    (((loose, silent), quiet), count, deadline, audit)

pub fail_locked :
    (c : LockoutConfig) (now : ℕ) (r : FailureRecord)
    → IsConsistent c r
    → c.lockout_duration_ms ≤ c.decay_window_ms
    → now < r.locked_until
    → let f = fail_record c now r in
      (f.kept ≡ r)
      × (f.result.is_now_locked ≡ true)
      × (f.result.wait_ms ≡ c.max_delay_ms)
      × (f.audit ≡ none)
unfolding fail_record
fail_locked c now r v le h = ground arith

-- While the lockout is no longer than the decay window, a locked account with a consistent record
-- stays locked to its deadline under any failures before it: none of them changes the record or the
-- deadline, each is answered as locked with the largest delay, and none is audited.
pub locked_to_deadline :
    (c : LockoutConfig) (ts : List ℕ) (r : FailureRecord)
    → IsConsistent c r
    → c.lockout_duration_ms ≤ c.decay_window_ms
    → All (λ t. t < r.locked_until) ts
    → (fail_at c ts r ≡ r)
      × All
          (λ f.
            (f.result.is_now_locked ≡ true)
            × (f.result.wait_ms ≡ c.max_delay_ms)
            × (f.audit ≡ none))
          (failures_at c ts r)
unfolding fail_at failures_at
locked_to_deadline c [] r v le h = (refl, tt)
locked_to_deadline c (t ∷ ts) r v le (p, h) =
    let (same, locked, wait, silent) = fail_locked c t r v le p in
    let (kept, rest) = locked_to_deadline c ts r v le h in
    (rw same kept, ((locked, wait, silent), rw same rest))

-- Where the lockout is longer than the decay window, and the limit is above one failure, a locked
-- account with a consistent record is unlocked before its deadline by one more failed login after
-- the decay window: the assessment at that time still says locked, but the failure resets the
-- record to one failure and no lock.
pub decay_unlocks :
    (c : LockoutConfig) (now : ℕ) (r : FailureRecord)
    → 1 < c.max_failures
    → IsConsistent c r
    → r.last_failure_at + c.decay_window_ms < now
    → now < r.locked_until
    → let f = fail_record c now r in
      ((assess_record c now r).is_locked ≡ true)
      × (f.result.is_now_locked ≡ false)
      × (f.kept.failed ≡ 1)
      × (f.kept.locked_until ≡ 0)
unfolding fail_record assess_record
decay_unlocks c now r many v late early = ground arith

-- While the lockout is no longer than the decay window, the read-only assessment of a consistent
-- record and the recording of a failure on it agree: an account assessed as locked is answered as
-- locked, and otherwise the failure counts one more than the assessment did.
assess_agrees :
    (c : LockoutConfig) (now : ℕ) (r : FailureRecord)
    → IsConsistent c r
    → c.lockout_duration_ms ≤ c.decay_window_ms
    → let a = assess_record c now r in
      let f = fail_record c now r in
      ((a.is_locked ≡ true) × (f.result.is_now_locked ≡ true) × (f.kept ≡ r))
      ⊎ ((a.is_locked ≡ false) × (f.result.failures ≡ a.failures + 1))
unfolding fail_record assess_record
assess_agrees c now r v le = ground arith

grow : LockoutConfig → ℕ → ℕ
grow c n = c.base_delay_ms * c.delay_multiplier ^ n

grow_mono : (c : LockoutConfig) {n m : ℕ} → 1 ≤ c.delay_multiplier → n ≤ m → grow c n ≤ grow c m
unfolding grow
grow_mono c {n} {m} h le =
    let p : c.delay_multiplier ^ n ≤ c.delay_multiplier ^ m = pow-le-pow_right h le in grind arith

-- The response delay never shrinks with more failures and never passes the largest delay.
pub compute_delay_bounds :
    (c : LockoutConfig) (n m : ℕ)
    → 1 ≤ c.delay_multiplier
    → n ≤ m
    → (compute_delay c n ≤ compute_delay c m) × (compute_delay c m ≤ c.max_delay_ms)
unfolding compute_delay grow
compute_delay_bounds c zero zero h le = (omega arith, omega arith)
compute_delay_bounds c zero (suc m) h le = (omega arith, omega arith)
compute_delay_bounds c (suc n) zero h le = absurd (omega arith)
compute_delay_bounds c (suc n) (suc m) h le =
    let g : grow c n ≤ grow c m = grow_mono c h (omega arith) in (omega arith, omega arith)
