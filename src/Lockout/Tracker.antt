-- ===== src/Lockout/Tracker.antt =====
-- auth/accountLockout.ts: the tracker over all accounts.
use talenttrust_backend.Prelude.{
  ℕ, ◌<◌, ◌≡◌, refl, inl, inr, true, false, not, String, none, some, List, [], ◌∷◌, All, get, put,
  remove, get-put, get-put_cases, get-remove, get-remove_self, Option-cases, Bool-cases, or_else,
  get-keep_entries, keep_found-some, IsMap, put-IsMap, remove-IsMap, keep_entries-IsMap, str_eq,
  if◌then◌else◌, ltb,
}
use talenttrust_backend.Lockout.{
  LockoutConfig, FailureRecord, released, Records, key_for, assess, record_failure, record_success,
  sweep, zero_assessment, empty_record, is_swept,
}
use talenttrust_backend.Lockout.Record.{IsConsistent, empty-IsConsistent, fail_record-IsConsistent}

-- Every stored record is consistent, and no account has two records.
pub record IsSound (c : LockoutConfig) (m : Records) : Type 0 where
  pub consistent : (key : String) (r : FailureRecord) → get key m ≡ some r → IsConsistent c r
  pub unique : IsMap m

-- The calls of the tracker that change it.
pub data Call : Type 0 where
  failure : ℕ → String → Call
  success : String → Call
  swept : ℕ → Call

-- The clock of a call is past the epoch.
abbrev pub Dated : Call → Type 0
Dated (failure now email) = 0 < now
Dated _ = Unit

module _ (normalize sha256 : String → String) where
  unfoldable pub call : LockoutConfig → Call → Records → Records
  call c (failure now email) m = (record_failure normalize sha256 c now email m).0
  call c (success email) m = (record_success normalize sha256 c email m).0
  call c (swept now) m = sweep c now m

  unfoldable pub run : LockoutConfig → List Call → Records → Records
  unfolding call
  run c [] m = m
  run c (x ∷ xs) m = run c xs (call c x m)

  stored-IsConsistent :
      (c : LockoutConfig) (key : String) (m : Records)
      → 0 < c.max_failures
      → IsSound c m
      → IsConsistent c (or_else (get key m) empty_record)
  stored-IsConsistent c key m pos v = elim (Option-cases (get key m)) [
    | inl missing ↦ rw missing (empty-IsConsistent c pos)
    | inr (r, found) ↦ rw found (v.consistent key r found)
  ]

  put-IsSound :
      (c : LockoutConfig) (key : String) (r : FailureRecord) (m : Records)
      → IsConsistent c r
      → IsSound c m
      → IsSound c (put key r m)
  put-IsSound c key r m h v = record {
    consistent = λ k s e. elim (get-put_cases key k r m e) [
      | inl (_, written) ↦ rw written h
      | inr kept ↦ v.consistent k s kept
    ];
    unique = put-IsMap key r m v.unique;
  }

  remove-IsSound :
      (c : LockoutConfig) (key : String) (m : Records) → IsSound c m → IsSound c (remove key m)
  remove-IsSound c key m v = record {
    consistent = λ k s e. elim (Bool-cases (str_eq key k)) [
      | inl same ↦ cc (rw (get-remove, same) at e)
      | inr other ↦ v.consistent k s (rw (get-remove, other) at e)
    ];
    unique = remove-IsMap key m v.unique;
  }

  failure-IsSound :
      (c : LockoutConfig) (now : ℕ) (email : String) (m : Records)
      → 0 < c.max_failures
      → 0 < now
      → IsSound c m
      → IsSound c (record_failure normalize sha256 c now email m).0
  unfolding record_failure
  failure-IsSound c now email m pos h v = elim (Bool-cases c.enabled) [
    | inl on ↦ elim (Option-cases (key_for normalize sha256 email)) [
      | inl nameless ↦ simp (on, nameless) v
      | inr (key, named) ↦
          simp (on, named)
            (put-IsSound c key _ m
              (fail_record-IsConsistent c now _ pos h (stored-IsConsistent c key m pos v)) v)
    ]
    | inr off ↦ simp off v
  ]

  success-IsSound :
      (c : LockoutConfig) (email : String) (m : Records)
      → IsSound c m
      → IsSound c (record_success normalize sha256 c email m).0
  unfolding record_success
  success-IsSound c email m v = elim (Bool-cases c.enabled) [
    | inl on ↦ elim (Option-cases (key_for normalize sha256 email)) [
      | inl nameless ↦ simp (on, nameless) v
      | inr (key, named) ↦ elim (Option-cases (get key m)) [
        | inl missing ↦ simp (on, named, missing) v
        | inr (r, found) ↦ simp (on, named, found) (remove-IsSound c key m v)
      ]
    ]
    | inr off ↦ simp off v
  ]

  sweep-IsSound :
      (c : LockoutConfig) (now : ℕ) (m : Records) → IsSound c m → IsSound c (sweep c now m)
  unfolding sweep
  sweep-IsSound c now m v = record {
    consistent = λ k s e.
        v.consistent k s
          (keep_found-some (λ r. not (is_swept c now r)) (get k m)
            (rw (get-keep_entries (λ r. not (is_swept c now r)) k m v.unique) at e)).0;
    unique = keep_entries-IsMap _ m v.unique;
  }

  -- With a limit of at least one failure, and failures dated after the epoch, any sequence of
  -- failures, successes and sweeps keeps every stored record consistent, and one record for an
  -- account.
  pub run-IsSound :
      (c : LockoutConfig) (xs : List Call) (m : Records)
      → 0 < c.max_failures
      → All Dated xs
      → IsSound c m
      → IsSound c (run c xs m)
  unfolding run
  run-IsSound c [] m pos h v = v
  run-IsSound c (failure now email ∷ xs) m pos (h, hs) v =
      run-IsSound c xs _ pos hs (failure-IsSound c now email m pos h v)
  run-IsSound c (success email ∷ xs) m pos (h, hs) v =
      run-IsSound c xs _ pos hs (success-IsSound c email m v)
  run-IsSound c (swept now ∷ xs) m pos (h, hs) v =
      run-IsSound c xs _ pos hs (sweep-IsSound c now m v)

  -- A failed login changes the record of its own account only.
  pub failure_isolated :
      (c : LockoutConfig) (now : ℕ) (email key other : String) (m : Records)
      → key_for normalize sha256 email ≡ some key
      → str_eq key other ≡ false
      → get other (record_failure normalize sha256 c now email m).0 ≡ get other m
  unfolding record_failure
  failure_isolated c now email key other m named apart = elim (Bool-cases c.enabled) [
    | inl on ↦ simp (on, named) (rw (get-put, apart) refl)
    | inr off ↦ simp off refl
  ]

  -- With the tracker enabled, a successful login to an account with a record clears it: it is
  -- assessed as new at any time afterwards. The release is audited, with the number of failures
  -- cleared, exactly if the account had been locked, even if the lock was over.
  success_clears :
      (c : LockoutConfig) (now : ℕ) (email key : String) (m : Records) (r : FailureRecord)
      → c.enabled ≡ true
      → key_for normalize sha256 email ≡ some key
      → get key m ≡ some r
      → let (m', result, audit) = record_success normalize sha256 c email m in
        (assess normalize sha256 c now email m' ≡ zero_assessment)
        × (result.previous_failures ≡ r.failed)
        × (audit ≡ (if ltb 0 r.locked_until then some (released r.failed) else none))
  unfolding record_success assess
  success_clears c now email key m r on named found = (
    simp (on, named, found) (rw get-remove_self refl),
    simp (on, named, found) refl,
    simp (on, named, found) refl,
  )
