-- ===== src/LoginRoute/Locked.antt =====
-- routes/auth.routes.ts: logins to a locked account.
use talenttrust_backend.Prelude.{
  ℕ, ◌≤◌, String, true, false, Option, none, some, str_eq, or_else, Bool-cases, inl, inr, Result,
  ok, err, ◌≡◌, refl,
}
use talenttrust_backend.Auth.{
  Platform, Moment, AuthTokens, AuthError, invalid_credentials, invalid_refresh_token,
  duplicate_email, secret_missing, constraint_failed, UserAuthRow, Users, normalize_email, login,
  refresh, get_secret, find_by_email, issue_tokens, log_in, verify_password, dummy_hash,
}
use talenttrust_backend.Auth.Reuse.{store_tokens-used, Spent-refused}
use talenttrust_backend.Auth.Rotation.{Spent}
use talenttrust_backend.Lockout.{LockoutConfig, Records, AccountAssessment}
use talenttrust_backend.Lockout.Locked.{assess_locked_delay, record_failure_locked}
use talenttrust_backend.Lockout.Tracker.{IsSound}
use talenttrust_backend.LoginRoute.{
  LoginResponse, unauthorized, Server, assess_email, settle_login, login_route,
}

-- Tokens, or a refusal of the credentials.
abbrev IsAnswer : Result AuthError AuthTokens → Type 0
IsAnswer (ok tokens) = Unit
IsAnswer (err invalid_credentials) = Unit
IsAnswer (err e) = ⊥

log_in-IsAnswer :
    (p : Platform) (m : Moment) (secret password : String) (users : Users)
    (o : Option (String × UserAuthRow))
    → get_secret m ≡ ok secret
    → IsAnswer (log_in p m password users o).0
log_in-IsAnswer p m secret password users none signed = tt
log_in-IsAnswer p m secret password users (some (id, row)) signed =
    elim (Bool-cases (verify_password p password (or_else row.password_hash dummy_hash))) [
      | inl right ↦ rw (right, signed) tt
      | inr wrong ↦ rw wrong tt
    ]

log_in-Spent :
    (p : Platform) (m : Moment) (password token id : String) (row : UserAuthRow) (users : Users)
    (tokens : AuthTokens)
    → (log_in p m password users (some (id, row))).0 ≡ ok tokens
    → str_eq (p.sha256 token) (p.sha256 tokens.refresh_token) ≡ false
    → Spent p token id (log_in p m password users (some (id, row))).1
log_in-Spent p m password token id row users tokens done apart =
    elim (Bool-cases (verify_password p password (or_else row.password_hash dummy_hash))) [
      | inl right ↦ rw right (
          store_tokens-used p token id users (issue_tokens p m id row.email row.role) tokens
            (rw right at done) apart)
      | inr wrong ↦ cc (rw wrong at done)
    ]

module _ (p : Platform) (c : LockoutConfig) where
  abbrev pub refusal : LoginResponse
  refusal = record { answer = unauthorized; padded_to = c.max_delay_ms; audit = none }

  settle_login-refusal :
      (later : ℕ) (pre : AccountAssessment) (email : String) (records : Records)
      (r : Result AuthError AuthTokens × Users)
      → IsAnswer r.0
      → IsSound c records
      → c.lockout_duration_ms ≤ c.decay_window_ms
      → pre.pre_delay_ms ≡ c.max_delay_ms
      → (assess_email p c later email records).is_locked ≡ true
      → (settle_login p c pre later email records r).0 ≡ refusal
  settle_login-refusal later pre email records (ok tokens, users) a sound short largest locked =
      rw (locked, largest) refl
  settle_login-refusal later pre email records (err invalid_credentials, users) a sound short
        largest locked =
      let (wait, silent) =
        record_failure_locked (normalize_email p) p.sha256 c later email records sound short
          locked in
      rw (wait, silent) refl
  settle_login-refusal later pre email records (err duplicate_email, users) a sound short largest
        locked =
      absurd a
  settle_login-refusal later pre email records (err invalid_refresh_token, users) a sound short
        largest locked =
      absurd a
  settle_login-refusal later pre email records (err secret_missing, users) a sound short largest
        locked =
      absurd a
  settle_login-refusal later pre email records (err constraint_failed, users) a sound short largest
        locked =
      absurd a

  -- A login to an account that is locked when it starts and when it is settled is answered the
  -- same way, with the largest delay and no audit entry, whether the password is right or wrong. The
  -- records are sound, the lockout is no longer than the decay window, and a secret is configured.
  pub locked_login_uniform :
      (m : Moment) (secret : String) (later : ℕ) (email password : String) (s : Server)
      → get_secret m ≡ ok secret
      → IsSound c s.records
      → c.lockout_duration_ms ≤ c.decay_window_ms
      → (assess_email p c m.now email s.records).is_locked ≡ true
      → (assess_email p c later email s.records).is_locked ≡ true
      → (login_route p c m later email password s).0 ≡ refusal
  unfolding login_route login
  locked_login_uniform m secret later email password s signed sound short before locked =
      settle_login-refusal later (assess_email p c m.now email s.records) email s.records
        (login p m email password s.users)
        (log_in-IsAnswer p m secret password s.users
          (find_by_email (normalize_email p email) s.users) signed)
        sound short
        (assess_locked_delay (normalize_email p) p.sha256 c m.now email s.records before) locked

  settle_login-granted :
      (later : ℕ) (pre : AccountAssessment) (email : String) (records : Records)
      (r : Result AuthError AuthTokens × Users) (tokens : AuthTokens)
      → r.0 ≡ ok tokens
      → (assess_email p c later email records).is_locked ≡ true
      → ((settle_login p c pre later email records r).0.answer ≡ unauthorized)
        × ((settle_login p c pre later email records r).1.users ≡ r.1)
  settle_login-granted later pre email records (ok t, users) tokens done locked =
      rw locked (refl, refl)
  settle_login-granted later pre email records (err e, users) tokens done locked = cc done

  -- A login with the right password to a locked account is refused, and yet ends the user's session:
  -- a refresh token of another digest than the token that was drawn and withheld is refused.
  pub locked_login_ends_session :
      (m again : Moment) (later : ℕ) (email password token id : String) (row : UserAuthRow)
      (s : Server) (tokens : AuthTokens)
      → find_by_email (normalize_email p email) s.users ≡ some (id, row)
      → (login p m email password s.users).0 ≡ ok tokens
      → (assess_email p c later email s.records).is_locked ≡ true
      → p.subject token ≡ some id
      → str_eq (p.sha256 token) (p.sha256 tokens.refresh_token) ≡ false
      → ((login_route p c m later email password s).0.answer ≡ unauthorized)
        × ((refresh p again token (login_route p c m later email password s).1.users).0
            ≡ err invalid_refresh_token)
  unfolding login_route login
  locked_login_ends_session m again later email password token id row s tokens found done locked
        named apart =
      let (refused, kept) =
        settle_login-granted later (assess_email p c m.now email s.records) email s.records
          (login p m email password s.users) tokens done locked in
      (
        refused,
        rw kept (
            Spent-refused p again token id _ named (
              rw found
                (log_in-Spent p m password token id row s.users tokens (rw found at done) apart))),
      )
