-- ===== src/LoginRoute.antt =====
-- routes/auth.routes.ts: the handler of POST /login, which joins the authentication service and the
-- account lockout. What stands before it (limits, idempotency keys, the schema) is left out. A
-- response says up to which duration it was padded.
mod Locked
mod Tests
use talenttrust_backend.Prelude.{ℕ, String, Bool, Option, none, if◌then◌else◌, Result, ok, err}
use talenttrust_backend.Auth.{
  Platform, Moment, AuthTokens, AuthError, invalid_credentials, Users, normalize_email, login,
}
use talenttrust_backend.Lockout.{
  LockoutConfig, LockoutAudit, Records, AccountAssessment, assess, record_failure, record_success,
}

pub data LoginAnswer : Type 0 where
  logged_in : AuthTokens → LoginAnswer
  unauthorized : LoginAnswer
  internal_error : LoginAnswer

pub record LoginResponse : Type 0 where
  pub answer : LoginAnswer
  pub padded_to : ℕ
  pub audit : Option LockoutAudit

pub record Server : Type 0 where
  pub users : Users
  pub records : Records

module _ (p : Platform) (c : LockoutConfig) where
  abbrev pub assess_email : ℕ → String → Records → AccountAssessment
  assess_email now email records = assess (normalize_email p) p.sha256 c now email records

  -- The time is read again once the password has been checked.
  abbrev pub settle_login :
      AccountAssessment
      → ℕ
      → String
      → Records
      → Result AuthError AuthTokens × Users
      → LoginResponse × Server
  settle_login pre later email records (ok tokens, users) =
      let (cleared, _, audit) = record_success (normalize_email p) p.sha256 c email records in
      if (assess_email later email records).is_locked
      then (
        record { answer = unauthorized; padded_to = pre.pre_delay_ms; audit = none },
        record { users = users; records = records },
      )
      else (
        record { answer = logged_in tokens; padded_to = pre.pre_delay_ms; audit = audit },
        record { users = users; records = cleared },
      )
  settle_login pre later email records (err invalid_credentials, users) =
      let (failed, failure, audit) =
        record_failure (normalize_email p) p.sha256 c later email records in
      (
        record { answer = unauthorized; padded_to = failure.wait_ms; audit = audit },
        record { users = users; records = failed },
      )
  settle_login pre later email records (err e, users) = (
    record { answer = internal_error; padded_to = 0; audit = none },
    record { users = users; records = records },
  )

  unfoldable pub login_route : Moment → ℕ → String → String → Server → LoginResponse × Server
  login_route m later email password s =
      settle_login (assess_email m.now email s.records) later email s.records
        (login p m email password s.users)
