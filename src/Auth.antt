-- ===== src/Auth.antt =====
-- services/auth.service.ts: registration, login, and refresh tokens that are used once. The table
-- `users` (db/migrations.ts) holds its rows by id. What the service takes from Node, jsonwebtoken
-- and the environment is a `Platform` and, for what differs from call to call, a `Moment`. Comparing
-- buffers in constant time is comparing texts.
pub mod Accounts
pub mod Refinement
pub mod Reuse
pub mod Rotation
pub mod Sessions
mod Tests
mod UserTable
unfoldable pub use UserTable.*
use talenttrust_backend.Prelude.{
  ℕ, String, Bool, true, false, not, ◌&&◌, ◌||◌, if◌then◌else◌, Option, none, some, List, [], ◌∷◌,
  ◌++◌, or_else, is_some, str_eq, Table, get, has, Result, ok, err,
}

pub data Claims : Type 0 where
  access : String → String → String → Claims
  refresh_claims : String → String → Claims

-- `sign secret ttl now claims`; `verifies secret now token` says whether signature and expiry
-- pass, and `subject token` is the `sub` of the payload that verification then gives.
pub record Platform : Type 0 where
  pub trim : String → String
  pub to_lower_case : String → String
  pub scrypt : String → String → String
  pub sha256 : String → String
  pub sign : String → String → ℕ → Claims → String
  pub verifies : String → ℕ → String → Bool
  pub subject : String → Option String

-- The secret that is configured, the time, and the random values that a call draws.
pub record Moment : Type 0 where
  pub jwt_secret : Option String
  pub now : ℕ
  pub salt : String
  pub uuid : String
  pub created_at : String
  pub raw_refresh : String

pub record AuthTokens : Type 0 where
  pub access_token : String
  pub refresh_token : String

pub data AuthError : Type 0 where
  duplicate_email : AuthError
  invalid_credentials : AuthError
  invalid_refresh_token : AuthError
  secret_missing : AuthError
  constraint_failed : AuthError

abbrev pub get_secret : Moment → Result AuthError String
get_secret m = secret_or m.jwt_secret
  where
    secret_or : Option String → Result AuthError String
    secret_or none = err secret_missing
    secret_or (some secret) = if str_eq secret "" then err secret_missing else ok secret

-- The hash that a login without a stored one is checked against.
abbrev pub dummy_hash : PasswordHash
dummy_hash = record {
  salt = "aaaaaaaaaaaaaaaaaaaaaaaaaaaaaaaa";
  hash =
      "bbbbbbbbbbbbbbbbbbbbbbbbbbbbbbbbbbbbbbbbbbbbbbbbbbbbbbbbbbbbbbbbbbbbbbbbbbbbbbbbbbbbbbbbbbbbbbbbbbbbbbbbbbbbbbbbbbbbbbbbbbbbbbbb";
}

module _ (p : Platform) where
  abbrev pub normalize_email : String → String
  normalize_email email = p.to_lower_case (p.trim email)

  abbrev pub hash_password : String → String → PasswordHash
  hash_password salt password = record { salt = salt; hash = p.scrypt password salt }

  abbrev pub verify_password : String → PasswordHash → Bool
  verify_password password stored =
      if str_eq stored.salt "" || str_eq stored.hash ""
      then false
      else str_eq stored.hash (p.scrypt password stored.salt)

  abbrev pub hash_refresh_token : String → String
  hash_refresh_token raw = p.sha256 raw

  abbrev pub tokens_for : Moment → String → String → String → String → AuthTokens
  tokens_for m secret id email role = record {
    access_token = p.sign secret "15m" m.now (access id email role);
    refresh_token = p.sign secret "7d" m.now (refresh_claims id m.raw_refresh);
  }

  abbrev pub sign_with :
      Moment → String → String → String → Result AuthError String → Result AuthError AuthTokens
  sign_with m id email role (err e) = err e
  sign_with m id email role (ok secret) = ok (tokens_for m secret id email role)

  abbrev pub issue_tokens : Moment → String → String → String → Result AuthError AuthTokens
  issue_tokens m id email role = sign_with m id email role (get_secret m)

  -- Stores the digest of the refresh token that was issued.
  abbrev pub store_tokens :
      String → Users → Result AuthError AuthTokens → Result AuthError AuthTokens × Users
  store_tokens id users (err e) = (err e, users)
  store_tokens id users (ok tokens) =
      (ok tokens, set_refresh_hash (some (hash_refresh_token tokens.refresh_token)) id users)

  abbrev pub new_user : Moment → String → String → String → String → UserAuthRow
  new_user m email password username role = record {
    username = username;
    email = email;
    role = role;
    password_hash = some (hash_password m.salt password);
    refresh_token_hash = none;
    created_at = m.created_at;
  }

  abbrev pub add_user :
      Moment → String → String → Users → Option Users → Result AuthError AuthTokens × Users
  add_user m email role users none = (err constraint_failed, users)
  add_user m email role users (some added) =
      store_tokens m.uuid added (issue_tokens m m.uuid email role)

  unfoldable pub register :
      Moment → String → String → String → String → Users → Result AuthError AuthTokens × Users
  register m email password username role users =
      let normalised = normalize_email email in
      if is_some (find_by_email normalised users)
      then (err duplicate_email, users)
      else add_user m normalised role users
          (insert_user m.uuid (new_user m normalised password username role) users)

  abbrev pub log_in :
      Moment → String → Users → Option (String × UserAuthRow) → Result AuthError AuthTokens × Users
  log_in m password users none = (err invalid_credentials, users)
  log_in m password users (some (id, row)) =
      if verify_password password (or_else row.password_hash dummy_hash)
      then store_tokens id users (issue_tokens m id row.email row.role)
      else (err invalid_credentials, users)

  unfoldable pub login : Moment → String → String → Users → Result AuthError AuthTokens × Users
  login m email password users =
      log_in m password users (find_by_email (normalize_email email) users)

  -- An absent or empty stored digest matches no token.
  abbrev pub digest_matches : String → Option String → Bool
  digest_matches token none = false
  digest_matches token (some stored) =
      if str_eq stored "" then false else str_eq (hash_refresh_token token) stored

  abbrev pub rotate :
      Moment → String → Users → String → Option UserAuthRow → Result AuthError AuthTokens × Users
  rotate m token users id none = (err invalid_refresh_token, users)
  rotate m token users id (some row) =
      if digest_matches token row.refresh_token_hash
      then store_tokens id (set_refresh_hash none id users) (issue_tokens m id row.email row.role)
      else (err invalid_refresh_token, users)

  abbrev pub refresh_for :
      Moment → String → Users → Option String → Result AuthError AuthTokens × Users
  refresh_for m token users none = (err invalid_refresh_token, users)
  refresh_for m token users (some id) =
      if str_eq id ""
      then (err invalid_refresh_token, users)
      else rotate m token users id (get id users)

  -- The subject of a token whose verification passes.
  abbrev pub verified : Moment → String → Result AuthError String → Option String
  verified m token (err e) = none
  verified m token (ok secret) = if p.verifies secret m.now token then p.subject token else none

  unfoldable pub refresh : Moment → String → Users → Result AuthError AuthTokens × Users
  refresh m token users = refresh_for m token users (verified m token (get_secret m))

  unfoldable pub logout : String → Users → Users
  logout id users = set_refresh_hash none id users

pub data Call : Type 0 where
  registering : Moment → String → String → String → String → Call
  logging_in : Moment → String → String → Call
  refreshing : Moment → String → Call
  logging_out : String → Call

abbrev pub Reply : Type 0
Reply = Result AuthError (Option AuthTokens)

abbrev pub answered {ℓ} : {A : Type ℓ} → Result AuthError AuthTokens × A → Reply × A
answered (ok tokens, s) = (ok (some tokens), s)
answered (err e, s) = (err e, s)

-- One call to the service, and a sequence of calls with their answers.
abbrev pub serve : Platform → Call → Users → Reply × Users
serve p (registering m email password username role) users =
    answered (register p m email password username role users)
serve p (logging_in m email password) users = answered (login p m email password users)
serve p (refreshing m token) users = answered (refresh p m token users)
serve p (logging_out id) users = (ok none, logout p id users)

abbrev pub serve_all : Platform → List Call → Users → List Reply × Users
serve_all p [] users = ([], users)
serve_all p (c ∷ cs) users =
    let (answer, after) = serve p c users in
    let (answers, last) = serve_all p cs after in (answer ∷ answers, last)
