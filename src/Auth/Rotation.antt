-- ===== src/Auth/Rotation.antt =====
-- services/auth.service.ts: what becomes of a refresh token that was used, or replaced, or whose
-- user logged out.
use talenttrust_backend.Prelude.{
  String, Bool, false, ◌&&◌, if◌then◌else◌, Option, none, some, List, [], ◌∷◌, ◌++◌, or_else,
  is_some, str_eq, eq_iff, get, Result, ok, err, All, ◌≡◌, refl, subst, inl, inr, arith, Bool-cases,
}
use talenttrust_backend.Auth.{
  Platform, Moment, AuthTokens, UserAuthRow, Users, AuthError, find_by_email, insert_user,
  set_refresh_hash, get_secret, dummy_hash, normalize_email, verify_password, issue_tokens,
  new_user, verified, register, login, refresh, logout, Call, registering, logging_in, refreshing,
  logging_out, Reply, answered, serve, serve_all, store_tokens, add_user, log_in, rotate,
  refresh_for, digest_matches,
}

abbrev pub digest_in : Option UserAuthRow → Option String
digest_in none = none
digest_in (some row) = row.refresh_token_hash

-- The digest that is stored for a user.
abbrev pub live_digest : String → Users → Option String
live_digest id users = digest_in (get id users)

pub live_digest-set_refresh_hash :
    (hash : Option String) (id key : String) (users : Users)
    → live_digest key (set_refresh_hash hash id users)
      ≡ (if is_some (get key users) && str_eq key id then hash else live_digest key users)
unfolding get set_refresh_hash
live_digest-set_refresh_hash hash id key [] = refl
live_digest-set_refresh_hash hash id key ((k, row) ∷ users) = ground (
  arith,
  eq_iff k key,
  eq_iff k id,
  eq_iff key id,
  live_digest-set_refresh_hash hash id key users,
)

live_digest-append :
    (id key : String) (row : UserAuthRow) (users : Users)
    → row.refresh_token_hash ≡ none
    → live_digest key (users ++ (id, row) ∷ []) ≡ live_digest key users
unfolding get
live_digest-append id key row [] h = ground arith
live_digest-append id key row ((k, other) ∷ users) h =
    ground (arith, live_digest-append id key row users h)

insert_user-some :
    (key : String) (row : UserAuthRow) (users : Users) {added : Users}
    → insert_user key row users ≡ some added
    → users ++ (key, row) ∷ [] ≡ added
unfolding insert_user
insert_user-some key row users h = ground arith

module _ (p : Platform) where
  -- Whether an answer carries a refresh token with the digest of a given one.
  abbrev pub reissues : String → Reply → Bool
  reissues token (ok (some tokens)) = str_eq (p.sha256 token) (p.sha256 tokens.refresh_token)
  reissues token _ = false

  -- The digest stored for the user is not that of the token.
  abbrev pub Spent : String → String → Users → Type 0
  Spent token id users = digest_matches p token (live_digest id users) ≡ false

  pub set_refresh_hash-Spent :
      (token id key : String) (hash : Option String) (users : Users)
      → digest_matches p token hash ≡ false
      → Spent token id users
      → Spent token id (set_refresh_hash hash key users)
  set_refresh_hash-Spent token id key hash users new old =
      rw (live_digest-set_refresh_hash hash key id users)
        (elim (Bool-cases (is_some (get id users) && str_eq id key)) [
          | inl hit ↦ rw hit new
          | inr miss ↦ rw miss old
        ])

  pub other_digest :
      (token fresh : String)
      → str_eq (p.sha256 token) (p.sha256 fresh) ≡ false
      → digest_matches p token (some (p.sha256 fresh)) ≡ false
  other_digest token fresh h = ground arith

  store_tokens-Spent :
      (token id key : String) (users : Users) (r : Result AuthError AuthTokens)
      → Spent token id users
      → reissues token (answered (store_tokens p key users r)).0 ≡ false
      → Spent token id (answered (store_tokens p key users r)).1
  store_tokens-Spent token id key users (err e) h fresh = h
  store_tokens-Spent token id key users (ok tokens) h fresh =
      set_refresh_hash-Spent token id key (some (p.sha256 tokens.refresh_token)) users
        (other_digest token tokens.refresh_token fresh) h

  insert_user-Spent :
      (token id key : String) (row : UserAuthRow) (users : Users) {added : Users}
      → row.refresh_token_hash ≡ none
      → Spent token id users
      → insert_user key row users ≡ some added
      → Spent token id added
  insert_user-Spent token id key row users {added} bare h done =
      let appended : users ++ (key, row) ∷ [] ≡ added = insert_user-some key row users done in
      subst (Spent token id) appended (rw (live_digest-append key id row users bare) h)

  add_user-Spent :
      (m : Moment) (email role token id : String) (users : Users) (o : Option Users)
      → Spent token id users
      → ((added : Users) → o ≡ some added → Spent token id added)
      → reissues token (answered (add_user p m email role users o)).0 ≡ false
      → Spent token id (answered (add_user p m email role users o)).1
  add_user-Spent m email role token id users none h kept fresh = h
  add_user-Spent m email role token id users (some added) h kept fresh =
      store_tokens-Spent token id m.uuid added (issue_tokens p m m.uuid email role)
        (kept added refl) fresh

  register-Spent :
      (m : Moment) (email password username role token id : String) (users : Users)
      → Spent token id users
      → reissues token (answered (register p m email password username role users)).0 ≡ false
      → Spent token id (answered (register p m email password username role users)).1
  unfolding register
  register-Spent m email password username role token id users h fresh =
      let row = new_user p m (normalize_email p email) password username role in
      elim (Bool-cases (is_some (find_by_email (normalize_email p email) users))) [
        | inl taken ↦ rw taken h
        | inr new ↦ rw new (
            add_user-Spent m (normalize_email p email) role token id users
              (insert_user m.uuid row users) h
              (λ _ done. insert_user-Spent token id m.uuid row users refl h done) (rw new at fresh))
      ]

  log_in-Spent :
      (m : Moment) (password token id : String) (users : Users) (o : Option (String × UserAuthRow))
      → Spent token id users
      → reissues token (answered (log_in p m password users o)).0 ≡ false
      → Spent token id (answered (log_in p m password users o)).1
  log_in-Spent m password token id users none h fresh = h
  log_in-Spent m password token id users (some (key, row)) h fresh =
      elim (Bool-cases (verify_password p password (or_else row.password_hash dummy_hash))) [
        | inl right ↦ rw right (
            store_tokens-Spent token id key users (issue_tokens p m key row.email row.role) h
              (rw right at fresh))
        | inr wrong ↦ rw wrong h
      ]

  rotate-Spent :
      (m : Moment) (used token id key : String) (users : Users) (o : Option UserAuthRow)
      → Spent token id users
      → reissues token (answered (rotate p m used users key o)).0 ≡ false
      → Spent token id (answered (rotate p m used users key o)).1
  rotate-Spent m used token id key users none h fresh = h
  rotate-Spent m used token id key users (some row) h fresh =
      elim (Bool-cases (digest_matches p used row.refresh_token_hash)) [
        | inl live ↦ rw live (
            store_tokens-Spent token id key (set_refresh_hash none key users)
              (issue_tokens p m key row.email row.role)
              (set_refresh_hash-Spent token id key none users refl h) (rw live at fresh))
        | inr dead ↦ rw dead h
      ]

  refresh_for-Spent :
      (m : Moment) (used token id : String) (users : Users) (o : Option String)
      → Spent token id users
      → reissues token (answered (refresh_for p m used users o)).0 ≡ false
      → Spent token id (answered (refresh_for p m used users o)).1
  refresh_for-Spent m used token id users none h fresh = h
  refresh_for-Spent m used token id users (some key) h fresh = elim (Bool-cases (str_eq key "")) [
    | inl blank ↦ rw blank h
    | inr real ↦
        rw real (rotate-Spent m used token id key users (get key users) h (rw real at fresh))
  ]

  serve-Spent :
      (c : Call) (token id : String) (users : Users)
      → Spent token id users
      → reissues token (serve p c users).0 ≡ false
      → Spent token id (serve p c users).1
  unfolding login refresh logout
  serve-Spent (registering m email password username role) token id users =
      register-Spent m email password username role token id users
  serve-Spent (logging_in m email password) token id users =
      log_in-Spent m password token id users (find_by_email (normalize_email p email) users)
  serve-Spent (refreshing m used) token id users =
      refresh_for-Spent m used token id users (verified p m used (get_secret m))
  serve-Spent (logging_out key) token id users =
      λ h _. set_refresh_hash-Spent token id key none users refl h

  pub serve_all-Spent :
      (cs : List Call) (token id : String) (users : Users)
      → Spent token id users
      → All (λ a. reissues token a ≡ false) (serve_all p cs users).0
      → Spent token id (serve_all p cs users).1
  serve_all-Spent [] token id users h fresh = h
  serve_all-Spent (c ∷ cs) token id users h (new, fresh) =
      serve_all-Spent cs token id (serve p c users).1 (serve-Spent c token id users h new) fresh
