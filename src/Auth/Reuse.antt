-- ===== src/Auth/Reuse.antt =====
-- services/auth.service.ts: refresh tokens that were exchanged, and those of users who logged out,
-- are refused.
use talenttrust_backend.Prelude.{
  String, true, false, ◌&&◌, if◌then◌else◌, Option, none, some, List, is_some, str_eq, eq_refl, get,
  Result, ok, err, All, ◌≡◌, refl, inl, inr, Bool-cases,
}
use talenttrust_backend.Auth.{
  Platform, Moment, AuthTokens, UserAuthRow, Users, AuthError, invalid_refresh_token,
  set_refresh_hash, get_secret, issue_tokens, verified, refresh, logout, Call, serve_all,
  store_tokens, rotate, refresh_for, digest_matches,
}
use talenttrust_backend.Auth.Rotation.{
  digest_in, live_digest-set_refresh_hash, reissues, Spent, other_digest, serve_all-Spent,
}

module _ (p : Platform) where
  pub Spent-refused :
      (m : Moment) (token id : String) (users : Users)
      → p.subject token ≡ some id
      → Spent p token id users
      → (refresh p m token users).0 ≡ err invalid_refresh_token
  unfolding refresh
  Spent-refused m token id users named h = refused (get_secret m)
    where
      row_refused :
          (o : Option UserAuthRow)
          → digest_matches p token (digest_in o) ≡ false
          → (rotate p m token users id o).0 ≡ err invalid_refresh_token
      row_refused none h = refl
      row_refused (some row) h = rw h refl

      subject_refused : (refresh_for p m token users (some id)).0 ≡ err invalid_refresh_token
      subject_refused = elim (Bool-cases (str_eq id "")) [
        | inl blank ↦ rw blank refl
        | inr real ↦ rw real (row_refused (get id users) h)
      ]

      refused :
          (r : Result AuthError String)
          → (refresh_for p m token users (verified p m token r)).0 ≡ err invalid_refresh_token
      refused (err e) = refl
      refused (ok secret) = elim (Bool-cases (p.verifies secret m.now token)) [
        | inl signed ↦ rw (signed, named) subject_refused
        | inr forged ↦ rw forged refl
      ]

  -- What a write to the user's own row stores is all that matters then.
  set_self-Spent :
      (token id : String) (hash : Option String) (users : Users)
      → digest_matches p token hash ≡ false
      → Spent p token id (set_refresh_hash hash id users)
  set_self-Spent token id hash users new =
      rw (live_digest-set_refresh_hash hash id id users, eq_refl id) (absent_or (get id users))
    where
      absent_or :
          (o : Option UserAuthRow)
          → digest_matches p token (if is_some o && true then hash else digest_in o) ≡ false
      absent_or none = refl
      absent_or (some row) = new

  pub store_tokens-used :
      (token id : String) (users : Users) (r : Result AuthError AuthTokens) (tokens : AuthTokens)
      → (store_tokens p id users r).0 ≡ ok tokens
      → str_eq (p.sha256 token) (p.sha256 tokens.refresh_token) ≡ false
      → Spent p token id (store_tokens p id users r).1
  store_tokens-used token id users (err e) tokens done apart = cc
  store_tokens-used token id users (ok t) tokens done apart =
      set_self-Spent token id (some (p.sha256 t.refresh_token)) users
        (other_digest p token t.refresh_token (cc (done, apart)))

  refresh-Spent :
      (m : Moment) (token id : String) (users : Users) (tokens : AuthTokens)
      → p.subject token ≡ some id
      → (refresh p m token users).0 ≡ ok tokens
      → str_eq (p.sha256 token) (p.sha256 tokens.refresh_token) ≡ false
      → Spent p token id (refresh p m token users).1
  unfolding refresh
  refresh-Spent m token id users tokens named used apart = verified_Spent (get_secret m) used
    where
      row_Spent :
          (o : Option UserAuthRow)
          → (rotate p m token users id o).0 ≡ ok tokens
          → Spent p token id (rotate p m token users id o).1
      row_Spent none done = cc
      row_Spent (some row) done =
          elim (Bool-cases (digest_matches p token row.refresh_token_hash)) [
            | inl live ↦ rw live (
                store_tokens-used token id (set_refresh_hash none id users)
                  (issue_tokens p m id row.email row.role) tokens (rw live at done) apart)
            | inr dead ↦ cc (rw dead at done)
          ]

      subject_Spent :
          (refresh_for p m token users (some id)).0 ≡ ok tokens
          → Spent p token id (refresh_for p m token users (some id)).1
      subject_Spent done = elim (Bool-cases (str_eq id "")) [
        | inl blank ↦ cc (rw blank at done)
        | inr real ↦ rw real (row_Spent (get id users) (rw real at done))
      ]

      verified_Spent :
          (r : Result AuthError String)
          → (refresh_for p m token users (verified p m token r)).0 ≡ ok tokens
          → Spent p token id (refresh_for p m token users (verified p m token r)).1
      verified_Spent (err e) done = cc
      verified_Spent (ok secret) done = elim (Bool-cases (p.verifies secret m.now token)) [
        | inl signed ↦ rw (signed, named) (subject_Spent (rw (signed, named) at done))
        | inr forged ↦ cc (rw forged at done)
      ]

  -- After a logout, the user's refresh token is refused for as long as no later call issues a
  -- token with its digest.
  refresh_after_logout :
      (m : Moment) (token id : String) (users : Users) (cs : List Call)
      → p.subject token ≡ some id
      → All (λ a. reissues p token a ≡ false) (serve_all p cs (logout p id users)).0
      → (refresh p m token (serve_all p cs (logout p id users)).1).0 ≡ err invalid_refresh_token
  unfolding logout
  refresh_after_logout m token id users cs named fresh = Spent-refused m token id _ named (
      serve_all-Spent p cs token id (set_refresh_hash none id users)
        (set_self-Spent token id none users refl) fresh)

  -- A refresh token that was exchanged for one of another digest is refused from then on, for as
  -- long as no later call issues a token with its digest.
  pub refresh_token_used_once :
      (m later : Moment) (token id : String) (users : Users) (tokens : AuthTokens) (cs : List Call)
      → p.subject token ≡ some id
      → (refresh p m token users).0 ≡ ok tokens
      → str_eq (p.sha256 token) (p.sha256 tokens.refresh_token) ≡ false
      → All (λ a. reissues p token a ≡ false) (serve_all p cs (refresh p m token users).1).0
      → (refresh p later token (serve_all p cs (refresh p m token users).1).1).0
        ≡ err invalid_refresh_token
  refresh_token_used_once m later token id users tokens cs named used apart fresh =
      Spent-refused later token id _ named (
        serve_all-Spent p cs token id (refresh p m token users).1
          (refresh-Spent m token id users tokens named used apart) fresh)
