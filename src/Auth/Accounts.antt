-- ===== src/Auth/Accounts.antt =====
-- services/auth.service.ts: what a registration adds, and the logins that follow it.
use talenttrust_backend.Prelude.{
  String, true, false, if◌then◌else◌, Option, none, some, [], ◌∷◌, ◌++◌, is_some, str_eq, eq_refl,
  Result, ok, err, ◌≡◌, refl, inl, inr, arith, Bool-cases,
}
use talenttrust_backend.Auth.{
  Platform, Moment, AuthTokens, UserAuthRow, Users, AuthError, duplicate_email, invalid_credentials,
  secret_missing, find_by_email, insert_user, with_refresh_hash, set_refresh_hash, normalize_email,
  tokens_for, get_secret, new_user, register, login, store_tokens,
}

abbrev hash_for :
    String → Option String → Option (String × UserAuthRow) → Option (String × UserAuthRow)
hash_for id hash none = none
hash_for id hash (some (key, row)) =
    some (key, if str_eq key id then with_refresh_hash hash row else row)

find_by_email-set_refresh_hash :
    (email id : String) (hash : Option String) (users : Users)
    → find_by_email email (set_refresh_hash hash id users)
      ≡ hash_for id hash (find_by_email email users)
unfolding find_by_email set_refresh_hash
find_by_email-set_refresh_hash email id hash [] = refl
find_by_email-set_refresh_hash email id hash ((key, row) ∷ users) =
    ground (arith, find_by_email-set_refresh_hash email id hash users)

find_by_email-append :
    (email id : String) (row : UserAuthRow) (users : Users)
    → is_some (find_by_email email users) ≡ false
    → find_by_email email (users ++ (id, row) ∷ [])
      ≡ (if str_eq row.email email then some (id, row) else none)
unfolding find_by_email
find_by_email-append email id row [] h = refl
find_by_email-append email id row ((key, other) ∷ users) h =
    ground (arith, find_by_email-append email id row users)

module _ (p : Platform) where
  answer_kept :
      (id : String) (users : Users) (r : Result AuthError AuthTokens)
      → (store_tokens p id users r).0 ≡ r
  answer_kept id users (err e) = refl
  answer_kept id users (ok t) = refl

  -- The state after a registration that gave tokens.
  register_done :
      (m : Moment) (email password username role : String) (users : Users) (tokens : AuthTokens)
      → (register p m email password username role users).0 ≡ ok tokens
      → (is_some (find_by_email (normalize_email p email) users) ≡ false)
        × ((register p m email password username role users).1
            ≡ set_refresh_hash (some (p.sha256 tokens.refresh_token)) m.uuid (
                users
                ++ (m.uuid, new_user p m (normalize_email p email) password username role) ∷ []))
  unfolding register insert_user
  register_done m email password username role users tokens done = ground arith

  -- Once a registration gave tokens, a login with the same address, up to case and outer blanks,
  -- gives the tokens of the new user, signed with the secret of that moment, if the password's
  -- digest is the stored one, and else fails. A secret is configured at the login, and the salt and
  -- the digest are not empty.
  pub login_after_register :
      (m later : Moment) (email password username role address attempt secret : String)
      (users : Users) (tokens : AuthTokens)
      → (register p m email password username role users).0 ≡ ok tokens
      → get_secret later ≡ ok secret
      → normalize_email p address ≡ normalize_email p email
      → str_eq m.salt "" ≡ false
      → str_eq (p.scrypt password m.salt) "" ≡ false
      → (login p later address attempt (register p m email password username role users).1).0 ≡ (
          if str_eq (p.scrypt password m.salt) (p.scrypt attempt m.salt)
          then ok (tokens_for p later secret m.uuid (normalize_email p email) role)
          else err invalid_credentials)
  unfolding login
  login_after_register m later email password username role address attempt secret users tokens done
        configured same salted filled =
      let (new, after) = register_done m email password username role users tokens done in
      rw
        (
          after,
          same,
          find_by_email-set_refresh_hash,
          find_by_email-append _ _ _ users new,
          eq_refl (normalize_email p email),
          eq_refl m.uuid,
          salted,
          filled,
        )
        (elim (Bool-cases (str_eq (p.scrypt password m.salt) (p.scrypt attempt m.salt))) [
          | inl right ↦ rw (right, configured) refl
          | inr wrong ↦ rw wrong refl
        ])

  register_unsigned :
      (m : Moment) (email password username role : String) (users : Users)
      → (register p m email password username role users).0 ≡ err secret_missing
      → (is_some (find_by_email (normalize_email p email) users) ≡ false)
        × ((register p m email password username role users).1
            ≡ users ++ (m.uuid, new_user p m (normalize_email p email) password username role) ∷ [])
  unfolding register insert_user
  register_unsigned m email password username role users done = ground arith

  known_email :
      (m : Moment) (email password username role : String) (users : Users)
      → is_some (find_by_email (normalize_email p email) users) ≡ true
      → (register p m email password username role users).0 ≡ err duplicate_email
  unfolding register
  known_email m email password username role users h = rw h refl

  -- A registration that fails because no secret is configured leaves the account behind: each later
  -- registration of the address is refused as a duplicate.
  pub unsigned_register_persists :
      (m later : Moment) (email password username role other name position : String) (users : Users)
      → (register p m email password username role users).0 ≡ err secret_missing
      → (register p later email other name position
          (register p m email password username role users).1).0
        ≡ err duplicate_email
  unsigned_register_persists m later email password username role other name position users done =
      let (new, after) = register_unsigned m email password username role users done in
      rw after (
        known_email later email other name position _ (
          rw
            (
              find_by_email-append _ m.uuid
                  (new_user p m (normalize_email p email) password username role) users new,
              eq_refl (normalize_email p email),
            )
            refl))
