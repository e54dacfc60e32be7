-- ===== src/Auth/Refinement.antt =====
-- services/auth.service.ts: the service refines the abstract one of `Auth.Sessions`.
use talenttrust_backend.Prelude.{
  String, Bool, false, not, ◌||◌, if◌then◌else◌, Option, none, some, List, [], ◌∷◌, ◌++◌, or_else,
  is_some, str_eq, eq_iff, eq_refl, get, has, Result, ok, err, ◌≡◌, refl, sym, ap, ◌∙◌, inl, inr,
  arith, Bool-cases,
}
use talenttrust_backend.Auth.{
  Platform, Moment, AuthTokens, UserAuthRow, Users, AuthError, find_by_email, username_taken,
  insert_user, with_refresh_hash, set_refresh_hash, get_secret, dummy_hash, normalize_email,
  verify_password, is_role, issue_tokens, new_user, verified, register, login, refresh, logout,
  Call, registering, logging_in, refreshing, logging_out, Reply, answered, serve, serve_all,
  store_tokens, add_user, log_in, rotate, refresh_for, digest_matches,
}
use talenttrust_backend.Auth.Sessions.{
  Directory, set_session, serve_abstractly, serve_all_abstractly, grant, enrol, register_abstractly,
  authenticate, is_live, exchange_row, exchange, digest_of, rows, stored,
}

absent_apart :
    (id key : String) (row : UserAuthRow) (users : Users)
    → get id ((key, row) ∷ users) ≡ none
    → (str_eq key id ≡ false) × (get id users ≡ none)
unfolding get
absent_apart id key row users h = ground arith

module _ (p : Platform) where
  set_refresh_hash-rows :
      (s : Option String) (id : String) (users : Users) (session : String → Option String)
      → set_refresh_hash (digest_of p s) id (rows p users session)
        ≡ rows p users (set_session id s session)
  unfolding set_refresh_hash
  set_refresh_hash-rows s id [] session = refl
  set_refresh_hash-rows s id ((key, row) ∷ users) session = elim (Bool-cases (str_eq key id)) [
    | inl same ↦ rw (same, set_refresh_hash-rows s id users session) refl
    | inr other ↦ rw (other, set_refresh_hash-rows s id users session) refl
  ]

  abbrev row_with :
      (String → Option String) → Option (String × UserAuthRow) → Option (String × UserAuthRow)
  row_with session none = none
  row_with session (some (id, row)) = some (id, with_refresh_hash (digest_of p (session id)) row)

  abbrev hashed : Option String → Option UserAuthRow → Option UserAuthRow
  hashed s none = none
  hashed s (some row) = some (with_refresh_hash (digest_of p s) row)

  get-rows :
      (id : String) (users : Users) (session : String → Option String)
      → get id (rows p users session) ≡ hashed (session id) (get id users)
  unfolding get
  get-rows id [] session = refl
  get-rows id ((key, row) ∷ users) session = elim (Bool-cases (str_eq key id)) [
    | inl same ↦
        let e : key ≡ id = (eq_iff key id).0 same in
        rw same (ap (λ k. some (with_refresh_hash (digest_of p (session k)) row)) e)
    | inr other ↦ rw other (get-rows id users session)
  ]

  find_by_email-rows :
      (email : String) (users : Users) (session : String → Option String)
      → find_by_email email (rows p users session) ≡ row_with session (find_by_email email users)
  unfolding find_by_email
  find_by_email-rows email [] session = refl
  find_by_email-rows email ((key, row) ∷ users) session =
      elim (Bool-cases (str_eq row.email email)) [
        | inl same ↦ rw same refl
        | inr other ↦ rw other (find_by_email-rows email users session)
      ]

  username_taken-rows :
      (username : String) (users : Users) (session : String → Option String)
      → username_taken username (rows p users session) ≡ username_taken username users
  unfolding username_taken
  username_taken-rows username [] session = refl
  username_taken-rows username ((key, row) ∷ users) session =
      ap (λ t. str_eq row.username username || t) (username_taken-rows username users session)

  -- A user who is not there has no row that a session could reach.
  rows-append :
      (id : String) (row : UserAuthRow) (users : Users) (session : String → Option String)
      → get id users ≡ none
      → rows p (users ++ (id, row) ∷ []) (set_session id none session)
        ≡ rows p users session ++ (id, with_refresh_hash none row) ∷ []
  unfolding get
  rows-append id row [] session h =
      ap (λ b. (id, with_refresh_hash (digest_of p (if b then none else session id)) row) ∷ [])
        (eq_refl id)
  rows-append id row ((key, other) ∷ users) session h =
      let (apart, absent) = absent_apart id key other users h in
      rw (apart, rows-append id row users session absent) refl

  abbrev rows_with : (String → Option String) → Option Users → Option Users
  rows_with session none = none
  rows_with session (some users) = some (rows p users session)

  is_some-hashed : (s : Option String) (o : Option UserAuthRow) → is_some (hashed s o) ≡ is_some o
  is_some-hashed s none = refl
  is_some-hashed s (some row) = refl

  is_some-row_with :
      (session : String → Option String) (o : Option (String × UserAuthRow))
      → is_some (row_with session o) ≡ is_some o
  is_some-row_with session none = refl
  is_some-row_with session (some entry) = refl

  -- The condition on which the insertion is refused.
  abbrev refused : String → UserAuthRow → Users → Bool
  refused id row users =
      has id users
      || (username_taken row.username users
          || (is_some (find_by_email row.email users) || not (is_role row.role)))

  refused-absent :
      (id : String) (row : UserAuthRow) (users : Users)
      → refused id row users ≡ false
      → get id users ≡ none
  refused-absent id row users h = ground arith

  insert_user-rows :
      (id : String) (row : UserAuthRow) (users : Users) (session : String → Option String)
      → insert_user id (with_refresh_hash none row) (rows p users session)
        ≡ rows_with
            (set_session id none session)
            (insert_user id (with_refresh_hash none row) users)
  unfolding insert_user
  insert_user-rows id row users session =
      rw (get-rows, username_taken-rows, find_by_email-rows, is_some-hashed, is_some-row_with)
        (elim (Bool-cases (refused id row users)) [
          | inl stop ↦ rw stop refl
          | inr go ↦ rw go (
              ap some (
                sym (
                  rows-append id (with_refresh_hash none row) users session
                    (refused-absent id row users go))))
        ])

  abbrev stored_after : Reply × Directory → Reply × Users
  stored_after (answer, d) = (answer, stored p d)

  granted :
      (id : String) (d : Directory) (r : Result AuthError AuthTokens)
      → answered (store_tokens p id (stored p d) r) ≡ stored_after (answered (grant p id d r))
  granted id d (err e) = refl
  granted id d (ok tokens) =
      ap (λ users. (ok (some tokens), users))
        (set_refresh_hash-rows (some tokens.refresh_token) id d.accounts d.session)

  register-stored :
      (m : Moment) (email password username role : String) (d : Directory)
      → answered (register p m email password username role (stored p d))
        ≡ stored_after (answered (register_abstractly p m email password username role d))
  unfolding register
  register-stored m email password username role d =
      rw (find_by_email-rows, is_some-row_with)
        (elim (Bool-cases (is_some (find_by_email (normalize_email p email) d.accounts))) [
          | inl taken ↦ rw taken refl
          | inr new ↦ rw new (
              ap (λ o. answered (add_user p m (normalize_email p email) role (stored p d) o))
                (insert_user-rows m.uuid
                  (new_user p m (normalize_email p email) password username role) d.accounts
                  d.session)
              ∙ added (
                  insert_user m.uuid (new_user p m (normalize_email p email) password username role)
                    d.accounts))
        ])
    where
      added :
          (o : Option Users)
          → answered (
              add_user p m
                (normalize_email p email)
                role
                (stored p d)
                (rows_with (set_session m.uuid none d.session) o))
            ≡ stored_after (answered (enrol p m (normalize_email p email) role d o))
      added none = refl
      added (some users) =
          granted m.uuid (record { accounts = users; session = set_session m.uuid none d.session })
            (issue_tokens p m m.uuid (normalize_email p email) role)

  log_in-stored :
      (m : Moment) (password : String) (d : Directory) (o : Option (String × UserAuthRow))
      → answered (log_in p m password (stored p d) (row_with d.session o))
        ≡ stored_after (answered (authenticate p m password d o))
  log_in-stored m password d none = refl
  log_in-stored m password d (some (id, row)) =
      elim (Bool-cases (verify_password p password (or_else row.password_hash dummy_hash))) [
        | inl right ↦ rw right (granted id d (issue_tokens p m id row.email row.role))
        | inr wrong ↦ rw wrong refl
      ]

  -- Where a token has the digest of the live one, it is the live one.
  abbrev pub Unclashing : String → Option String → Type 0
  Unclashing token none = Unit
  Unclashing token (some live) = p.sha256 token ≡ p.sha256 live → token ≡ live

  abbrev UnclashingFor : String → Directory → Option String → Type 0
  UnclashingFor token d none = Unit
  UnclashingFor token d (some id) = Unclashing token (d.session id)

  -- A token that is presented for a refresh has no collision with the live token of its user.
  abbrev pub NoClash : Call → Directory → Type 0
  NoClash (refreshing m token) d = UnclashingFor token d (verified p m token (get_secret m))
  NoClash _ d = Unit

  -- No token that is presented on the way has one.
  abbrev pub NoClashes : List Call → Directory → Type 0
  NoClashes [] d = Unit
  NoClashes (c ∷ cs) d = NoClash c d × NoClashes cs (serve_abstractly p c d).1

  module _ (filled : (t : String) → str_eq (p.sha256 t) "" ≡ false) where
    digest_matches-digest_of :
        (token : String) (s : Option String)
        → Unclashing token s
        → digest_matches p token (digest_of p s) ≡ is_live p token s
    digest_matches-digest_of token none distinct = refl
    digest_matches-digest_of token (some live) distinct =
        rw (filled live) (elim (Bool-cases (str_eq token live)) [
          | inl same ↦ rw same ((eq_iff _ _).1 (ap p.sha256 ((eq_iff token live).0 same)))
          | inr other ↦ rw other (elim (Bool-cases (str_eq (p.sha256 token) (p.sha256 live))) [
            | inl clash ↦
                absurd (cc (other, (eq_iff token live).1 (distinct ((eq_iff _ _).0 clash))))
            | inr apart ↦ apart
          ])
        ])

    rotate-stored :
        (m : Moment) (token : String) (d : Directory) (id : String) (o : Option UserAuthRow)
        → Unclashing token (d.session id)
        → answered (rotate p m token (stored p d) id (hashed (d.session id) o))
          ≡ stored_after (answered (exchange_row p m token d id o))
    rotate-stored m token d id none distinct = refl
    rotate-stored m token d id (some row) distinct =
        rw (digest_matches-digest_of token (d.session id) distinct)
          (elim (Bool-cases (is_live p token (d.session id))) [
            | inr dead ↦ rw dead refl
            | inl live ↦ rw live (
                ap
                  (λ users.
                    answered (store_tokens p id users (issue_tokens p m id row.email row.role)))
                  (set_refresh_hash-rows none id d.accounts d.session)
                ∙ granted id
                    (record { accounts = d.accounts; session = set_session id none d.session })
                    (issue_tokens p m id row.email row.role))
          ])

    refresh_for-stored :
        (m : Moment) (token : String) (d : Directory) (o : Option String)
        → UnclashingFor token d o
        → answered (refresh_for p m token (stored p d) o)
          ≡ stored_after (answered (exchange p m token d o))
    refresh_for-stored m token d none distinct = refl
    refresh_for-stored m token d (some id) distinct = elim (Bool-cases (str_eq id "")) [
      | inl blank ↦ rw blank refl
      | inr real ↦ rw real (
          ap (λ o. answered (rotate p m token (stored p d) id o)) (get-rows id d.accounts d.session)
          ∙ rotate-stored m token d id (get id d.accounts) distinct)
    ]

    serve-stored :
        (c : Call) (d : Directory)
        → NoClash c d
        → serve p c (stored p d) ≡ stored_after (serve_abstractly p c d)
    unfolding serve_abstractly login refresh logout
    serve-stored (registering m email password username role) d h =
        register-stored m email password username role d
    serve-stored (logging_in m email password) d h =
        ap (λ o. answered (log_in p m password (stored p d) o))
          (find_by_email-rows (normalize_email p email) d.accounts d.session)
        ∙ log_in-stored m password d (find_by_email (normalize_email p email) d.accounts)
    serve-stored (refreshing m token) d h =
        refresh_for-stored m token d (verified p m token (get_secret m)) h
    serve-stored (logging_out id) d h =
        ap (λ users. (ok none, users)) (set_refresh_hash-rows none id d.accounts d.session)

    -- Every sequence of calls gives the same answers, and a state that stores the same sessions,
    -- as the service that keeps the live token of each user instead of its digest. Digests are not
    -- empty, and no token that is presented for a refresh on the way has the digest of another token
    -- that is then live for its user.
    pub serve_all_refines :
        (cs : List Call) (d : Directory)
        → NoClashes cs d
        → serve_all p cs (stored p d)
          ≡ ((serve_all_abstractly p cs d).0, stored p (serve_all_abstractly p cs d).1)
    unfolding serve_all_abstractly
    serve_all_refines [] d h = refl
    serve_all_refines (c ∷ cs) d (here, h) =
        let rest = serve_all_refines cs (serve_abstractly p c d).1 h in
        ap (λ (answer, users). (answer ∷ (serve_all p cs users).0, (serve_all p cs users).1))
          (serve-stored c d here)
        ∙ ap (λ (answers, users). ((serve_abstractly p c d).0 ∷ answers, users)) rest
