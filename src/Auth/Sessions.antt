-- ===== src/Auth/Sessions.antt =====
-- services/auth.service.ts against an abstract service, which keeps the one refresh token that is
-- live for each user in place of its digest in the user's row.
use talenttrust_backend.Prelude.{
  String, Bool, false, if◌then◌else◌, Option, none, some, List, [], ◌∷◌, or_else, is_some, str_eq,
  get, Result, ok, err,
}
use talenttrust_backend.Auth.{
  Platform, Moment, AuthTokens, UserAuthRow, Users, AuthError, duplicate_email, invalid_credentials,
  invalid_refresh_token, constraint_failed, find_by_email, insert_user, with_refresh_hash,
  get_secret, dummy_hash, normalize_email, verify_password, issue_tokens, new_user, verified, Call,
  registering, logging_in, refreshing, logging_out, Reply, answered,
}

-- The digests in the rows of `accounts` are not used.
pub record Directory : Type 0 where
  pub accounts : Users
  pub session : String → Option String

abbrev pub set_session : String → Option String → (String → Option String) → String → Option String
set_session id s session key = if str_eq key id then s else session key

module _ (p : Platform) where
  abbrev pub grant :
      String → Directory → Result AuthError AuthTokens → Result AuthError AuthTokens × Directory
  grant id d (err e) = (err e, d)
  grant id d (ok tokens) = (
    ok tokens,
    record {
      accounts = d.accounts;
      session = set_session id (some tokens.refresh_token) d.session;
    },
  )

  abbrev pub enrol :
      Moment → String → String → Directory → Option Users → Result AuthError AuthTokens × Directory
  enrol m email role d none = (err constraint_failed, d)
  enrol m email role d (some added) =
      grant m.uuid (record { accounts = added; session = set_session m.uuid none d.session })
        (issue_tokens p m m.uuid email role)

  abbrev pub register_abstractly :
      Moment
      → String
      → String
      → String
      → String
      → Directory
      → Result AuthError AuthTokens × Directory
  register_abstractly m email password username role d =
      let normalised = normalize_email p email in
      if is_some (find_by_email normalised d.accounts)
      then (err duplicate_email, d)
      else enrol m normalised role d
          (insert_user m.uuid (new_user p m normalised password username role) d.accounts)

  abbrev pub authenticate :
      Moment
      → String
      → Directory
      → Option (String × UserAuthRow)
      → Result AuthError AuthTokens × Directory
  authenticate m password d none = (err invalid_credentials, d)
  authenticate m password d (some (id, row)) =
      if verify_password p password (or_else row.password_hash dummy_hash)
      then grant id d (issue_tokens p m id row.email row.role)
      else (err invalid_credentials, d)

  abbrev pub is_live : String → Option String → Bool
  is_live token none = false
  is_live token (some live) = str_eq token live

  abbrev pub exchange_row :
      Moment
      → String
      → Directory
      → String
      → Option UserAuthRow
      → Result AuthError AuthTokens × Directory
  exchange_row m token d id none = (err invalid_refresh_token, d)
  exchange_row m token d id (some row) =
      if is_live token (d.session id)
      then grant id (record { accounts = d.accounts; session = set_session id none d.session })
          (issue_tokens p m id row.email row.role)
      else (err invalid_refresh_token, d)

  abbrev pub exchange :
      Moment → String → Directory → Option String → Result AuthError AuthTokens × Directory
  exchange m token d none = (err invalid_refresh_token, d)
  exchange m token d (some id) =
      if str_eq id ""
      then (err invalid_refresh_token, d)
      else exchange_row m token d id (get id d.accounts)

  unfoldable pub serve_abstractly : Call → Directory → Reply × Directory
  serve_abstractly (registering m email password username role) d =
      answered (register_abstractly m email password username role d)
  serve_abstractly (logging_in m email password) d =
      answered (authenticate m password d (find_by_email (normalize_email p email) d.accounts))
  serve_abstractly (refreshing m token) d =
      answered (exchange m token d (verified p m token (get_secret m)))
  serve_abstractly (logging_out id) d =
      (ok none, record { accounts = d.accounts; session = set_session id none d.session })

  unfoldable pub serve_all_abstractly : List Call → Directory → List Reply × Directory
  serve_all_abstractly [] d = ([], d)
  serve_all_abstractly (c ∷ cs) d =
      let (answer, after) = serve_abstractly c d in
      let (answers, last) = serve_all_abstractly cs after in (answer ∷ answers, last)

  abbrev pub digest_of : Option String → Option String
  digest_of none = none
  digest_of (some token) = some (p.sha256 token)

  -- The rows in which the digests are those of the live tokens.
  abbrev pub rows : Users → (String → Option String) → Users
  rows [] session = []
  rows ((id, row) ∷ users) session =
      (id, with_refresh_hash (digest_of (session id)) row) ∷ rows users session

  abbrev pub stored : Directory → Users
  stored d = rows d.accounts d.session
