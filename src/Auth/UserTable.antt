-- ===== src/Auth/UserTable.antt =====
-- db/migrations.ts and services/auth.service.ts: the table `users`, its rows by id. Digests and salts
-- are texts, and a stored password hash is its salt and digest.
use talenttrust_backend.Prelude.{
  String, Bool, false, not, ◌||◌, if◌then◌else◌, Option, none, some, [], ◌∷◌, ◌++◌, is_some, str_eq,
  Table, has,
}

pub record PasswordHash : Type 0 where
  pub salt : String
  pub hash : String

pub record UserAuthRow : Type 0 where
  pub username : String
  pub email : String
  pub role : String
  pub password_hash : Option PasswordHash
  pub refresh_token_hash : Option String
  pub created_at : String

abbrev pub Users : Type 0
Users = Table UserAuthRow

unfoldable pub find_by_email : String → Users → Option (String × UserAuthRow)
find_by_email email [] = none
find_by_email email ((id, row) ∷ users) =
    let rest = find_by_email email users in if str_eq row.email email then some (id, row) else rest

unfoldable pub username_taken : String → Users → Bool
username_taken username [] = false
username_taken username ((id, row) ∷ users) =
    str_eq row.username username || username_taken username users

abbrev pub is_role : String → Bool
is_role role = str_eq role "client" || (str_eq role "freelancer" || str_eq role "both")

-- The insertion, which the keys and the check on roles may refuse.
unfoldable pub insert_user : String → UserAuthRow → Users → Option Users
insert_user id row users =
    if has id users
      || (username_taken row.username users
          || (is_some (find_by_email row.email users) || not (is_role row.role)))
    then none
    else some (users ++ (id, row) ∷ [])

abbrev pub with_refresh_hash : Option String → UserAuthRow → UserAuthRow
with_refresh_hash hash row = record {
  username = row.username;
  email = row.email;
  role = row.role;
  password_hash = row.password_hash;
  refresh_token_hash = hash;
  created_at = row.created_at;
}

-- `UPDATE users SET refresh_token_hash = ? WHERE id = ?`
unfoldable pub set_refresh_hash : Option String → String → Users → Users
set_refresh_hash hash id [] = []
set_refresh_hash hash id ((key, row) ∷ users) =
    (key, if str_eq key id then with_refresh_hash hash row else row)
    ∷ set_refresh_hash hash id users
