-- ===== src/LoginRoute/Tests.antt =====
-- The theorems on the login route at a user whose account is locked by five failures.
use talenttrust_backend.Prelude.{
  ◌<>◌, String, true, some, List, [], ◌∷◌, ok, err, ◌≡◌, refl, arith, get, put,
}
use talenttrust_backend.Auth.{
  Claims, access, refresh_claims, Platform, Moment, AuthTokens, UserAuthRow, login, refresh,
  invalid_refresh_token, find_by_email,
}
use talenttrust_backend.Lockout.{
  default_lockout_config, assess, assess_record, record_failure, key_for, fail_record,
  refresh_in_place,
}
use talenttrust_backend.Lockout.Tracker.{IsSound, run, run-IsSound, failure, call, Call}
use talenttrust_backend.LoginRoute.{Server, unauthorized, login_route, assess_email}
use talenttrust_backend.LoginRoute.Locked.{refusal, locked_login_uniform, locked_login_ends_session}

abbrev same : String → String
same s = s

abbrev token_of : Claims → String
token_of (access id email role) = "A"
token_of (refresh_claims id raw) = raw

abbrev platform : Platform
platform = record {
  trim = same;
  to_lower_case = same;
  scrypt = λ password salt. password <> salt;
  sha256 = same;
  sign = λ secret ttl now claims. token_of claims;
  verifies = λ secret now token. true;
  subject = λ token. some "u1";
}

abbrev moment : Moment
moment = record {
  jwt_secret = some "k";
  now = 2000;
  salt = "s";
  uuid = "u";
  created_at = "now";
  raw_refresh = "r2";
}

abbrev ann : UserAuthRow
ann = record {
  username = "ann";
  email = "a@b";
  role = "client";
  password_hash = some (record { salt = "s"; hash = "passwords" });
  refresh_token_hash = some "r1";
  created_at = "now";
}

abbrev failures : List Call
failures =
    failure 1000 "a@b"
    ∷ failure 1001 "a@b"
    ∷ failure 1002 "a@b"
    ∷ failure 1003 "a@b"
    ∷ failure 1004 "a@b"
    ∷ []

abbrev server : Server
server = record {
  users = ("u1", ann) ∷ [];
  records = run same same default_lockout_config failures [];
}

empty-IsSound : IsSound default_lockout_config []
unfolding get
empty-IsSound = record { consistent = λ k r e. cc e; unique = tt }

records-IsSound : IsSound default_lockout_config server.records
records-IsSound =
    run-IsSound same same default_lockout_config failures [] (omega arith)
      (omega arith, (omega arith, (omega arith, (omega arith, (omega arith, tt))))) empty-IsSound

locked_at_start :
    (assess_email platform default_lockout_config 2000 "a@b" server.records).is_locked ≡ true
unfolding run call assess assess_record record_failure key_for fail_record refresh_in_place get put
locked_at_start = refl

still_locked :
    (assess_email platform default_lockout_config 2100 "a@b" server.records).is_locked ≡ true
unfolding run call assess assess_record record_failure key_for fail_record refresh_in_place get put
still_locked = refl

locked_login_uniform_example :
    (login_route platform default_lockout_config moment 2100 "a@b" "password" server).0
    ≡ refusal platform default_lockout_config
locked_login_uniform_example =
    locked_login_uniform platform default_lockout_config moment "k" 2100 "a@b" "password" server
      refl records-IsSound (omega arith) locked_at_start still_locked

abbrev withheld : AuthTokens
withheld = record { access_token = "A"; refresh_token = "r2" }

found : find_by_email "a@b" server.users ≡ some ("u1", ann)
unfolding find_by_email
found = refl

accepted : (login platform moment "a@b" "password" server.users).0 ≡ ok withheld
unfolding login find_by_email
accepted = refl

locked_login_ends_session_example :
    ((login_route platform default_lockout_config moment 2100 "a@b" "password" server).0.answer
      ≡ unauthorized)
    × ((refresh platform moment "r1"
          (login_route platform default_lockout_config moment 2100 "a@b" "password"
            server).1.users).0
        ≡ err invalid_refresh_token)
locked_login_ends_session_example =
    locked_login_ends_session platform default_lockout_config moment moment 2100 "a@b" "password"
      "r1" "u1" ann server withheld found accepted still_locked refl refl
