-- ===== src/Auth/Tests.antt =====
-- The theorems on authentication at a user or two. A digest is its text behind a mark, or the same
-- for most texts; every signature and expiry pass.
use talenttrust_backend.Prelude.{
  String, true, false, none, some, List, [], ◌∷◌, ◌<>◌, if◌then◌else◌, get, ok, err, All, str_eq,
  eq_iff, Bool-cases, inl, inr, ◌≡◌, refl,
}
use talenttrust_backend.Auth.{
  Claims, access, refresh_claims, Platform, Moment, AuthTokens, Users, invalid_refresh_token,
  invalid_credentials, secret_missing, duplicate_email, register, login, refresh, logout,
  tokens_for, Call, registering, logging_in, refreshing, logging_out, serve_all, find_by_email,
  insert_user, username_taken, set_refresh_hash,
}
use talenttrust_backend.Auth.Sessions.{Directory, stored, serve_all_abstractly, serve_abstractly}
use talenttrust_backend.Auth.Refinement.{serve_all_refines, NoClashes}
use talenttrust_backend.Auth.Reuse.{refresh_token_used_once}
use talenttrust_backend.Auth.Accounts.{login_after_register, unsigned_register_persists}
use talenttrust_backend.Auth.Rotation.{reissues}

abbrev mark : String → String
mark s = "#" <> s

abbrev token_of : Claims → String
token_of (access id email role) = "A"
token_of (refresh_claims id raw) = raw

abbrev platform : Platform
platform = record {
  trim = λ s. s;
  to_lower_case = λ s. s;
  scrypt = λ password salt. password <> salt;
  sha256 = mark;
  sign = λ secret ttl now claims. token_of claims;
  verifies = λ secret now token. true;
  subject = λ token. some "u1";
}

abbrev moment : String → String → Moment
moment uuid raw = record {
  jwt_secret = some "k";
  now = 0;
  salt = "s";
  uuid = uuid;
  created_at = "now";
  raw_refresh = raw;
}

abbrev joined : Users
joined = (register platform (moment "u1" "r1") "a@b" "password" "ann" "client" []).1

abbrev exchanged : Users
exchanged = (refresh platform (moment "" "r2") "r1" joined).1

abbrev pair : String → AuthTokens
pair raw = record { access_token = "A"; refresh_token = raw }

-- Digests that most tokens share.
abbrev short : String → String
short s =
    if str_eq s "r1" then "1" else if str_eq s "r2" then "2" else if str_eq s "r3" then "3" else "0"

abbrev coarse : Platform
coarse = record platform { sha256 = short }

short_filled : (t : String) → str_eq (short t) "" ≡ false
short_filled t = elim (Bool-cases (str_eq t "r1")) [
  | inl h ↦ rw h refl
  | inr h ↦ elim (Bool-cases (str_eq t "r2")) [
    | inl k ↦ rw (h, k) refl
    | inr k ↦ elim (Bool-cases (str_eq t "r3")) [
      | inl l ↦ rw (h, k, l) refl
      | inr l ↦ rw (h, k, l) refl
    ]
  ]
]

abbrev calls : List Call
calls =
    registering (moment "u1" "r1") "a@b" "password" "ann" "client"
    ∷ logging_in (moment "" "r2") "a@b" "password"
    ∷ refreshing (moment "" "r3") "r2"
    ∷ refreshing (moment "" "r4") "r2"
    ∷ logging_out "u1"
    ∷ []

abbrev nobody : Directory
nobody = record { accounts = []; session = λ id. none }

apart : (s t : String) → str_eq s t ≡ false → ¬ (s ≡ t)
apart s t differ e = cc (differ, (eq_iff s t).1 e)

no_clashes : NoClashes coarse calls nobody
unfolding serve_abstractly find_by_email insert_user username_taken get
no_clashes = (tt, (tt, ((λ e. refl), ((λ e. absurd (apart "2" "3" refl e)), (tt, tt)))))

answers :
    (serve_all coarse calls []).0
    ≡ ok (some (pair "r1"))
      ∷ ok (some (pair "r2"))
      ∷ ok (some (pair "r3"))
      ∷ err invalid_refresh_token
      ∷ ok none
      ∷ []
unfolding register login refresh logout find_by_email insert_user username_taken set_refresh_hash
    get
answers = refl

serve_all_refines_example : serve_all coarse calls (stored coarse nobody) ≡ (
  (serve_all_abstractly coarse calls nobody).0,
  stored coarse (serve_all_abstractly coarse calls nobody).1,
)
serve_all_refines_example = serve_all_refines coarse short_filled calls nobody no_clashes

abbrev later_calls : List Call
later_calls = logging_in (moment "" "r3") "a@b" "password" ∷ []

first_exchange : (refresh platform (moment "" "r2") "r1" joined).0 ≡ ok (pair "r2")
unfolding register refresh find_by_email insert_user username_taken set_refresh_hash get
first_exchange = refl

not_reissued :
    All (λ a. reissues platform "r1" a ≡ false) (serve_all platform later_calls exchanged).0
unfolding register login refresh find_by_email insert_user username_taken set_refresh_hash get
not_reissued = (refl, tt)

refresh_token_used_once_example :
    (refresh platform (moment "" "r4") "r1" (serve_all platform later_calls exchanged).1).0
    ≡ err invalid_refresh_token
refresh_token_used_once_example =
    refresh_token_used_once platform (moment "" "r2") (moment "" "r4") "r1" "u1" joined (pair "r2")
      later_calls refl first_exchange refl not_reissued

refused_after_logout :
    All
      (λ a. reissues platform "r1" a ≡ false)
      (serve_all platform later_calls (logout platform "u1" joined)).0
unfolding register login logout find_by_email insert_user username_taken set_refresh_hash get
refused_after_logout = (refl, tt)

registered :
    (register platform (moment "u1" "r1") "a@b" "password" "ann" "client" []).0 ≡ ok (pair "r1")
unfolding register find_by_email insert_user username_taken get
registered = refl

login_after_register_example : (login platform (moment "" "r2") "a@b" "guess" joined).0 ≡ (
    if str_eq "passwords" "guesss"
    then ok (tokens_for platform (moment "" "r2") "k" "u1" "a@b" "client")
    else err invalid_credentials)
login_after_register_example =
    login_after_register platform (moment "u1" "r1") (moment "" "r2") "a@b" "password" "ann"
      "client" "a@b" "guess" "k" [] (pair "r1") registered refl refl refl refl

abbrev unsigned : Moment
unsigned = record {
  jwt_secret = none;
  now = 0;
  salt = "s";
  uuid = "u1";
  created_at = "now";
  raw_refresh = "r1";
}

unsigned_fails :
    (register platform unsigned "a@b" "password" "ann" "client" []).0 ≡ err secret_missing
unfolding register find_by_email insert_user username_taken get
unsigned_fails = refl

unsigned_register_persists_example :
    (register platform
      (moment "u2" "r2")
      "a@b"
      "password"
      "ann"
      "client"
      (register platform unsigned "a@b" "password" "ann" "client" []).1).0
    ≡ err duplicate_email
unsigned_register_persists_example =
    unsigned_register_persists platform unsigned (moment "u2" "r2") "a@b" "password" "ann" "client"
      "password" "ann" "client" [] unsigned_fails
