-- ===== src/Reputation/Tests.antt =====
-- The theorems on ratings at a contract of two users, with an audit log that fails once.
use talenttrust_backend.Prelude.{
  ◌+◌, ◌*◌, ◌≤◌, String, Bool, true, false, none, some, List, [], ◌∷◌, length, str_eq, characters,
  utf16_length, ok, err, put, get, ◌≡◌, refl, ◌↔◌,
}
use talenttrust_backend.Audit.{genesis_hash, append}
use talenttrust_backend.Audit.Chain.{IsChain}
use talenttrust_backend.Reputation.{
  Environment, RatingStore, rating_exists, audit_failed, comment_repetitive, RatingInput, Occasion,
  validate_comment, check_comment, create_rating, create_bulk_ratings, count_characters,
  insert_entry, check_rating,
}
use talenttrust_backend.Reputation.Comment.{check_comment_lem, occurrences}
use talenttrust_backend.Reputation.Ratings.{IsSound, unaudited_rating_persists}
use talenttrust_backend.Reputation.Bulk.{
  create_bulk_ratings-IsSound, create_bulk_ratings_lem, total, created, unlogged,
}

abbrev environment : Environment
environment = record { enabled = true; trim = λ s. s; sha256 = λ s. s; stringify = λ v. "json" }

abbrev occasion : String → Bool → Occasion
occasion id works = record {
  id = id;
  created_at = "now";
  audit_available = works;
  audit_id = id;
  audit_time = "now";
}

abbrev input : String → String → RatingInput
input reviewer target = record {
  reviewer_id = reviewer;
  target_id = target;
  rating = 5;
  context_id = "c";
  comment = some "well done";
}

abbrev start : RatingStore
start = record {
  entries = [];
  contracts = record { id = "c"; client_id = "ann"; freelancer_id = "bob" } ∷ [];
  audit_log = [];
}

abbrev items : List (Occasion × RatingInput)
items =
    (occasion "1" true, input "ann" "bob")
    ∷ (occasion "2" true, input "ann" "bob")
    ∷ (occasion "3" false, input "bob" "ann")
    ∷ (occasion "4" true, input "bob" "ann")
    ∷ (occasion "5" true, input "bob" "bob")
    ∷ []

counts : total created (create_bulk_ratings environment items none start).0 ≡ 1
unfolding create_bulk_ratings create_rating check_rating insert_entry validate_comment utf16_length
    count_characters get put append
counts = refl

create_bulk_ratings-IsSound_example :
    IsSound environment (create_bulk_ratings environment items none start).1
create_bulk_ratings-IsSound_example =
    create_bulk_ratings-IsSound environment items none start (tt, tt)

create_bulk_ratings_lem_example :
    (length (create_bulk_ratings environment items none start).1.entries
      ≡ length start.entries
        + (total created (create_bulk_ratings environment items none start).0
            + total unlogged (create_bulk_ratings environment items none start).0))
    × (length (create_bulk_ratings environment items none start).1.audit_log
        ≡ length start.audit_log
          + total created (create_bulk_ratings environment items none start).0)
    × IsChain environment.stringify environment.sha256 genesis_hash
        (create_bulk_ratings environment items none start).1.audit_log
create_bulk_ratings_lem_example = create_bulk_ratings_lem environment items none start tt

lost :
    (create_rating environment (occasion "1" false) (input "ann" "bob") none start).0
    ≡ err audit_failed
unfolding create_rating check_rating insert_entry validate_comment utf16_length count_characters get
    put
lost = refl

unaudited_rating_persists_example :
    (create_rating environment
      (occasion "2" true)
      (input "ann" "bob")
      none
      (create_rating environment (occasion "1" false) (input "ann" "bob") none start).1).0
    ≡ err rating_exists
unaudited_rating_persists_example =
    unaudited_rating_persists environment (occasion "1" false) (occasion "2" true)
      (input "ann" "bob") none start lost

repetitive : check_comment environment (some "aaab") ≡ err comment_repetitive
unfolding validate_comment utf16_length count_characters get put
repetitive = refl

-- A character outside the basic plane has two code units, so two of it are let pass.
doubled : check_comment environment (some "😀😀") ≡ ok tt
unfolding validate_comment utf16_length count_characters get put
doubled = refl

check_comment_lem_example : (check_comment environment (some "aaab") ≡ ok tt) ↔ (
    (utf16_length "aaab" ≤ 1000)
    × (str_eq "aaab" "" ≡ false)
    × ((x : String) → occurrences x (characters "aaab") * 2 ≤ utf16_length "aaab"))
check_comment_lem_example = check_comment_lem environment "aaab" refl
