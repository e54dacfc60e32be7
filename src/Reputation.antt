-- ===== src/Reputation.antt =====
-- services/reputation.service.ts and repositories/reputationRepository.ts: the creation of ratings,
-- one by one and in bulk, on the tables of ratings and contracts (db/migrations.ts) and the audit
-- log. Ratings are natural numbers, and texts are of Unicode scalar values, with lengths in UTF-16 code units. Both
-- parties of a contract are users, so that the references of a row are never refused. The webhook
-- that follows a creation and the computing of profiles are left out.
pub mod Bulk
pub mod Comment
pub mod Ratings
mod Tests
use talenttrust_backend.Prelude.{
  ℕ, ◌+◌, ◌*◌, max, suc, String, Bool, true, false, not, ◌&&◌, ◌||◌, ltb, leb, if◌then◌else◌,
  Option, none, some, List, [], ◌∷◌, ◌++◌, length, keep_if, find, or_else, is_some, str_eq,
  text_before, Table, get, put, sort, Result, ok, err, guard, ◌>>◌,
}
use talenttrust_backend.Prelude.{characters, utf16_length}
use talenttrust_backend.Envelope.{
  JsValue, undefined, string, number, natural, object, Fields, no_field, set,
}
use talenttrust_backend.Audit.{AuditContent, AuditLog, CreateAuditEntryInput, append}

pub record ReputationEntry : Type 0 where
  pub id : String
  pub reviewer_id : String
  pub target_id : String
  pub rating : ℕ
  pub comment : Option String
  pub context_id : String
  pub created_at : String

-- What the service reads of a contract.
pub record ContractRow : Type 0 where
  pub id : String
  pub client_id : String
  pub freelancer_id : String

pub record RatingStore : Type 0 where
  pub entries : List ReputationEntry
  pub contracts : List ContractRow
  pub audit_log : AuditLog

pub data ReputationError : Type 0 where
  disabled : ReputationError
  self_rating : ReputationError
  rating_exists : ReputationError
  not_participant : ReputationError
  comment_too_long : ReputationError
  comment_blank : ReputationError
  comment_repetitive : ReputationError
  constraint_failed : ReputationError
  audit_failed : ReputationError

pub record RatingInput : Type 0 where
  pub reviewer_id : String
  pub target_id : String
  pub rating : ℕ
  pub context_id : String
  pub comment : Option String

-- What differs from call to call: fresh ids, times, and whether the audit log takes an entry.
pub record Occasion : Type 0 where
  pub id : String
  pub created_at : String
  pub audit_available : Bool
  pub audit_id : String
  pub audit_time : String

-- The feature flag, trimming, SHA-256 and JSON.stringify.
pub record Environment : Type 0 where
  pub enabled : Bool
  pub trim : String → String
  pub sha256 : String → String
  pub stringify : JsValue → String

abbrev pub same_triple : String → String → String → ReputationEntry → Bool
same_triple reviewer target context e =
    str_eq e.reviewer_id reviewer && (str_eq e.target_id target && str_eq e.context_id context)

abbrev pub find_by_reviewer_target_context :
    String → String → String → List ReputationEntry → Option ReputationEntry
find_by_reviewer_target_context reviewer target context entries =
    find (same_triple reviewer target context) entries

abbrev pub find_by_target_id : String → List ReputationEntry → List ReputationEntry
find_by_target_id target entries = keep_if (λ e. str_eq e.target_id target) entries

abbrev is_party : String → String → ContractRow → Bool
is_party contract user c =
    str_eq c.id contract && (str_eq c.client_id user || str_eq c.freelancer_id user)

abbrev pub verify_contract_participation : String → String → List ContractRow → Bool
verify_contract_participation contract user contracts =
    ltb 0 (length (keep_if (is_party contract user) contracts))

-- The insertion, which the keys and the check on the rating may refuse.
unfoldable pub insert_entry :
    ReputationEntry → List ReputationEntry → Result ReputationError (List ReputationEntry)
insert_entry e entries =
    if is_some (find (λ d. str_eq d.id e.id) entries)
      || is_some (find_by_reviewer_target_context e.reviewer_id e.target_id e.context_id entries)
    then err rating_exists
    else if leb 1 e.rating && leb e.rating 5
    then ok (entries ++ e ∷ [])
    else err constraint_failed

-- The loop over a comment's characters, which counts each.
unfoldable pub count_characters : List String → Table ℕ → Table ℕ
count_characters [] counts = counts
count_characters (c ∷ cs) counts =
    count_characters cs (put c (suc (or_else (get c counts) 0)) counts)

abbrev pub max_count : Table ℕ → ℕ
max_count [] = 0
max_count ((c, n) ∷ counts) = max n (max_count counts)

module _ (v : Environment) where
  -- `maxCharCount / comment.length > 0.5`
  unfoldable pub validate_comment : String → Result ReputationError (Unit {0})
  validate_comment comment =
      let units = utf16_length comment in
      let most = max_count (count_characters (characters comment) []) in
      if ltb 1000 units
      then err comment_too_long
      else if ltb 0 units && str_eq (v.trim comment) ""
      then err comment_blank
      else if ltb 0 units && ltb units (most * 2)
      then err comment_repetitive
      else ok tt

  abbrev pub check_comment : Option String → Result ReputationError (Unit {0})
  check_comment none = ok tt
  check_comment (some comment) = if str_eq comment "" then ok tt else validate_comment comment

  unfoldable pub check_rating : RatingInput → RatingStore → Result ReputationError (Unit {0})
  check_rating i s =
      guard v.enabled disabled
      >> guard (not (str_eq i.reviewer_id i.target_id)) self_rating
      >> guard
          (not (
            is_some
              (find_by_reviewer_target_context i.reviewer_id i.target_id i.context_id s.entries)))
          rating_exists
      >> guard
          (verify_contract_participation i.context_id i.reviewer_id s.contracts
            && verify_contract_participation i.context_id i.target_id s.contracts)
          not_participant
      >> check_comment i.comment

  abbrev pub entry_of : Occasion → RatingInput → ReputationEntry
  entry_of o i = record {
    id = o.id;
    reviewer_id = i.reviewer_id;
    target_id = i.target_id;
    rating = i.rating;
    comment = i.comment;
    context_id = i.context_id;
    created_at = o.created_at;
  }

  abbrev hash_comment : Option String → JsValue
  hash_comment none = undefined
  hash_comment (some comment) = if str_eq comment "" then undefined else string (v.sha256 comment)

  abbrev audit_input : ReputationEntry → ℕ → Option String → CreateAuditEntryInput
  audit_input e before correlation = record {
    action = "REPUTATION_UPDATED";
    severity = "INFO";
    actor = e.reviewer_id;
    resource = "reputation";
    resource_id = e.target_id;
    metadata = set "entryId" (string e.id) (
        set "contextId" (string e.context_id) (
          set "before" (object (set "totalRatings" (number (natural before)) no_field)) (
            set "after"
              (object (
                set "totalRatings" (number (natural (before + 1))) (
                  set "rating" (number (natural e.rating))
                    (set "comment" (hash_comment e.comment) no_field))))
              no_field)));
    ip_address = none;
    correlation_id = correlation;
  }

  -- The entry is in the table before the audit log is written.
  abbrev pub audit_rating :
      Occasion
      → ReputationEntry
      → Option String
      → RatingStore
      → Result ReputationError (List ReputationEntry)
      → Result ReputationError ReputationEntry × RatingStore
  audit_rating o e correlation s (err failure) = (err failure, s)
  audit_rating o e correlation s (ok entries) =
      let before = length (find_by_target_id e.target_id s.entries) in
      if o.audit_available
      then (
        ok e,
        record {
          entries = entries;
          contracts = s.contracts;
          audit_log =
              (append v.stringify v.sha256 o.audit_id o.audit_time
                (audit_input e before correlation) s.audit_log).1;
        },
      )
      else (
        err audit_failed,
        record { entries = entries; contracts = s.contracts; audit_log = s.audit_log },
      )

  abbrev pub store_rating :
      Occasion
      → RatingInput
      → Option String
      → RatingStore
      → Result ReputationError (Unit {0})
      → Result ReputationError ReputationEntry × RatingStore
  store_rating o i correlation s (err failure) = (err failure, s)
  store_rating o i correlation s (ok _) =
      audit_rating o (entry_of o i) correlation s (insert_entry (entry_of o i) s.entries)

  unfoldable pub create_rating :
      Occasion
      → RatingInput
      → Option String
      → RatingStore
      → Result ReputationError ReputationEntry × RatingStore
  create_rating o i correlation s = store_rating o i correlation s (check_rating i s)

  -- `createBulkRatings`, with the occasion of each item. An item's result stands at its index.
  unfoldable pub create_bulk_ratings :
      List (Occasion × RatingInput)
      → Option String
      → RatingStore
      → List (Result ReputationError ReputationEntry) × RatingStore
  create_bulk_ratings [] correlation s = ([], s)
  create_bulk_ratings ((o, i) ∷ items) correlation s =
      let (result, after) = create_rating o i correlation s in
      let (results, last) = create_bulk_ratings items correlation after in (result ∷ results, last)

-- The code that a bulk result carries for an error.
abbrev pub error_code : ReputationError → String
error_code disabled = "forbidden"
error_code self_rating = "forbidden"
error_code rating_exists = "conflict"
error_code not_participant = "forbidden"
error_code comment_too_long = "validation_error"
error_code comment_blank = "validation_error"
error_code comment_repetitive = "validation_error"
error_code constraint_failed = "internal_error"
error_code audit_failed = "internal_error"
