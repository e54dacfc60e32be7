-- ===== src/Audit/Tests.antt =====
-- The theorems on the audit log at small logs. The text of a value has its texts and its fields in
-- brackets, the show same is the identity, and a cursor is an id behind a mark.
use talenttrust_backend.Prelude.{
  String, true, false, Option, none, some, List, [], ◌∷◌, ◌++◌, ◌<>◌, take, drop, length, keep_if,
  not, pos, ◌≡◌, refl, ap, ◌⊎◌, str_eq, eq_iff,
}
use talenttrust_backend.Envelope.{JsValue, string, object, Fields, no_field, set}
use talenttrust_backend.Audit.{
  AuditContent, AuditEntry, CreateAuditEntryInput, AuditLog, AuditFilters, AuditQuery, CursorData,
  query_with_cursor, matches, clamp_limit, verify_integrity, first_corrupted, last_hash_from,
  genesis_hash, get_entry_by_id, compute_entry_hash, hashed_payload,
}
use talenttrust_backend.Audit.Chain.{
  IsChain, append_all, verify_integrity_lem, tampering_shows, CollisionFree,
}
use talenttrust_backend.Audit.Paging.{data_at, next_page_skips}

unfoldable mutual
  show : JsValue → String
  show (string s) = s
  show (object fs) = "{" <> (show_fields fs <> "}")
  show _ = "null"

  show_fields : Fields → String
  show_fields no_field = ""
  show_fields (set key v rest) = key <> (":" <> (show v <> ("," <> show_fields rest)))

abbrev same : String → String
same s = s

abbrev input : String → CreateAuditEntryInput
input actor = record {
  action = "CONTRACT_CREATED";
  severity = "INFO";
  actor = actor;
  resource = "contract";
  resource_id = "c1";
  metadata = no_field;
  ip_address = none;
  correlation_id = none;
}

abbrev inputs : List (String × String × CreateAuditEntryInput)
inputs = ("a", "t1", input "ann") ∷ ("b", "t2", input "bob") ∷ ("c", "t3", input "ann") ∷ []

abbrev log : AuditLog
log = append_all show same inputs []

abbrev content : String → String → String → AuditContent
content id actor previous = record {
  id = id;
  timestamp = "t";
  action = "CONTRACT_CREATED";
  severity = "INFO";
  actor = actor;
  resource = "contract";
  resource_id = "c1";
  metadata = no_field;
  ip_address = none;
  correlation_id = none;
  previous_hash = previous;
}

abbrev entry : String → String → String → AuditEntry
entry id actor previous = record {
  content = content id actor previous;
  hash = show (hashed_payload (content id actor previous));
}

abbrev first : AuditEntry
first = entry "a" "bob" "GENESIS"

abbrev second : AuditEntry
second = entry "b" "ann" first.hash

abbrev third : AuditEntry
third = entry "c" "ann" second.hash

abbrev torn : AuditLog
torn = first ∷ third ∷ []

tear_found : (verify_integrity show same "now" torn).first_corrupted_index ≡ some 1
unfolding verify_integrity first_corrupted compute_entry_hash hashed_payload show show_fields
tear_found = refl

verify_integrity_lem_example :
    (((verify_integrity show same "now" torn).valid ≡ true) × IsChain show same genesis_hash torn)
    ⊎ (((verify_integrity show same "now" torn).valid ≡ false)
        × (before : AuditLog) × (e : AuditEntry) × (after : AuditLog) × (torn ≡ before ++ e ∷ after)
        × ((verify_integrity show same "now" torn).first_corrupted_index ≡ some (length before))
        × ((verify_integrity show same "now" torn).first_corrupted_id ≡ some e.content.id)
        × IsChain show same genesis_hash before
        × (¬ IsChain show same genesis_hash (before ++ e ∷ [])))
verify_integrity_lem_example = verify_integrity_lem show same "now" torn

abbrev pair : AuditLog
pair = first ∷ second ∷ []

pair_valid : (verify_integrity show same "now" pair).valid ≡ true
unfolding verify_integrity first_corrupted compute_entry_hash hashed_payload show show_fields
pair_valid = refl

-- The log after the first entry was given another actor and all hashes were computed again.
abbrev forged : AuditEntry
forged = entry "a" "eve" "GENESIS"

abbrev forged_second : AuditEntry
forged_second = entry "b" "ann" forged.hash

abbrev forgery : AuditLog
forgery = forged ∷ forged_second ∷ []

forgery_valid : (verify_integrity show same "now" forgery).valid ≡ true
unfolding verify_integrity first_corrupted compute_entry_hash hashed_payload show show_fields
forgery_valid = refl

texts_differ : (a b : String) → str_eq a b ≡ false → ¬ (a ≡ b)
texts_differ a b differ same = cc (differ, (eq_iff a b).1 same)

collision_free : CollisionFree show same pair forgery
unfolding hashed_payload show show_fields
collision_free = (
  λ h. absurd (
      texts_differ (show (hashed_payload first.content)) (show (hashed_payload forged.content)) refl
        h),
  (
    λ h. absurd (
        texts_differ (show (hashed_payload second.content))
          (show (hashed_payload forged_second.content)) refl h),
    tt,
  ),
)

actor_of : AuditLog → String
actor_of [] = ""
actor_of (e ∷ es) = e.content.actor

forged_differs : ¬ (pair ≡ forgery)
unfolding actor_of
forged_differs h = texts_differ "bob" "eve" refl (ap actor_of h)

tampering_shows_example : ¬ (last_hash_from genesis_hash pair ≡ last_hash_from genesis_hash forgery)
tampering_shows_example =
    tampering_shows show same "now" pair forgery collision_free pair_valid forgery_valid refl
      forged_differs

abbrev anyone : AuditFilters
anyone = record {
  action = none;
  severity = none;
  actor = none;
  resource = none;
  resource_id = none;
  from = none;
  to = none;
}

abbrev ann_only : AuditFilters
ann_only = record {
  action = none;
  severity = none;
  actor = some "ann";
  resource = none;
  resource_id = none;
  from = none;
  to = none;
}

abbrev encode : CursorData → String
encode c = "#" <> c.last_id

-- It gives the data of the cursor that ends in the second entry.
abbrev decode : String → Option CursorData
decode s = some (data_at ann_only second)

abbrev next : AuditQuery
next = record {
  filters = ann_only;
  limit = some (pos 1);
  offset = none;
  cursor = some (encode (data_at ann_only second));
}

-- Ann's entry after the second is left out.
third_missed : (query_with_cursor encode decode next (first ∷ second ∷ third ∷ [])).entries ≡ []
unfolding query_with_cursor
third_missed = refl

next_page_skips_example :
    (query_with_cursor encode decode next ((first ∷ []) ++ second ∷ third ∷ [])).entries
    ≡ take (clamp_limit (some (pos 1))) (
        drop
          (length (keep_if (λ d. not (matches ann_only d)) (first ∷ [])))
          (keep_if (matches ann_only) (third ∷ [])))
next_page_skips_example =
    next_page_skips encode decode ann_only (some (pos 1)) none (first ∷ []) second (third ∷ []) refl
      refl (refl, tt) refl

second_found : get_entry_by_id "b" pair ≡ some second
unfolding get_entry_by_id
second_found = refl
