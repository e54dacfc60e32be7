-- ===== src/Audit.antt =====
-- audit/store.ts and audit/types.ts: the append-only audit log with its chain of hashes. Actions
-- and severities are their texts. JSON.stringify and SHA-256 are parameters of the operations that
-- use them, and so are the coding of cursors, fresh ids and the time. The guard against re-entrant calls is left out, since nothing that an append calls appends.
pub mod Chain
pub mod Paging
mod Tests
use talenttrust_backend.Prelude.{
  ℕ, zero, suc, ◌+◌, min, max, String, Bool, true, false, not, ◌&&◌, ◌||◌, ltb, if◌then◌else◌,
  Option, none, some, List, [], ◌∷◌, ◌++◌, length, take, drop, find, find_index_from, keep_if,
  or_else, str_eq, ℤ, pos, to_nat, text_before,
}
use talenttrust_backend.Envelope.{JsValue, null, string, object, Fields, no_field, set}

-- An entry without its hash.
pub record AuditContent : Type 0 where
  pub id : String
  pub timestamp : String
  pub action : String
  pub severity : String
  pub actor : String
  pub resource : String
  pub resource_id : String
  pub metadata : Fields
  pub ip_address : Option String
  pub correlation_id : Option String
  pub previous_hash : String

pub record AuditEntry : Type 0 where
  pub content : AuditContent
  pub hash : String

pub record CreateAuditEntryInput : Type 0 where
  pub action : String
  pub severity : String
  pub actor : String
  pub resource : String
  pub resource_id : String
  pub metadata : Fields
  pub ip_address : Option String
  pub correlation_id : Option String

abbrev pub AuditLog : Type 0
AuditLog = List AuditEntry

abbrev pub genesis_hash : String
genesis_hash = "GENESIS"

-- The hash of the last entry, or that of none.
unfoldable pub last_hash_from : String → AuditLog → String
last_hash_from previous [] = previous
last_hash_from previous (e ∷ es) = last_hash_from e.hash es

pub record IntegrityReport : Type 0 where
  pub valid : Bool
  pub total_entries : ℕ
  pub first_corrupted_index : Option ℕ
  pub first_corrupted_id : Option String
  pub checked_at : String

-- `text ?? null`
abbrev pub text_or_null : Option String → JsValue
text_or_null none = null
text_or_null (some s) = string s

-- The object that is digested for an entry.
unfoldable pub hashed_payload : AuditContent → JsValue
hashed_payload e = object (
    set "id" (string e.id) (
      set "timestamp" (string e.timestamp) (
        set "action" (string e.action) (
          set "severity" (string e.severity) (
            set "actor" (string e.actor) (
              set "resource" (string e.resource) (
                set "resourceId" (string e.resource_id) (
                  set "metadata" (object e.metadata) (
                    set "ipAddress" (text_or_null e.ip_address) (
                      set "correlationId" (text_or_null e.correlation_id)
                        (set "previousHash" (string e.previous_hash) no_field)))))))))))

module _ (stringify : JsValue → String) (sha256 : String → String) where
  unfoldable pub compute_entry_hash : AuditContent → String
  compute_entry_hash e = sha256 (stringify (hashed_payload e))

  abbrev pub new_entry : String → String → String → CreateAuditEntryInput → AuditEntry
  new_entry uuid now previous input =
      let content : AuditContent = record {
        id = uuid;
        timestamp = now;
        action = input.action;
        severity = input.severity;
        actor = input.actor;
        resource = input.resource;
        resource_id = input.resource_id;
        metadata = input.metadata;
        ip_address = input.ip_address;
        correlation_id = input.correlation_id;
        previous_hash = previous;
      } in
      record { content = content; hash = compute_entry_hash content }

  unfoldable pub append : String → String → CreateAuditEntryInput → AuditLog → AuditEntry × AuditLog
  append uuid now input log =
      let entry = new_entry uuid now (last_hash_from genesis_hash log) input in
      (entry, log ++ entry ∷ [])

  -- The loop of `verifyIntegrity`: the place and id of the first entry that is not linked to the
  -- one before it, or whose hash is not its own.
  unfoldable pub first_corrupted : String → ℕ → AuditLog → Option (ℕ × String)
  first_corrupted previous i [] = none
  first_corrupted previous i (e ∷ es) =
      let rest = first_corrupted e.hash (suc i) es in
      if str_eq e.content.previous_hash previous
      then if str_eq e.hash (compute_entry_hash e.content) then rest else some (i, e.content.id)
      else some (i, e.content.id)

  abbrev integrity_report : String → ℕ → Option (ℕ × String) → IntegrityReport
  integrity_report now total none = record {
    valid = true;
    total_entries = total;
    first_corrupted_index = none;
    first_corrupted_id = none;
    checked_at = now;
  }
  integrity_report now total (some (i, id)) = record {
    valid = false;
    total_entries = total;
    first_corrupted_index = some i;
    first_corrupted_id = some id;
    checked_at = now;
  }

  unfoldable pub verify_integrity : String → AuditLog → IntegrityReport
  unfolding first_corrupted
  verify_integrity now log = integrity_report now (length log) (first_corrupted genesis_hash 0 log)

unfoldable pub get_entry_by_id : String → AuditLog → Option AuditEntry
get_entry_by_id id log = find (λ e. str_eq e.content.id id) log

pub record AuditFilters : Type 0 where
  pub action : Option String
  pub severity : Option String
  pub actor : Option String
  pub resource : Option String
  pub resource_id : Option String
  pub from : Option String
  pub to : Option String

-- The filters of a query stand apart, since a cursor holds them too.
pub record AuditQuery : Type 0 where
  pub filters : AuditFilters
  pub limit : Option ℤ
  pub offset : Option ℤ
  pub cursor : Option String

-- `wanted && test(wanted)` excludes an entry; an absent or empty filter does not.
abbrev passes : (String → Bool) → Option String → Bool
passes test none = true
passes test (some wanted) = str_eq wanted "" || test wanted

abbrev pub matches : AuditFilters → AuditEntry → Bool
matches f e =
    passes (str_eq e.content.action) f.action
    && (passes (str_eq e.content.severity) f.severity
        && (passes (str_eq e.content.actor) f.actor
            && (passes (str_eq e.content.resource) f.resource
                && (passes (str_eq e.content.resource_id) f.resource_id
                    && (passes (λ t. not (text_before e.content.timestamp t)) f.from
                        && passes (λ t. not (text_before t e.content.timestamp)) f.to)))))

abbrev page : Option ℤ → ℕ → AuditLog → AuditLog
page none offset es = drop offset es
page (some limit) offset es = take (to_nat limit) (drop offset es)

unfoldable pub query : AuditQuery → AuditLog → AuditLog
query q log = page q.limit (to_nat (or_else q.offset (pos 0))) (keep_if (matches q.filters) log)

pub record CursorData : Type 0 where
  pub last_id : String
  pub last_timestamp : String
  pub filters : AuditFilters

pub record AuditQueryResult : Type 0 where
  pub entries : AuditLog
  pub count : ℕ
  pub limit : ℕ
  pub next_cursor : Option String

abbrev same_text : Option String → Option String → Bool
same_text none none = true
same_text (some a) (some b) = str_eq a b
same_text _ _ = false

abbrev pub same_filters : AuditFilters → AuditFilters → Bool
same_filters f g =
    same_text f.action g.action
    && (same_text f.severity g.severity
        && (same_text f.actor g.actor
            && (same_text f.resource g.resource
                && (same_text f.resource_id g.resource_id
                    && (same_text f.from g.from && same_text f.to g.to)))))

-- `found !== -1 ? found + 1 : 0`
abbrev pub after_found : Option ℕ → ℕ
after_found none = 0
after_found (some i) = suc i

abbrev pub clamp_limit : Option ℤ → ℕ
clamp_limit limit = min (max (to_nat (or_else limit (pos 50))) 1) 100

-- `decode` gives none where decoding a cursor, or reading its fields, throws.
module _ (encode : CursorData → String) (decode : String → Option CursorData) where
  abbrev start_at : AuditFilters → AuditLog → Option CursorData → ℕ
  start_at f log none = 0
  start_at f log (some c) =
      if same_filters c.filters f
      then after_found (find_index_from 0 (λ e. str_eq e.content.id c.last_id) log)
      else 0

  abbrev pub start_index : AuditFilters → AuditLog → Option String → ℕ
  start_index f log none = 0
  start_index f log (some cursor) = if str_eq cursor "" then 0 else start_at f log (decode cursor)

  abbrev cursor_after : AuditFilters → AuditLog → Option String
  cursor_after f [] = none
  cursor_after f (e ∷ []) = some (
      encode (record { last_id = e.content.id; last_timestamp = e.content.timestamp; filters = f }))
  cursor_after f (e ∷ d ∷ es) = cursor_after f (d ∷ es)

  unfoldable pub query_with_cursor : AuditQuery → AuditLog → AuditQueryResult
  query_with_cursor q log =
      let limit = clamp_limit q.limit in
      let start = start_index q.filters log q.cursor in
      let filtered = keep_if (matches q.filters) log in
      let entries = take limit (drop start filtered) in
      record {
        entries = entries;
        count = length entries;
        limit = limit;
        next_cursor =
            if ltb (start + limit) (length filtered) then cursor_after q.filters entries else none;
      }
