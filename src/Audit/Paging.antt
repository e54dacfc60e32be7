-- ===== src/Audit/Paging.antt =====
-- audit/store.ts: the pages of a query, by offset and by cursor.
use talenttrust_backend.Prelude.{
  ℕ, suc, ◌+◌, ◌-◌, String, true, false, not, Option, none, some, ◌∷◌, ◌++◌, All, take, drop,
  length, str_eq, eq_refl, ℤ, pos, keep_if, length-keep_if, keep_if-append, find_index-append,
  drop-append, drop-drop, take-append-drop, ◌≡◌, refl, sym, ap, ◌∙◌, arith,
}
use talenttrust_backend.Audit.{
  AuditEntry, AuditLog, AuditFilters, CursorData, query, query_with_cursor, matches, same_filters,
  clamp_limit, same_text, start_index, after_found,
}

-- A page of a query and the pages after it are what the query gives from the page's offset on.
query_pages :
    (f : AuditFilters) (offset limit : ℕ) (cursor : Option String) (log : AuditLog)
    → query
          (record {
            filters = f;
            limit = some (pos limit);
            offset = some (pos offset);
            cursor = cursor;
          })
          log
        ++ query
            (record {
              filters = f;
              limit = none;
              offset = some (pos (offset + limit));
              cursor = cursor;
            })
            log
      ≡ query
          (record { filters = f; limit = none; offset = some (pos offset); cursor = cursor })
          log
unfolding query
query_pages f offset limit cursor log =
    let found = keep_if (matches f) log in
    ap (λ rest. take limit (drop offset found) ++ rest) (sym (drop-drop offset limit found))
    ∙ take-append-drop limit (drop offset found)

same_text_refl : (t : Option String) → same_text t t ≡ true
same_text_refl none = refl
same_text_refl (some t) = eq_refl t

same_filters_refl : (f : AuditFilters) → same_filters f f ≡ true
same_filters_refl f =
    rw
      (
        same_text_refl f.action,
        same_text_refl f.severity,
        same_text_refl f.actor,
        same_text_refl f.resource,
        same_text_refl f.resource_id,
        same_text_refl f.from,
        same_text_refl f.to,
      )
      refl

-- The cursor data that a page ending in an entry leaves.
abbrev pub data_at : AuditFilters → AuditEntry → CursorData
data_at f e = record { last_id = e.content.id; last_timestamp = e.content.timestamp; filters = f }

start_index_found :
    (encode : CursorData → String) (decode : String → Option CursorData) (f : AuditFilters)
    (before : AuditLog) (e : AuditEntry) (after : AuditLog)
    → decode (encode (data_at f e)) ≡ some (data_at f e)
    → str_eq (encode (data_at f e)) "" ≡ false
    → All (λ d. str_eq d.content.id e.content.id ≡ false) before
    → start_index encode decode f (before ++ e ∷ after) (some (encode (data_at f e)))
      ≡ suc (length before)
start_index_found encode decode f before e after trip filled fresh =
    rw (filled, trip, same_filters_refl f)
      (ap after_found (
          find_index-append 0 (λ d. str_eq d.content.id e.content.id) before after e fresh
            (eq_refl e.content.id))
        ∙ ap suc count)
  where
    count : 0 + length before ≡ length before
    count = omega arith

-- The page that the cursor of a page ending in a matching entry gives: of the matching entries
-- that follow, as many are left out as entries before that one do not match. The ids before differ
-- from the entry's, and the coding of the cursor is undone by its decoding and never empty.
pub next_page_skips :
    (encode : CursorData → String) (decode : String → Option CursorData) (f : AuditFilters)
    (limit offset : Option ℤ) (before : AuditLog) (e : AuditEntry) (after : AuditLog)
    → decode (encode (data_at f e)) ≡ some (data_at f e)
    → str_eq (encode (data_at f e)) "" ≡ false
    → All (λ d. str_eq d.content.id e.content.id ≡ false) before
    → matches f e ≡ true
    → (query_with_cursor encode decode
        (record {
          filters = f;
          limit = limit;
          offset = offset;
          cursor = some (encode (data_at f e));
        })
        (before ++ e ∷ after)).entries
      ≡ take
          (clamp_limit limit)
          (drop (length (keep_if (λ d. not (matches f d)) before)) (keep_if (matches f) after))
unfolding query_with_cursor
next_page_skips encode decode f limit offset before e after trip filled fresh match_e =
    ap (take (clamp_limit limit)) (
      ap (λ start. drop start (keep_if (matches f) (before ++ e ∷ after)))
        (start_index_found encode decode f before e after trip filled fresh)
      ∙ ap (drop (suc (length before)))
          (keep_if-append (matches f) before (e ∷ after) ∙ rw match_e refl)
      ∙ drop-append (suc (length before)) kept (e ∷ keep_if (matches f) after)
          (omega (arith, split))
      ∙ ap (λ n. drop n (e ∷ keep_if (matches f) after)) left)
  where
    kept : AuditLog
    kept = keep_if (matches f) before

    skipped : AuditLog
    skipped = keep_if (λ d. not (matches f d)) before

    split : length kept + length skipped ≡ length before
    split = length-keep_if (matches f) before

    left : suc (length before) - length kept ≡ suc (length skipped)
    left = omega (arith, split)
