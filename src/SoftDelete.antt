-- ===== src/SoftDelete.antt =====
-- utils/softDelete.ts. A date is invalid or a number of milliseconds since the epoch; the records
-- that use these helpers keep `Date | null`, so the text forms do not occur.
use talenttrust_backend.Prelude.{
  ℕ, ◌+◌, ◌*◌, ◌≤◌, String, Bool, false, not, Option, none, some, List, arith, leb, ◌==◌,
  if◌then◌else◌, is_some, keep_if,
}

pub data JsDate : Type 0 where
  invalid : JsDate
  at : ℕ → JsDate

-- What `Number.parseInt(text, 10)` gives.
pub data ParsedInt : Type 0 where
  not_a_number : ParsedInt
  minus plus : ℕ → ParsedInt

abbrev pub default_retention_days : ℕ
default_retention_days = 30

abbrev positive_or : ℕ → ParsedInt → ℕ
positive_or default_days not_a_number = default_days
positive_or default_days (minus n) = default_days
positive_or default_days (plus n) = if n == 0 then default_days else n

-- `is_blank s` is `s.trim() === ''`, and `parse_int` is `Number.parseInt(_, 10)`.
module _ (is_blank : String → Bool) (parse_int : String → ParsedInt) where
  unfoldable pub parse_retention_days : Option String → ℕ → ℕ
  parse_retention_days none default_days = default_days
  parse_retention_days (some text) default_days =
      if is_blank text then default_days else positive_or default_days (parse_int text)

abbrev pub is_soft_deleted : Option JsDate → Bool
is_soft_deleted deleted_at = is_some deleted_at

abbrev pub day_ms : ℕ
day_ms = 24 * 60 * 60 * 1000

-- A comparison with an invalid date is false.
unfoldable pub is_within_retention_window : JsDate → ℕ → JsDate → Bool
is_within_retention_window invalid days now = false
is_within_retention_window (at deleted) days invalid = false
is_within_retention_window (at deleted) days (at now) = leb now (deleted + days * day_ms)

unfoldable pub is_past_retention_window : JsDate → ℕ → JsDate → Bool
unfolding is_within_retention_window
is_past_retention_window deleted_at days now = not (is_within_retention_window deleted_at days now)

abbrev pub filter_not_deleted {ℓ} : {A : Type ℓ} → (A → Option JsDate) → List A → List A
filter_not_deleted deleted_at items =
    keep_if (λ item. not (is_soft_deleted (deleted_at item))) items

-- Whatever the setting, the retention window has at least one day if the default has.
pub parse_retention_days_pos :
    (is_blank : String → Bool) (parse_int : String → ParsedInt) (env : Option String)
    (default_days : ℕ)
    → 1 ≤ default_days
    → 1 ≤ parse_retention_days is_blank parse_int env default_days
unfolding parse_retention_days
parse_retention_days_pos is_blank parse_int none d h = h
parse_retention_days_pos is_blank parse_int (some text) d h = ground arith
