-- ===== src/Milestones.antt =====
-- contracts/bounds.ts, and the checks of services/milestones.service.ts that use it. Amounts are
-- numbers that are not finite or integers, as stroops are; sums of integers are exact here.
pub mod Bounds
pub mod Service
pub mod Ownership
mod Tests
use talenttrust_backend.Prelude.{
  ℕ, suc, ◌+◌, ◌-◌, ◌*◌, String, Bool, true, false, not, ◌&&◌, ◌||◌, ltb, leb, if◌then◌else◌,
  Option, none, some, List, [], ◌∷◌, length, Table, get, put, values, keep_entries, keep_if,
  or_else, sort, str_eq, Result, ok, err, ◌>>=◌, ◌>>◌, guard,
}
use talenttrust_backend.SoftDelete.{
  JsDate, at, is_soft_deleted, is_within_retention_window, is_past_retention_window,
  filter_not_deleted,
}

-- `minus n` is the number -n.
pub data Amount : Type 0 where
  not_finite : Amount
  plus : ℕ → Amount
  minus : ℕ → Amount

abbrev is_finite : Amount → Bool
is_finite not_finite = false
is_finite _ = true

abbrev max_milestones_per_contract : ℕ
max_milestones_per_contract = 20

abbrev pub max_contract_amount_stroops : ℕ
max_contract_amount_stroops = 100000000000000

abbrev pub add : Amount → Amount → Amount
add (plus a) (plus b) = plus (a + b)
add (plus a) (minus b) = if ltb a b then minus (b - a) else plus (a - b)
add (minus a) (plus b) = if ltb b a then minus (a - b) else plus (b - a)
add (minus a) (minus b) = minus (a + b)
add _ _ = not_finite

-- `a > b`, false where one is not finite.
abbrev pub exceeds : Amount → Amount → Bool
exceeds (plus a) (plus b) = ltb b a
exceeds (plus a) (minus b) = ltb 0 (a + b)
exceeds (minus a) (plus b) = false
exceeds (minus a) (minus b) = ltb a b
exceeds _ _ = false

pub data BoundsError : Type 0 where
  budget_not_finite : BoundsError
  budget_exceeds : BoundsError
  milestones_not_array : BoundsError
  too_many_milestones : ℕ → BoundsError
  milestone_malformed : BoundsError
  total_exceeds : BoundsError
  total_exceeds_budget : Amount → Amount → BoundsError

-- An entry of the milestones: something that is no object with an amount, or its amount.
pub data Entry : Type 0 where
  no_milestone : Entry
  milestone : Amount → Entry

-- The milestones given: none, something that is no array, or the entries.
pub data Entries : Type 0 where
  absent : Entries
  no_array : Entries
  entries : List Entry → Entries

abbrev cap : Amount
cap = plus max_contract_amount_stroops

-- The loop over the milestones with the total so far.
unfoldable pub check_total : Amount → List Entry → Result BoundsError (Unit {0})
check_total total [] = ok tt
check_total total (no_milestone ∷ es) = err milestone_malformed
check_total total (milestone a ∷ es) =
    let rest = check_total (add total a) es in
    if is_finite a
    then if not (is_finite (add total a)) || exceeds (add total a) cap
      then err total_exceeds
      else rest
    else err milestone_malformed

abbrev check_entries : Entries → Result BoundsError (Unit {0})
check_entries absent = ok tt
check_entries no_array = err milestones_not_array
check_entries (entries es) =
    if ltb max_milestones_per_contract (length es)
    then err (too_many_milestones (length es))
    else check_total (plus 0) es

unfoldable pub validate_contract_bounds : Amount → Entries → Result BoundsError (Unit {0})
unfolding check_total
validate_contract_bounds budget ms =
    if is_finite budget
    then if exceeds budget cap then err budget_exceeds else check_entries ms
    else err budget_not_finite

abbrev pub amount_of : Entry → Amount
amount_of no_milestone = not_finite
amount_of (milestone a) = a

-- `milestones.reduce((sum, milestone) => sum + milestone.amount, 0)`
abbrev pub sum_from : Amount → List Entry → Amount
sum_from total [] = total
sum_from total (e ∷ es) = sum_from (add total (amount_of e)) es

abbrev check_budget : Amount → Entries → Result BoundsError (Unit {0})
check_budget budget (entries es) =
    let total = sum_from (plus 0) es in
    if exceeds total budget then err (total_exceeds_budget total budget) else ok tt
check_budget budget _ = ok tt

unfoldable pub validate_milestones_against_budget : Amount → Entries → Result BoundsError (Unit {0})
unfolding validate_contract_bounds
validate_milestones_against_budget budget ms =
    validate_contract_bounds budget ms >> check_budget budget ms
