-- ===== src/Milestones/Tests.antt =====
-- The theorems on milestones at a budget of 100 and one milestone.
use talenttrust_backend.Prelude.{
  ℕ, ◌≤◌, ◌≡◌, refl, ◌↔◌, false, none, List, [], ◌∷◌, length, ok, err, arith,
}
use talenttrust_backend.SoftDelete.{at}
use talenttrust_backend.Milestones.{
  plus, minus, milestone, entries, validate_milestones_against_budget, validate_contract_bounds,
  check_total, max_contract_amount_stroops, max_milestones_per_contract, total_exceeds_budget,
}
use talenttrust_backend.Milestones.Service.{MilestoneRecord, MilestoneStore}
use talenttrust_backend.Milestones.Bounds.{
  priced, total, validate_milestones_against_budget_lem, negative_hides_excess,
}

abbrev prices : List ℕ
prices = 60 ∷ 50 ∷ []

beyond :
    validate_milestones_against_budget (plus 100) (entries (priced prices))
    ≡ err (total_exceeds_budget (plus 110) (plus 100))
unfolding validate_milestones_against_budget validate_contract_bounds check_total
beyond = refl

validate_milestones_against_budget_lem_example :
    (validate_milestones_against_budget (plus 110) (entries (priced prices)) ≡ ok tt) ↔ (
      (110 ≤ max_contract_amount_stroops)
      × (length prices ≤ max_milestones_per_contract)
      × (total prices ≤ 110))
validate_milestones_against_budget_lem_example = validate_milestones_against_budget_lem 110 prices

negative_hides_excess_example :
    validate_milestones_against_budget
      (plus 100)
      (entries (milestone (minus 900) ∷ milestone (plus 1000) ∷ []))
    ≡ ok tt
negative_hides_excess_example = negative_hides_excess 100 900 (omega arith)

abbrev first_milestone : MilestoneRecord
first_milestone = record {
  id = "m1";
  contract_id = "c1";
  title = "Design";
  description = "";
  amount = plus 60;
  deadline = none;
  completed = false;
  created_at = 5;
  updated_at = at 5;
  deleted_at = none;
}

abbrev store : MilestoneStore
store = ("m1", first_milestone) ∷ []
