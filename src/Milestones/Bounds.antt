-- ===== src/Milestones/Bounds.antt =====
-- contracts/bounds.ts and services/milestones.service.ts: which budgets and milestones pass.
use talenttrust_backend.Prelude.{
  ℕ, ◌+◌, ◌≤◌, ◌≡◌, refl, ◌↔◌, List, [], ◌∷◌, length, ok, err, arith, ltb, Result, ◌∙◌, ap,
  Bool-cases, ltb→lt, inl, inr, ◌>>◌,
}
use talenttrust_backend.Milestones.{
  plus, minus, Entry, milestone, entries, check_total, check_entries, check_budget, sum_from,
  validate_contract_bounds, validate_milestones_against_budget, max_contract_amount_stroops,
  max_milestones_per_contract,
}

-- Milestones with the given amounts, none of them negative.
abbrev pub priced : List ℕ → List Entry
priced [] = []
priced (n ∷ ns) = milestone (plus n) ∷ priced ns

abbrev pub total : List ℕ → ℕ
total [] = 0
total (n ∷ ns) = n + total ns

length-priced : (ns : List ℕ) → length (priced ns) ≡ length ns
length-priced [] = refl
length-priced (n ∷ ns) = omega (arith, length-priced ns)

sum_from-priced : (t : ℕ) (ns : List ℕ) → sum_from (plus t) (priced ns) ≡ plus (t + total ns)
sum_from-priced t [] = ground arith
sum_from-priced t (n ∷ ns) = sum_from-priced (t + n) ns ∙ ap plus (omega arith)

check_total-priced :
    (t : ℕ) (ns : List ℕ)
    → t ≤ max_contract_amount_stroops
    → (check_total (plus t) (priced ns) ≡ ok tt) ↔ (t + total ns ≤ max_contract_amount_stroops)
unfolding check_total
check_total-priced t [] h = ground arith
check_total-priced t (n ∷ ns) h = elim (Bool-cases (ltb max_contract_amount_stroops (t + n))) [
  | inl beyond ↦
      let gt = ltb→lt _ _ beyond in rw beyond (λ e. cc e, λ le. absurd (omega (arith, gt, le)))
  | inr within ↦
      let (forth, back) = check_total-priced (t + n) ns (ground (arith, within)) in
      rw within (λ e. omega (arith, forth e), λ le. back (omega (arith, le)))
]

check_entries-priced :
    (ns : List ℕ)
    → (check_entries (entries (priced ns)) ≡ ok tt)
      ↔ ((length ns ≤ max_milestones_per_contract) × (total ns ≤ max_contract_amount_stroops))
check_entries-priced ns =
    let (forth, back) = check_total-priced 0 ns (omega arith) in
    let n = length-priced ns in
    elim (Bool-cases (ltb max_milestones_per_contract (length (priced ns)))) [
      | inl beyond ↦
          let gt = ltb→lt _ _ beyond in
          rw beyond (λ e. cc e, λ (few, le). absurd (omega (arith, gt, few, n)))
      | inr within ↦
          let few : length (priced ns) ≤ max_milestones_per_contract = ground (arith, within) in
          rw within (
            λ e. (omega (arith, few, n), omega (arith, forth e)),
            λ (_, le). back (omega (arith, le)),
          )
    ]

check_budget-priced :
    (b : ℕ) (ns : List ℕ) → (check_budget (plus b) (entries (priced ns)) ≡ ok tt) ↔ (total ns ≤ b)
check_budget-priced b ns = rw (sum_from-priced 0 ns) (ground arith)

both-ok : {E : Type 0} (a b : Result E (Unit {0})) → (a >> b ≡ ok tt) ↔ ((a ≡ ok tt) × (b ≡ ok tt))
both-ok (ok u) b = (λ h. (refl, h), λ (_, h). h)
both-ok (err e) b = (λ h. cc h, λ (h, _). cc h)

-- A budget passes together with milestones that have no negative amount exactly if the budget is
-- within the cap, there are at most twenty milestones, and their total is within the budget.
pub validate_milestones_against_budget_lem :
    (b : ℕ) (ns : List ℕ)
    → (validate_milestones_against_budget (plus b) (entries (priced ns)) ≡ ok tt) ↔ (
        (b ≤ max_contract_amount_stroops)
        × (length ns ≤ max_milestones_per_contract)
        × (total ns ≤ b))
unfolding validate_milestones_against_budget validate_contract_bounds
validate_milestones_against_budget_lem b ns =
    let (forth, back) = check_entries-priced ns in
    let (spend, cover) = check_budget-priced b ns in
    elim (Bool-cases (ltb max_contract_amount_stroops b)) [
      | inl beyond ↦
          let gt = ltb→lt _ _ beyond in
          rw beyond (λ e. cc e, λ (le, _, _). absurd (omega (arith, gt, le)))
      | inr within ↦
          let (split, join) =
            both-ok (check_entries (entries (priced ns)))
              (check_budget (plus b) (entries (priced ns))) in
          let le : b ≤ max_contract_amount_stroops = ground (arith, within) in
          rw within (
            λ e. let (checked, paid) = split e in (le, (forth checked).0, spend paid),
            λ (_, few, paid). join (back (few, omega (arith, paid, le)), cover paid),
          )
    ]

-- The checks do not look at the sign of an amount: with a negative amount before it, a single
-- milestone passes whose amount is beyond the budget by any number.
pub negative_hides_excess :
    (b n : ℕ)
    → b ≤ max_contract_amount_stroops
    → validate_milestones_against_budget
        (plus b)
        (entries (milestone (minus n) ∷ milestone (plus (b + n)) ∷ []))
      ≡ ok tt
unfolding validate_milestones_against_budget validate_contract_bounds check_total
negative_hides_excess b n h = ground arith
