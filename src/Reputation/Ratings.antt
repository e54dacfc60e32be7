-- ===== src/Reputation/Ratings.antt =====
-- services/reputation.service.ts: what holds of the stored ratings, and what a creation adds.
use talenttrust_backend.Prelude.{
  ◌≤◌, String, Bool, true, false, Option, List, [], ◌∷◌, ◌++◌, find, is_some, str_eq, eq_refl, All,
  Result, ok, err, ◌≡◌, refl, inl, inr, arith, Bool-cases,
}
use talenttrust_backend.Reputation.{
  Environment, ReputationEntry, ContractRow, RatingStore, ReputationError, rating_exists,
  audit_failed, RatingInput, Occasion, same_triple, find_by_reviewer_target_context,
  verify_contract_participation, insert_entry, check_comment, check_rating, entry_of, audit_rating,
  store_rating, create_rating, validate_comment,
}

-- No later rating has the reviewer, target and context of an earlier one.
abbrev pub Distinct : List ReputationEntry → Type 0
Distinct [] = Unit
Distinct (d ∷ ds) =
    All (λ e. same_triple e.reviewer_id e.target_id e.context_id d ≡ false) ds × Distinct ds

All-append :
    (P : ReputationEntry → Type 0) (es : List ReputationEntry) (e : ReputationEntry)
    → All P es
    → P e
    → All P (es ++ e ∷ [])
All-append P [] e h p = (p, tt)
All-append P (d ∷ es) e (q, h) p = (q, All-append P es e h p)

find_none :
    (P : ReputationEntry → Bool) (es : List ReputationEntry)
    → is_some (find P es) ≡ false
    → All (λ d. P d ≡ false) es
find_none P [] h = tt
find_none P (d ∷ es) h = elim (Bool-cases (P d)) [
  | inl hit ↦ cc (rw hit at h)
  | inr miss ↦ (miss, find_none P es (rw miss at h))
]

Distinct-append :
    (es : List ReputationEntry) (e : ReputationEntry)
    → Distinct es
    → All (λ d. same_triple e.reviewer_id e.target_id e.context_id d ≡ false) es
    → Distinct (es ++ e ∷ [])
Distinct-append [] e h new = (tt, tt)
Distinct-append (d ∷ es) e (apart, h) (other, new) =
    (All-append _ es e apart other, Distinct-append es e h new)

insert_entry_cases :
    (e : ReputationEntry) (es : List ReputationEntry) {added : List ReputationEntry}
    → insert_entry e es ≡ ok added
    → (added ≡ es ++ e ∷ [])
      × (is_some (find (same_triple e.reviewer_id e.target_id e.context_id) es) ≡ false)
      × (1 ≤ e.rating)
      × (e.rating ≤ 5)
unfolding insert_entry
insert_entry_cases e es h = ground arith

module _ (v : Environment) where
  check_rating_cases :
      (i : RatingInput) (s : RatingStore)
      → check_rating v i s ≡ ok tt
      → (v.enabled ≡ true)
        × (str_eq i.reviewer_id i.target_id ≡ false)
        × (verify_contract_participation i.context_id i.reviewer_id s.contracts ≡ true)
        × (verify_contract_participation i.context_id i.target_id s.contracts ≡ true)
        × (check_comment v i.comment ≡ ok tt)
  unfolding check_rating
  check_rating_cases i s h = ground arith

  abbrev pub IsRating : List ContractRow → ReputationEntry → Type 0
  IsRating contracts e =
      (str_eq e.reviewer_id e.target_id ≡ false)
      × (1 ≤ e.rating)
      × (e.rating ≤ 5)
      × (verify_contract_participation e.context_id e.reviewer_id contracts ≡ true)
      × (verify_contract_participation e.context_id e.target_id contracts ≡ true)
      × (check_comment v e.comment ≡ ok tt)

  -- The ratings are of 1 to 5, between different parties of one contract, with comments that pass,
  -- and one at most for each reviewer, target and contract.
  abbrev pub IsSound : RatingStore → Type 0
  IsSound s = All (IsRating s.contracts) s.entries × Distinct s.entries

  audit_rating-IsSound :
      (o : Occasion) (e : ReputationEntry) (correlation : Option String) (s : RatingStore)
      (r : Result ReputationError (List ReputationEntry))
      → IsSound s
      → ((added : List ReputationEntry)
          → r ≡ ok added
          → All (IsRating s.contracts) added × Distinct added)
      → IsSound (audit_rating v o e correlation s r).1
  audit_rating-IsSound o e correlation s (err failure) h new = h
  audit_rating-IsSound o e correlation s (ok entries) h new = elim (Bool-cases o.audit_available) [
    | inl works ↦ rw works (new entries refl)
    | inr fails ↦ rw fails (new entries refl)
  ]

  pub create_rating-IsSound :
      (o : Occasion) (i : RatingInput) (correlation : Option String) (s : RatingStore)
      → IsSound s
      → IsSound (create_rating v o i correlation s).1
  unfolding create_rating
  create_rating-IsSound o i correlation s (rated, distinct) = checked (check_rating v i s) refl
    where
      checked :
          (r : Result ReputationError (Unit {0}))
          → check_rating v i s ≡ r
          → IsSound (store_rating v o i correlation s r).1
      checked (err failure) e = (rated, distinct)
      checked (ok _) e =
          let (_, other, one, two, fit) = check_rating_cases i s e in
          audit_rating-IsSound o (entry_of v o i) correlation s
            (insert_entry (entry_of v o i) s.entries) (rated, distinct)
            (λ added done.
              let (appended, new, low, high) = insert_entry_cases (entry_of v o i) s.entries done in
              rw appended (
                All-append _ s.entries (entry_of v o i) rated (other, low, high, one, two, fit),
                Distinct-append s.entries (entry_of v o i) distinct (find_none _ s.entries new),
              ))

  find-append :
      (es : List ReputationEntry) (e : ReputationEntry)
      → is_some
          (find_by_reviewer_target_context e.reviewer_id e.target_id e.context_id (es ++ e ∷ []))
        ≡ true
  find-append [] e = rw (eq_refl e.reviewer_id, eq_refl e.target_id, eq_refl e.context_id) refl
  find-append (d ∷ es) e = ground (arith, find-append es e)

  refused :
      (o : Occasion) (i : RatingInput) (correlation : Option String) (s : RatingStore)
      → v.enabled ≡ true
      → str_eq i.reviewer_id i.target_id ≡ false
      → is_some (find_by_reviewer_target_context i.reviewer_id i.target_id i.context_id s.entries)
        ≡ true
      → (create_rating v o i correlation s).0 ≡ err rating_exists
  unfolding create_rating check_rating
  refused o i correlation s on other found = rw (on, other, found) refl

  unaudited :
      (o : Occasion) (i : RatingInput) (correlation : Option String) (s : RatingStore)
      → (create_rating v o i correlation s).0 ≡ err audit_failed
      → (v.enabled ≡ true)
        × (str_eq i.reviewer_id i.target_id ≡ false)
        × ((create_rating v o i correlation s).1 ≡ record {
          entries = s.entries ++ entry_of v o i ∷ [];
          contracts = s.contracts;
          audit_log = s.audit_log;
        })
  unfolding create_rating check_rating insert_entry validate_comment
  unaudited o i correlation s h = ground arith

  -- A rating that the service reports as not persisted, since no audit entry could be written, is
  -- in the table: creating it again is refused as a conflict.
  pub unaudited_rating_persists :
      (o again : Occasion) (i : RatingInput) (correlation : Option String) (s : RatingStore)
      → (create_rating v o i correlation s).0 ≡ err audit_failed
      → (create_rating v again i correlation (create_rating v o i correlation s).1).0
        ≡ err rating_exists
  unaudited_rating_persists o again i correlation s h =
      let (on, other, after) = unaudited o i correlation s h in
      rw after (refused again i correlation _ on other (find-append s.entries (entry_of v o i)))
