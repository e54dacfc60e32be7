-- ===== src/Reputation/Bulk.antt =====
-- services/reputation.service.ts: what a batch of creations does to the ratings and the audit log.
use talenttrust_backend.Prelude.{
  ℕ, ◌+◌, String, Option, List, [], ◌∷◌, length, length-append, Result, ok, err, inl, inr, ◌≡◌,
  refl, arith, Bool-cases,
}
use talenttrust_backend.Audit.{AuditLog, genesis_hash, append}
use talenttrust_backend.Audit.Chain.{IsChain, append-IsChain}
use talenttrust_backend.Reputation.{
  Environment, ReputationEntry, RatingStore, ReputationError, audit_failed, RatingInput, Occasion,
  insert_entry, check_rating, entry_of, audit_rating, store_rating, create_rating,
  create_bulk_ratings, validate_comment,
}
use talenttrust_backend.Reputation.Ratings.{IsSound, create_rating-IsSound}

abbrev pub created : Result ReputationError ReputationEntry → ℕ
created (ok e) = 1
created (err e) = 0

abbrev pub unlogged : Result ReputationError ReputationEntry → ℕ
unlogged (err audit_failed) = 1
unlogged _ = 0

abbrev pub total :
    (Result ReputationError ReputationEntry → ℕ) → List (Result ReputationError ReputationEntry) → ℕ
total f [] = 0
total f (r ∷ rs) = f r + total f rs

-- An append adds one entry.
length-append_entry :
    (print : _) (h : _) (id now : String) (input : _) (log : AuditLog)
    → length (append print h id now input log).1 ≡ length log + 1
unfolding append
length-append_entry print h id now input log = length-append log _

insert_entry_logged :
    (e : ReputationEntry) (es : List ReputationEntry) {failure : ReputationError}
    → insert_entry e es ≡ err failure
    → unlogged (err failure) ≡ 0
unfolding insert_entry
insert_entry_logged e es h = ground arith

insert_entry_longer :
    (e : ReputationEntry) (es : List ReputationEntry) {added : List ReputationEntry}
    → insert_entry e es ≡ ok added
    → length added ≡ length es + 1
unfolding insert_entry
insert_entry_longer e es h = ground (arith, length-append es (e ∷ []))

module _ (v : Environment) where
  -- A batch leaves the stored ratings sound.
  pub create_bulk_ratings-IsSound :
      (items : List (Occasion × RatingInput)) (correlation : Option String) (s : RatingStore)
      → IsSound v s
      → IsSound v (create_bulk_ratings v items correlation s).1
  unfolding create_bulk_ratings
  create_bulk_ratings-IsSound [] correlation s h = h
  create_bulk_ratings-IsSound ((o, i) ∷ items) correlation s h =
      create_bulk_ratings-IsSound items correlation _ (create_rating-IsSound v o i correlation s h)

  -- What the audit log is like after an entry was tried, and how many entries there are.
  abbrev Counted : RatingStore → Result ReputationError ReputationEntry → RatingStore → Type 0
  Counted s r after =
      (length after.entries ≡ length s.entries + (created r + unlogged r))
      × (length after.audit_log ≡ length s.audit_log + created r)
      × (IsChain v.stringify v.sha256 genesis_hash s.audit_log
          → IsChain v.stringify v.sha256 genesis_hash after.audit_log)

  audit_rating-Counted :
      (o : Occasion) (e : ReputationEntry) (correlation : Option String) (s : RatingStore)
      (entries : List ReputationEntry)
      → length entries ≡ length s.entries + 1
      → Counted s
          (audit_rating v o e correlation s (ok entries)).0
          (audit_rating v o e correlation s (ok entries)).1
  audit_rating-Counted o e correlation s entries more = elim (Bool-cases o.audit_available) [
    | inl works ↦ rw works (
      omega (arith, more),
      length-append_entry v.stringify v.sha256 o.audit_id o.audit_time _ s.audit_log,
      append-IsChain v.stringify v.sha256 o.audit_id o.audit_time _ s.audit_log,
    )
    | inr fails ↦ rw fails (omega (arith, more), omega arith, λ h. h)
  ]

  refused-Counted :
      (s : RatingStore) (failure : ReputationError)
      → unlogged (err failure) ≡ 0
      → Counted s (err failure) s
  refused-Counted s failure h = (omega (arith, h), omega arith, λ chain. chain)

  check_rating_logged :
      (i : RatingInput) (s : RatingStore) {failure : ReputationError}
      → check_rating v i s ≡ err failure
      → unlogged (err failure) ≡ 0
  unfolding check_rating validate_comment
  check_rating_logged i s h = ground arith

  inserted-Counted :
      (o : Occasion) (e : ReputationEntry) (correlation : Option String) (s : RatingStore)
      → Counted s
          (audit_rating v o e correlation s (insert_entry e s.entries)).0
          (audit_rating v o e correlation s (insert_entry e s.entries)).1
  inserted-Counted o e correlation s = after (insert_entry e s.entries) refl
    where
      after :
          (r : Result ReputationError (List ReputationEntry))
          → insert_entry e s.entries ≡ r
          → Counted s (audit_rating v o e correlation s r).0 (audit_rating v o e correlation s r).1
      after (err failure) h = refused-Counted s failure (insert_entry_logged e s.entries h)
      after (ok added) h =
          audit_rating-Counted o e correlation s added (insert_entry_longer e s.entries h)

  create_rating-Counted :
      (o : Occasion) (i : RatingInput) (correlation : Option String) (s : RatingStore)
      → Counted s (create_rating v o i correlation s).0 (create_rating v o i correlation s).1
  unfolding create_rating
  create_rating-Counted o i correlation s = after (check_rating v i s) refl
    where
      after :
          (r : Result ReputationError (Unit {0}))
          → check_rating v i s ≡ r
          → Counted s (store_rating v o i correlation s r).0 (store_rating v o i correlation s r).1
      after (err failure) h = refused-Counted s failure (check_rating_logged i s h)
      after (ok _) h = inserted-Counted o (entry_of v o i) correlation s

  -- A batch adds a rating for each result that is a success or says that no audit entry could be
  -- written, and an audit entry for each success; the chain of the audit log stays whole.
  pub create_bulk_ratings_lem :
      (items : List (Occasion × RatingInput)) (correlation : Option String) (s : RatingStore)
      → IsChain v.stringify v.sha256 genesis_hash s.audit_log
      → (length (create_bulk_ratings v items correlation s).1.entries
          ≡ length s.entries
            + (total created (create_bulk_ratings v items correlation s).0
                + total unlogged (create_bulk_ratings v items correlation s).0))
        × (length (create_bulk_ratings v items correlation s).1.audit_log
            ≡ length s.audit_log + total created (create_bulk_ratings v items correlation s).0)
        × IsChain v.stringify v.sha256 genesis_hash
            (create_bulk_ratings v items correlation s).1.audit_log
  unfolding create_bulk_ratings
  create_bulk_ratings_lem [] correlation s h = (omega arith, omega arith, h)
  create_bulk_ratings_lem ((o, i) ∷ items) correlation s h =
      let (more, logged, kept) = create_rating-Counted o i correlation s in
      let (rest, rest_logged, chain) =
        create_bulk_ratings_lem items correlation (create_rating v o i correlation s).1 (kept h) in
      (omega (arith, more, rest), omega (arith, logged, rest_logged), chain)
