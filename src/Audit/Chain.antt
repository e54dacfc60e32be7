-- ===== src/Audit/Chain.antt =====
-- audit/store.ts: the chain of hashes, and what its verification detects.
use talenttrust_backend.Prelude.{
  ℕ, suc, ◌+◌, String, true, false, Option, none, some, List, [], ◌∷◌, ◌++◌, length, str_eq, eq_iff,
  ◌≡◌, refl, sym, ap, ap₂, ◌∙◌, ◌⊎◌, inl, inr, arith, Bool-cases,
}
use talenttrust_backend.Envelope.{JsValue, string, object, Fields, no_field, field}
use talenttrust_backend.Audit.{
  compute_entry_hash, hashed_payload, text_or_null, AuditContent, AuditEntry, CreateAuditEntryInput,
  AuditLog, genesis_hash, last_hash_from, append, first_corrupted, verify_integrity,
}

-- The content that an object as it is digested stands for.
abbrev text_of : JsValue → String
text_of (string s) = s
text_of _ = ""

abbrev optional_text : JsValue → Option String
optional_text (string s) = some s
optional_text _ = none

abbrev fields_of : JsValue → Fields
fields_of (object fs) = fs
fields_of _ = no_field

abbrev content_of : JsValue → AuditContent
content_of v =
    let fs = fields_of v in
    record {
      id = text_of (field "id" fs);
      timestamp = text_of (field "timestamp" fs);
      action = text_of (field "action" fs);
      severity = text_of (field "severity" fs);
      actor = text_of (field "actor" fs);
      resource = text_of (field "resource" fs);
      resource_id = text_of (field "resourceId" fs);
      metadata = fields_of (field "metadata" fs);
      ip_address = optional_text (field "ipAddress" fs);
      correlation_id = optional_text (field "correlationId" fs);
      previous_hash = text_of (field "previousHash" fs);
    }

optional_text-text_or_null : (o : Option String) → optional_text (text_or_null o) ≡ o
optional_text-text_or_null none = refl
optional_text-text_or_null (some s) = refl

-- Every field of an entry can be read off what is digested.
content_of-hashed_payload : (e : AuditContent) → content_of (hashed_payload e) ≡ e
unfolding hashed_payload field
content_of-hashed_payload e =
    ap₂ (λ ip correlation. record e { ip_address = ip; correlation_id = correlation })
      (optional_text-text_or_null e.ip_address) (optional_text-text_or_null e.correlation_id)

module _ (stringify : JsValue → String) (sha256 : String → String) where
  -- Every entry has its own hash and that of the entry before it.
  abbrev pub IsChain : String → AuditLog → Type 0
  IsChain previous [] = Unit
  IsChain previous (e ∷ es) =
      (e.content.previous_hash ≡ previous)
      × (e.hash ≡ compute_entry_hash stringify sha256 e.content)
      × IsChain e.hash es

  IsChain-append :
      (previous : String) (log : AuditLog) (e : AuditEntry)
      → IsChain previous log
      → e.content.previous_hash ≡ last_hash_from previous log
      → e.hash ≡ compute_entry_hash stringify sha256 e.content
      → IsChain previous (log ++ e ∷ [])
  unfolding last_hash_from
  IsChain-append previous [] e h p q = (p, q, tt)
  IsChain-append previous (d ∷ log) e (a, b, h) p q = (a, b, IsChain-append d.hash log e h p q)

  -- Appends with the given ids, times and inputs.
  unfoldable pub append_all : List (String × String × CreateAuditEntryInput) → AuditLog → AuditLog
  append_all [] log = log
  append_all ((uuid, now, input) ∷ xs) log =
      append_all xs (append stringify sha256 uuid now input log).1

  pub append-IsChain :
      (uuid now : String) (input : CreateAuditEntryInput) (log : AuditLog)
      → IsChain genesis_hash log
      → IsChain genesis_hash (append stringify sha256 uuid now input log).1
  unfolding append
  append-IsChain uuid now input log h = IsChain-append genesis_hash log _ h refl refl

  append_all-IsChain :
      (xs : List (String × String × CreateAuditEntryInput)) (log : AuditLog)
      → IsChain genesis_hash log
      → IsChain genesis_hash (append_all xs log)
  unfolding append_all
  append_all-IsChain [] log h = h
  append_all-IsChain ((uuid, now, input) ∷ xs) log h =
      append_all-IsChain xs _ (append-IsChain uuid now input log h)

  -- The loop stops at the first entry at which the chain breaks.
  first_corrupted_cases :
      (previous : String) (i : ℕ) (log : AuditLog)
      → ((first_corrupted stringify sha256 previous i log ≡ none) × IsChain previous log)
        ⊎ ((before : AuditLog) × (e : AuditEntry) × (after : AuditLog) × (log ≡ before ++ e ∷ after)
            × (first_corrupted stringify sha256 previous i log
                ≡ some (i + length before, e.content.id))
            × IsChain previous before
            × (¬ IsChain previous (before ++ e ∷ [])))
  unfolding first_corrupted
  first_corrupted_cases previous i [] = inl (refl, tt)
  first_corrupted_cases previous i (e ∷ es) =
      elim (Bool-cases (str_eq e.content.previous_hash previous)) [
        | inl linked ↦
            elim (Bool-cases (str_eq e.hash (compute_entry_hash stringify sha256 e.content))) [
              | inl own ↦ elim (first_corrupted_cases e.hash (suc i) es) [
                | inl (sound, chain) ↦
                    inl (rw (linked, own) sound, ((eq_iff _ _).0 linked, (eq_iff _ _).0 own, chain))
                | inr (before, d, after, split, found, chain, broken) ↦ inr (
                  e ∷ before,
                  d,
                  after,
                  ap (λ l. e ∷ l) split,
                  rw (linked, own)
                      (found ∙ ap (λ n. some (n, d.content.id)) (shift (length before))),
                  ((eq_iff _ _).0 linked, (eq_iff _ _).0 own, chain),
                  λ (_, _, h). broken h,
                )
              ]
              | inr forged ↦ inr (
                [],
                e,
                es,
                refl,
                rw (linked, forged) (ap (λ n. some (n, e.content.id)) start),
                tt,
                λ (_, h, _). cc (forged, (eq_iff _ _).1 h),
              )
            ]
        | inr cut ↦ inr (
          [],
          e,
          es,
          refl,
          rw cut (ap (λ n. some (n, e.content.id)) start),
          tt,
          λ (h, _, _). cc (cut, (eq_iff _ _).1 h),
        )
      ]
    where
      start : i ≡ i + 0
      start = omega arith

      shift : (n : ℕ) → suc i + n ≡ i + suc n
      shift n = omega arith

  -- The report says that a log is valid exactly when its entries form a chain, and otherwise names
  -- the first entry at which the chain breaks.
  pub verify_integrity_lem :
      (now : String) (log : AuditLog)
      → (((verify_integrity stringify sha256 now log).valid ≡ true) × IsChain genesis_hash log)
        ⊎ (((verify_integrity stringify sha256 now log).valid ≡ false)
            × (before : AuditLog) × (e : AuditEntry) × (after : AuditLog) × (log
                ≡ before ++ e ∷ after)
            × ((verify_integrity stringify sha256 now log).first_corrupted_index
                ≡ some (length before))
            × ((verify_integrity stringify sha256 now log).first_corrupted_id ≡ some e.content.id)
            × IsChain genesis_hash before
            × (¬ IsChain genesis_hash (before ++ e ∷ [])))
  unfolding verify_integrity
  verify_integrity_lem now log = elim (first_corrupted_cases genesis_hash 0 log) [
    | inl (sound, chain) ↦ inl (rw sound refl, chain)
    | inr (before, e, after, split, found, chain, broken) ↦ inr (
      rw found refl,
      before,
      e,
      after,
      split,
      rw found (ap some (start (length before))),
      rw found refl,
      chain,
      broken,
    )
  ]
    where
      start : (n : ℕ) → 0 + n ≡ n
      start n = omega arith

  valid-IsChain :
      (now : String) (log : AuditLog)
      → (verify_integrity stringify sha256 now log).valid ≡ true
      → IsChain genesis_hash log
  valid-IsChain now log h = elim (verify_integrity_lem now log) [
    | inl (_, chain) ↦ chain
    | inr (f, _, _, _, _, _, _, _, _) ↦ cc (h, f)
  ]

  first_corrupted-none :
      (previous : String) (i : ℕ) (log : AuditLog)
      → IsChain previous log
      → first_corrupted stringify sha256 previous i log ≡ none
  unfolding first_corrupted
  first_corrupted-none previous i [] h = refl
  first_corrupted-none previous i (e ∷ es) (linked, own, h) =
      rw ((eq_iff _ _).1 linked, (eq_iff _ _).1 own) (first_corrupted-none e.hash (suc i) es h)

  -- A log that only appends have changed, from the empty log on, is reported valid.
  appended_is_valid :
      (now : String) (xs : List (String × String × CreateAuditEntryInput))
      → (verify_integrity stringify sha256 now (append_all xs [])).valid ≡ true
  unfolding verify_integrity
  appended_is_valid now xs =
      rw (first_corrupted-none genesis_hash 0 (append_all xs []) (append_all-IsChain xs [] tt)) refl

  -- Different objects that are digested at the same place of the logs have different digests.
  abbrev pub CollisionFree : AuditLog → AuditLog → Type 0
  CollisionFree (e ∷ es) (d ∷ ds) =
      (sha256 (stringify (hashed_payload e.content)) ≡ sha256 (stringify (hashed_payload d.content))
        → hashed_payload e.content ≡ hashed_payload d.content)
      × CollisionFree es ds
  CollisionFree _ _ = Unit

  same_content :
      (c d : AuditContent)
      → (sha256 (stringify (hashed_payload c)) ≡ sha256 (stringify (hashed_payload d))
          → hashed_payload c ≡ hashed_payload d)
      → compute_entry_hash stringify sha256 c ≡ compute_entry_hash stringify sha256 d
      → c ≡ d
  unfolding compute_entry_hash
  same_content c d free h =
      sym (content_of-hashed_payload c) ∙ (ap content_of (free h) ∙ content_of-hashed_payload d)

  chains_agree :
      (p q : String) (xs ys : AuditLog)
      → IsChain p xs
      → IsChain q ys
      → CollisionFree xs ys
      → length xs ≡ length ys
      → last_hash_from p xs ≡ last_hash_from q ys
      → (xs ≡ ys) × (p ≡ q)
  unfolding last_hash_from
  chains_agree p q [] [] a b free long same = (refl, same)
  chains_agree p q [] (d ∷ ds) a b free long same = absurd (omega (arith, long))
  chains_agree p q (e ∷ es) [] a b free long same = absurd (omega (arith, long))
  chains_agree p q (e ∷ es) (d ∷ ds) (pe, he, a) (qd, hd, b) (free, rest) long same =
      let (tails, hashes) = chains_agree e.hash d.hash es ds a b rest (omega (arith, long)) same in
      let contents : e.content ≡ d.content =
        same_content e.content d.content free (sym he ∙ hashes ∙ hd) in
      let heads : e ≡ d = ap₂ (λ c h. record { content = c; hash = h }) contents hashes in
      (ap₂ (λ x xs. x ∷ xs) heads tails, sym pe ∙ ap (λ c. c.previous_hash) contents ∙ qd)

  -- Tampering shows: where the objects digested at corresponding entries have different digests
  -- when they differ, two different logs that are both reported valid and have as many entries end
  -- in different hashes.
  pub tampering_shows :
      (now : String) (xs ys : AuditLog)
      → CollisionFree xs ys
      → (verify_integrity stringify sha256 now xs).valid ≡ true
      → (verify_integrity stringify sha256 now ys).valid ≡ true
      → length xs ≡ length ys
      → ¬ (xs ≡ ys)
      → ¬ (last_hash_from genesis_hash xs ≡ last_hash_from genesis_hash ys)
  tampering_shows now xs ys free a b long differ same =
      differ
        (chains_agree genesis_hash genesis_hash xs ys (valid-IsChain now xs a)
          (valid-IsChain now ys b) free long same).0
