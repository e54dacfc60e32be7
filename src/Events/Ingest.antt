-- ===== src/Events/Ingest.antt =====
-- contracts/{processor,repository,dedupe}.ts: what one ingestion does to the stored events.
use talenttrust_backend.Prelude.{
  ℕ, String, ◌<>◌, Bool, true, false, some, get, put, has, str_eq, ◌≡◌, refl, ◌⊎◌, inl, inr, Result,
  ok, err, Result-cases, Bool-cases, IsMap, put-IsMap, get-put, get-put_cases, get-put_self, eq_iff,
}
use text.Mathlib.TextLemmas.{append_assoc}
use talenttrust_backend.Envelope.{JsValue}
use talenttrust_backend.Events.{
  ContractEvent, PersistedContractEvent, IngestResult, accepted, duplicate, invalid, Store,
  build_event_key, validate_contract_event_payload, ingest,
}

module _ (trim : String → String) (is_date is_numeric : String → Bool) (decimal : ℕ → String) where
  abbrev pub validated : JsValue → Result String ContractEvent
  validated v = validate_contract_event_payload trim is_date is_numeric decimal v

  abbrev pub key_of : ContractEvent → String
  key_of e = build_event_key trim is_date is_numeric decimal e

  abbrev pub ingested : String → JsValue → Store → IngestResult × Store
  ingested now v st = ingest trim is_date is_numeric decimal now v st

  pub ingest_invalid :
      (now : String) (v : JsValue) (st : Store) {reason : String}
      → validated v ≡ err reason
      → ingested now v st ≡ (invalid reason, st)
  unfolding ingest
  ingest_invalid now v st h = rw h refl

  pub ingest_known :
      (now : String) (v : JsValue) (st : Store) {e : ContractEvent}
      → validated v ≡ ok e
      → has (key_of e) st ≡ true
      → ingested now v st ≡ (duplicate (key_of e), st)
  unfolding ingest
  ingest_known now v st h known = rw (h, known) refl

  pub ingest_new :
      (now : String) (v : JsValue) (st : Store) {e : ContractEvent}
      → validated v ≡ ok e
      → has (key_of e) st ≡ false
      → ingested now v st ≡ (
        accepted (key_of e),
        put (key_of e) (record { event = e; event_key = key_of e; received_at = now }) st,
      )
  unfolding ingest
  ingest_new now v st h fresh = rw (h, fresh) refl

  -- The three ways an ingestion can go.
  pub ingest_cases :
      (now : String) (v : JsValue) (st : Store)
      → ((reason : String) × (validated v ≡ err reason))
        ⊎ ((e : ContractEvent) × (validated v ≡ ok e) × (has (key_of e) st ≡ true))
        ⊎ ((e : ContractEvent) × (validated v ≡ ok e) × (has (key_of e) st ≡ false))
  ingest_cases now v st = elim (Result-cases (validated v)) [
    | inl (e, valid) ↦ elim (Bool-cases (has (key_of e) st)) [
      | inl known ↦ inr (inl (e, valid, known))
      | inr fresh ↦ inr (inr (e, valid, fresh))
    ]
    | inr (reason, bad) ↦ inl (reason, bad)
  ]

  -- A stored event is never changed or dropped by an ingestion.
  pub ingest-keeps :
      (now key : String) (v : JsValue) (st : Store) {p : PersistedContractEvent}
      → get key st ≡ some p
      → get key (ingested now v st).1 ≡ some p
  ingest-keeps now key v st {p} h = elim (ingest_cases now v st) [
    | inl (reason, bad) ↦ rw (ingest_invalid now v st bad) h
    | inr (inl (e, valid, known)) ↦ rw (ingest_known now v st valid known) h
    | inr (inr (e, valid, fresh)) ↦
        rw (ingest_new now v st valid fresh, get-put)
          (elim (Bool-cases (str_eq (key_of e) key)) [
            | inl same ↦ let absent = (rw ((eq_iff _ key).0 same) at fresh) in cc (absent, h)
            | inr other ↦ rw other h
          ])
  ]

  -- A valid event is stored after its ingestion.
  pub ingest-has :
      (now : String) (v : JsValue) (st : Store) {e : ContractEvent}
      → validated v ≡ ok e
      → has (key_of e) (ingested now v st).1 ≡ true
  ingest-has now v st {e} h = elim (Bool-cases (has (key_of e) st)) [
    | inl known ↦ rw (ingest_known now v st h known) known
    | inr fresh ↦ rw (ingest_new now v st h fresh, get-put_self) refl
  ]

  -- Every event is stored once, under its own key.
  pub record IsStore (st : Store) : Type 0 where
    pub keyed :
        (key : String) (p : PersistedContractEvent)
        → get key st ≡ some p
        → (p.event_key ≡ key) × (key_of p.event ≡ key)
    pub unique : IsMap st

  pub ingest-IsStore :
      (now : String) (v : JsValue) (st : Store) → IsStore st → IsStore (ingested now v st).1
  ingest-IsStore now v st s = elim (ingest_cases now v st) [
    | inl (reason, bad) ↦ rw (ingest_invalid now v st bad) s
    | inr (inl (e, valid, known)) ↦ rw (ingest_known now v st valid known) s
    | inr (inr (e, valid, fresh)) ↦ rw (ingest_new now v st valid fresh) (record {
      keyed = λ key p h. elim (get-put_cases (key_of e) key _ st h) [
        | inl (same, written) ↦ rw (written, same) (refl, refl)
        | inr kept ↦ s.keyed key p kept
      ];
      unique = put-IsMap (key_of e) _ st s.unique;
    })
  ]

  same_key :
      (a b c : String) (first second : ContractEvent)
      → first.contract_id ≡ a
      → first.event_id ≡ b <> (":" <> c)
      → second.contract_id ≡ a <> (":" <> b)
      → second.event_id ≡ c
      → first.sequence ≡ second.sequence
      → key_of first ≡ key_of second
  unfolding build_event_key
  same_key a b c first second p q r s n = simp (p, q, r, s, n, append_assoc) refl

  -- Two events whose ids differ only in where a colon stands have one key: with the first stored,
  -- a valid payload of the second is answered as a duplicate and is not stored.
  pub colon_ids_collide :
      (now a b c : String) (v : JsValue) (st : Store) (first second : ContractEvent)
      → first.contract_id ≡ a
      → first.event_id ≡ b <> (":" <> c)
      → second.contract_id ≡ a <> (":" <> b)
      → second.event_id ≡ c
      → first.sequence ≡ second.sequence
      → validated v ≡ ok second
      → has (key_of first) st ≡ true
      → ingested now v st ≡ (duplicate (key_of first), st)
  colon_ids_collide now a b c v st first second p q r s n valid known =
      let same = same_key a b c first second p q r s n in
      rw same (ingest_known now v st valid (rw same at known))
