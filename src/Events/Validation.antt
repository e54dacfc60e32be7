-- ===== src/Events/Validation.antt =====
-- contracts/validation.ts: which payloads are events.
use talenttrust_backend.Prelude.{
  ℕ, String, Bool, true, false, Option, none, some, str_eq, ◌≡◌, refl, ◌↔◌, ok, arith,
}
use talenttrust_backend.Envelope.{
  JsValue, undefined, null, boolean, string, number, array, natural, object, Fields, field,
  is_blank, is_no_natural, is_no_date, is_record, validate_event_envelope_preamble,
}
use talenttrust_backend.Events.{
  ContractEvent, EventType, event_of, as_text, as_natural, as_fields, type_of,
  validate_contract_event_payload, typed_event,
}

module _ (trim : String → String) (is_date is_numeric : String → Bool) (decimal : ℕ → String) where
  -- The fields of a contract event: two ids that are not blank, a natural sequence number, a
  -- date, an object and a known type.
  pub record IsEvent (fs : Fields) (ty : EventType) : Type 0 where
    pub contract : field "contractId" fs ≡ string (as_text (field "contractId" fs))
    pub contract_named : str_eq (trim (as_text (field "contractId" fs))) "" ≡ false
    pub event : field "eventId" fs ≡ string (as_text (field "eventId" fs))
    pub event_named : str_eq (trim (as_text (field "eventId" fs))) "" ≡ false
    pub numbered : field "sequence" fs ≡ number (natural (as_natural (field "sequence" fs)))
    pub dated : field "timestamp" fs ≡ string (as_text (field "timestamp" fs))
    pub date : is_date (as_text (field "timestamp" fs)) ≡ true
    pub detailed : field "payload" fs ≡ object (as_fields (field "payload" fs))
    pub typed : type_of (field "type" fs) ≡ some ty

  named :
      (v : JsValue)
      → is_blank trim is_date is_numeric v ≡ false
      → (v ≡ string (as_text v)) × (str_eq (trim (as_text v)) "" ≡ false)
  named v h = ground arith

  numbered :
      (v : JsValue)
      → is_no_natural trim is_date is_numeric v ≡ false
      → v ≡ number (natural (as_natural v))
  numbered v h = ground arith

  dated :
      (v : JsValue)
      → is_no_date trim is_date is_numeric v ≡ false
      → (v ≡ string (as_text v)) × (is_date (as_text v) ≡ true)
  dated v h = ground arith

  detailed : (v : JsValue) → is_record v ≡ true → v ≡ object (as_fields v)
  detailed v h = ground arith

  checks_passed :
      (fs : Fields) (e : ContractEvent)
      → validate_contract_event_payload trim is_date is_numeric decimal (object fs) ≡ ok e
      → (is_blank trim is_date is_numeric (field "contractId" fs) ≡ false)
        × (is_blank trim is_date is_numeric (field "eventId" fs) ≡ false)
        × (is_no_natural trim is_date is_numeric (field "sequence" fs) ≡ false)
        × (is_no_date trim is_date is_numeric (field "timestamp" fs) ≡ false)
        × (is_record (field "payload" fs) ≡ true)
        × (typed_event trim is_date is_numeric decimal fs (type_of (field "type" fs)) ≡ ok e)
  unfolding validate_contract_event_payload validate_event_envelope_preamble
  checks_passed fs e h = ground arith

  typed_ok :
      (fs : Fields) (o : Option EventType) (e : ContractEvent)
      → typed_event trim is_date is_numeric decimal fs o ≡ ok e
      → (ty : EventType) × (o ≡ some ty) × (e ≡ event_of trim is_date is_numeric decimal fs ty)
  typed_ok fs none e h = cc h
  typed_ok fs (some ty) e h = (ty, refl, ground arith)

  event_accepted :
      (fs : Fields) (ty : EventType)
      → IsEvent fs ty
      → validate_contract_event_payload trim is_date is_numeric decimal (object fs)
        ≡ ok (event_of trim is_date is_numeric decimal fs ty)
  unfolding validate_contract_event_payload validate_event_envelope_preamble
  event_accepted fs ty ev =
      let c : is_blank trim is_date is_numeric (field "contractId" fs) ≡ false =
        ground (arith, ev.contract, ev.contract_named) in
      let i : is_blank trim is_date is_numeric (field "eventId" fs) ≡ false =
        ground (arith, ev.event, ev.event_named) in
      let s : is_no_natural trim is_date is_numeric (field "sequence" fs) ≡ false =
        ground (arith, ev.numbered) in
      let t : is_no_date trim is_date is_numeric (field "timestamp" fs) ≡ false =
        ground (arith, ev.dated, ev.date) in
      let p : is_record (field "payload" fs) ≡ true = ground (arith, ev.detailed) in
      ground (arith, c, i, s, t, p, ev.typed)

  is_event :
      (v : JsValue) (e : ContractEvent)
      → validate_contract_event_payload trim is_date is_numeric decimal v ≡ ok e
      → (fs : Fields) × (ty : EventType) × (v ≡ object fs)
        × IsEvent fs ty
        × (e ≡ event_of trim is_date is_numeric decimal fs ty)
  unfolding validate_contract_event_payload validate_event_envelope_preamble
  is_event (object fs) e h =
      let (c, i, s, t, p, o) = checks_passed fs e h in
      let (ty, typed, built) = typed_ok fs (type_of (field "type" fs)) e o in
      let (contract, contract_named) = named (field "contractId" fs) c in
      let (event, event_named) = named (field "eventId" fs) i in
      let (dated, date) = dated (field "timestamp" fs) t in
      (
        fs,
        ty,
        refl,
        record {
          contract = contract;
          contract_named = contract_named;
          event = event;
          event_named = event_named;
          numbered = numbered (field "sequence" fs) s;
          dated = dated;
          date = date;
          detailed = detailed (field "payload" fs) p;
          typed = typed;
        },
        built,
      )
  is_event undefined e h = cc h
  is_event null e h = cc h
  is_event (boolean b) e h = cc h
  is_event (number n) e h = cc h
  is_event (string s) e h = cc h
  is_event array e h = cc h

  -- A payload is validated to an event exactly if it is an object whose ids are texts that are not
  -- blank, whose sequence number is a non-negative integer, whose timestamp is the text of a date,
  -- whose payload is an object and whose type is one of the five; and the event then has its
  -- fields, the ids trimmed.
  pub validate_contract_event_payload_lem :
      (v : JsValue) (e : ContractEvent)
      → (validate_contract_event_payload trim is_date is_numeric decimal v ≡ ok e) ↔ (
          (fs : Fields) × (ty : EventType) × (v ≡ object fs)
          × IsEvent fs ty
          × (e ≡ event_of trim is_date is_numeric decimal fs ty))
  validate_contract_event_payload_lem v e =
      (is_event v e, λ (fs, ty, shape, ev, built). rw (shape, built) (event_accepted fs ty ev))
