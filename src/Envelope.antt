-- ===== src/Envelope.antt =====
-- shared/eventEnvelopeValidation.ts: the checks that inbound events share. A payload of unknown
-- shape is a JavaScript value; what the items of an array are is never read. `trim`, `Date.parse`
-- and `Number` on text are parameters: `is_date` and `is_numeric` say that they give a number.
use talenttrust_backend.Prelude.{
  ◌<>◌, ℕ, String, Bool, true, false, not, ◌||◌, List, [], ◌∷◌, str_eq, if◌then◌else◌,
}

-- A number that is a non-negative integer, another finite one, or not finite.
pub data JsNumber : Type 0 where
  natural : ℕ → JsNumber
  finite : JsNumber
  not_finite : JsNumber

mutual
  pub data JsValue : Type 0 where
    undefined : JsValue
    null : JsValue
    boolean : Bool → JsValue
    number : JsNumber → JsValue
    string : String → JsValue
    array : JsValue
    object : Fields → JsValue

  pub data Fields : Type 0 where
    no_field : Fields
    set : String → JsValue → Fields → Fields

unfoldable pub field : String → Fields → JsValue
field name no_field = undefined
field name (set key v rest) = if str_eq key name then v else field name rest

abbrev pub is_record : JsValue → Bool
is_record (object fs) = true
is_record _ = false

pub record FieldError : Type 0 where
  pub name : String
  pub message : String

pub data TimestampRule : Type 0 where
  iso : TimestampRule
  numeric : TimestampRule

pub record EnvelopeValidationOptions : Type 0 where
  pub root_error_message : String
  pub message_suffix : String
  pub timestamp_rule : TimestampRule
  pub abort_early : Bool

-- `if (failed) { errors.push(...); if (abortEarly) return errors }`, then the later checks
abbrev report :
    EnvelopeValidationOptions → Bool → String → String → List FieldError → List FieldError
report o failed name message later =
    if failed
    then record { name = name; message = message <> o.message_suffix }
      ∷ (if o.abort_early then [] else later)
    else later

module _ (trim : String → String) (is_date is_numeric : String → Bool) where
  -- `typeof v !== 'string' || v.trim().length === 0`
  abbrev pub is_blank : JsValue → Bool
  is_blank (string s) = str_eq (trim s) ""
  is_blank _ = true

  -- `typeof v !== 'number' || !Number.isInteger(v) || v < 0`
  abbrev pub is_no_natural : JsValue → Bool
  is_no_natural (number (natural n)) = false
  is_no_natural _ = true

  abbrev pub is_no_date : JsValue → Bool
  is_no_date (string s) = not (is_date s)
  is_no_date _ = true

  -- `toFiniteNumber(v) === null`
  abbrev is_no_number : JsValue → Bool
  is_no_number (number not_finite) = true
  is_no_number (number n) = false
  is_no_number (string s) = str_eq (trim s) "" || not (is_numeric s)
  is_no_number _ = true

  abbrev check_timestamp :
      EnvelopeValidationOptions → JsValue → TimestampRule → List FieldError → List FieldError
  check_timestamp o v iso later =
      report o (is_no_date v) "timestamp" "timestamp must be a valid ISO string" later
  check_timestamp o v numeric later =
      report o (is_no_number v) "timestamp"
        "timestamp must be a valid epoch number or numeric string" later

  abbrev check_fields : EnvelopeValidationOptions → Fields → List FieldError
  check_fields o fs =
      report o (is_blank (field "contractId" fs)) "contractId" "contractId is required" (
        report o (is_blank (field "eventId" fs)) "eventId" "eventId is required" (
          report o (is_no_natural (field "sequence" fs)) "sequence"
            "sequence must be a non-negative integer"
            (check_timestamp o (field "timestamp" fs) o.timestamp_rule (
              report o (not (is_record (field "payload" fs))) "payload" "payload must be an object"
                []))))

  unfoldable pub validate_event_envelope_preamble :
      JsValue → EnvelopeValidationOptions → List FieldError
  validate_event_envelope_preamble (object fs) o = check_fields o fs
  validate_event_envelope_preamble v o =
      record { name = "event"; message = o.root_error_message } ∷ []
