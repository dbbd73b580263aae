-- ===== src/Workflow/Schema/Plain.antt =====
-- The check of a payload never fails to answer, and its errors have no code yet.
use Prim.Native.String.{String}
use ruriko.Prelude.{
  not, ◌&&◌, ◌||◌, Option, none, some, ◌==◌, string_eq, inl, inr, if◌then◌else◌, Bool-cases,
}
use ruriko.Json.{as_string, Value, arr, obj, Items, nil, cons, Fields, end, field, get, has}
use ruriko.Workflow.State.{
  Result, ok, err, diverges, plain, required_not_string, missing_field, ◌>>=◌,
}
use ruriko.Workflow.Schema.{
  matches_json_schema_type, type_name, validate_payload_against_schema, check_required,
  check_properties, check_expected, check_property, check_required_of, check_properties_of,
}

abbrev pub IsPlain : Result Unit → Type 0
IsPlain (ok u) = Unit
IsPlain (err (plain reason)) = Unit
IsPlain _ = ⊥

bind-IsPlain : (r q : Result Unit) → IsPlain r → IsPlain q → IsPlain (r >>= λ u. q)
bind-IsPlain (ok u) q h k = k
bind-IsPlain (err e) q h k = h
bind-IsPlain diverges q h k = h

key-IsPlain :
    (payload : Fields) (o : Option String) (later : Result Unit)
    → IsPlain later
    → IsPlain (elim o [
      | none ↦ err (plain required_not_string)
      | some key ↦ if has key payload then later else err (plain (missing_field key))
    ])
key-IsPlain payload none later h = tt
key-IsPlain payload (some key) later h = elim (Bool-cases (has key payload)) [
  | inl e ↦ rw e h
  | inr e ↦ rw e tt
]

check_required-IsPlain :
    (required : Items) (payload : Fields) → IsPlain (check_required required payload)
unfolding check_required
check_required-IsPlain nil payload = tt
check_required-IsPlain (cons raw rest) payload =
    key-IsPlain payload (as_string raw) (check_required rest payload)
      (check_required-IsPlain rest payload)

check_expected-IsPlain :
    (key expected : String) (v : Value) → IsPlain (check_expected key expected v)
check_expected-IsPlain key expected v =
    elim (Bool-cases (expected == "" || matches_json_schema_type expected v)) [
      | inl e ↦ rw e tt
      | inr e ↦ rw e tt
    ]

check_property-IsPlain :
    (key : String) (property : Value) (found : Option Value)
    → IsPlain (check_property key property found)
check_property-IsPlain key (obj property) (some v) =
    check_expected-IsPlain key (type_name property) v
check_property-IsPlain key property found = tt

check_properties-IsPlain :
    (properties payload : Fields) → IsPlain (check_properties properties payload)
unfolding check_properties
check_properties-IsPlain end payload = tt
check_properties-IsPlain (field key property rest) payload =
    bind-IsPlain (check_property key property (get key payload)) (check_properties rest payload)
      (check_property-IsPlain key property (get key payload))
      (check_properties-IsPlain rest payload)

required_of-IsPlain : (o : Option Value) (payload : Fields) → IsPlain (check_required_of o payload)
required_of-IsPlain none payload = tt
required_of-IsPlain (some (arr required)) payload = check_required-IsPlain required payload
required_of-IsPlain (some v) payload = tt

properties_of-IsPlain :
    (o : Option Value) (payload : Fields) → IsPlain (check_properties_of o payload)
properties_of-IsPlain none payload = tt
properties_of-IsPlain (some (obj properties)) payload = check_properties-IsPlain properties payload
properties_of-IsPlain (some v) payload = tt

pub validate_payload_against_schema-IsPlain :
    (schema payload : Fields) → IsPlain (validate_payload_against_schema schema payload)
unfolding validate_payload_against_schema
validate_payload_against_schema-IsPlain schema payload =
    elim (Bool-cases (not (type_name schema == "") && not (type_name schema == "object"))) [
      | inl e ↦ rw e tt
      | inr e ↦ rw e (
          bind-IsPlain (check_required_of (get "required" schema) payload)
            (check_properties_of (get "properties" schema) payload)
            (required_of-IsPlain (get "required" schema) payload)
            (properties_of-IsPlain (get "properties" schema) payload))
    ]
