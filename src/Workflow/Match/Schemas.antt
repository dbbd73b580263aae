-- ===== src/Workflow/Match/Schemas.antt =====
-- Validation and matching together: over a valid configuration, the check of a message is about the message.
use mathlib.Core.List.{Memᴰ}
use mathlib.Core.Bool.{false≢true}
use mathlib.Core.Path.{subst}
use Prim.Native.String.{String}
use ruriko.Prelude.{
  Bool, true, false, not, ◌&&◌, ◌||◌, Option, none, some, List, [], ◌∷◌, ◌==◌, string_eq, ◌≡◌, refl,
  sym, ap, text_eq_iff, ◌∙◌, All, contains, Bool-cases, Option-cases, inl, inr, some-injective,
  none-ne-some, if◌then◌else◌,
}
use ruriko.Prelude.Text.{is_empty, trim_space}
use ruriko.Json.{Value, arr, obj, Items, nil, cons, Fields, end, field, get, has, as_string}
use ruriko.Gosuto.Types.{Config}
use ruriko.Gosuto.Workflow.{WorkflowProtocol}
use ruriko.Gosuto.Check.{fail_if, ◌also◌, wrong_schema, ref_not_found}
use ruriko.Gosuto.Check.Passes.{Passes, rest_of, first_of, fail_if-Passes, check_all-Passes}
use ruriko.Gosuto.Validate.{validate}
use ruriko.Gosuto.Validate.Steps.{
  check_schemas, validate_workflow_schema_object, check_required_list, validate_schema_ref,
  check_ref, validate_protocol, validate_workflow,
}
use ruriko.Workflow.State.{
  Result, ok, err, diverges, plain, coded, Reason, missing_field, wrong_field_type,
  unsupported_schema_type, required_not_string, schema_validation, ◌>>=◌,
}
use ruriko.Workflow.Schema.{
  validate_payload_against_schema, check_required, check_properties, check_property, check_expected,
  check_required_of, check_properties_of, type_name, matches_json_schema_type, as_schema_error,
}
use ruriko.Workflow.Match.{validate_protocol_input_schema, validate_input}

-- A reason that lies in the payload, or in a schema of another type than an object's.
abbrev pub IsOfPayload : Reason → Type 0
IsOfPayload (missing_field key) = Unit
IsOfPayload (wrong_field_type key) = Unit
IsOfPayload unsupported_schema_type = Unit
IsOfPayload _ = ⊥

abbrev Blames : Result Unit → Type 0
Blames (ok u) = Unit
Blames (err (plain reason)) = IsOfPayload reason
Blames _ = ⊥

bind-Blames : (r q : Result Unit) → Blames r → Blames q → Blames (r >>= λ u. q)
bind-Blames (ok u) q h k = k
bind-Blames (err e) q h k = h
bind-Blames diverges q h k = h

key-Blames :
    (seen : List String) (rest : Items) (payload : Fields) (o : Option String) (later : Result Unit)
    → ((seen : List String) → Passes (check_required_list seen rest) → Blames later)
    → Passes (elim o [
      | none ↦ some wrong_schema
      | some name ↦
          fail_if (contains seen name) wrong_schema also check_required_list (name ∷ seen) rest
    ])
    → Blames (elim o [
      | none ↦ err (plain required_not_string)
      | some key ↦ if has key payload then later else err (plain (missing_field key))
    ])
key-Blames seen rest payload none later k h = elim (none-ne-some wrong_schema (sym h)) [ ]
key-Blames seen rest payload (some key) later k h = elim (Bool-cases (has key payload)) [
  | inl e ↦ rw e (k (key ∷ seen) (rest_of _ _ h))
  | inr e ↦ rw e tt
]

check_required-Blames :
    (seen : List String) (items : Items) (payload : Fields)
    → Passes (check_required_list seen items)
    → Blames (check_required items payload)
unfolding check_required check_required_list
check_required-Blames seen nil payload h = tt
check_required-Blames seen (cons raw rest) payload h =
    key-Blames seen rest payload (as_string raw) (check_required rest payload)
      (λ more q. check_required-Blames more rest payload q) h

check_expected-Blames : (key expected : String) (v : Value) → Blames (check_expected key expected v)
check_expected-Blames key expected v =
    elim (Bool-cases (expected == "" || matches_json_schema_type expected v)) [
      | inl e ↦ rw e tt
      | inr e ↦ rw e tt
    ]

check_property-Blames :
    (key : String) (property : Value) (found : Option Value)
    → Blames (check_property key property found)
check_property-Blames key (obj property) (some v) = check_expected-Blames key (type_name property) v
check_property-Blames key property found = tt

check_properties-Blames :
    (properties payload : Fields) → Blames (check_properties properties payload)
unfolding check_properties
check_properties-Blames end payload = tt
check_properties-Blames (field key property rest) payload =
    bind-Blames (check_property key property (get key payload)) (check_properties rest payload)
      (check_property-Blames key property (get key payload)) (check_properties-Blames rest payload)

required_of-Blames :
    (o : Option Value) (payload : Fields)
    → Passes (ruriko.Gosuto.Validate.Steps.check_required o)
    → Blames (check_required_of o payload)
required_of-Blames none payload h = tt
required_of-Blames (some (arr items)) payload h = check_required-Blames [] items payload h
required_of-Blames (some v) payload h = elim (none-ne-some wrong_schema (sym h)) [ ]

properties_of-Blames :
    (o : Option Value) (payload : Fields)
    → Passes (ruriko.Gosuto.Validate.Steps.check_properties o)
    → Blames (check_properties_of o payload)
properties_of-Blames none payload h = tt
properties_of-Blames (some (obj properties)) payload h = check_properties-Blames properties payload
properties_of-Blames (some v) payload h = elim (none-ne-some wrong_schema (sym h)) [ ]

validate_payload-Blames :
    (schema payload : Fields)
    → Passes (validate_workflow_schema_object (obj schema))
    → Blames (validate_payload_against_schema schema payload)
unfolding validate_payload_against_schema validate_workflow_schema_object
validate_payload-Blames schema payload h =
    elim (Bool-cases (not (type_name schema == "") && not (type_name schema == "object"))) [
      | inl e ↦ rw e tt
      | inr e ↦ rw e (
          bind-Blames (check_required_of (get "required" schema) payload)
            (check_properties_of (get "properties" schema) payload)
            (required_of-Blames (get "required" schema) payload (first_of _ _ (rest_of _ _ h)))
            (properties_of-Blames (get "properties" schema) payload (rest_of _ _ (rest_of _ _ h))))
    ]

check_schemas-get :
    (m : Fields) (k : String) (v : Value)
    → Passes (check_schemas m)
    → get k m ≡ some v
    → Passes (validate_workflow_schema_object v)
unfolding check_schemas
check_schemas-get end k v h e = elim (none-ne-some v e) [ ]
check_schemas-get (field j w m) k v h e = elim (Bool-cases (j == k)) [
  | inl p ↦
      subst (λ u. Passes (validate_workflow_schema_object u)) (some-injective _ _ (rw p at e))
        (first_of _ _ h)
  | inr p ↦ check_schemas-get m k v (rest_of _ _ h) (rw p at e)
]

has-get : (k : String) (m : Fields) → has k m ≡ true → (v : Value) × (get k m ≡ some v)
has-get k m h = elim (Option-cases (get k m)) [
  | inl e ↦ elim (false≢true (rw (e, has) at h)) [ ]
  | inr p ↦ p
]

unnegated : (b : Bool) → not b ≡ false → b ≡ true
unnegated true h = refl
unnegated false h = elim (false≢true (sym h)) [ ]

-- What validation says of a reference that is not empty.
check_ref-get :
    (schemas : Fields) (ref : String)
    → Passes (check_ref schemas ref)
    → (ref == "") ≡ false
    → (v : Value) × (get (trim_space ref) schemas ≡ some v)
unfolding validate_schema_ref
check_ref-get schemas ref h e = has-get (trim_space ref) schemas (
    unnegated (has (trim_space ref) schemas) (
      fail_if-Passes (not (has (trim_space ref) schemas)) ref_not_found
        (rest_of _ _ (rest_of _ _ (rest_of _ _ (rw e at h))))))

-- The result of the check of a message's payload.
abbrev pub BlamesPayload : Result Unit → Type 0
BlamesPayload (ok u) = Unit
BlamesPayload (err (coded schema_validation id reason)) = IsOfPayload reason
BlamesPayload _ = ⊥

as_schema_error-BlamesPayload :
    (id : String) (r : Result Unit) → Blames r → BlamesPayload (as_schema_error id r)
as_schema_error-BlamesPayload id (ok u) h = tt
as_schema_error-BlamesPayload id (err (plain reason)) h = h
as_schema_error-BlamesPayload id (err e) h = elim h [ ]
as_schema_error-BlamesPayload id diverges h = elim h [ ]

validate_input-BlamesPayload :
    (id : String) (v : Value) (payload : Fields)
    → Passes (validate_workflow_schema_object v)
    → BlamesPayload (validate_input id (some v) payload)
unfolding validate_workflow_schema_object
validate_input-BlamesPayload id (obj schema) payload h =
    as_schema_error-BlamesPayload id (validate_payload_against_schema schema payload)
      (validate_payload-Blames schema payload h)
validate_input-BlamesPayload id v payload h = elim (none-ne-some wrong_schema (sym h)) [ ]

has_characters : (s : String) → is_empty s ≡ false → (s == "") ≡ false
has_characters s h = elim (Bool-cases (s == "")) [
  | inl e ↦ elim (false≢true (sym h ∙ ap is_empty ((text_eq_iff s "").0 e))) [ ]
  | inr e ↦ e
]

protocol_of :
    (schemas : Fields) (ps : List WorkflowProtocol) (p : WorkflowProtocol)
    → All (λ p. Passes (validate_protocol schemas p)) ps
    → Memᴰ p ps
    → Passes (validate_protocol schemas p)
protocol_of schemas [] p h m = elim m [ ]
protocol_of schemas (q ∷ ps) p h (Memᴰ.head e) =
    subst (λ r. Passes (validate_protocol schemas r)) (sym e) (h.0)
protocol_of schemas (q ∷ ps) p h (Memᴰ.tail m) = protocol_of schemas ps p (h.1) m

-- In a configuration that Validate accepts, a protocol whose schema is named without blanks around the name
-- refuses a message for its schema only if a field of the message is missing or of a wrong type, or if the
-- schema is for something else than objects: never because the schema is missing or cannot be read.
pub validate_protocol_input_schema-BlamesPayload :
    (cfg : Config) (protocol : WorkflowProtocol) (payload : Fields)
    → Passes (validate cfg)
    → Memᴰ protocol cfg.workflow.protocols
    → trim_space protocol.input_schema_ref ≡ protocol.input_schema_ref
    → BlamesPayload (validate_protocol_input_schema cfg protocol payload)
unfolding validate validate_workflow validate_protocol validate_protocol_input_schema
validate_protocol_input_schema-BlamesPayload cfg protocol payload h m trimmed =
    let schemas = cfg.workflow.schemas.definitions in
    let ref = protocol.input_schema_ref in
    let w = first_of _ _ (rest_of _ _ (rest_of _ _ (rest_of _ _ h))) in
    let all_protocols =
      check_all-Passes (validate_protocol schemas) cfg.workflow.protocols
        (rest_of _ _ (rest_of _ _ w)) in
    let p = protocol_of schemas cfg.workflow.protocols protocol all_protocols m in
    elim (Bool-cases (is_empty (trim_space ref))) [
      | inl e ↦ rw e tt
      | inr e ↦
          let found =
            check_ref-get schemas ref (first_of _ _ (rest_of _ _ (rest_of _ _ (rest_of _ _ p))))
              (has_characters ref (ap is_empty (sym trimmed) ∙ e)) in
          let exact = ap (λ r. get r schemas) (sym trimmed) ∙ found.1 in
          rw e (
            rw exact (
              validate_input-BlamesPayload protocol.id (found.0) payload
                (check_schemas-get schemas ref (found.0) (first_of _ _ (rest_of _ _ w)) exact)))
    ]
