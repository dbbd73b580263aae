-- ===== src/Workflow/Schema/Conforms.antt =====
-- What the check of a payload promises, said of the JSON values themselves.
use Prim.Native.String.{String}
use mathlib.Core.Bool.{false≢true}
use ruriko.Prelude.{
  Bool, true, false, not, ◌&&◌, ◌||◌, Option, none, some, ◌==◌, string_eq, ◌≡◌, ◌↔◌, ◌⊎◌, inl, inr,
  refl, sym, ◌∙◌, if◌then◌else◌, Bool-cases, text_eq_iff, arith,
}
use ruriko.Json.{
  as_string, Value, null, bool, int, float, str, arr, obj, table, Items, nil, cons, Fields, end,
  field, get, has,
}
use ruriko.Workflow.State.{
  Result, ok, err, diverges, plain, required_not_string, missing_field, ◌>>=◌,
}
use ruriko.Workflow.Schema.{
  is_string, is_boolean, is_number, is_integer, is_array, is_object, is_null,
  matches_json_schema_type, type_name, validate_payload_against_schema, check_required,
  check_properties, check_expected, check_property, check_required_of, check_properties_of,
}

-- The type of a value, in the words of JSON Schema.
abbrev pub HasType : String → Value → Type 0
HasType t null = t ≡ "null"
HasType t (bool b) = t ≡ "boolean"
HasType t (int s) = (t ≡ "number") ⊎ (t ≡ "integer")
HasType t (float s whole) = (t ≡ "number") ⊎ ((t ≡ "integer") × (whole ≡ true))
HasType t (str s) = t ≡ "string"
HasType t (arr vs) = t ≡ "array"
HasType t (obj m) = t ≡ "object"
HasType t (table m) = ⊥

abbrev Is : String → String → Bool → Type 0
Is t name b = (t ≡ name) × (b ≡ true)

matches_json_schema_type_cases :
    (t : String) (v : Value)
    → matches_json_schema_type t v ≡ true
    → Is t "string" (is_string v)
      ⊎ (Is t "boolean" (is_boolean v)
          ⊎ (Is t "number" (is_number v)
              ⊎ (Is t "integer" (is_integer v)
                  ⊎ (Is t "array" (is_array v)
                      ⊎ (Is t "object" (is_object v) ⊎ Is t "null" (is_null v))))))
unfolding matches_json_schema_type
matches_json_schema_type_cases t v h = ground (
  arith,
  text_eq_iff t "string",
  text_eq_iff t "boolean",
  text_eq_iff t "number",
  text_eq_iff t "integer",
  text_eq_iff t "array",
  text_eq_iff t "object",
  text_eq_iff t "null",
)

matches-HasType : (t : String) (v : Value) → matches_json_schema_type t v ≡ true → HasType t v
matches-HasType t null h = ground (arith, matches_json_schema_type_cases t null h)
matches-HasType t (bool b) h = ground (arith, matches_json_schema_type_cases t (bool b) h)
matches-HasType t (int s) h = ground (arith, matches_json_schema_type_cases t (int s) h)
matches-HasType t (float s whole) h =
    ground (arith, matches_json_schema_type_cases t (float s whole) h)
matches-HasType t (str s) h = ground (arith, matches_json_schema_type_cases t (str s) h)
matches-HasType t (arr vs) h = ground (arith, matches_json_schema_type_cases t (arr vs) h)
matches-HasType t (obj m) h = ground (arith, matches_json_schema_type_cases t (obj m) h)
matches-HasType t (table m) h = ground (arith, matches_json_schema_type_cases t (table m) h)

HasType-matches : (t : String) (v : Value) → HasType t v → matches_json_schema_type t v ≡ true
unfolding matches_json_schema_type
HasType-matches t null e = rw e refl
HasType-matches t (bool b) e = rw e refl
HasType-matches t (int s) (inl e) = rw e refl
HasType-matches t (int s) (inr e) = rw e refl
HasType-matches t (float s whole) (inl e) = rw e refl
HasType-matches t (float s whole) (inr (e, w)) = rw e w
HasType-matches t (str s) e = rw e refl
HasType-matches t (arr vs) e = rw e refl
HasType-matches t (obj m) e = rw e refl
HasType-matches t (table m) e = elim e [ ]

abbrev IsPresent : Fields → Option String → Type 0
IsPresent payload (some key) = has key payload ≡ true
IsPresent payload none = ⊥

abbrev AllItems : (Value → Type 0) → Items → Type 0
AllItems P nil = Unit
AllItems P (cons v vs) = P v × AllItems P vs

abbrev AllFields : (String → Value → Type 0) → Fields → Type 0
AllFields P end = Unit
AllFields P (field k v m) = P k v × AllFields P m

-- A field that a schema gives a type is absent or has the type.
abbrev IsTyped : Value → Option Value → Type 0
IsTyped (obj property) (some v) = (type_name property ≡ "") ⊎ HasType (type_name property) v
IsTyped property found = Unit

abbrev HasRequired : Fields → Option Value → Type 0
HasRequired payload none = Unit
HasRequired payload (some (arr required)) =
    AllItems (λ raw. IsPresent payload (as_string raw)) required
HasRequired payload (some _) = ⊥

abbrev HasTyped : Fields → Option Value → Type 0
HasTyped payload none = Unit
HasTyped payload (some (obj properties)) =
    AllFields (λ k property. IsTyped property (get k payload)) properties
HasTyped payload (some _) = ⊥

-- A schema that the check can read, and a payload that keeps it: every required field is there, and every
-- field that is there and has a type in the schema is of this type.
abbrev pub Conforms : Fields → Fields → Type 0
Conforms schema payload =
    ((type_name schema ≡ "") ⊎ (type_name schema ≡ "object"))
    × (HasRequired payload (get "required" schema) × HasTyped payload (get "properties" schema))

abbrev pub IsOk : Result Unit → Type 0
IsOk (ok u) = Unit
IsOk (err e) = ⊥
IsOk diverges = ⊥

IsOk-bind : (r q : Result Unit) → IsOk (r >>= λ u. q) ↔ (IsOk r × IsOk q)
IsOk-bind (ok u) q = (λ h. (tt, h), λ h. h.1)
IsOk-bind (err e) q = (λ h. elim h [ ], λ h. h.0)
IsOk-bind diverges q = (λ h. elim h [ ], λ h. h.0)

both : {A B C D E : Type 0} → A ↔ (B × C) → B ↔ D → C ↔ E → A ↔ (D × E)
both f g h = (λ a. (let p = f.0 a in (g.0 (p.0), h.0 (p.1))), λ (d, e). f.1 (g.1 d, h.1 e))

same : {A : Type 0} → A ↔ A
same = (λ a. a, λ a. a)

IsPresent-IsOk :
    (payload : Fields) (o : Option String) (later : Result Unit)
    → IsOk (elim o [
      | none ↦ err (plain required_not_string)
      | some key ↦ if has key payload then later else err (plain (missing_field key))
    ])
      ↔ (IsPresent payload o × IsOk later)
IsPresent-IsOk payload none later = (λ h. elim h [ ], λ h. h.0)
IsPresent-IsOk payload (some key) later = elim (Bool-cases (has key payload)) [
  | inl e ↦ rw e (λ h. (refl, h), λ h. h.1)
  | inr e ↦ rw e (λ h. elim h [ ], λ (p, h). elim (false≢true p) [ ])
]

check_required-IsOk :
    (required : Items) (payload : Fields)
    → IsOk (check_required required payload)
      ↔ AllItems (λ raw. IsPresent payload (as_string raw)) required
unfolding check_required
check_required-IsOk nil payload = (λ h. h, λ h. h)
check_required-IsOk (cons raw rest) payload =
    both (IsPresent-IsOk payload (as_string raw) (check_required rest payload)) same
      (check_required-IsOk rest payload)

check_expected-IsOk :
    (key expected : String) (v : Value)
    → IsOk (check_expected key expected v) ↔ ((expected ≡ "") ⊎ HasType expected v)
check_expected-IsOk key expected v =
    elim (Bool-cases (expected == "" || matches_json_schema_type expected v)) [
      | inl e ↦
          rw e (λ h. ground (arith, text_eq_iff expected "", matches-HasType expected v), λ h. tt)
      | inr e ↦ rw e (
        λ h. elim h [ ],
        λ h. ground (arith, e, text_eq_iff expected "", HasType-matches expected v),
      )
    ]

check_property-IsOk :
    (key : String) (property : Value) (found : Option Value)
    → IsOk (check_property key property found) ↔ IsTyped property found
check_property-IsOk key (obj property) (some v) = check_expected-IsOk key (type_name property) v
check_property-IsOk key property found = same

check_properties-IsOk :
    (properties payload : Fields)
    → IsOk (check_properties properties payload)
      ↔ AllFields (λ k property. IsTyped property (get k payload)) properties
unfolding check_properties
check_properties-IsOk end payload = (λ h. h, λ h. h)
check_properties-IsOk (field key property rest) payload =
    both (IsOk-bind (check_property key property (get key payload)) (check_properties rest payload))
      (check_property-IsOk key property (get key payload)) (check_properties-IsOk rest payload)

check_required_of-IsOk :
    (required : Option Value) (payload : Fields)
    → IsOk (check_required_of required payload) ↔ HasRequired payload required
check_required_of-IsOk none payload = same
check_required_of-IsOk (some (arr required)) payload = check_required-IsOk required payload
check_required_of-IsOk (some v) payload = same

check_properties_of-IsOk :
    (properties : Option Value) (payload : Fields)
    → IsOk (check_properties_of properties payload) ↔ HasTyped payload properties
check_properties_of-IsOk none payload = same
check_properties_of-IsOk (some (obj properties)) payload = check_properties-IsOk properties payload
check_properties_of-IsOk (some v) payload = same

abbrev is_unsupported : String → Bool
is_unsupported t = not (t == "") && not (t == "object")

supported : (t : String) → (is_unsupported t ≡ false) ↔ ((t ≡ "") ⊎ (t ≡ "object"))
supported t = ground (arith, text_eq_iff t "", text_eq_iff t "object")

-- A payload passes the check exactly if its schema can be read and the payload conforms to it.
pub validate_payload_against_schema-Conforms :
    (schema payload : Fields)
    → IsOk (validate_payload_against_schema schema payload) ↔ Conforms schema payload
unfolding validate_payload_against_schema
validate_payload_against_schema-Conforms schema payload =
    let rules =
      both
        (IsOk-bind (check_required_of (get "required" schema) payload)
          (check_properties_of (get "properties" schema) payload))
        (check_required_of-IsOk (get "required" schema) payload)
        (check_properties_of-IsOk (get "properties" schema) payload) in
    elim (Bool-cases (is_unsupported (type_name schema))) [
      | inl e ↦ rw e (
        λ h. elim h [ ],
        λ h. elim (false≢true (sym ((supported (type_name schema)).1 (h.0)) ∙ e)) [ ],
      )
      | inr e ↦ rw e (λ h. ((supported (type_name schema)).0 e, rules.0 h), λ h. rules.1 (h.1))
    ]
