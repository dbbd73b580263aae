-- ===== src/Workflow/Schema.antt =====
-- internal/gitai/workflow/workflow.go and runner.go: the checks of a value against a schema.
pub mod Conforms
pub mod Plain
use Prim.Native.String.{String}
use ruriko.Prelude.{
  ℕ, Bool, true, false, not, ◌&&◌, ◌||◌, Option, none, some, ◌==◌, string_eq, leb, if◌then◌else◌,
}
use ruriko.Prelude.Int.{ℤ, pos_part}
use ruriko.Prelude.Text.{is_empty, trim_space}
use ruriko.Json.{
  as_string, Value, null, bool, int, float, str, arr, obj, table, Items, nil, cons, Fields, end,
  field, get, has, count,
}
use ruriko.Gosuto.Workflow.{StepFields}
use ruriko.Workflow.State.{
  Result, ok, err, Error, coded, plain, Reason, schema_validation, missing_field, wrong_field_type,
  required_not_array, required_not_string, properties_not_object, unsupported_schema_type,
  schemas_missing, schema_not_found, schema_not_object, wrong_type, not_an_object, too_many_items,
  ◌>>=◌,
}

abbrev pub is_string : Value → Bool
is_string (str s) = true
is_string _ = false

abbrev pub is_boolean : Value → Bool
is_boolean (bool b) = true
is_boolean _ = false

abbrev pub is_number : Value → Bool
is_number (int s) = true
is_number (float s whole) = true
is_number _ = false

abbrev pub is_integer : Value → Bool
is_integer (int s) = true
is_integer (float s whole) = whole
is_integer _ = false

abbrev pub is_array : Value → Bool
is_array (arr vs) = true
is_array _ = false

abbrev pub is_object : Value → Bool
is_object (obj m) = true
is_object _ = false

abbrev pub is_null : Value → Bool
is_null null = true
is_null _ = false

unfoldable pub matches_json_schema_type : String → Value → Bool
matches_json_schema_type expected v =
    if expected == "string"
    then is_string v
    else if expected == "boolean"
    then is_boolean v
    else if expected == "number"
    then is_number v
    else if expected == "integer"
    then is_integer v
    else if expected == "array"
    then is_array v
    else if expected == "object"
    then is_object v
    else if expected == "null"
    then is_null v
    else false

-- `name, _ := schema["type"].(string)`
abbrev pub text_of : Option Value → String
text_of (some (str s)) = s
text_of _ = ""

abbrev pub type_name : Fields → String
type_name schema = text_of (get "type" schema)

unfoldable pub check_required : Items → Fields → Result Unit
check_required nil payload = ok tt
check_required (cons raw rest) payload =
    let later = check_required rest payload in
    elim (as_string raw) [
      | none ↦ err (plain required_not_string)
      | some key ↦ if has key payload then later else err (plain (missing_field key))
    ]

abbrev pub check_required_of : Option Value → Fields → Result Unit
check_required_of none payload = ok tt
check_required_of (some (arr required)) payload = check_required required payload
check_required_of (some _) payload = err (plain required_not_array)

abbrev pub check_expected : String → String → Value → Result Unit
check_expected key expected v =
    if expected == "" || matches_json_schema_type expected v
    then ok tt
    else err (plain (wrong_field_type key))

abbrev pub check_property : String → Value → Option Value → Result Unit
check_property key (obj property) (some v) = check_expected key (type_name property) v
check_property key property found = ok tt

unfoldable pub check_properties : Fields → Fields → Result Unit
unfolding matches_json_schema_type
check_properties end payload = ok tt
check_properties (field key property rest) payload =
    check_property key property (get key payload) >>= λ u. check_properties rest payload

abbrev pub check_properties_of : Option Value → Fields → Result Unit
check_properties_of none payload = ok tt
check_properties_of (some (obj properties)) payload = check_properties properties payload
check_properties_of (some _) payload = err (plain properties_not_object)

unfoldable pub validate_payload_against_schema : Fields → Fields → Result Unit
unfolding check_required check_properties
validate_payload_against_schema schema payload =
    if not (type_name schema == "") && not (type_name schema == "object")
    then err (plain unsupported_schema_type)
    else check_required_of (get "required" schema) payload >>= λ u.
        check_properties_of (get "properties" schema) payload

-- The error of a check, under the code of schemas.
abbrev pub refused : String → Reason → Result Unit
refused protocol_id reason = err (coded schema_validation protocol_id reason)

abbrev pub reason_of : Error → Reason
reason_of (plain reason) = reason
reason_of (coded code id reason) = reason
reason_of _ = unsupported_schema_type

abbrev pub as_schema_error : String → Result Unit → Result Unit
as_schema_error protocol_id (err e) = refused protocol_id (reason_of e)
as_schema_error protocol_id r = r

abbrev is_nonempty : Fields → Bool
is_nonempty end = false
is_nonempty _ = true

-- The part of an object schema: when it asks for an object, or says nothing but has rules for one.
abbrev pub is_object_schema : Fields → Bool
is_object_schema schema =
    type_name schema == "object"
    || (type_name schema == "" && (has "required" schema || has "properties" schema))

abbrev validate_object : String → Fields → Value → Result Unit
validate_object protocol_id schema (obj payload) =
    as_schema_error protocol_id (validate_payload_against_schema schema payload)
validate_object protocol_id schema _ = refused protocol_id not_an_object

abbrev validate_output : String → Fields → Value → Result Unit
validate_output protocol_id schema output =
    if not (type_name schema == "") && not (matches_json_schema_type (type_name schema) output)
    then refused protocol_id wrong_type
    else if is_object_schema schema
    then validate_object protocol_id schema output
    else ok tt

abbrev validate_against : String → Option Value → Value → Result Unit
validate_against protocol_id none output = refused protocol_id schema_not_found
validate_against protocol_id (some (obj schema)) output = validate_output protocol_id schema output
validate_against protocol_id (some _) output = refused protocol_id schema_not_object

unfoldable pub validate_output_against_schema_ref : String → String → Value → Fields → Result Unit
unfolding matches_json_schema_type validate_payload_against_schema
validate_output_against_schema_ref protocol_id schema_ref output schemas =
    if is_empty (trim_space schema_ref)
    then ok tt
    else if not (is_nonempty schemas)
    then refused protocol_id schemas_missing
    else validate_against protocol_id (get (trim_space schema_ref) schemas) output

-- validateStepMaxOutputItems
unfoldable pub validate_step_max_output_items : String → StepFields → Value → Result Unit
validate_step_max_output_items protocol_id f (arr items) =
    if leb (pos_part f.max_output_items) 0 || leb (count items) (pos_part f.max_output_items)
    then ok tt
    else refused protocol_id too_many_items
validate_step_max_output_items protocol_id f _ = ok tt

unfoldable pub output_present : Value → Bool
output_present null = false
output_present (str s) = not (is_empty (trim_space s))
output_present _ = true
