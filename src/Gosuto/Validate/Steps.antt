-- ===== src/Gosuto/Validate/Steps.antt =====
-- common/spec/gosuto/validate.go: validateWorkflow.
use Prim.Native.String.{String}
use ruriko.Prelude.{
  Bool, true, false, not, ◌&&◌, ◌||◌, Option, none, some, List, [], ◌∷◌, ◌==◌, string_eq,
  if◌then◌else◌, contains,
}
use ruriko.Prelude.Text.{has_part, has_prefix, trim_space}
use ruriko.Json.{as_string, Value, str, arr, obj, Items, nil, cons, Fields, end, field, get, has}
use ruriko.Gosuto.Check.{
  duplicate_schema, wrong_schema, blank_ref, external_ref, no_schemas, ref_not_found,
  unknown_step_type, negative_retries, negative_max_items, ref_only_for_each, no_prompt,
  no_output_ref, no_items_expr, negative_iterations, no_nested_steps, no_collect_from,
  wrong_collect_mode, blank_protocol_id, blank_trigger_type, prefix_with_blanks, no_prefix,
  wrong_trigger_type, Check, fail_if, ◌also◌, is_blank, has_blank, check_all,
}
use ruriko.Gosuto.Workflow.{
  StepFields, WorkflowProtocolStep, step, Steps, no_step, followed, WorkflowTrigger,
  WorkflowProtocol, Workflow,
}
use ruriko.Gosuto.Validate.Sections.{is_negative}

abbrev pub is_external : String → Bool
is_external ref =
    has_part "://" ref || (has_prefix "#" ref || (has_part "/" ref || has_part "\\" ref))

abbrev has_entries : Fields → Bool
has_entries end = false
has_entries (field k v m) = true

unfoldable pub validate_schema_ref : Fields → String → Check
validate_schema_ref schemas ref =
    fail_if (is_blank ref) blank_ref
    also fail_if (is_external (trim_space ref)) external_ref
    also fail_if (not (has_entries schemas)) no_schemas
    also fail_if (not (has (trim_space ref) schemas)) ref_not_found

-- A reference that may be left out.
abbrev pub check_ref : Fields → String → Check
check_ref schemas ref = if ref == "" then none else validate_schema_ref schemas ref

abbrev pub check_type : Option Value → Check
check_type none = none
check_type (some (str s)) = none
check_type (some v) = some wrong_schema

unfoldable pub check_required_list : List String → Items → Check
check_required_list seen nil = none
check_required_list seen (cons raw rest) = elim (as_string raw) [
  | none ↦ some wrong_schema
  | some name ↦
      fail_if (contains seen name) wrong_schema also check_required_list (name ∷ seen) rest
]

abbrev pub check_required : Option Value → Check
check_required none = none
check_required (some (arr items)) = check_required_list [] items
check_required (some v) = some wrong_schema

abbrev pub check_properties : Option Value → Check
check_properties none = none
check_properties (some (obj m)) = none
check_properties (some v) = some wrong_schema

unfoldable pub validate_workflow_schema_object : Value → Check
unfolding check_required_list
validate_workflow_schema_object (obj schema) =
    check_type (get "type" schema)
    also check_required (get "required" schema)
    also check_properties (get "properties" schema)
validate_workflow_schema_object v = some wrong_schema

unfoldable pub check_schemas : Fields → Check
unfolding validate_workflow_schema_object
check_schemas end = none
check_schemas (field name schema rest) =
    validate_workflow_schema_object schema also check_schemas rest

abbrev pub step_types : List String
step_types =
    "parse_input" ∷ "tool" ∷ "branch" ∷ "summarize" ∷ "plan" ∷ "send_message" ∷ "persist"
    ∷ "for_each" ∷ "collect" ∷ []

abbrev check_for_each_ref : Fields → String → String → Check
check_for_each_ref schemas kind ref =
    if ref == ""
    then none
    else fail_if (not (kind == "for_each")) ref_only_for_each also validate_schema_ref schemas ref

abbrev has_nested : Steps → Bool
has_nested no_step = false
has_nested (followed s rest) = true

abbrev check_plan : StepFields → Check
check_plan f =
    fail_if (is_blank f.prompt) no_prompt also fail_if (is_blank f.output_schema_ref) no_output_ref

abbrev is_collect_mode : String → Bool
is_collect_mode mode =
    mode == "result" || (mode == "entry" || (mode == "outputs" || mode == "item"))

abbrev check_collect : StepFields → Check
check_collect f =
    fail_if (is_blank f.collect_from) no_collect_from
    also fail_if
        (not (is_blank f.collect_mode) && not (is_collect_mode (trim_space f.collect_mode)))
        wrong_collect_mode

abbrev pub check_fields : Fields → StepFields → Check
check_fields schemas f =
    fail_if (not (contains step_types f.kind)) unknown_step_type
    also fail_if (is_negative f.retries) negative_retries
    also fail_if (is_negative f.max_output_items) negative_max_items
    also check_ref schemas f.input_schema_ref
    also check_ref schemas f.output_schema_ref
    also check_for_each_ref schemas f.kind f.for_each_iteration_schema_ref
    also check_for_each_ref schemas f.kind f.for_each_result_schema_ref

abbrev pub check_for_each : StepFields → Bool → Check → Check
check_for_each f has_steps nested =
    fail_if (is_blank f.items_expr) no_items_expr
    also fail_if (is_negative f.max_iterations) negative_iterations
    also fail_if (not has_steps) no_nested_steps
    also nested

-- What the type of a step asks for, the check of its nested steps as an argument.
abbrev pub check_kind : StepFields → Bool → Check → Check
check_kind f has_steps nested =
    if f.kind == "plan"
    then check_plan f
    else if f.kind == "for_each"
    then check_for_each f has_steps nested
    else if f.kind == "collect"
    then check_collect f
    else none

unfoldable mutual
  unfolding validate_schema_ref

  pub validate_step : Fields → WorkflowProtocolStep → Check
  validate_step schemas (step f steps) =
      check_fields schemas f also check_kind f (has_nested steps) (validate_steps schemas steps)

  pub validate_steps : Fields → Steps → Check
  validate_steps schemas no_step = none
  validate_steps schemas (followed (step f steps) rest) =
      validate_step schemas (step f steps) also validate_steps schemas rest

abbrev check_prefix : String → String → Check
check_prefix trigger_type prefix =
    if trigger_type == "matrix.protocol_message"
    then fail_if (is_blank prefix) no_prefix
    else if trigger_type == "gateway.event"
    then none
    else some wrong_trigger_type

unfoldable pub validate_workflow_trigger : WorkflowTrigger → Check
validate_workflow_trigger t =
    fail_if (is_blank t.kind) blank_trigger_type
    also fail_if (has_blank t.prefix) prefix_with_blanks
    also check_prefix (trim_space t.kind) t.prefix

unfoldable pub validate_protocol : Fields → WorkflowProtocol → Check
unfolding validate_workflow_trigger validate_step validate_steps
validate_protocol schemas p =
    fail_if (is_blank p.id) blank_protocol_id
    also validate_workflow_trigger p.trigger
    also fail_if (is_negative p.retries) negative_retries
    also check_ref schemas p.input_schema_ref
    also validate_steps schemas p.steps

abbrev pub check_duplicates : List String → Check
check_duplicates [] = none
check_duplicates (key ∷ rest) = some duplicate_schema

unfoldable pub validate_workflow : Workflow → Check
unfolding check_schemas validate_protocol
validate_workflow w =
    check_duplicates w.schemas.duplicates
    also check_schemas w.schemas.definitions
    also check_all (validate_protocol w.schemas.definitions) w.protocols
