-- ===== src/Workflow/Step.antt =====
-- internal/gitai/workflow/runner.go: one step, but for the nested ones, and RunStepWithRetryThenRefuse of
-- workflow.go.
pub mod Keeps
use Prim.Native.String.{String}
use ruriko.Prelude.{
  ℕ, zero, suc, ◌+◌, Bool, true, false, not, ◌||◌, Option, none, some, List, [], ◌==◌, string_eq,
  leb, if◌then◌else◌,
}
use ruriko.Prelude.Int.{ℤ, pos, negsuc, pos_part}
use ruriko.Prelude.Text.{
  append, is_empty, trim_space, cut_prefix, cut_last, has_prefix_lower, drop, itoa,
}
use ruriko.Json.{
  Value, null, bool, int, float, str, arr, obj, Items, nil, cons, Fields, end, field, get, put, has,
  first, join_items,
}
use ruriko.Gosuto.Workflow.{StepFields}
use ruriko.Workflow.State.{
  State, Result, ok, err, diverges, Error, after_retries, bad_iteration, plain, Reason, no_tool,
  no_prompt, no_schema_ref, no_target, no_message, no_persist_key, no_items_expr, no_nested_steps,
  no_collect_from, bad_collect_mode, no_result, not_an_array, not_json, branch_not_implemented,
  unsupported_type, Call, summarize,
}
use ruriko.Workflow.Schema.{
  type_name, validate_output_against_schema_ref, validate_step_max_output_items, output_present,
}
use ruriko.Workflow.Template.{interpolate_text, interpolate_fields}
use ruriko.Workflow.Act.{
  Act, Reply, pure, fail, read, set_value, dispatch, dispatch_tool, restoring, wrap, ◌>>=◌,
}

-- What the run does not decide: the answers of the dispatcher, which may depend on the whole run so far, the
-- decoder of JSON, the text of an error, the times of each step, and the rounds that a template may take.
pub record World : Type 0 where
  pub reply : State → Call → Reply
  pub decode : String → Option Value
  pub describe : Error → String
  pub started_at : ℕ → String
  pub completed_at : ℕ → String
  pub duration_ms : ℕ → String
  pub rounds : ℕ

-- The result of a step, with the number of its tool calls.
abbrev pub Output : Type 0
Output = Value × ℕ

unfoldable pub is_schema_retry_step : String → Bool
is_schema_retry_step step_type =
    let t = trim_space step_type in t == "parse_input" || (t == "summarize" || t == "plan")

abbrev pub retry_on : {A : Type 0} → State × Result A → Act A → State × Result A
retry_on (s, err e) more = more s
retry_on p more = p

-- One attempt, and more of them while it fails.
unfoldable pub try_more : {A : Type 0} → ℕ → Act A → Act A
try_more zero m s = m s
try_more (suc left) m s = retry_on (m s) (try_more left m)

unfoldable pub run_step_with_retry_then_refuse : {A : Type 0} → String → String → ℤ → Act A → Act A
unfolding is_schema_retry_step try_more
run_step_with_retry_then_refuse protocol_id step_type retries m =
    if is_schema_retry_step step_type
    then wrap (after_retries protocol_id step_type (suc (pos_part retries)))
        (try_more (pos_part retries) m)
    else m

abbrev pub run_parse_input : Act Output
run_parse_input = do
  input ← read (λ s. ok (obj s.input))
  u ← set_value "parsed_input" input
  pure (input, 0)

abbrev pub run_dispatch : World → String → Fields → Act Output
run_dispatch w name args = do text ← dispatch_tool w.reply name args; pure (str text, 1)

abbrev pub run_tool : World → StepFields → Act Output
run_tool w f = if is_empty (trim_space f.tool) then fail (plain no_tool) else (do
  args ← read (λ s. interpolate_fields w.rounds s f.args_template)
  run_dispatch w (trim_space f.tool) args)

-- A text that is not blank.
abbrev filled : Reason → Value → Result String
filled reason (str s) = if is_empty (trim_space s) then err (plain reason) else ok s
filled reason _ = err (plain reason)

abbrev pub interpolated : World → Reason → String → Act String
interpolated w reason raw = do
  v ← read (λ s. interpolate_text w.rounds s raw)
  read (λ s. filled reason v)

unfoldable pub without_fence : String → String
without_fence text = elim (cut_prefix "```" text) [
  | none ↦ text
  | some body ↦
      let inner = trim_space body in
      let named = if has_prefix_lower "json" inner then trim_space (drop 4 inner) else inner in
      elim (cut_last "```" named) [ none ↦ named | some before ↦ trim_space before ]
]

unfoldable pub parse_structured_json : (String → Option Value) → String → Result Value
unfolding without_fence
parse_structured_json decode raw =
    if is_empty (trim_space raw)
    then err (plain not_json)
    else (elim (decode (without_fence (trim_space raw))) [
      | none ↦ err (plain not_json)
      | some v ↦ ok v
    ])

abbrev asks_structure : Option Value → Bool
asks_structure (some (obj schema)) =
    let t = trim_space (type_name schema) in
    if is_empty t then has "required" schema || has "properties" schema else not (t == "string")
asks_structure _ = false

unfoldable pub summarize_should_parse_structured : String → State → Bool
summarize_should_parse_structured schema_ref s =
    if is_empty (trim_space schema_ref)
    then false
    else asks_structure (get (trim_space schema_ref) s.schemas)

abbrev json_suffix : String
json_suffix =
    "\n\nReturn ONLY valid JSON. Do not include markdown, code fences, comments, or additional text."

abbrev structured_if : World → Bool → String → Result Value
structured_if w structured text =
    if structured then parse_structured_json w.decode text else ok (str text)

abbrev pub run_summarize : World → StepFields → Act Output
run_summarize w f = do
  prompt ← interpolated w no_prompt f.prompt
  structured ← read (λ s. ok (summarize_should_parse_structured f.output_schema_ref s))
  text ← dispatch w.reply (summarize (if structured then append prompt json_suffix else prompt))
  v ← read (λ s. structured_if w (summarize_should_parse_structured f.output_schema_ref s) text)
  pure (v, 0)

abbrev pub run_plan : World → StepFields → Act Output
run_plan w f = if is_empty (trim_space f.output_schema_ref) then fail (plain no_schema_ref) else (do
  prompt ← interpolated w no_prompt f.prompt
  text ← dispatch w.reply (summarize prompt)
  v ← read (λ s. parse_structured_json w.decode text)
  pure (v, 0))

abbrev pub run_send_message : World → StepFields → Act Output
run_send_message w f = do
  target ← interpolated w no_target f.target_alias
  message ← interpolated w no_message f.payload_template
  run_dispatch w "matrix.send_message"
      (field "target" (str target) (field "message" (str message) end))

abbrev pub run_persist : World → StepFields → Act Output
run_persist w f = if is_empty (trim_space f.persist_key) then fail (plain no_persist_key) else (do
  v ← read (λ s. interpolate_text w.rounds s f.persist_value)
  u ← set_value f.persist_key v
  pure (v, 0))

abbrev pub as_interface_slice : Value → Result Items
as_interface_slice (arr vs) = ok vs
as_interface_slice _ = err (plain not_an_array)

abbrev selected : Option Value → Result Value
selected none = err (plain no_result)
selected (some v) = ok v

abbrev result_or_entry : Value → Option Value → Value
result_or_entry entry none = entry
result_or_entry entry (some v) = v

abbrev field_of : String → Value → Option Value
field_of k (obj m) = get k m
field_of k _ = none

unfoldable pub select_collect_value : Value → String → Result Value
select_collect_value entry mode =
    if mode == "result"
    then ok (result_or_entry entry (field_of "result" entry))
    else if mode == "entry"
    then ok entry
    else if mode == "outputs"
    then selected (field_of "outputs" entry)
    else if mode == "item"
    then selected (field_of "item" entry)
    else err (plain bad_collect_mode)

abbrev flat : Bool → Value → Items
flat true (arr vs) = vs
flat _ v = cons v nil

abbrev collected_with : Bool → Value → Result Items → Result Items
collected_with flatten v (ok more) =
    ok (if output_present v then join_items (flat flatten v) more else more)
collected_with flatten v r = r

abbrev then_collect : Bool → Result Value → Result Items → Result Items
then_collect flatten (ok v) more = collected_with flatten v more
then_collect flatten (err e) more = err e
then_collect flatten diverges more = diverges

unfoldable pub collect_items : String → Bool → Items → Result Items
unfolding select_collect_value
collect_items mode flatten nil = ok nil
collect_items mode flatten (cons entry rest) =
    then_collect flatten (select_collect_value entry mode) (collect_items mode flatten rest)

abbrev pub default_to : String → String → String
default_to d s = if is_empty s then d else s

abbrev pub run_collect : World → StepFields → Act Output
run_collect w f = if is_empty (trim_space f.collect_from) then fail (plain no_collect_from) else (do
  source ← read (λ s. interpolate_text w.rounds s (trim_space f.collect_from))
  entries ← read (λ s. as_interface_slice source)
  found ← read (λ s.
      collect_items (default_to "result" (trim_space f.collect_mode)) f.collect_flatten entries)
  pure (arr found, 0))
