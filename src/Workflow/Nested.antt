-- ===== src/Workflow/Nested.antt =====
-- internal/gitai/workflow/runner.go: runStep, with the for_each step and its nested steps.
pub mod Costs
pub mod ForEach
pub mod Keeps
use Prim.Native.String.{String}
use ruriko.Prelude.{ℕ, zero, suc, ◌+◌, Bool, true, false, ◌==◌, string_eq, nat_eq, if◌then◌else◌}
use ruriko.Prelude.Int.{ℤ, pos_part}
use ruriko.Prelude.Text.{append, is_empty, trim_space, itoa}
use ruriko.Json.{
  Value, null, int, float, str, arr, obj, Items, nil, cons, Fields, end, field, put, first,
  join_items,
}
use ruriko.Gosuto.Workflow.{StepFields, WorkflowProtocolStep, step, Steps, no_step, followed}
use ruriko.Workflow.State.{
  State, Result, ok, err, diverges, Error, in_iteration, bad_iteration, plain, no_items_expr,
  no_nested_steps, branch_not_implemented, unsupported_type,
}
use ruriko.Workflow.Schema.{
  validate_output_against_schema_ref, validate_step_max_output_items, output_present,
}
use ruriko.Workflow.Template.{interpolate_text}
use ruriko.Workflow.Act.{Act, pure, fail, read, set_value, restoring, wrap, ◌>>=◌}
use ruriko.Workflow.Step.{
  World, Output, as_interface_slice, default_to, run_parse_input, run_tool, run_summarize, run_plan,
  run_send_message, run_persist, run_collect,
}

abbrev pub step_key : ℕ → String
step_key i = append "step_" (itoa i)

-- The outputs of the nested steps in one iteration, the last of them that is present, and the tool calls.
abbrev pub Nested : Type 0
Nested = Fields × (Value × ℕ)

abbrev iteration_contract : ℕ → Value → Nested → Fields
iteration_contract i item (outputs, (final, calls)) =
    field "index" (int (itoa i))
      (field "item" item (field "outputs" (obj outputs) (field "result" final end)))

abbrev pub check_iteration : String → StepFields → ℕ → Value → Nested → Act Output
check_iteration protocol_id f i item (outputs, (final, calls)) = do
  let contract = obj (iteration_contract i item (outputs, (final, calls)))
  u ← wrap (bad_iteration i) (
      read (λ s.
        validate_output_against_schema_ref protocol_id f.for_each_result_schema_ref final
          s.schemas))
  v ← wrap (bad_iteration i) (
      read (λ s.
        validate_output_against_schema_ref protocol_id f.for_each_iteration_schema_ref contract
          s.schemas))
  pure (contract, calls)

abbrev pub run_iteration : String → StepFields → String → (ℕ → Act Nested) → ℕ → Value → Act Output
run_iteration protocol_id f item_var nested i item = do
  u ← set_value item_var item
  v ← set_value (append item_var "_index") (float (itoa i) true)
  n ← nested i
  check_iteration protocol_id f i item n

-- The loop over the items, with the contracts and the tool calls so far.
unfoldable pub iterate : (ℕ → Value → Act Output) → ℕ → Items → Items → ℕ → Act Output
iterate body i nil contracts calls = pure (arr contracts, calls)
iterate body i (cons item rest) contracts calls = body i item >>= λ p.
    iterate body (suc i) rest (join_items contracts (cons (p.0) nil)) (calls + p.1)

abbrev default_max_iterations : ℕ
default_max_iterations = 10

abbrev pub max_iterations : StepFields → ℕ
max_iterations f = let n = pos_part f.max_iterations in if n == 0 then default_max_iterations else n

abbrev pub item_name : StepFields → String
item_name f = default_to "item" (trim_space f.item_var)

unfoldable pub run_for_each : World → String → StepFields → Bool → (ℕ → Act Nested) → Act Output
unfolding iterate
run_for_each w protocol_id f has_steps nested =
    if is_empty (trim_space f.items_expr) then fail (plain no_items_expr) else (do
      v ← read (λ s. interpolate_text w.rounds s (trim_space f.items_expr))
      items ← read (λ s. as_interface_slice v)
      if has_steps
          then restoring (item_name f) (append (item_name f) "_index") (
              iterate (run_iteration protocol_id f (item_name f) nested) 0
                (first (max_iterations f) items) nil 0)
          else fail (plain no_nested_steps))

-- The checks of a step's output, and the output.
abbrev pub check_output : String → StepFields → Output → Act Output
check_output protocol_id f p = do
  u ← read (λ s. validate_output_against_schema_ref protocol_id f.output_schema_ref (p.0) s.schemas)
  v ← read (λ s. validate_step_max_output_items protocol_id f (p.0))
  pure p

abbrev pub has_steps : Steps → Bool
has_steps no_step = false
has_steps (followed s rest) = true

-- The step of a type, the for_each step as an argument.
abbrev pub by_type : String → World → StepFields → Act Output → Act Output
by_type t w f for_each =
    if t == "parse_input"
    then run_parse_input
    else if t == "tool"
    then run_tool w f
    else if t == "summarize"
    then run_summarize w f
    else if t == "plan"
    then run_plan w f
    else if t == "send_message"
    then run_send_message w f
    else if t == "persist"
    then run_persist w f
    else if t == "for_each"
    then for_each
    else if t == "collect"
    then run_collect w f
    else if t == "branch"
    then fail (plain branch_not_implemented)
    else fail (plain unsupported_type)

abbrev next_nested : Value → Fields → Value → ℕ → ℕ → ℕ → Nested
next_nested v outputs final calls n index =
    (put (step_key index) v outputs, (if output_present v then v else final, calls + n))

unfoldable mutual
  unfolding run_for_each

  pub run_step : World → String → WorkflowProtocolStep → Act Output
  run_step w protocol_id (step f steps) = by_type (trim_space f.kind) w f (
      run_for_each w protocol_id f (has_steps steps)
        (λ i. run_nested w protocol_id i steps 0 (end, (null, 0))))

  pub run_nested : World → String → ℕ → Steps → ℕ → Nested → Act Nested
  run_nested w protocol_id iteration no_step index so_far = pure so_far
  run_nested w protocol_id iteration (followed (step f steps) rest) index
        (outputs, (final, calls)) =
      wrap (in_iteration iteration index f.kind)
        (run_step w protocol_id (step f steps) >>= λ p. check_output protocol_id f p)
      >>= λ (v, n).
          run_nested w protocol_id iteration rest (suc index)
            (next_nested v outputs final calls n index)
