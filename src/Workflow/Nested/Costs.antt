-- ===== src/Workflow/Nested/Costs.antt =====
-- The number of tool calls that a step reports, by induction on the step.
use ruriko.Prelude.{ℕ, suc, ◌+◌, String, Bool, ◌==◌, string_eq}
use ruriko.Prelude.Text.{trim_space, is_empty}
use ruriko.Json.{Value, Items, nil, cons, Fields, end, null}
use ruriko.Gosuto.Workflow.{StepFields, WorkflowProtocolStep, step, Steps, no_step, followed}
use ruriko.Workflow.State.{Reason}
use ruriko.Workflow.Act.{Act}
use ruriko.Workflow.Act.Costs.{
  Costs, bind-Costs, pure-Costs, fail-Costs, if-Costs, wrap-Costs, restoring-Costs, shifted-Costs,
  read-Costs, then-Costs, set_value-Costs, summarize-Costs, dispatch_tool-Costs,
}
use ruriko.Workflow.Step.{
  World, Output, interpolated, run_dispatch, run_parse_input, run_tool, run_summarize, run_plan,
  run_send_message, run_persist, run_collect,
}
use ruriko.Workflow.Nested.{
  Nested, check_iteration, run_iteration, iterate, run_for_each, check_output, by_type, run_step,
  run_nested, has_steps,
}

-- What a result reports.
abbrev pub reported : Output → ℕ
reported (v, calls) = calls

abbrev nested_calls : Nested → ℕ
nested_calls (outputs, (final, calls)) = calls

interpolated-Costs :
    (j : ℕ) (w : World) (reason : Reason) (raw : String)
    → Costs j (λ t. j) (interpolated w reason raw)
interpolated-Costs j w reason raw = then-Costs (λ t. j) j _ _ (λ v. read-Costs j _)

run_dispatch-Costs :
    (w : World) (name : String) (args : Fields) → Costs 0 reported (run_dispatch w name args)
run_dispatch-Costs w name args =
    bind-Costs (λ t. 1) reported 0 _ _ (dispatch_tool-Costs 0 w.reply name args)
      (λ text. pure-Costs reported _)

run_parse_input-Costs : Costs 0 reported run_parse_input
run_parse_input-Costs = then-Costs reported 0 _ _ (λ input.
    bind-Costs (λ u. 0) reported 0 _ _ (set_value-Costs 0 _ _) (λ u. pure-Costs reported _))

run_tool-Costs : (w : World) (f : StepFields) → Costs 0 reported (run_tool w f)
run_tool-Costs w f =
    if-Costs reported 0 (is_empty (trim_space f.tool)) _ _ (fail-Costs reported 0 _)
      (then-Costs reported 0 _ _ (λ args. run_dispatch-Costs w _ args))

run_summarize-Costs : (w : World) (f : StepFields) → Costs 0 reported (run_summarize w f)
run_summarize-Costs w f =
    bind-Costs (λ t. 0) reported 0 _ _ (interpolated-Costs 0 w _ f.prompt)
      (λ prompt. then-Costs reported 0 _ _ (λ structured.
        bind-Costs (λ t. 0) reported 0 _ _ (summarize-Costs 0 w.reply _)
          (λ text. then-Costs reported 0 _ _ (λ v. pure-Costs reported _))))

run_plan-Costs : (w : World) (f : StepFields) → Costs 0 reported (run_plan w f)
run_plan-Costs w f =
    if-Costs reported 0 (is_empty (trim_space f.output_schema_ref)) _ _ (fail-Costs reported 0 _) (
      bind-Costs (λ t. 0) reported 0 _ _ (interpolated-Costs 0 w _ f.prompt)
        (λ prompt.
          bind-Costs (λ t. 0) reported 0 _ _ (summarize-Costs 0 w.reply _)
            (λ text. then-Costs reported 0 _ _ (λ v. pure-Costs reported _))))

run_send_message-Costs : (w : World) (f : StepFields) → Costs 0 reported (run_send_message w f)
run_send_message-Costs w f =
    bind-Costs (λ t. 0) reported 0 _ _ (interpolated-Costs 0 w _ f.target_alias)
      (λ target.
        bind-Costs (λ t. 0) reported 0 _ _ (interpolated-Costs 0 w _ f.payload_template)
          (λ message. run_dispatch-Costs w _ _))

run_persist-Costs : (w : World) (f : StepFields) → Costs 0 reported (run_persist w f)
run_persist-Costs w f =
    if-Costs reported 0 (is_empty (trim_space f.persist_key)) _ _ (fail-Costs reported 0 _) (
      then-Costs reported 0 _ _ (λ v.
        bind-Costs (λ u. 0) reported 0 _ _ (set_value-Costs 0 _ _) (λ u. pure-Costs reported _)))

run_collect-Costs : (w : World) (f : StepFields) → Costs 0 reported (run_collect w f)
run_collect-Costs w f =
    if-Costs reported 0 (is_empty (trim_space f.collect_from)) _ _ (fail-Costs reported 0 _) (
      then-Costs reported 0 _ _ (λ source.
        then-Costs reported 0 _ _
          (λ entries. then-Costs reported 0 _ _ (λ found. pure-Costs reported _))))

pub check_output-Costs :
    (protocol_id : String) (f : StepFields) (p : Output)
    → Costs (reported p) reported (check_output protocol_id f p)
check_output-Costs protocol_id f p =
    then-Costs reported (reported p) _ _
      (λ u. then-Costs reported (reported p) _ _ (λ v. pure-Costs reported _))

check_iteration-Costs :
    (protocol_id : String) (f : StepFields) (i : ℕ) (item : Value) (n : Nested)
    → Costs (nested_calls n) reported (check_iteration protocol_id f i item n)
check_iteration-Costs protocol_id f i item (outputs, (final, calls)) =
    bind-Costs (λ u. calls) reported calls _ _
      (wrap-Costs (λ u. calls) calls _ _ (read-Costs calls _))
      (λ u.
        bind-Costs (λ u. calls) reported calls _ _
          (wrap-Costs (λ u. calls) calls _ _ (read-Costs calls _)) (λ v. pure-Costs reported _))

iterate-Costs :
    (body : ℕ → Value → Act Output)
    → ((i : ℕ) (item : Value) → Costs 0 reported (body i item))
    → (i : ℕ) (items contracts : Items) (calls : ℕ)
    → Costs calls reported (iterate body i items contracts calls)
unfolding iterate
iterate-Costs body h i nil contracts calls = pure-Costs reported _
iterate-Costs body h i (cons item rest) contracts calls =
    bind-Costs (λ p. calls + reported p) reported calls _ _
      (shifted-Costs reported calls _ (h i item))
      (λ p. iterate-Costs body h (suc i) rest _ (calls + reported p))

run_iteration-Costs :
    (protocol_id : String) (f : StepFields) (item_var : String) (nested : ℕ → Act Nested)
    → ((i : ℕ) → Costs 0 nested_calls (nested i))
    → (i : ℕ) (item : Value) → Costs 0 reported (run_iteration protocol_id f item_var nested i item)
run_iteration-Costs protocol_id f item_var nested h i item =
    bind-Costs (λ u. 0) reported 0 _ _ (set_value-Costs 0 _ _)
      (λ u.
        bind-Costs (λ u. 0) reported 0 _ _ (set_value-Costs 0 _ _)
          (λ v.
            bind-Costs nested_calls reported 0 _ _ (h i)
              (λ n. check_iteration-Costs protocol_id f i item n)))

run_for_each-Costs :
    (w : World) (protocol_id : String) (f : StepFields) (b : Bool) (nested : ℕ → Act Nested)
    → ((i : ℕ) → Costs 0 nested_calls (nested i))
    → Costs 0 reported (run_for_each w protocol_id f b nested)
unfolding run_for_each
run_for_each-Costs w protocol_id f b nested h =
    if-Costs reported 0 (is_empty (trim_space f.items_expr)) _ _ (fail-Costs reported 0 _) (
      then-Costs reported 0 _ _ (λ v. then-Costs reported 0 _ _ (λ items.
        if-Costs reported 0 b _ _
          (restoring-Costs reported 0 _ _ _
            (iterate-Costs _ (run_iteration-Costs protocol_id f _ nested h) 0 _ nil 0))
          (fail-Costs reported 0 _))))

by_type-Costs :
    (t : String) (w : World) (f : StepFields) (m : Act Output)
    → Costs 0 reported m
    → Costs 0 reported (by_type t w f m)
by_type-Costs t w f m h = if-Costs reported 0 (t == "parse_input") _ _ run_parse_input-Costs (
    if-Costs reported 0 (t == "tool") _ _ (run_tool-Costs w f) (
      if-Costs reported 0 (t == "summarize") _ _ (run_summarize-Costs w f) (
        if-Costs reported 0 (t == "plan") _ _ (run_plan-Costs w f) (
          if-Costs reported 0 (t == "send_message") _ _ (run_send_message-Costs w f) (
            if-Costs reported 0 (t == "persist") _ _ (run_persist-Costs w f) (
              if-Costs reported 0 (t == "for_each") _ _ h (
                if-Costs reported 0 (t == "collect") _ _ (run_collect-Costs w f) (
                  if-Costs reported 0 (t == "branch") _ _ (fail-Costs reported 0 _)
                    (fail-Costs reported 0 _)))))))))

mutual
  unfolding run_step run_nested

  pub run_step-Costs :
      (w : World) (protocol_id : String) (st : WorkflowProtocolStep)
      → Costs 0 reported (run_step w protocol_id st)
  run_step-Costs w protocol_id (step f steps) = by_type-Costs (trim_space f.kind) w f _ (
      run_for_each-Costs w protocol_id f (has_steps steps) _
        (λ i. run_nested-Costs w protocol_id i steps 0 (end, (null, 0))))

  run_nested-Costs :
      (w : World) (protocol_id : String) (i : ℕ) (steps : Steps) (index : ℕ) (so_far : Nested)
      → Costs (nested_calls so_far) nested_calls (run_nested w protocol_id i steps index so_far)
  run_nested-Costs w protocol_id i no_step index so_far = pure-Costs nested_calls _
  run_nested-Costs w protocol_id i (followed (step f steps) rest) index (outputs, (final, calls)) =
      bind-Costs (λ p. calls + reported p) nested_calls calls _ _
        (wrap-Costs (λ p. calls + reported p) calls _ _
          (shifted-Costs reported calls _ (
            bind-Costs reported reported 0 _ _ (run_step-Costs w protocol_id (step f steps))
              (λ p. check_output-Costs protocol_id f p))))
        (λ p. run_nested-Costs w protocol_id i rest (suc index) _)
