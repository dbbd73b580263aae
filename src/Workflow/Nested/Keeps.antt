-- ===== src/Workflow/Nested/Keeps.antt =====
-- What a step keeps, with its nested steps, by induction on the step.
use ruriko.Prelude.{ℕ, suc, String, Bool, ◌==◌, string_eq}
use ruriko.Prelude.Text.{trim_space, is_empty}
use ruriko.Json.{Value, Items, nil, cons, Fields, end, null}
use ruriko.Gosuto.Workflow.{StepFields, WorkflowProtocolStep, step, Steps, no_step, followed}
use ruriko.Workflow.State.{State, Call, tool, summarize}
use ruriko.Workflow.Act.{Act}
use ruriko.Workflow.Act.Keeps.{
  Stable, Keeps, bind-Keeps, pure-Keeps, fail-Keeps, read-Keeps, then-Keeps, if-Keeps, wrap-Keeps,
  set_value-Keeps, restoring-Keeps,
}
use ruriko.Workflow.Step.{World, Output}
use ruriko.Workflow.Step.Keeps.{
  run_parse_input-Keeps, run_persist-Keeps, run_collect-Keeps, run_summarize-Keeps, run_plan-Keeps,
  run_tool-Keeps, run_send_message-Keeps,
}
use ruriko.Workflow.Nested.{
  Nested, check_iteration, iterate, run_for_each, check_output, by_type, run_step, run_nested,
  has_steps,
}

module _ {P : State → Type 0} where
  pub check_output-Keeps :
      (protocol_id : String) (f : StepFields) (p : Output) → Keeps P (check_output protocol_id f p)
  check_output-Keeps protocol_id f p = then-Keeps _ _ (λ u. then-Keeps _ _ (λ v. pure-Keeps _))

  check_iteration-Keeps :
      (protocol_id : String) (f : StepFields) (i : ℕ) (item : Value) (n : Nested)
      → Keeps P (check_iteration protocol_id f i item n)
  check_iteration-Keeps protocol_id f i item (outputs, (final, calls)) =
      bind-Keeps _ _ (wrap-Keeps _ _ (read-Keeps _))
        (λ u. bind-Keeps _ _ (wrap-Keeps _ _ (read-Keeps _)) (λ v. pure-Keeps _))

  iterate-Keeps :
      (body : ℕ → Value → Act Output)
      → ((i : ℕ) (item : Value) → Keeps P (body i item))
      → (i : ℕ) (items contracts : Items) (calls : ℕ)
      → Keeps P (iterate body i items contracts calls)
  unfolding iterate
  iterate-Keeps body h i nil contracts calls = pure-Keeps _
  iterate-Keeps body h i (cons item rest) contracts calls =
      bind-Keeps _ _ (h i item) (λ p. iterate-Keeps body h (suc i) rest _ _)

module _ {Allows : State → Call → Type 0} {P : State → Type 0} (stable : Stable Allows P)
    (summarizes : (s : State) (prompt : String) → Allows s (summarize prompt))
    (calls_tools : (s : State) (name : String) (args : Fields)
      → Allows s (tool s.sender_mxid name args)) where
  run_for_each-Keeps :
      (w : World) (protocol_id : String) (f : StepFields) (b : Bool) (nested : ℕ → Act Nested)
      → ((i : ℕ) → Keeps P (nested i))
      → Keeps P (run_for_each w protocol_id f b nested)
  unfolding run_for_each
  run_for_each-Keeps w protocol_id f b nested h =
      if-Keeps (is_empty (trim_space f.items_expr)) _ _ (fail-Keeps _) (
        then-Keeps _ _ (λ v. then-Keeps _ _ (λ items.
          if-Keeps b _ _
            (restoring-Keeps stable _ _ _ (
              iterate-Keeps _
                (λ i item. bind-Keeps _ _ (set_value-Keeps stable _ _) (λ u.
                  bind-Keeps _ _ (set_value-Keeps stable _ _) (λ v.
                    bind-Keeps _ _ (h i) (λ n. check_iteration-Keeps protocol_id f i item n))))
                _ _ _ _))
            (fail-Keeps _))))

  by_type-Keeps :
      (t : String) (w : World) (f : StepFields) (m : Act Output)
      → Keeps P m
      → Keeps P (by_type t w f m)
  by_type-Keeps t w f m h = if-Keeps (t == "parse_input") _ _ (run_parse_input-Keeps stable) (
      if-Keeps (t == "tool") _ _ (run_tool-Keeps stable calls_tools w f) (
        if-Keeps (t == "summarize") _ _ (run_summarize-Keeps stable summarizes w f) (
          if-Keeps (t == "plan") _ _ (run_plan-Keeps stable summarizes w f) (
            if-Keeps (t == "send_message") _ _ (run_send_message-Keeps stable calls_tools w f) (
              if-Keeps (t == "persist") _ _ (run_persist-Keeps stable w f) (
                if-Keeps (t == "for_each") _ _ h (
                  if-Keeps (t == "collect") _ _ (run_collect-Keeps w f)
                    (if-Keeps (t == "branch") _ _ (fail-Keeps _) (fail-Keeps _)))))))))

  mutual
    unfolding run_step run_nested

    pub run_step-Keeps :
        (w : World) (protocol_id : String) (st : WorkflowProtocolStep)
        → Keeps P (run_step w protocol_id st)
    run_step-Keeps w protocol_id (step f steps) = by_type-Keeps (trim_space f.kind) w f _ (
        run_for_each-Keeps w protocol_id f (has_steps steps) _
          (λ i. run_nested-Keeps w protocol_id i steps 0 (end, (null, 0))))

    run_nested-Keeps :
        (w : World) (protocol_id : String) (i : ℕ) (steps : Steps) (index : ℕ) (so_far : Nested)
        → Keeps P (run_nested w protocol_id i steps index so_far)
    run_nested-Keeps w protocol_id i no_step index so_far = pure-Keeps _
    run_nested-Keeps w protocol_id i (followed (step f steps) rest) index
          (outputs, (final, calls)) =
        bind-Keeps _ _
          (wrap-Keeps _ _ (
            bind-Keeps _ _ (run_step-Keeps w protocol_id (step f steps))
              (λ p. check_output-Keeps protocol_id f p)))
          (λ p. run_nested-Keeps w protocol_id i rest (suc index) _)
