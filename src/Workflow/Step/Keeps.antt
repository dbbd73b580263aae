-- ===== src/Workflow/Step/Keeps.antt =====
-- What a step keeps, when it is not a for_each step.
use ruriko.Prelude.{String}
use ruriko.Prelude.Text.{trim_space, is_empty}
use ruriko.Json.{Fields}
use ruriko.Gosuto.Workflow.{StepFields}
use ruriko.Workflow.State.{State, Call, tool, summarize, Reason}
use ruriko.Workflow.Act.{dispatch}
use ruriko.Workflow.Act.Keeps.{
  Stable, Keeps, bind-Keeps, pure-Keeps, fail-Keeps, read-Keeps, then-Keeps, if-Keeps,
  set_value-Keeps, dispatch-Keeps, dispatch_tool-Keeps,
}
use ruriko.Workflow.Step.{
  World, run_parse_input, run_dispatch, run_tool, interpolated, run_summarize, run_plan,
  run_send_message, run_persist, run_collect,
}

module _ {P : State → Type 0} where
  interpolated-Keeps :
      (w : World) (reason : Reason) (raw : String) → Keeps P (interpolated w reason raw)
  interpolated-Keeps w reason raw = then-Keeps _ _ (λ v. read-Keeps _)

  pub run_collect-Keeps : (w : World) (f : StepFields) → Keeps P (run_collect w f)
  run_collect-Keeps w f = if-Keeps (is_empty (trim_space f.collect_from)) _ _ (fail-Keeps _) (
      then-Keeps _ _ (λ source. then-Keeps _ _ (λ entries. then-Keeps _ _ (λ found. pure-Keeps _))))

module _ {Allows : State → Call → Type 0} {P : State → Type 0} (stable : Stable Allows P) where
  pub run_parse_input-Keeps : Keeps P run_parse_input
  run_parse_input-Keeps =
      then-Keeps _ _ (λ input. bind-Keeps _ _ (set_value-Keeps stable _ _) (λ u. pure-Keeps _))

  pub run_persist-Keeps : (w : World) (f : StepFields) → Keeps P (run_persist w f)
  run_persist-Keeps w f =
      if-Keeps (is_empty (trim_space f.persist_key)) _ _ (fail-Keeps _)
        (then-Keeps _ _ (λ v. bind-Keeps _ _ (set_value-Keeps stable _ _) (λ u. pure-Keeps _)))

  module _ (summarizes : (s : State) (prompt : String) → Allows s (summarize prompt)) where
    asks : (w : World) (prompt : String) → Keeps P (dispatch w.reply (summarize prompt))
    asks w prompt = dispatch-Keeps stable w.reply (summarize prompt) (λ s. summarizes s prompt)

    pub run_summarize-Keeps : (w : World) (f : StepFields) → Keeps P (run_summarize w f)
    run_summarize-Keeps w f = bind-Keeps _ _ (interpolated-Keeps w _ f.prompt) (λ prompt.
        then-Keeps _ _
          (λ structured. bind-Keeps _ _ (asks w _) (λ text. then-Keeps _ _ (λ v. pure-Keeps _))))

    pub run_plan-Keeps : (w : World) (f : StepFields) → Keeps P (run_plan w f)
    run_plan-Keeps w f = if-Keeps (is_empty (trim_space f.output_schema_ref)) _ _ (fail-Keeps _) (
        bind-Keeps _ _ (interpolated-Keeps w _ f.prompt)
          (λ prompt. bind-Keeps _ _ (asks w prompt) (λ text. then-Keeps _ _ (λ v. pure-Keeps _))))

  module _
      (calls_tools : (s : State) (name : String) (args : Fields)
        → Allows s (tool s.sender_mxid name args)) where
    run_dispatch-Keeps :
        (w : World) (name : String) (args : Fields) → Keeps P (run_dispatch w name args)
    run_dispatch-Keeps w name args =
        bind-Keeps _ _ (dispatch_tool-Keeps stable w.reply name args (λ s. calls_tools s name args))
          (λ text. pure-Keeps _)

    pub run_tool-Keeps : (w : World) (f : StepFields) → Keeps P (run_tool w f)
    run_tool-Keeps w f =
        if-Keeps (is_empty (trim_space f.tool)) _ _ (fail-Keeps _)
          (then-Keeps _ _ (λ args. run_dispatch-Keeps w _ args))

    pub run_send_message-Keeps : (w : World) (f : StepFields) → Keeps P (run_send_message w f)
    run_send_message-Keeps w f = bind-Keeps _ _ (interpolated-Keeps w _ f.target_alias) (λ target.
        bind-Keeps _ _ (interpolated-Keeps w _ f.payload_template)
          (λ message. run_dispatch-Keeps w _ _))
