-- ===== src/Workflow/Run/Calls.antt =====
-- In whose name a run calls tools, and how often a step calls one.
use ruriko.Prelude.{
  ℕ, zero, suc, ◌+◌, String, List, ◌∷◌, ◌≡◌, refl, string_eq, All, Bool-cases, inl, inr,
}
use ruriko.Prelude.Int.{ℤ, pos_part}
use ruriko.Json.{Value, Fields}
use ruriko.Gosuto.Workflow.{
  StepFields, WorkflowProtocol, step, Steps, no_step, followed, steps_length,
}
use ruriko.Workflow.State.{
  State, Result, ok, err, diverges, Call, tool, summarize, ExecutionContext,
  new_state_from_execution_context,
}
use ruriko.Workflow.Schema.{output_present}
use ruriko.Workflow.Act.{Act}
use ruriko.Workflow.Act.Keeps.{Stable, Keeps, bind-Keeps, wrap-Keeps, if-Keeps}
use ruriko.Workflow.Step.{
  World, Output, retry_on, try_more, is_schema_retry_step, run_step_with_retry_then_refuse,
}
use ruriko.Workflow.Nested.{run_step}
use ruriko.Workflow.Nested.Keeps.{run_step-Keeps, check_output-Keeps}
use ruriko.Workflow.Run.{
  retry_budget, attempted, after_step, after_success, finalized, started, finish, run_from, run,
  execute_protocol,
}

module _ {P : State → Type 0} where
  retry_on-Keeps :
      {A : Type 0} (s : State) (r : Result A) (more : Act A)
      → Keeps P more
      → P s
      → P ((retry_on (s, r) more).0)
  retry_on-Keeps s (ok a) more h p = p
  retry_on-Keeps s (err e) more h p = h.keeps s p
  retry_on-Keeps s diverges more h p = p

  try_more-Keeps : {A : Type 0} (left : ℕ) (m : Act A) → Keeps P m → Keeps P (try_more left m)
  unfolding try_more
  try_more-Keeps zero m h = record { keeps = h.keeps }
  try_more-Keeps (suc left) m h = record {
    keeps = λ s p.
        retry_on-Keeps ((m s).0) ((m s).1) (try_more left m) (try_more-Keeps left m h)
          (h.keeps s p);
  }

  pub refuse-Keeps :
      {A : Type 0} (protocol_id step_type : String) (retries : ℤ) (m : Act A)
      → Keeps P m
      → Keeps P (run_step_with_retry_then_refuse protocol_id step_type retries m)
  unfolding run_step_with_retry_then_refuse
  refuse-Keeps protocol_id step_type retries m h =
      if-Keeps (is_schema_retry_step step_type) _ _
        (wrap-Keeps _ _ (try_more-Keeps (pos_part retries) m h)) h

  pub attempted-Keeps :
      (w : World) (protocol_id : String) (retries : ℤ) (f : StepFields) (steps : Steps)
      → Keeps P (run_step w protocol_id (step f steps))
      → Keeps P (attempted w protocol_id retries f steps)
  attempted-Keeps w protocol_id retries f steps h =
      refuse-Keeps protocol_id f.kind (retry_budget retries f) _
        (bind-Keeps _ _ h (λ p. check_output-Keeps protocol_id f p))

-- A property of the sender and the calls so far.
module _ (Q : String → List Call → Type 0)
    (asks : (sender prompt : String) (calls : List Call)
      → Q sender calls
      → Q sender (summarize prompt ∷ calls))
    (calls_tool : (sender name : String) (args : Fields) (calls : List Call)
      → Q sender calls
      → Q sender (tool sender name args ∷ calls)) where
  abbrev Holds : State → Type 0
  Holds s = Q s.sender_mxid s.history

  abbrev Permits : State → Call → Type 0
  Permits s call = Holds s → Q s.sender_mxid (call ∷ s.history)

  stable-Holds : Stable Permits Holds
  stable-Holds = record { on_values = λ m s p. p; on_call = λ call s a p. a p }

  attempted-Holds :
      (w : World) (protocol_id : String) (retries : ℤ) (f : StepFields) (steps : Steps)
      → Keeps Holds (attempted w protocol_id retries f steps)
  attempted-Holds w protocol_id retries f steps = attempted-Keeps w protocol_id retries f steps (
      run_step-Keeps stable-Holds (λ s prompt. asks s.sender_mxid prompt s.history)
        (λ s name args. calls_tool s.sender_mxid name args s.history) w protocol_id (step f steps))

  finalized-Holds :
      (i : ℕ) (f : StepFields) (v : Value) (s : State) → Holds s → Holds (finalized i f v s)
  finalized-Holds i f v s p = elim (Bool-cases (output_present v)) [
    | inl e ↦ rw e p
    | inr e ↦ rw e p
  ]

  after_step-Holds :
      (w : World) (retries : ℤ) (f : StepFields) (i calls : ℕ) (more : ℕ → Act ℕ)
      → ((n : ℕ) → Keeps Holds (more n))
      → (s : State) (r : Result Output) → Holds s
      → Holds ((after_step w retries f i calls more (s, r)).0)
  after_step-Holds w retries f i calls more h s (ok (v, n)) p =
      (h (calls + n)).keeps (after_success w retries f i (v, n) s) (finalized-Holds i f v _ p)
  after_step-Holds w retries f i calls more h s (err e) p = p
  after_step-Holds w retries f i calls more h s diverges p = p

  run_from-Holds :
      (w : World) (protocol_id : String) (retries : ℤ) (steps : Steps) (i calls : ℕ)
      → Keeps Holds (run_from w protocol_id retries steps i calls)
  unfolding run_from
  run_from-Holds w protocol_id retries no_step i calls = record { keeps = λ s p. p }
  run_from-Holds w protocol_id retries (followed (step f steps) rest) i calls = record {
    keeps = λ s p.
        let m = attempted w protocol_id retries f steps in
        after_step-Holds w (retry_budget retries f) f i calls
          (run_from w protocol_id retries rest (suc i))
          (λ n. run_from-Holds w protocol_id retries rest (suc i) n) ((m s).0) ((m s).1)
          ((attempted-Holds w protocol_id retries f steps).keeps s p);
  }

  finish-Holds : (s : State) (r : Result ℕ) → Holds s → Holds ((finish (s, r)).0)
  finish-Holds s (ok n) p = p
  finish-Holds s (err e) p = p
  finish-Holds s diverges p = p

  run-Holds :
      (w : World) (protocol : WorkflowProtocol) (s : State) → Holds s → Holds ((run w protocol s).0)
  unfolding run
  run-Holds w protocol s p =
      let m = run_from w protocol.id protocol.retries protocol.steps 0 0 in
      let r = m (started (steps_length protocol.steps) s) in
      finish-Holds (r.0) (r.1)
        ((run_from-Holds w protocol.id protocol.retries protocol.steps 0 0).keeps _ p)

-- A call is a prompt for a summary, or of a tool in the name of a sender.
abbrev pub IsFrom : String → Call → Type 0
IsFrom sender (tool caller name args) = caller ≡ sender
IsFrom sender (summarize prompt) = Unit

-- However a run ends, every tool that it calls is called in the name of the sender of the message that
-- started it.
pub execute_protocol-IsFrom :
    (w : World) (protocol : WorkflowProtocol) (context : ExecutionContext)
    → All (IsFrom context.sender_mxid) ((execute_protocol w protocol context).0.history)
unfolding execute_protocol new_state_from_execution_context
execute_protocol-IsFrom w protocol context =
    ((run-Holds
        (λ sender calls. (sender ≡ context.sender_mxid) × All (IsFrom context.sender_mxid) calls)
        (λ sender prompt calls h. (h.0, (tt, h.1))) (λ sender name args calls h. (h.0, (h.0, h.1)))
        w protocol (new_state_from_execution_context context))
      (refl, tt)).1
