-- ===== src/Workflow/Run/Counted.antt =====
-- The tool calls that a run reports are the tool calls that it has made.
use ruriko.Prelude.{
  ℕ, zero, suc, ◌+◌, String, true, ◌≡◌, refl, ap, ◌∙◌, arith, Bool-cases, inl, inr,
}
use ruriko.Prelude.Int.{ℤ, pos_part}
use ruriko.Json.{Value}
use ruriko.Gosuto.Workflow.{
  StepFields, WorkflowProtocol, step, Steps, no_step, followed, steps_length,
}
use ruriko.Workflow.State.{
  State, Result, ok, err, diverges, ExecutionContext, new_state_from_execution_context,
}
use ruriko.Workflow.Schema.{output_present}
use ruriko.Workflow.Act.{Act, ◌>>=◌}
use ruriko.Workflow.Act.Keeps.{Keeps, bind-Keeps}
use ruriko.Workflow.Act.Costs.{tool_calls, calls_of, Cost, Costs, bind-Costs, wrap-Costs}
use ruriko.Workflow.Step.{
  World, Output, retry_on, try_more, is_schema_retry_step, run_step_with_retry_then_refuse,
}
use ruriko.Workflow.Nested.{run_step, check_output}
use ruriko.Workflow.Nested.Keeps.{check_output-Keeps}
use ruriko.Workflow.Nested.Costs.{reported, run_step-Costs, check_output-Costs}
use ruriko.Workflow.Run.{
  retry_budget, attempted, after_step, after_success, finalized, started, finish, run_from, run,
  execute_protocol,
}
use ruriko.Workflow.Run.Retries.{Count, step-Keeps}

retry_on-Cost :
    (s : State) (r : Result Output) (more : Act Output) (k : ℕ)
    → Costs 0 reported more
    → calls_of s ≡ k + 0
    → Cost reported k (s, r)
    → Cost reported k (retry_on (s, r) more)
retry_on-Cost s (ok a) more k h e c = c
retry_on-Cost s (err x) more k h e c = h.costs s k e
retry_on-Cost s diverges more k h e c = tt

-- Attempts that call no tool may be repeated.
try_more-Costs :
    (left : ℕ) (m : Act Output)
    → Costs 0 reported m
    → ((n : ℕ) → Keeps (Count n) m)
    → Costs 0 reported (try_more left m)
unfolding try_more
try_more-Costs zero m h q = record { costs = h.costs }
try_more-Costs (suc left) m h q = record {
  costs = λ s k e.
      retry_on-Cost ((m s).0) ((m s).1) (try_more left m) k (try_more-Costs left m h q)
        ((q (k + 0)).keeps s e) (h.costs s k e);
}

checked-Costs :
    (w : World) (protocol_id : String) (f : StepFields) (steps : Steps)
    → Costs 0 reported (run_step w protocol_id (step f steps) >>= λ p. check_output protocol_id f p)
checked-Costs w protocol_id f steps =
    bind-Costs reported reported 0 _ _ (run_step-Costs w protocol_id (step f steps))
      (λ p. check_output-Costs protocol_id f p)

checked-Count :
    (n : ℕ) (w : World) (protocol_id : String) (f : StepFields) (steps : Steps)
    → is_schema_retry_step f.kind ≡ true
    → Keeps (Count n) (run_step w protocol_id (step f steps) >>= λ p. check_output protocol_id f p)
checked-Count n w protocol_id f steps e =
    bind-Keeps _ _ (step-Keeps n w protocol_id f steps e) (λ p. check_output-Keeps protocol_id f p)

attempted-Costs :
    (w : World) (protocol_id : String) (retries : ℤ) (f : StepFields) (steps : Steps)
    → Costs 0 reported (attempted w protocol_id retries f steps)
unfolding run_step_with_retry_then_refuse
attempted-Costs w protocol_id retries f steps = elim (Bool-cases (is_schema_retry_step f.kind)) [
  | inl e ↦ rw e (
      wrap-Costs reported 0 _ _ (
        try_more-Costs (pos_part (retry_budget retries f)) _ (checked-Costs w protocol_id f steps)
          (λ n. checked-Count n w protocol_id f steps e)))
  | inr e ↦ rw e (checked-Costs w protocol_id f steps)
]

finalized_history :
    (i : ℕ) (f : StepFields) (v : Value) (s : State) → (finalized i f v s).history ≡ s.history
finalized_history i f v s = elim (Bool-cases (output_present v)) [
  | inl e ↦ rw e refl
  | inr e ↦ rw e refl
]

-- The calls before this step are counted already.
after_step-Cost :
    (w : World) (retries : ℤ) (f : StepFields) (i calls : ℕ) (more : ℕ → Act ℕ)
    → ((n : ℕ) → Costs n (λ m. m) (more n))
    → (s : State) (r : Result Output) (k : ℕ) → Cost reported (k + calls) (s, r)
    → Cost (λ m. m) k (after_step w retries f i calls more (s, r))
after_step-Cost w retries f i calls more h s (ok (v, n)) k e =
    (h (calls + n)).costs (after_success w retries f i (v, n) s) k
      (ap tool_calls (finalized_history i f v _) ∙ (e ∙ omega arith))
after_step-Cost w retries f i calls more h s (err x) k e = tt
after_step-Cost w retries f i calls more h s diverges k e = tt

run_from-Costs :
    (w : World) (protocol_id : String) (retries : ℤ) (steps : Steps) (i calls : ℕ)
    → Costs calls (λ m. m) (run_from w protocol_id retries steps i calls)
unfolding run_from
run_from-Costs w protocol_id retries no_step i calls = record { costs = λ s k e. e }
run_from-Costs w protocol_id retries (followed (step f steps) rest) i calls = record {
  costs = λ s k e.
      let m = attempted w protocol_id retries f steps in
      after_step-Cost w (retry_budget retries f) f i calls
        (run_from w protocol_id retries rest (suc i))
        (λ n. run_from-Costs w protocol_id retries rest (suc i) n) ((m s).0) ((m s).1) k
        ((attempted-Costs w protocol_id retries f steps).costs s (k + calls) (e ∙ omega arith));
}

-- A result reports the calls that were made.
abbrev pub IsCounted : State × Result (String × ℕ) → Type 0
IsCounted (s, ok (text, calls)) = tool_calls s.history ≡ calls
IsCounted (s, err e) = Unit
IsCounted (s, diverges) = Unit

finish-IsCounted : (s : State) (r : Result ℕ) → Cost (λ m. m) 0 (s, r) → IsCounted (finish (s, r))
finish-IsCounted s (ok n) e = e ∙ omega arith
finish-IsCounted s (err x) e = tt
finish-IsCounted s diverges e = tt

-- A run that succeeds reports exactly the tool calls that the dispatcher was asked for, those of nested
-- steps and of every attempt included.
pub execute_protocol-IsCounted :
    (w : World) (protocol : WorkflowProtocol) (context : ExecutionContext)
    → IsCounted (execute_protocol w protocol context)
unfolding execute_protocol run new_state_from_execution_context
execute_protocol-IsCounted w protocol context =
    let m = run_from w protocol.id protocol.retries protocol.steps 0 0 in
    let s = started (steps_length protocol.steps) (new_state_from_execution_context context) in
    finish-IsCounted ((m s).0) ((m s).1)
      ((run_from-Costs w protocol.id protocol.retries protocol.steps 0 0).costs s 0 (omega arith))
