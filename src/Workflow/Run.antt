-- ===== src/Workflow/Run.antt =====
-- internal/gitai/workflow/runner.go and engine.go: the run of a protocol.
pub mod Calls
pub mod Counted
pub mod Outcome
pub mod Retries
use Prim.Native.String.{String}
use ruriko.Prelude.{ℕ, suc, ◌+◌, Bool, true, false, Option, none, some, ltb, if◌then◌else◌}
use ruriko.Prelude.Int.{ℤ, pos, negsuc, pos_part}
use ruriko.Prelude.Text.{append, itoa}
use ruriko.Json.{Value, null, bool, int, str, obj, Fields, end, field, put, print}
use ruriko.Gosuto.Workflow.{
  StepFields, WorkflowProtocol, step, Steps, no_step, followed, steps_length,
}
use ruriko.Workflow.State.{
  State, with_trace, with_output, with_final, Trace, running, success, error, Result, ok, err,
  diverges, Error, in_step, ExecutionContext, new_state_from_execution_context,
}
use ruriko.Workflow.Schema.{output_present}
use ruriko.Workflow.Act.{Act, ◌>>=◌}
use ruriko.Workflow.Step.{World, Output, run_step_with_retry_then_refuse}
use ruriko.Workflow.Nested.{step_key, run_step, check_output}

abbrev pub retry_budget : ℤ → StepFields → ℤ
retry_budget retries f = if ltb 0 (pos_part f.retries) then f.retries else retries

abbrev int_text : ℤ → String
int_text (pos n) = itoa n
int_text (negsuc n) = append "-" (itoa (suc n))

-- What is kept of a step, the parts that an error changes as arguments.
abbrev step_contract : World → ℤ → StepFields → ℕ → String → Value → ℕ → Fields → Fields
step_contract w retries f i status output calls rest = field "stepKey" (str (step_key i)) (
    field "stepIndex" (int (itoa i)) (
      field "stepType" (str f.kind) (
        field "startedAt" (str (w.started_at i)) (
          field "completedAt" (str (w.completed_at i)) (
            field "durationMS" (int (w.duration_ms i)) (
              field "toolCalls" (int (itoa calls)) (
                field "retryBudget" (int (int_text retries)) (
                  field "status" (str status) (
                    field "output" output
                      (field "outputPresent" (bool (output_present output)) rest))))))))))

abbrev recorded : ℕ → Fields → State → State
recorded i contract s = with_output (put (step_key i) (obj contract) s.step_outputs) s

abbrev completed : ℕ → State → State
completed n s =
    with_trace
      (record {
        status = s.trace.status;
        failure = s.trace.failure;
        tool_calls = s.trace.tool_calls;
        steps_total = s.trace.steps_total;
        steps_completed = n;
      })
      s

abbrev failed : ℕ → ℕ → Error → State → State
failed n calls e s =
    with_trace
      (record {
        status = error;
        failure = some e;
        tool_calls = calls;
        steps_total = s.trace.steps_total;
        steps_completed = n;
      })
      s

abbrev pub started : ℕ → State → State
started total s =
    with_trace
      (record {
        status = running;
        failure = s.trace.failure;
        tool_calls = s.trace.tool_calls;
        steps_total = total;
        steps_completed = 0;
      })
      s

abbrev succeeded : ℕ → State → State
succeeded calls s =
    with_trace
      (record {
        status = success;
        failure = s.trace.failure;
        tool_calls = calls;
        steps_total = s.trace.steps_total;
        steps_completed = s.trace.steps_completed;
      })
      s

-- A result that is present becomes the value of its step and the final output.
abbrev pub finalized : ℕ → StepFields → Value → State → State
finalized i f v s =
    if output_present v
    then with_final (print v) (put (step_key i) v s.values)
        (record { step_key = step_key i; step_index = i; step_type = f.kind; value = v }) s
    else s

abbrev pub after_success : World → ℤ → StepFields → ℕ → Output → State → State
after_success w retries f i (v, n) s =
    completed (suc i)
      (finalized i f v (recorded i (step_contract w retries f i "success" v n end) s))

-- One step of the protocol, with the calls so far, and what comes after it.
abbrev pub after_step :
    World → ℤ → StepFields → ℕ → ℕ → (ℕ → Act ℕ) → State × Result Output → State × Result ℕ
after_step w retries f i calls more (s, ok (v, n)) =
    more (calls + n) (after_success w retries f i (v, n) s)
after_step w retries f i calls more (s, err e) = (
  failed i calls e (
      recorded i
        (step_contract w retries f i "error" null 0 (field "error" (str (w.describe e)) end)) s),
  err (in_step i f.kind e),
)
after_step w retries f i calls more (s, diverges) = (s, diverges)

abbrev pub attempted : World → String → ℤ → StepFields → Steps → Act Output
attempted w protocol_id retries f steps =
    run_step_with_retry_then_refuse protocol_id f.kind (retry_budget retries f)
      (run_step w protocol_id (step f steps) >>= λ p. check_output protocol_id f p)

unfoldable pub run_from : World → String → ℤ → Steps → ℕ → ℕ → Act ℕ
unfolding run_step_with_retry_then_refuse run_step
run_from w protocol_id retries no_step i calls s = (s, ok calls)
run_from w protocol_id retries (followed (step f steps) rest) i calls s =
    after_step w (retry_budget retries f) f i calls (run_from w protocol_id retries rest (suc i))
      (attempted w protocol_id retries f steps s)

abbrev pub finish : State × Result ℕ → State × Result (String × ℕ)
finish (s, ok calls) = (succeeded calls s, ok (s.final_output, calls))
finish (s, err e) = (s, err e)
finish (s, diverges) = (s, diverges)

unfoldable pub run : World → WorkflowProtocol → Act (String × ℕ)
unfolding run_from
run w protocol s = finish (
    run_from w protocol.id protocol.retries protocol.steps 0 0
      (started (steps_length protocol.steps) s))

unfoldable pub execute_protocol :
    World → WorkflowProtocol → ExecutionContext → State × Result (String × ℕ)
unfolding run new_state_from_execution_context
execute_protocol w protocol context = run w protocol (new_state_from_execution_context context)
