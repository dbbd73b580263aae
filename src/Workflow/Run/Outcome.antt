-- ===== src/Workflow/Run/Outcome.antt =====
-- What the trace of a run says of how it ended.
use mathlib.Core.Path.{subst}
use ruriko.Prelude.{
  ℕ, suc, ◌+◌, ◌<◌, String, ◌≡◌, refl, sym, ap, ◌∙◌, some, arith, Bool-cases, inl, inr,
}
use ruriko.Prelude.Int.{ℤ}
use ruriko.Json.{Value}
use ruriko.Gosuto.Workflow.{
  StepFields, WorkflowProtocol, step, Steps, no_step, followed, steps_length,
}
use ruriko.Workflow.State.{
  State, Trace, running, success, error, Result, ok, err, diverges, Error, in_step, Call,
}
use ruriko.Workflow.Schema.{output_present}
use ruriko.Workflow.Act.{Act}
use ruriko.Workflow.Act.Keeps.{Keeps}
use ruriko.Workflow.Step.{World, Output}
use ruriko.Workflow.Nested.Keeps.{run_step-Keeps}
use ruriko.Workflow.Run.{
  retry_budget, attempted, after_step, finalized, started, finish, run_from, run,
}
use ruriko.Workflow.Run.Calls.{attempted-Keeps}

abbrev Anything : State → Call → Type 0
Anything s call = Unit

attempted_trace :
    (t : Trace) (w : World) (protocol_id : String) (retries : ℤ) (f : StepFields) (steps : Steps)
    → Keeps (λ s. s.trace ≡ t) (attempted w protocol_id retries f steps)
attempted_trace t w protocol_id retries f steps = attempted-Keeps w protocol_id retries f steps (
    run_step-Keeps {Allows = Anything}
      (record { on_values = λ m s p. p; on_call = λ call s a p. p }) (λ s prompt. tt)
      (λ s name args. tt) w protocol_id (step f steps))

-- While the steps run: so many are done of so many.
record Underway (i total : ℕ) (t : Trace) : Type 0 where
  at_work : t.status ≡ running
  so_far : t.steps_completed ≡ i
  of_total : t.steps_total ≡ total

-- The step that failed, its error, and the trace.
pub record Stopped (e : Error) (total : ℕ) (t : Trace) : Type 0 where
  pub at : ℕ
  pub kind : String
  pub cause : Error
  pub is_step_error : e ≡ in_step at kind cause
  pub has_error : t.status ≡ error
  pub has_cause : t.failure ≡ some cause
  pub completed_before : t.steps_completed ≡ at
  pub one_left : at < total
  pub of_total : t.steps_total ≡ total

abbrev Ran : ℕ → State × Result ℕ → Type 0
Ran total (s, ok n) = Underway total total s.trace
Ran total (s, err e) = Stopped e total s.trace
Ran total (s, diverges) = Unit

finalized_trace :
    (i : ℕ) (f : StepFields) (v : Value) (s : State) → (finalized i f v s).trace ≡ s.trace
finalized_trace i f v s = elim (Bool-cases (output_present v)) [
  | inl e ↦ rw e refl
  | inr e ↦ rw e refl
]

after_step-Ran :
    (w : World) (retries : ℤ) (f : StepFields) (i calls total : ℕ) (more : ℕ → Act ℕ)
    → ((n : ℕ) (s : State) → Underway (suc i) total s.trace → Ran total (more n s))
    → (s : State) (r : Result Output) → Underway i total s.trace
    → i < total
    → Ran total (after_step w retries f i calls more (s, r))
after_step-Ran w retries f i calls total more h s (ok (v, n)) u b = h (calls + n) _ (record {
  at_work = ap (λ (t : Trace). t.status) (finalized_trace i f v _) ∙ u.at_work;
  so_far = refl;
  of_total = ap (λ (t : Trace). t.steps_total) (finalized_trace i f v _) ∙ u.of_total;
})
after_step-Ran w retries f i calls total more h s (err e) u b = record {
  at = i;
  kind = f.kind;
  cause = e;
  is_step_error = refl;
  has_error = refl;
  has_cause = refl;
  completed_before = refl;
  one_left = b;
  of_total = u.of_total;
}
after_step-Ran w retries f i calls total more h s diverges u b = tt

run_from-Ran :
    (w : World) (protocol_id : String) (retries : ℤ) (steps : Steps) (i calls total : ℕ) (s : State)
    → i + steps_length steps ≡ total
    → Underway i total s.trace
    → Ran total (run_from w protocol_id retries steps i calls s)
unfolding run_from
run_from-Ran w protocol_id retries no_step i calls total s e u = record {
  at_work = u.at_work;
  so_far = u.so_far ∙ omega (arith, e);
  of_total = u.of_total;
}
run_from-Ran w protocol_id retries (followed (step f steps) rest) i calls total s e u =
    let m = attempted w protocol_id retries f steps in
    after_step-Ran w (retry_budget retries f) f i calls total
      (run_from w protocol_id retries rest (suc i))
      (λ n t v. run_from-Ran w protocol_id retries rest (suc i) n total t (omega (arith, e)) v)
      ((m s).0) ((m s).1)
      (subst (Underway i total)
        (sym ((attempted_trace s.trace w protocol_id retries f steps).keeps s refl)) u)
      (omega (arith, e))

-- How a run of so many steps may end.
abbrev pub Ends : ℕ → State × Result (String × ℕ) → Type 0
Ends total (s, ok (text, calls)) =
    (s.trace.status ≡ success)
    × ((s.trace.steps_completed ≡ total)
        × ((s.trace.steps_total ≡ total)
            × ((s.trace.tool_calls ≡ calls) × (s.final_output ≡ text))))
Ends total (s, err e) = Stopped e total s.trace
Ends total (s, diverges) = Unit

finish-Ends : (total : ℕ) (s : State) (r : Result ℕ) → Ran total (s, r) → Ends total (finish (s, r))
finish-Ends total s (ok n) u = (refl, (u.so_far, (u.of_total, (refl, refl))))
finish-Ends total s (err e) u = u
finish-Ends total s diverges u = tt

-- The trace tells how a run has ended. If it succeeds, the trace says so, all steps are completed, and the
-- run returns the final output and the tool calls that the trace counts. If it fails, the error names the
-- step that failed, this step is one of the protocol's, exactly the steps before it are completed, and the
-- trace has its error.
pub run-Ends :
    (w : World) (protocol : WorkflowProtocol) (s : State)
    → Ends (steps_length protocol.steps) (run w protocol s)
unfolding run
run-Ends w protocol s =
    let total = steps_length protocol.steps in
    let r = run_from w protocol.id protocol.retries protocol.steps 0 0 (started total s) in
    finish-Ends total (r.0) (r.1) (
      run_from-Ran w protocol.id protocol.retries protocol.steps 0 0 total (started total s)
        (omega arith) (record { at_work = refl; so_far = refl; of_total = refl }))
