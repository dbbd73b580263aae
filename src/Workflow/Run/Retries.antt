-- ===== src/Workflow/Run/Retries.antt =====
-- Retries repeat no tool call.
use mathlib.Core.Path.{subst}
use ruriko.Prelude.{
  ℕ, String, ◌∷◌, true, false, ◌≡◌, refl, sym, arith, string_eq, ◌⊎◌, inl, inr, text_eq_iff,
  Bool-cases,
}
use ruriko.Prelude.Int.{ℤ}
use ruriko.Prelude.Text.{trim_space}
use ruriko.Gosuto.Workflow.{StepFields, step, Steps}
use ruriko.Workflow.State.{State, Call, tool, summarize}
use ruriko.Workflow.Act.{Act, ◌>>=◌}
use ruriko.Workflow.Act.Costs.{tool_calls}
use ruriko.Workflow.Act.Keeps.{Stable, Keeps}
use ruriko.Workflow.Step.{World, Output, is_schema_retry_step, run_step_with_retry_then_refuse}
use ruriko.Workflow.Step.Keeps.{run_parse_input-Keeps, run_summarize-Keeps, run_plan-Keeps}
use ruriko.Workflow.Nested.{run_step, by_type, check_output}
use ruriko.Workflow.Run.{attempted}
use ruriko.Workflow.Run.Calls.{attempted-Keeps}

module _ (n : ℕ) where
  abbrev pub Count : State → Type 0
  Count s = tool_calls s.history ≡ n

  abbrev IsPrompt : State → Call → Type 0
  IsPrompt s (tool sender name args) = ⊥
  IsPrompt s (summarize prompt) = Unit

  on_prompt :
      (call : Call) (s : State) → IsPrompt s call → Count s → tool_calls (call ∷ s.history) ≡ n
  on_prompt (summarize prompt) s a p = p
  on_prompt (tool sender name args) s a p = elim a [ ]

  counts : Stable IsPrompt Count
  counts = record { on_values = λ m s p. p; on_call = on_prompt }

  retried-Keeps :
      (t : String) (w : World) (f : StepFields) (m : Act Output)
      → (t ≡ "parse_input") ⊎ ((t ≡ "summarize") ⊎ (t ≡ "plan"))
      → Keeps Count (by_type t w f m)
  retried-Keeps t w f m (inl e) =
      subst (λ u. Keeps Count (by_type u w f m)) (sym e) (run_parse_input-Keeps counts)
  retried-Keeps t w f m (inr (inl e)) =
      subst (λ u. Keeps Count (by_type u w f m)) (sym e)
        (run_summarize-Keeps counts (λ s prompt. tt) w f)
  retried-Keeps t w f m (inr (inr e)) =
      subst (λ u. Keeps Count (by_type u w f m)) (sym e)
        (run_plan-Keeps counts (λ s prompt. tt) w f)

retried_types :
    (step_type : String)
    → is_schema_retry_step step_type ≡ true
    → (trim_space step_type ≡ "parse_input")
      ⊎ ((trim_space step_type ≡ "summarize") ⊎ (trim_space step_type ≡ "plan"))
unfolding is_schema_retry_step
retried_types step_type e =
    let t = trim_space step_type in
    ground (arith, e, text_eq_iff t "parse_input", text_eq_iff t "summarize", text_eq_iff t "plan")

pub step-Keeps :
    (n : ℕ) (w : World) (protocol_id : String) (f : StepFields) (steps : Steps)
    → is_schema_retry_step f.kind ≡ true
    → Keeps (Count n) (run_step w protocol_id (step f steps))
unfolding run_step
step-Keeps n w protocol_id f steps e =
    retried-Keeps n (trim_space f.kind) w f _ (retried_types f.kind e)

run_once :
    (w : World) (protocol_id : String) (retries : ℤ) (f : StepFields) (steps : Steps) (s : State)
    → is_schema_retry_step f.kind ≡ false
    → attempted w protocol_id retries f steps s
      ≡ (run_step w protocol_id (step f steps) >>= λ p. check_output protocol_id f p) s
unfolding run_step_with_retry_then_refuse
run_once w protocol_id retries f steps s e = rw e refl

-- A step of a protocol is either of a type that is tried again, and then no attempt calls a tool, or it and
-- its checks run exactly once, whatever its retries and those of the protocol are.
pub attempted_once :
    (w : World) (protocol_id : String) (retries : ℤ) (f : StepFields) (steps : Steps) (s : State)
    → ((is_schema_retry_step f.kind ≡ true)
        × (tool_calls ((attempted w protocol_id retries f steps s).0.history)
            ≡ tool_calls s.history))
      ⊎ ((is_schema_retry_step f.kind ≡ false)
          × (attempted w protocol_id retries f steps s
              ≡ (run_step w protocol_id (step f steps) >>= λ p. check_output protocol_id f p) s))
attempted_once w protocol_id retries f steps s = elim (Bool-cases (is_schema_retry_step f.kind)) [
  | inl e ↦ inl (
    e,
    (attempted-Keeps w protocol_id retries f steps
          (step-Keeps (tool_calls s.history) w protocol_id f steps e)).keeps
        s refl,
  )
  | inr e ↦ inr (e, run_once w protocol_id retries f steps s e)
]
