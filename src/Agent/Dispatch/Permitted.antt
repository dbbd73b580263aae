-- ===== src/Agent/Dispatch/Permitted.antt =====
-- No tool runs without a rule of the policy, and none that needs an approval without an approval.
use mathlib.Core.Bool.{false≢true}
use ruriko.Prelude.{
  String, true, Option, none, some, ◌≡◌, refl, sym, ◌∙◌, ◌⊎◌, inl, inr, any, Bool-cases,
  Option-cases, string_eq,
}
use ruriko.Prelude.Text.{append, is_empty, trim_space}
use ruriko.Gosuto.Types.{Config}
use ruriko.Policy.{Decision, allow, require_approval, deny, evaluate}
use ruriko.Policy.FirstMatch.{Granted, evaluate-FirstMatch}
use ruriko.AgentApprovals.{
  Rows, Outcome, allowed, save_failed, poll_failed, cancelled, refused, waiting, request,
}
use ruriko.AgentApprovals.FailSafe.{approves, is_allowed, request-refuses}
use ruriko.Agent.Dispatch.{
  Tools, Call, Dispatched, ran, called, policy_args, resolve_secret_args, run_builtin, call_server,
  if_allowed, after_policy, dispatch_to_server, dispatch_tool_call, split_tool_name,
  builtin_namespace, are_approvals_on, ttl_of,
}

-- While the call waits, the control plane records that this very request is approved.
abbrev pub IsApproved : Call → Type 0
IsApproved c = any (approves (append "appr_" c.trace_id)) c.events ≡ true

-- The first rule of the policy that names the tool allows it, or asks for an approval that is given; the
-- constraints of the rule hold for the arguments of the request.
abbrev pub IsPermitted : Option Config → Call → String → String → Type 0
IsPermitted policy c server tool =
    (cfg : Config) × ((policy ≡ some cfg)
      × (Granted allow server tool (policy_args c.args) cfg.capabilities
          ⊎ (Granted require_approval server tool (policy_args c.args) cfg.capabilities
              × IsApproved c)))

-- What runs is the tool of the request, with its arguments, in which secrets are filled in for a server.
abbrev pub IsLawful : Tools → Option Config → Call → Dispatched → Type 0
IsLawful tools policy c (ran name args) =
    IsPermitted policy c builtin_namespace c.name × ((name ≡ c.name) × (args ≡ c.args))
IsLawful tools policy c (called server tool args) =
    IsPermitted policy c server tool
    × ((split_tool_name c.name ≡ (server, tool))
        × (resolve_secret_args tools.secret c.args ≡ some args))
IsLawful tools policy c d = Unit

-- A tool that may run once it is permitted.
abbrev Lawful : Tools → Option Config → Call → String → String → Dispatched → Type 0
Lawful tools policy c server tool d = IsPermitted policy c server tool → IsLawful tools policy c d

evaluate-IsPermitted :
    (policy : Option Config) (c : Call) (server tool : String)
    → ((evaluate policy server tool (policy_args c.args)).decision ≡ allow)
      ⊎ (((evaluate policy server tool (policy_args c.args)).decision ≡ require_approval)
          × IsApproved c)
    → IsPermitted policy c server tool
unfolding evaluate
evaluate-IsPermitted none c server tool (inl e) = cc
evaluate-IsPermitted none c server tool (inr (e, a)) = cc
evaluate-IsPermitted (some cfg) c server tool (inl e) =
    (cfg, (refl, inl ((evaluate-FirstMatch cfg server tool (policy_args c.args)).0.0 e)))
evaluate-IsPermitted (some cfg) c server tool (inr (e, a)) =
    (cfg, (refl, inr ((evaluate-FirstMatch cfg server tool (policy_args c.args)).1.0 e, a)))

if_allowed-IsLawful :
    (tools : Tools) (policy : Option Config) (c : Call) (d : Dispatched) (rows : Rows) (o : Outcome)
    → (is_allowed o ≡ true → IsLawful tools policy c d)
    → IsLawful tools policy c (if_allowed d (rows, o)).1
if_allowed-IsLawful tools policy c d rows allowed h = h refl
if_allowed-IsLawful tools policy c d rows save_failed h = tt
if_allowed-IsLawful tools policy c d rows poll_failed h = tt
if_allowed-IsLawful tools policy c d rows cancelled h = tt
if_allowed-IsLawful tools policy c d rows refused h = tt
if_allowed-IsLawful tools policy c d rows waiting h = tt

request-IsApproved :
    (cfg : Option Config) (c : Call) (rows : Rows)
    → is_allowed ((request c.trace_id c.save_fails c.now (ttl_of cfg) c.events rows).1) ≡ true
    → IsApproved c
request-IsApproved cfg c rows h =
    elim (Bool-cases (any (approves (append "appr_" c.trace_id)) c.events)) [
      | inl e ↦ e
      | inr e ↦
          elim (false≢true (
            sym (request-refuses c.trace_id c.save_fails c.now (ttl_of cfg) c.events rows e)
            ∙ h)) [ ]
    ]

after_policy-IsLawful :
    (tools : Tools) (policy cfg : Option Config) (c : Call) (server tool : String) (d : Dispatched)
    (rows : Rows) (k : Decision)
    → (evaluate policy server tool (policy_args c.args)).decision ≡ k
    → Lawful tools policy c server tool d
    → IsLawful tools policy c (after_policy tools cfg c d k rows).1
after_policy-IsLawful tools policy cfg c server tool d rows deny e h = tt
after_policy-IsLawful tools policy cfg c server tool d rows allow e h =
    h (evaluate-IsPermitted policy c server tool (inl e))
after_policy-IsLawful tools policy cfg c server tool d rows require_approval e h =
    elim (Bool-cases (are_approvals_on cfg)) [
      | inr on ↦ rw on tt
      | inl on ↦ rw on (elim (Bool-cases tools.has_gate) [
        | inr gate ↦ rw gate tt
        | inl gate ↦ rw gate (
            if_allowed-IsLawful tools policy c d _ _ (λ a. h (
              evaluate-IsPermitted policy c server tool
                (inr (e, request-IsApproved cfg c rows a)))))
      ])
    ]

run_builtin-Lawful :
    (tools : Tools) (policy : Option Config) (c : Call)
    → Lawful tools policy c builtin_namespace c.name (run_builtin tools c)
run_builtin-Lawful tools policy c p = elim (Bool-cases (tools.is_registered c.name)) [
  | inl e ↦ rw e (p, (refl, refl))
  | inr e ↦ rw e tt
]

call_server-Lawful :
    (tools : Tools) (policy : Option Config) (c : Call) (server tool : String)
    → split_tool_name c.name ≡ (server, tool)
    → Lawful tools policy c server tool (call_server tools c server tool)
call_server-Lawful tools policy c server tool s p = elim (Bool-cases (tools.is_running server)) [
  | inr e ↦ rw e tt
  | inl e ↦ rw e (elim (Option-cases (resolve_secret_args tools.secret c.args)) [
    | inl f ↦ rw f tt
    | inr (args, f) ↦ rw f (p, (s, f))
  ])
]

dispatch_to_server-IsLawful :
    (tools : Tools) (policy cfg : Option Config) (c : Call) (parts : String × String) (rows : Rows)
    → split_tool_name c.name ≡ parts
    → IsLawful tools policy c (dispatch_to_server tools policy cfg c parts rows).1
dispatch_to_server-IsLawful tools policy cfg c (server, tool) rows s =
    elim (Bool-cases (is_empty (trim_space server))) [
      | inl e ↦ rw e tt
      | inr e ↦ rw e (elim (Bool-cases (is_empty (trim_space tool))) [
        | inl f ↦ rw f tt
        | inr f ↦ rw f (
            after_policy-IsLawful tools policy cfg c server tool _ rows _ refl
              (call_server-Lawful tools policy c server tool s))
      ])
    ]

-- DispatchToolCall runs a tool only if the first rule of the policy that names it has its constraints met by
-- the arguments and allows the call, or asks for an approval which the control plane records for this
-- request while the call waits. It runs the tool that is named, with the arguments that the policy has
-- seen, in which placeholders of secrets are filled in for a tool of a server.
pub dispatch_tool_call-IsLawful :
    (tools : Tools) (policy cfg : Option Config) (c : Call) (rows : Rows)
    → IsLawful tools policy c (dispatch_tool_call tools policy cfg c rows).1
unfolding dispatch_tool_call
dispatch_tool_call-IsLawful tools policy cfg c rows = elim (Bool-cases (tools.is_builtin c.name)) [
  | inl e ↦ rw e (
      after_policy-IsLawful tools policy cfg c builtin_namespace c.name _ rows _ refl
        (run_builtin-Lawful tools policy c))
  | inr e ↦ rw e (dispatch_to_server-IsLawful tools policy cfg c (split_tool_name c.name) rows refl)
]
