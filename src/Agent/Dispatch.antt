-- ===== src/Agent/Dispatch.antt =====
-- internal/gitai/app/app.go: DispatchToolCall, up to the tool that it runs.
pub mod Permitted
mod Tests
use Prim.Native.String.{String}
use ruriko.Prelude.{
  ℕ, ◌*◌, Bool, true, false, not, Option, none, some, List, ◌==◌, string_eq, if◌then◌else◌,
}
use ruriko.Prelude.GoMap.{GoMap}
use ruriko.Prelude.Text.{is_empty, trim_space, cut, cut_prefix, cut_suffix}
use ruriko.Json.{Value, str, Fields, end, field, get, print}
use ruriko.Gosuto.Types.{Config, Approvals}
use ruriko.Policy.{Arg, Decision, allow, require_approval, deny, evaluate}
use ruriko.AgentApprovals.{Rows, Event, Outcome, allowed, request}

-- What the agent runs with: which tools are built in and can be found, which servers run, whether there is a
-- gate for approvals, and the secrets that can be read.
pub record Tools : Type 0 where
  pub is_builtin : String → Bool
  pub is_registered : String → Bool
  pub is_running : String → Bool
  pub has_gate : Bool
  pub secret : String → Option String

-- One request for a tool: its trace, and what happens while it waits for an approval.
pub record Call : Type 0 where
  pub trace_id : String
  pub name : String
  pub args : Fields
  pub save_fails : Bool
  pub now : ℕ
  pub events : List Event

-- An error, the run of a built-in tool, or the call of a tool of a server.
pub data Dispatched : Type 0 where
  invalid_name denied no_approvals no_gate not_approved not_found not_running no_secret : Dispatched
  ran : String → Fields → Dispatched
  called : String → String → Fields → Dispatched

abbrev around : String → Option (String × String) → String × String
around composed none = ("", composed)
around composed (some parts) = parts

unfoldable pub split_tool_name : String → String × String
unfolding cut
split_tool_name composed = around composed (cut "__" composed)

-- An argument as the policy sees it.
abbrev arg_of : Value → Arg
arg_of (str s) = Arg.str s
arg_of v = Arg.other (print v)

abbrev seen : Option Value → Option Arg
seen none = none
seen (some v) = some (arg_of v)

abbrev pub policy_args : Fields → GoMap Arg
policy_args args k = seen (get k args)

abbrev filled : Option String → Option String
filled none = none
filled (some ref) = if is_empty ref then none else some ref

abbrev before_suffix : Option String → Option String
before_suffix none = none
before_suffix (some rest) = filled (cut_suffix "}}" rest)

-- The reference that a text is, when it is a placeholder as a whole.
unfoldable pub secret_ref : String → Option String
unfolding cut_suffix
secret_ref s = before_suffix (cut_prefix "{{secret:" s)

unfoldable pub interpolate_secret_string : (String → Option String) → String → Option String
unfolding secret_ref
interpolate_secret_string secret s = elim (secret_ref s) [ none ↦ some s | some ref ↦ secret ref ]

abbrev resolved : (String → Option String) → Value → Option Value
resolved secret (str s) = elim (interpolate_secret_string secret s) [
  | none ↦ none
  | some t ↦ some (str t)
]
resolved secret v = some v

abbrev with_field : String → Option Value → Option Fields → Option Fields
with_field k (some v) (some m) = some (field k v m)
with_field k v m = none

unfoldable pub resolve_secret_args : (String → Option String) → Fields → Option Fields
unfolding interpolate_secret_string
resolve_secret_args secret end = some end
resolve_secret_args secret (field k v m) =
    with_field k (resolved secret v) (resolve_secret_args secret m)

abbrev pub run_builtin : Tools → Call → Dispatched
run_builtin tools c = if tools.is_registered c.name then ran c.name c.args else not_found

abbrev with_args : String → String → Option Fields → Dispatched
with_args server tool none = no_secret
with_args server tool (some args) = called server tool args

abbrev pub call_server : Tools → Call → String → String → Dispatched
call_server tools c server tool =
    if tools.is_running server
    then with_args server tool (resolve_secret_args tools.secret c.args)
    else not_running

abbrev pub if_allowed : Dispatched → Rows × Outcome → Rows × Dispatched
if_allowed d (rows, allowed) = (rows, d)
if_allowed d (rows, o) = (rows, not_approved)

abbrev one_second : ℕ
one_second = 1000000000

abbrev pub are_approvals_on : Option Config → Bool
are_approvals_on none = false
are_approvals_on (some cfg) =
    if cfg.approvals.enabled then not (cfg.approvals.room == "") else false

abbrev pub ttl_of : Option Config → ℕ
ttl_of none = 0
ttl_of (some cfg) = cfg.approvals.ttl_seconds * one_second

-- The switch over the decision of the policy, in front of the tool.
abbrev pub after_policy :
    Tools → Option Config → Call → Dispatched → Decision → Rows → Rows × Dispatched
after_policy tools cfg c tool deny rows = (rows, denied)
after_policy tools cfg c tool allow rows = (rows, tool)
after_policy tools cfg c tool require_approval rows =
    if not (are_approvals_on cfg)
    then (rows, no_approvals)
    else if not tools.has_gate
    then (rows, no_gate)
    else if_allowed tool (request c.trace_id c.save_fails c.now (ttl_of cfg) c.events rows)

abbrev pub builtin_namespace : String
builtin_namespace = "builtin"

abbrev pub dispatch_to_server :
    Tools → Option Config → Option Config → Call → String × String → Rows → Rows × Dispatched
dispatch_to_server tools policy cfg c (server, tool) rows =
    if is_empty (trim_space server)
    then (rows, invalid_name)
    else if is_empty (trim_space tool)
    then (rows, invalid_name)
    else after_policy tools cfg c (call_server tools c server tool)
        (evaluate policy server tool (policy_args c.args)).decision rows

unfoldable pub dispatch_tool_call :
    Tools → Option Config → Option Config → Call → Rows → Rows × Dispatched
unfolding split_tool_name resolve_secret_args
dispatch_tool_call tools policy cfg c rows =
    if tools.is_builtin c.name
    then after_policy tools cfg c (run_builtin tools c)
        (evaluate policy builtin_namespace c.name (policy_args c.args)).decision rows
    else dispatch_to_server tools policy cfg c (split_tool_name c.name) rows
