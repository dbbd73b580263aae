-- ===== src/Approvals/Decide.antt =====
-- internal/ruriko/approvals/gate.go and internal/ruriko/commands/approval_handlers.go: which commands
-- wait for an approval, and what an operator's decision does. Audit rows and notices, which only
-- record what happened, are left out.
pub mod Gated
pub mod Handler
pub mod Execute
use Prim.Native.Char.{code}
use Prim.Native.String.{String}
use ruriko.Prelude.{
  ℕ, Bool, true, false, ◌&&◌, ◌||◌, not, Option, none, some, List, [], ◌∷◌, ◌==◌, string_eq, nat_eq,
  if◌then◌else◌, contains,
}
use ruriko.Prelude.GoMap.{GoMap, put, empty}
use ruriko.Commands.Router.{Command, get_flag}
use ruriko.Approvals.{
  Approval, Status, approved, Error, Rows, Request, Attempt, Created, created, failed, create, get,
  is_expired, is_pending, approve, deny, cancel, expire_stale,
}
use ruriko.Approvals.Parser.{Decision, Parsed, decision, not_a_decision, parse_decision}

abbrev gated_actions : List String
gated_actions =
    "agents.delete" ∷ "agents.disable" ∷ "secrets.delete" ∷ "secrets.rotate" ∷ "gosuto.set"
    ∷ "gosuto.rollback" ∷ "topology.peer-set" ∷ "topology.peer-ensure" ∷ []

unfoldable pub is_gated : String → Bool
is_gated action = contains gated_actions action

-- What a handler gets back: it goes on, it answers that the request waits, or it fails.
pub data Gate : Type 0 where
  proceed : Gate
  waiting : Approval → Gate
  request_failed : Error → Gate

abbrev gate_of : Created → Gate
gate_of (created a) = waiting a
gate_of (failed e) = request_failed e

abbrev after_create : Rows × Created → Rows × Gate
after_create (rows, c) = (rows, gate_of c)

-- `configured` is whether the handlers have a gate. The flags of the command, which the request keeps
-- as JSON, are a list of entries, `entries`.
unfoldable pub request_approval_if_needed :
    Bool
    → (ℕ → Attempt)
    → ℕ
    → ℕ
    → List (String × String)
    → String
    → String
    → Command
    → String
    → Rows
    → Rows × Gate
unfolding is_gated
request_approval_if_needed configured draw now ttl entries action target cmd sender rows =
    if get_flag cmd "_approved" "" == "true"
    then (rows, proceed)
    else if not configured || not (is_gated action)
    then (rows, proceed)
    else after_create (
        create draw now
          (record {
            action = action;
            target = target;
            params = (cmd.args, entries);
            requestor_mxid = sender;
            ttl = ttl;
          })
          rows)

-- How the handler of a decision ends. An approved command is dispatched under a key, on behalf of a
-- sender, if the dispatch function is set.
pub data Outcome : Type 0 where
  refused : Parsed → Outcome
  not_configured not_found own_request has_expired denied : Outcome
  already : Status → Outcome
  failed_to_resolve : Error → Outcome
  dispatched : String → Command → String → Outcome
  no_dispatch : Outcome

-- The parts of strings.SplitN(action, ".", 2).
abbrev pub before_dot : String → String
before_dot String.[] = String.[]
before_dot (String.◌∷◌ c s) =
    let rest = before_dot s in if code c == 46 then String.[] else String.◌∷◌ c rest

abbrev pub behind_dot : String → String
behind_dot String.[] = String.[]
behind_dot (String.◌∷◌ c s) = let rest = behind_dot s in if code c == 46 then s else rest

abbrev flags_of : List (String × String) → GoMap String
flags_of [] = empty
flags_of ((k, v) ∷ rest) = put (flags_of rest) k v

unfoldable pub approved_command : String → Approval → Command
approved_command trace_id a = record {
  name = before_dot a.action;
  subcommand = behind_dot a.action;
  args = a.params.0;
  flags =
      put (put (put (flags_of a.params.1) "_approved" "true") "_approval_id" a.id) "_trace_id"
        trace_id;
  raw_text = "";
}

-- What the surroundings give one call of the handler: what is set up, which statements fail, and the
-- clock at the sweep, at the test of the deadline and at the update.
pub record Setting : Type 0 where
  pub configured : Bool
  pub can_dispatch : Bool
  pub sweep_fails : Bool
  pub get_fails : Bool
  pub update_fails : Bool
  pub swept_at : ℕ
  pub tested_at : ℕ
  pub updated_at : ℕ
  pub trace_id : String

abbrev after_approve : Setting → Approval → Rows × Option Error → Rows × Outcome
after_approve w a (rows, some e) = (rows, failed_to_resolve e)
after_approve w a (rows, none) = (
  rows,
  if w.can_dispatch
      then dispatched a.action (approved_command w.trace_id a) a.requestor_mxid
      else no_dispatch,
)

abbrev after_deny : Rows × Option Error → Rows × Outcome
after_deny (rows, some e) = (rows, failed_to_resolve e)
after_deny (rows, none) = (rows, denied)

-- The request is found.
unfoldable pub decide_on : Setting → String → Decision → Approval → Rows → Rows × Outcome
decide_on w sender d a rows =
    if not (is_pending a.status)
    then (rows, already a.status)
    else if d.approve && a.requestor_mxid == sender
    then (rows, own_request)
    else if is_expired w.tested_at a
    then (
      (cancel w.update_fails w.updated_at d.approval_id sender "expired before decision" rows).0,
      has_expired,
    )
    else if d.approve
    then after_approve w a (approve w.update_fails w.updated_at d.approval_id sender d.reason rows)
    else after_deny (deny w.update_fails w.updated_at d.approval_id sender d.reason rows)

abbrev decide_found : Setting → String → Decision → Rows → Option Approval → Rows × Outcome
decide_found w sender d rows none = (rows, not_found)
decide_found w sender d rows (some a) = decide_on w sender d a rows

abbrev pub decide_swept : Setting → String → Decision → Rows → Rows × Outcome
decide_swept w sender d rows = decide_found w sender d rows (get w.get_fails d.approval_id rows)

abbrev pub decide_parsed : Setting → String → Rows → Parsed → Rows × Outcome
decide_parsed w sender rows (decision d) =
    if not w.configured
    then (rows, not_configured)
    else decide_swept w sender d (expire_stale w.sweep_fails w.swept_at rows).0
decide_parsed w sender rows p = (rows, refused p)

unfoldable pub handle_approval_decision : Setting → String → String → Rows → Rows × Outcome
handle_approval_decision w sender message rows =
    decide_parsed w sender rows (parse_decision message)
