-- ===== src/Policy.antt =====
-- internal/gitai/policy/engine.go: whether an agent may call a tool. A message that Go formats is
-- the format with its arguments.
mod Tests
pub mod FirstMatch
pub mod Order
pub mod Access
use text.Mathlib.Text.{starts_with}
use ruriko.Prelude.{
  String, Bool, true, false, not, ◌||◌, Option, none, some, List, [], ◌∷◌, ◌==◌, string_eq, any,
  if◌then◌else◌,
}
use ruriko.Prelude.GoMap.{GoMap}
use ruriko.Gosuto.Types.{Capability, Config}

pub data Decision : Type 0 where
  allow require_approval deny : Decision

pub data Message : Type 0 where
  no_config_loaded : Message
  rule_denies : Message
  no_rule_matches : String → String → Message
  url_lacks_prefix : String → String → Message
  arg_differs : String → String → String → Message

pub record Violation : Type 0 where
  pub rule : String
  pub constraint : String
  pub message : Message

pub record Result : Type 0 where
  pub decision : Decision
  pub matched_rule : String
  pub violation : Option Violation

-- An argument of a call: a string, or a value of another type, which is seen only as `%v` prints it.
pub data Arg : Type 0 where
  str : String → Arg
  other : String → Arg

-- fmt.Sprintf("%v", arg)
abbrev pub printed : Arg → String
printed (str s) = s
printed (other s) = s

unfoldable pub matches_glob : String → String → Bool
matches_glob pattern value = pattern == "*" || pattern == value

unfoldable pub matches_any : List String → String → Bool
matches_any [] value = false
matches_any (s ∷ list) value = s == "*" || s == value || matches_any list value

abbrev violation_of : Capability → String → Message → Violation
violation_of rule key message = record { rule = rule.name; constraint = key; message = message }

-- Only a string is checked against a prefix.
check_prefix : Capability → String → String → Option Arg → Option Violation
check_prefix rule key expected none = none
check_prefix rule key expected (some (other s)) = none
check_prefix rule key expected (some (str url)) =
    if starts_with url expected
    then none
    else some (violation_of rule key (url_lacks_prefix url expected))

check_equal : Capability → String → String → Option Arg → Option Violation
check_equal rule key expected none = none
check_equal rule key expected (some actual) =
    if printed actual == expected
    then none
    else some (violation_of rule key (arg_differs key (printed actual) expected))

-- The switch over the key of one constraint.
pub check_constraint : Capability → GoMap Arg → String × String → Option Violation
unfolding check_prefix check_equal
check_constraint rule args (key, expected) =
    if key == "url_prefix"
    then check_prefix rule key expected (args "url")
    else check_equal rule key expected (args key)

abbrev or_else {ℓ} : {A : Type ℓ} → Option A → Option A → Option A
or_else none o = o
or_else (some a) o = some a

-- The constraints in the order in which Go visits the map.
pub check_constraints : Capability → List (String × String) → GoMap Arg → Option Violation
check_constraints rule [] args = none
check_constraints rule (c ∷ rest) args =
    or_else (check_constraint rule args c) (check_constraints rule rest args)

abbrev denied : String → Violation → Result
denied rule v = record { decision = deny; matched_rule = rule; violation = some v }

abbrev pub matches : String → String → Capability → Bool
matches mcp_server tool rule =
    if matches_glob rule.mcp mcp_server then matches_glob rule.tool tool else false

-- What a rule that matches decides.
pub decide : Capability → Option Violation → Result
decide rule (some v) = denied rule.name v
decide rule none =
    if not rule.allow
    then denied rule.name (record { rule = rule.name; constraint = ""; message = rule_denies })
    else if rule.require_approval
    then record { decision = require_approval; matched_rule = rule.name; violation = none }
    else record { decision = allow; matched_rule = rule.name; violation = none }

pub evaluate_rules : List Capability → String → String → GoMap Arg → Result
unfolding decide check_constraints check_constraint
evaluate_rules [] mcp_server tool args =
    denied "<default>"
      (record { rule = "<default>"; constraint = ""; message = no_rule_matches mcp_server tool })
evaluate_rules (rule ∷ rest) mcp_server tool args =
    if matches mcp_server tool rule
    then decide rule (check_constraints rule rule.constraints args)
    else evaluate_rules rest mcp_server tool args

unfoldable pub evaluate : Option Config → String → String → GoMap Arg → Result
unfolding evaluate_rules
evaluate none mcp_server tool args =
    denied "<no config>"
      (record { rule = "<no config>"; constraint = ""; message = no_config_loaded })
evaluate (some cfg) mcp_server tool args = evaluate_rules cfg.capabilities mcp_server tool args

unfoldable pub is_sender_allowed : Option Config → String → Bool
is_sender_allowed none sender = false
is_sender_allowed (some cfg) sender = matches_any cfg.trust.allowed_senders sender

unfoldable pub is_room_allowed : Option Config → String → Bool
is_room_allowed none room = false
is_room_allowed (some cfg) room = matches_any cfg.trust.allowed_rooms room

abbrev is_cons {ℓ} : {A : Type ℓ} → List A → Bool
is_cons [] = false
is_cons (x ∷ xs) = true

unfoldable pub is_messaging_configured : Option Config → Bool
is_messaging_configured none = false
is_messaging_configured (some cfg) = is_cons cfg.messaging.allowed_targets
