-- ===== src/Agent/Messages.antt =====
-- internal/gitai/app/app.go: handleMessage up to the turn that it starts, and the texts that name an agent.
pub mod Admitted
mod Tests
use Prim.Native.String.{String}
use ruriko.Prelude.{
  ℕ, Bool, true, false, not, Option, none, some, ◌==◌, string_eq, ltb, if◌then◌else◌,
}
use ruriko.Prelude.Text.{
  is_empty, trim_space, has_prefix, has_prefix_lower, drop, cut, equal_fold, trim_prefix,
}
use ruriko.Gosuto.Types.{Config}
use ruriko.Gosuto.Workflow.{Steps, no_step, followed}
use ruriko.Policy.{is_sender_allowed, is_room_allowed}
use ruriko.Workflow.State.{Result, ok, err, diverges, Error}
use ruriko.Workflow.Match.{Decoder, InboundProtocolMatch, match_inbound_protocol}

-- A target and a body, neither of them blank.
abbrev both_filled : String → String → Option (String × String)
both_filled target body =
    if is_empty target then none else if is_empty body then none else some (target, body)

abbrev target_of : String → String
target_of before = trim_space (trim_prefix "@" (trim_space before))

abbrev split_at_comma : Option (String × String) → Option (String × String)
split_at_comma none = none
split_at_comma (some (before, after)) =
    if is_empty before then none else both_filled (target_of before) (trim_space after)

unfoldable pub parse_directed_agent_message : String → Option (String × String)
unfolding trim_space cut
parse_directed_agent_message text =
    let trimmed = trim_space text in
    if has_prefix_lower "hey " trimmed
    then split_at_comma (cut "," (trim_space (drop 4 trimmed)))
    else if has_prefix "@" trimmed
    then split_at_comma (cut "," trimmed)
    else none

abbrev before_colon : String → Option (String × String) → String
before_colon v none = v
before_colon v (some (before, after)) = if is_empty before then v else before

unfoldable pub normalize_directed_target : String → String
unfolding trim_space cut
normalize_directed_target target =
    let v = trim_space (trim_prefix "@" target) in trim_space (before_colon v (cut ":" v))

unfoldable pub is_directed_at_self : String → String → Bool
unfolding normalize_directed_target
is_directed_at_self target self =
    let t = normalize_directed_target target in
    let s = normalize_directed_target self in
    if is_empty t then false else if is_empty s then false else equal_fold t s

unfoldable pub agent_identity : Config → String → String
unfolding trim_space
agent_identity cfg fallback =
    let canonical = trim_space cfg.metadata.canonical_name in
    let name = trim_space cfg.metadata.name in
    if not (is_empty canonical)
    then canonical
    else if not (is_empty name)
    then name
    else trim_space fallback

pub record Message : Type 0 where
  pub sent_at : ℕ
  pub room_id : String
  pub sender : String
  pub body : String

-- When the agent was started, and its name in the environment.
pub record Setting : Type 0 where
  pub started_at : ℕ
  pub agent_id : String

-- What handleMessage does: nothing, the refusal of a protocol, the run of a protocol, or a turn of the model
-- with a text.
pub data Action : Type 0 where
  ignored : Action
  rejected : Error → Action
  workflow_turn : InboundProtocolMatch → Action
  turn : String → Action

abbrev pub has_steps : Steps → Bool
has_steps no_step = false
has_steps (followed s rest) = true

abbrev pub start : Bool → String → Result (Option InboundProtocolMatch) → Action
start directed text (err e) = rejected e
start directed text diverges = ignored
start directed text (ok none) = if directed then turn text else ignored
start directed text (ok (some m)) =
    if has_steps m.protocol.steps then workflow_turn m else turn text

abbrev pub start_directed : Decoder → Setting → Config → Message → Option (String × String) → Action
start_directed decode set cfg msg none =
    start false msg.body (match_inbound_protocol decode cfg msg.room_id msg.sender msg.body)
start_directed decode set cfg msg (some (target, body)) =
    if is_directed_at_self target (agent_identity cfg set.agent_id)
    then start true body (match_inbound_protocol decode cfg msg.room_id msg.sender body)
    else ignored

abbrev pub with_config : Decoder → Setting → Option Config → Message → Action
with_config decode set none msg = ignored
with_config decode set (some cfg) msg =
    start_directed decode set cfg msg (parse_directed_agent_message msg.body)

-- The policy reads its configuration by itself, so it may be another one than the configuration of the turn.
unfoldable pub handle_message : Decoder → Setting → Option Config → Option Config → Message → Action
unfolding parse_directed_agent_message is_directed_at_self agent_identity
handle_message decode set policy cfg msg =
    if ltb msg.sent_at set.started_at
    then ignored
    else if not (is_room_allowed policy msg.room_id)
    then ignored
    else if not (is_sender_allowed policy msg.sender)
    then ignored
    else with_config decode set cfg msg
