-- ===== src/Gosuto/Validate/Sections.antt =====
-- common/spec/gosuto/validate.go: the checks of each section but the workflow.
use Prim.Native.String.{String}
use ruriko.Prelude.{
  Bool, true, false, not, ◌&&◌, Option, none, some, List, [], ◌∷◌, ◌==◌, string_eq, if◌then◌else◌,
}
use ruriko.Prelude.Int.{ℤ, pos, leb_ℤ}
use ruriko.Prelude.Text.{append, has_prefix, trim_space}
use ruriko.Gosuto.Check.{
  Problem, blank_name, no_rooms, wrong_room, no_senders, wrong_sender, wrong_peer_mxid,
  wrong_peer_room, no_protocols, blank_protocol, duplicate_peer, negative_limit, blank_command,
  duplicate_name, type_and_command, no_type_or_command, no_expression, no_target, no_payload,
  unknown_source, no_hmac_secret, unknown_gateway_type, blank_trigger, blank_action, blank_role,
  wrong_temperature, blank_room, wrong_target_room, blank_alias, alias_with_blanks, duplicate_alias,
  Check, fail_if, ◌also◌, is_blank, has_blank, check_all, add_names, check_named,
}
use ruriko.Gosuto.Types.{
  Trust, TrustedPeer, Limits, Capability, McpServer, Gateway, SecretRef, Instructions,
  InstructionStep, PeerRef, Messaging, MessagingTarget,
}

abbrev pub is_none {ℓ} : {A : Type ℓ} → List A → Bool
is_none [] = true
is_none (x ∷ xs) = false

abbrev pub is_negative : ℤ → Bool
is_negative n = not (leb_ℤ (pos 0) n)

abbrev pub check_id : String → Problem → String → Check
check_id sign p id = fail_if (not (id == "*") && not (has_prefix sign id)) p

-- A peer, a room and a protocol as the key of a map.
abbrev pub tuple_of : TrustedPeer → String → String
tuple_of peer protocol =
    append peer.mxid (append "|" (append peer.room_id (append "|" (trim_space protocol))))

abbrev pub check_peer : TrustedPeer → Check
check_peer peer =
    fail_if (not (has_prefix "@" peer.mxid)) wrong_peer_mxid
    also fail_if (not (has_prefix "!" peer.room_id)) wrong_peer_room
    also fail_if (is_none peer.protocols) no_protocols

abbrev pub check_protocol : String → Check
check_protocol protocol = fail_if (is_blank protocol) blank_protocol

abbrev pub check_peers : List String → List TrustedPeer → Check
check_peers seen [] = none
check_peers seen (peer ∷ peers) =
    check_peer peer
    also check_named check_protocol (tuple_of peer) duplicate_peer seen peer.protocols
    also check_peers (add_names (tuple_of peer) peer.protocols seen) peers

unfoldable pub validate_trust : Trust → Check
validate_trust t =
    fail_if (is_none t.allowed_rooms) no_rooms
    also check_all (check_id "!" wrong_room) t.allowed_rooms
    also fail_if (is_none t.allowed_senders) no_senders
    also check_all (check_id "@" wrong_sender) t.allowed_senders
    also check_peers [] t.trusted_peers

unfoldable pub validate_limits : Limits → Check
validate_limits l =
    fail_if (is_negative l.max_requests_per_minute) negative_limit
    also fail_if (is_negative l.max_tokens_per_request) negative_limit
    also fail_if (is_negative l.max_concurrent_requests) negative_limit
    also fail_if l.max_monthly_cost_is_negative negative_limit
    also fail_if (is_negative l.max_events_per_minute) negative_limit

unfoldable pub validate_capability : Capability → Check
validate_capability c = fail_if (is_blank c.name) blank_name

unfoldable pub validate_mcp_server : McpServer → Check
validate_mcp_server m =
    fail_if (is_blank m.name) blank_name also fail_if (is_blank m.command) blank_command

-- g.Config[key], where a missing key is the empty text.
abbrev pub setting : String → List (String × String) → String
setting key [] = ""
setting key ((k, v) ∷ rest) = let later = setting key rest in if k == key then v else later

abbrev source_or_static : String → String
source_or_static s = if is_blank s then "static" else trim_space s

abbrev check_cron : List (String × String) → Check
check_cron config =
    let source = source_or_static (setting "source" config) in
    let no_expr = is_blank (setting "expression" config) in
    if source == "static"
    then fail_if no_expr no_expression
    else if source == "db"
    then (if no_expr
        then none
        else (fail_if (is_blank (setting "target" config)) no_target
            also fail_if (is_blank (setting "payload" config)) no_payload))
    else some unknown_source

abbrev check_webhook : List (String × String) → Check
check_webhook config =
    fail_if
      (setting "authType" config == "hmac-sha256" && is_blank (setting "hmacSecretRef" config))
      no_hmac_secret

abbrev check_gateway_type : Gateway → Check
check_gateway_type g =
    if is_blank g.kind
    then none
    else if g.kind == "cron"
    then check_cron g.config
    else if g.kind == "webhook"
    then check_webhook g.config
    else some unknown_gateway_type

unfoldable pub validate_gateway : Gateway → Check
validate_gateway g =
    fail_if (is_blank g.name) blank_name
    also fail_if (not (is_blank g.kind) && not (is_blank g.command)) type_and_command
    also fail_if (is_blank g.kind && is_blank g.command) no_type_or_command
    also check_gateway_type g

abbrev pub name_of_mcp : McpServer → String
name_of_mcp m = m.name

abbrev pub name_of_gateway : Gateway → String
name_of_gateway g = g.name

-- The servers and the gateways share their names.
unfoldable pub validate_supervised : List McpServer → List Gateway → Check
unfolding validate_mcp_server validate_gateway
validate_supervised mcps gateways =
    check_named validate_mcp_server name_of_mcp duplicate_name [] mcps
    also check_named validate_gateway name_of_gateway duplicate_name (add_names name_of_mcp mcps [])
        gateways

unfoldable pub validate_secret : SecretRef → Check
validate_secret r = fail_if (is_blank r.name) blank_name

abbrev check_instruction : InstructionStep → Check
check_instruction s =
    fail_if (is_blank s.trigger) blank_trigger also fail_if (is_blank s.action) blank_action

abbrev check_peer_ref : PeerRef → Check
check_peer_ref p = fail_if (is_blank p.name) blank_name also fail_if (is_blank p.role) blank_role

unfoldable pub validate_instructions : Instructions → Check
validate_instructions ins =
    check_all check_instruction ins.workflow also check_all check_peer_ref ins.peers

abbrev pub check_target : MessagingTarget → Check
check_target t =
    fail_if (is_blank t.room_id) blank_room
    also fail_if (not (has_prefix "!" t.room_id)) wrong_target_room
    also fail_if (is_blank t.alias) blank_alias
    also fail_if (has_blank t.alias) alias_with_blanks

abbrev pub alias_of : MessagingTarget → String
alias_of t = t.alias

unfoldable pub validate_messaging : Messaging → Check
validate_messaging m =
    fail_if (is_negative m.max_messages_per_minute) negative_limit
    also check_named check_target alias_of duplicate_alias [] m.allowed_targets

abbrev in_range : Option Bool → Check
in_range none = none
in_range (some ok) = fail_if (not ok) wrong_temperature

unfoldable pub validate_persona : Option Bool → Check
validate_persona t = in_range t
