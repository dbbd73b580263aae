-- ===== src/Gosuto/Validate/Names.antt =====
-- What a valid configuration is unambiguous about.
use ruriko.Prelude.{String, List, [], ◌∷◌, ◌++◌, map, string_eq}
use ruriko.Gosuto.Types.{Config, TrustedPeer, Trust, McpServer, Gateway, Messaging}
use ruriko.Gosuto.Check.{add_names, duplicate_peer, duplicate_alias, duplicate_name}
use ruriko.Gosuto.Check.Passes.{
  Passes, rest_of, first_of, check_named-Passes, Fresh, Fresh-append, Distinct, Fresh-Distinct,
}
use ruriko.Gosuto.Validate.{validate}
use ruriko.Gosuto.Validate.Sections.{
  tuple_of, check_protocol, check_peers, name_of_mcp, name_of_gateway, alias_of, validate_trust,
  validate_supervised, validate_messaging, validate_mcp_server, validate_gateway, check_target,
}

-- The peers of a configuration as tuples of sender, room and protocol.
abbrev pub tuples : List TrustedPeer → List String
tuples [] = []
tuples (peer ∷ peers) = map (tuple_of peer) peer.protocols ++ tuples peers

check_peers-Fresh :
    (seen : List String) (peers : List TrustedPeer)
    → Passes (check_peers seen peers)
    → Fresh seen (tuples peers)
check_peers-Fresh seen [] h = tt
check_peers-Fresh seen (peer ∷ peers) h =
    Fresh-append (tuple_of peer) seen peer.protocols (tuples peers)
      ((check_named-Passes check_protocol (tuple_of peer) duplicate_peer seen peer.protocols
        (first_of _ _ (rest_of _ _ h))).1)
      (check_peers-Fresh (add_names (tuple_of peer) peer.protocols seen) peers
        (rest_of _ _ (rest_of _ _ h)))

validate_trust-Distinct :
    (t : Trust) → Passes (validate_trust t) → Distinct (tuples t.trusted_peers)
unfolding validate_trust
validate_trust-Distinct t h =
    Fresh-Distinct (tuples t.trusted_peers) [] (
      check_peers-Fresh [] t.trusted_peers
        (rest_of _ _ (rest_of _ _ (rest_of _ _ (rest_of _ _ h)))))

validate_supervised-Distinct :
    (mcps : List McpServer) (gateways : List Gateway)
    → Passes (validate_supervised mcps gateways)
    → Distinct (map name_of_mcp mcps ++ map name_of_gateway gateways)
unfolding validate_supervised
validate_supervised-Distinct mcps gateways h =
    Fresh-Distinct (map name_of_mcp mcps ++ map name_of_gateway gateways) [] (
      Fresh-append name_of_mcp [] mcps (map name_of_gateway gateways)
        ((check_named-Passes validate_mcp_server name_of_mcp duplicate_name [] mcps
          (first_of _ _ h)).1)
        ((check_named-Passes validate_gateway name_of_gateway duplicate_name
          (add_names name_of_mcp mcps []) gateways (rest_of _ _ h)).1))

validate_messaging-Distinct :
    (m : Messaging) → Passes (validate_messaging m) → Distinct (map alias_of m.allowed_targets)
unfolding validate_messaging
validate_messaging-Distinct m h = Fresh-Distinct (map alias_of m.allowed_targets) [] (
    (check_named-Passes check_target alias_of duplicate_alias [] m.allowed_targets
      (rest_of _ _ h)).1)

-- In a configuration that Validate accepts, no tool server or gateway has the name of another one, no two
-- trusted peers are for the same sender, room and protocol, and no two message targets have one alias.
pub validate-Distinct :
    (cfg : Config)
    → Passes (validate cfg)
    → Distinct (map name_of_mcp cfg.mcps ++ map name_of_gateway cfg.gateways)
      × (Distinct (tuples cfg.trust.trusted_peers)
          × Distinct (map alias_of cfg.messaging.allowed_targets))
unfolding validate
validate-Distinct cfg h =
    let trust = rest_of _ _ (rest_of _ _ h) in
    let supervised = rest_of _ _ (rest_of _ _ (rest_of _ _ (rest_of _ _ trust))) in
    (
      validate_supervised-Distinct cfg.mcps cfg.gateways (first_of _ _ supervised),
      (
        validate_trust-Distinct cfg.trust (first_of _ _ trust),
        validate_messaging-Distinct cfg.messaging
            (rest_of _ _ (rest_of _ _ (rest_of _ _ (rest_of _ _ supervised)))),
      ),
    )
