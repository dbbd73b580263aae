-- ===== src/Gosuto/Tests.antt =====
-- The validation of one configuration, with a tool server, a gateway, a trusted peer and a message target.
use ruriko.Prelude.{false, true, [], ◌∷◌, ◌++◌, map, ◌≡◌, refl, some}
use ruriko.Prelude.Int.{pos}
use ruriko.Prelude.Text.{trim_space}
use ruriko.Json.{end}
use ruriko.Gosuto.Types.{Config, Gateway, McpServer}
use ruriko.Gosuto.Check.{◌also◌, duplicate_name}
use ruriko.Gosuto.Check.Passes.{Distinct}
use ruriko.Gosuto.Validate.{validate}
use ruriko.Gosuto.Validate.Sections.{name_of_mcp, name_of_gateway, alias_of, validate_supervised}
use ruriko.Gosuto.Validate.Names.{tuples, validate-Distinct}

abbrev finder : McpServer
finder = record { name = "search"; command = "npx"; args = []; env = []; auto_restart = true }

abbrev ticker : Gateway
ticker = record {
  name = "ticker";
  kind = "cron";
  command = "";
  args = [];
  env = [];
  config = ("expression", "*/5 * * * *") ∷ [];
  auto_restart = false;
}

abbrev cfg : Config
cfg = record {
  api_version = "gosuto/v1";
  metadata = record { name = "saito"; template = ""; canonical_name = ""; description = "" };
  limits = record {
    max_requests_per_minute = pos 10;
    max_tokens_per_request = pos 0;
    max_concurrent_requests = pos 0;
    max_monthly_cost_is_negative = false;
    max_events_per_minute = pos 0;
  };
  approvals = record { enabled = true; room = "!a"; approvers = []; ttl_seconds = 60 };
  mcps = finder ∷ [];
  gateways = ticker ∷ [];
  secrets = record { name = "key"; env_var = "KEY"; required = true } ∷ [];
  temperature_in_range = some true;
  instructions = record { role = ""; workflow = []; user = ""; peers = [] };
  workflow = record { schemas = record { definitions = end; duplicates = [] }; protocols = [] };
  trust = record {
    allowed_rooms = "!a" ∷ [];
    allowed_senders = "*" ∷ [];
    require_e2ee = false;
    admin_room = "!a";
    trusted_peers =
        record { mxid = "@kumo"; room_id = "!r"; alias = "kumo"; protocols = "ask" ∷ "tell" ∷ [] }
        ∷ [];
  };
  capabilities = [];
  messaging = record {
    allowed_targets = record { room_id = "!r"; alias = "kumo" } ∷ [];
    max_messages_per_minute = pos 5;
  };
}

test_shared_name :
    validate_supervised (finder ∷ []) (
      record {
        name = "search";
        kind = "cron";
        command = "";
        args = [];
        env = [];
        config = ("expression", "*/5 * * * *") ∷ [];
        auto_restart = false;
      }
      ∷ [])
    ≡ some duplicate_name
unfolding validate_supervised ◌also◌ trim_space
test_shared_name = refl

validate-Distinct_example :
    Distinct (map name_of_mcp cfg.mcps ++ map name_of_gateway cfg.gateways)
    × (Distinct (tuples cfg.trust.trusted_peers)
        × Distinct (map alias_of cfg.messaging.allowed_targets))
unfolding validate ◌also◌ trim_space
validate-Distinct_example = validate-Distinct cfg refl
