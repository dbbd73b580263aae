-- ===== src/Policy/Tests.antt =====
-- The policy at one configuration: a rule for a browser with a prefix, one that asks for approval,
-- and one that forbids the rest.
use ruriko.Prelude.{true, false, none, some, [], ◌∷◌, ◌≡◌, ◌↔◌, refl}
use ruriko.Prelude.GoMap.{GoMap, empty, put}
use ruriko.Prelude.Int.{pos}
use ruriko.Json.{end}
use ruriko.Gosuto.Types.{Capability, Config}
use ruriko.Policy.{allow, require_approval, deny, Arg, str, evaluate, matches_glob}
use ruriko.Policy.FirstMatch.{Granted, evaluate-FirstMatch}

abbrev browse : Capability
browse = record {
  name = "browse";
  mcp = "browser";
  tool = "*";
  allow = true;
  require_approval = false;
  constraints = ("url_prefix", "https://") ∷ ("mode", "read") ∷ [];
}

abbrev browse' : Capability
browse' = record browse { constraints = ("mode", "read") ∷ ("url_prefix", "https://") ∷ [] }

abbrev mail : Capability
mail = record {
  name = "mail";
  mcp = "mail";
  tool = "send";
  allow = true;
  require_approval = true;
  constraints = [];
}

abbrev cfg : Config
cfg = record {
  api_version = "gosuto/v1";
  metadata = record { name = "web"; template = ""; canonical_name = ""; description = "" };
  limits = record {
    max_requests_per_minute = pos 0;
    max_tokens_per_request = pos 0;
    max_concurrent_requests = pos 0;
    max_monthly_cost_is_negative = false;
    max_events_per_minute = pos 0;
  };
  approvals = record { enabled = true; room = "!a"; approvers = []; ttl_seconds = 60 };
  mcps = [];
  gateways = [];
  secrets = [];
  temperature_in_range = none;
  instructions = record { role = ""; workflow = []; user = ""; peers = [] };
  workflow = record { schemas = record { definitions = end; duplicates = [] }; protocols = [] };
  trust = record {
    allowed_rooms = "!a" ∷ [];
    allowed_senders = "*" ∷ [];
    require_e2ee = false;
    admin_room = "!a";
    trusted_peers = [];
  };
  capabilities = browse ∷ mail ∷ [];
  messaging = record { allowed_targets = []; max_messages_per_minute = pos 0 };
}

abbrev call : GoMap Arg
call = put (put empty "url" (str "https://go.dev")) "mode" (str "read")

test_allowed : (evaluate (some cfg) "browser" "open" call).decision ≡ allow
unfolding evaluate matches_glob
test_allowed = refl

test_approval : (evaluate (some cfg) "mail" "send" call).decision ≡ require_approval
unfolding evaluate matches_glob
test_approval = refl

test_default : (evaluate (some cfg) "mail" "read" call).decision ≡ deny
unfolding evaluate matches_glob
test_default = refl

evaluate-FirstMatch_example :
    (((evaluate (some cfg) "browser" "open" call).decision ≡ allow)
      ↔ Granted allow "browser" "open" call cfg.capabilities)
    × (((evaluate (some cfg) "browser" "open" call).decision ≡ require_approval)
        ↔ Granted require_approval "browser" "open" call cfg.capabilities)
    × ((evaluate none "browser" "open" call).decision ≡ deny)
evaluate-FirstMatch_example = evaluate-FirstMatch cfg "browser" "open" call
