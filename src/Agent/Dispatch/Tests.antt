-- ===== src/Agent/Dispatch/Tests.antt =====
-- Calls of a browser, which is allowed, and of mail, which asks for an approval.
use ruriko.Prelude.{true, false, none, some, [], ◌∷◌, ◌≡◌, refl, ◌==◌, string_eq, if◌then◌else◌}
use ruriko.Prelude.Int.{pos}
use ruriko.Prelude.Text.{cut, trim_space}
use ruriko.Json.{str, end, field}
use ruriko.Gosuto.Types.{Config, Capability}
use ruriko.Policy.{matches_glob, evaluate}
use ruriko.AgentApprovals.{Rows}
use ruriko.Agent.Dispatch.{Tools, Call, called, dispatch_tool_call}
use ruriko.Agent.Dispatch.Permitted.{IsLawful, dispatch_tool_call-IsLawful}

abbrev open_rule : Capability
open_rule = record {
  name = "web";
  mcp = "browser";
  tool = "open";
  allow = true;
  require_approval = false;
  constraints = ("url_prefix", "https://go.dev") ∷ [];
}

abbrev send_rule : Capability
send_rule = record {
  name = "mail";
  mcp = "mail";
  tool = "send";
  allow = true;
  require_approval = true;
  constraints = [];
}

abbrev cfg : Config
cfg = record {
  api_version = "gosuto/v1";
  metadata = record { name = "kumo"; template = ""; canonical_name = ""; description = "" };
  limits = record {
    max_requests_per_minute = pos 0;
    max_tokens_per_request = pos 0;
    max_concurrent_requests = pos 0;
    max_monthly_cost_is_negative = false;
    max_events_per_minute = pos 0;
  };
  approvals = record { enabled = true; room = "!a"; approvers = []; ttl_seconds = 60 };
  mcps = [];
  gateways = [];
  secrets = [];
  temperature_in_range = none;
  instructions = record { role = ""; workflow = []; user = ""; peers = [] };
  workflow = record { schemas = record { definitions = end; duplicates = [] }; protocols = [] };
  trust = record {
    allowed_rooms = "*" ∷ [];
    allowed_senders = "*" ∷ [];
    require_e2ee = false;
    admin_room = "!a";
    trusted_peers =
        record { mxid = "@saito"; room_id = "!r"; alias = "saito"; protocols = "ping.v1" ∷ [] }
        ∷ [];
  };
  capabilities = open_rule ∷ send_rule ∷ [];
  messaging = record { allowed_targets = []; max_messages_per_minute = pos 0 };
}

abbrev tools : Tools
tools = record {
  is_builtin = λ name. false;
  is_registered = λ name. false;
  is_running = λ server. true;
  has_gate = true;
  secret = λ ref. if ref == "key" then some "hunter2" else none;
}

abbrev open_page : Call
open_page = record {
  trace_id = "t1";
  name = "browser__open";
  args = field "url" (str "https://go.dev/doc") (field "token" (str "{{secret:key}}") end);
  save_fails = false;
  now = 100;
  events = [];
}

abbrev no_rows : Rows
no_rows id = none

test_open :
    (dispatch_tool_call tools (some cfg) (some cfg) open_page no_rows).1
    ≡ called "browser" "open"
        (field "url" (str "https://go.dev/doc") (field "token" (str "hunter2") end))
unfolding dispatch_tool_call evaluate matches_glob cut trim_space
test_open = refl

dispatch_tool_call-IsLawful_example :
    IsLawful tools
      (some cfg)
      open_page
      (dispatch_tool_call tools (some cfg) (some cfg) open_page no_rows).1
dispatch_tool_call-IsLawful_example =
    dispatch_tool_call-IsLawful tools (some cfg) (some cfg) open_page no_rows
