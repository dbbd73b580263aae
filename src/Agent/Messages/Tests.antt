-- ===== src/Agent/Messages/Tests.antt =====
-- An agent named Kumo, its protocol for a peer, and messages to it.
use ruriko.Prelude.{false, none, some, [], ◌∷◌, ◌≡◌, refl}
use ruriko.Prelude.Int.{pos}
use ruriko.Json.{end, obj}
use ruriko.Gosuto.Types.{Config}
use ruriko.Gosuto.Workflow.{WorkflowProtocol, no_step}
use ruriko.Policy.{is_room_allowed, is_sender_allowed, matches_any}
use ruriko.Workflow.Match.{Decoder, match_inbound_protocol}
use ruriko.Agent.Messages.{Message, Setting, ignored, turn, handle_message}
use ruriko.Agent.Messages.Admitted.{IsJustified, handle_message-IsJustified}

abbrev ping : WorkflowProtocol
ping = record {
  id = "ping.v1";
  trigger = record { kind = "matrix.protocol_message"; prefix = "PING" };
  input_schema_ref = "";
  retries = pos 0;
  steps = no_step;
}

abbrev cfg : Config
cfg = record {
  api_version = "gosuto/v1";
  metadata = record { name = "kumo"; template = ""; canonical_name = ""; description = "" };
  limits = record {
    max_requests_per_minute = pos 0;
    max_tokens_per_request = pos 0;
    max_concurrent_requests = pos 0;
    max_monthly_cost_is_negative = false;
    max_events_per_minute = pos 0;
  };
  approvals = record { enabled = false; room = "!a"; approvers = []; ttl_seconds = 60 };
  mcps = [];
  gateways = [];
  secrets = [];
  temperature_in_range = none;
  instructions = record { role = ""; workflow = []; user = ""; peers = [] };
  workflow = record {
    schemas = record { definitions = end; duplicates = [] };
    protocols = ping ∷ [];
  };
  trust = record {
    allowed_rooms = "*" ∷ [];
    allowed_senders = "*" ∷ [];
    require_e2ee = false;
    admin_room = "!a";
    trusted_peers =
        record { mxid = "@saito"; room_id = "!r"; alias = "saito"; protocols = "ping.v1" ∷ [] }
        ∷ [];
  };
  capabilities = [];
  messaging = record { allowed_targets = []; max_messages_per_minute = pos 0 };
}

abbrev decode : Decoder
decode text = some (obj end)

abbrev setting : Setting
setting = record { started_at = 10; agent_id = "kumo" }

abbrev to_kumo : Message
to_kumo = record { sent_at = 20; room_id = "!r"; sender = "@ann"; body = "Hey @Kumo, what is new?" }

abbrev to_saito : Message
to_saito = record {
  sent_at = 20;
  room_id = "!r";
  sender = "@ann";
  body = "hey saito, what is new?";
}

test_other_agent : handle_message decode setting (some cfg) (some cfg) to_saito ≡ ignored
unfolding handle_message is_room_allowed is_sender_allowed matches_any
test_other_agent = refl

test_own : handle_message decode setting (some cfg) (some cfg) to_kumo ≡ turn "what is new?"
unfolding handle_message is_room_allowed is_sender_allowed matches_any match_inbound_protocol
test_own = refl

handle_message-IsJustified_example :
    IsJustified setting
      (some cfg)
      (some cfg)
      to_kumo
      (handle_message decode setting (some cfg) (some cfg) to_kumo)
handle_message-IsJustified_example =
    handle_message-IsJustified decode setting (some cfg) (some cfg) to_kumo
