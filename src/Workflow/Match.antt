-- ===== src/Workflow/Match.antt =====
-- internal/gitai/workflow/workflow.go and gateway.go: which protocol a message or an event starts.
pub mod Heard
pub mod Schemas
pub mod Trusted
use Prim.Native.String.{String}
use ruriko.Prelude.{
  Bool, true, false, not, ◌&&◌, ◌||◌, Option, none, some, List, [], ◌∷◌, ◌==◌, string_eq,
  if◌then◌else◌, any, contains, ◌⊎◌, inl, inr,
}
use ruriko.Prelude.Text.{append, is_empty, trim_space, cut_prefix}
use ruriko.Json.{Value, null, str, obj, Fields, end, field, get, put}
use ruriko.Gosuto.Types.{Config, Trust, TrustedPeer}
use ruriko.Gosuto.Workflow.{WorkflowProtocol}
use ruriko.Workflow.State.{
  ExecutionContext, Result, ok, err, diverges, Error, coded, Reason, schema_validation,
  invalid_protocol_message, trust_mismatch, missing_payload, payload_not_decoded,
  payload_not_object, not_trusted, schema_not_found, schema_not_object, ◌>>=◌,
}
use ruriko.Workflow.Schema.{validate_payload_against_schema, as_schema_error, refused}

pub record InboundProtocolMatch : Type 0 where
  pub protocol : WorkflowProtocol
  pub payload : Fields
  pub schema_definitions : Fields
  pub prefix : String
  pub raw_text : String

-- encoding/json: what `json.Unmarshal` makes of a text, if it is JSON.
abbrev pub Decoder : Type 0
Decoder = String → Option Value

abbrev decoded : Option Value → Reason ⊎ Fields
decoded none = inl payload_not_decoded
decoded (some (obj m)) = inr m
decoded (some null) = inl payload_not_object
decoded (some _) = inl payload_not_decoded

abbrev parse_remainder : Decoder → String → Reason ⊎ Fields
parse_remainder decode remainder =
    if is_empty remainder then inl missing_payload else decoded (decode remainder)

-- `none` stands for a message without the prefix.
unfoldable pub parse_protocol_message : Decoder → String → String → Option (Reason ⊎ Fields)
unfolding trim_space
parse_protocol_message decode prefix text = elim (cut_prefix prefix text) [
  | none ↦ none
  | some rest ↦ some (parse_remainder decode (trim_space rest))
]

unfoldable pub is_trusted_protocol_peer : Trust → String → String → String → Bool
is_trusted_protocol_peer trust sender_mxid room_id protocol_id =
    any
      (λ (p : TrustedPeer).
        p.mxid == sender_mxid && (p.room_id == room_id && contains p.protocols protocol_id))
      trust.trusted_peers

abbrev validate_input : String → Option Value → Fields → Result Unit
validate_input id none payload = refused id schema_not_found
validate_input id (some (obj schema)) payload =
    as_schema_error id (validate_payload_against_schema schema payload)
validate_input id (some _) payload = refused id schema_not_object

unfoldable pub validate_protocol_input_schema : Config → WorkflowProtocol → Fields → Result Unit
validate_protocol_input_schema cfg protocol payload =
    if is_empty (trim_space protocol.input_schema_ref)
    then ok tt
    else validate_input protocol.id (get protocol.input_schema_ref cfg.workflow.schemas.definitions)
        payload

abbrev matched : Config → WorkflowProtocol → Fields → String → String → InboundProtocolMatch
matched cfg protocol payload prefix text = record {
  protocol = protocol;
  payload = payload;
  schema_definitions = cfg.workflow.schemas.definitions;
  prefix = prefix;
  raw_text = text;
}

abbrev answer :
    Config
    → String
    → String
    → String
    → WorkflowProtocol
    → Reason ⊎ Fields
    → Result (Option InboundProtocolMatch)
answer cfg room_id sender_mxid text protocol (inl reason) =
    err (coded invalid_protocol_message protocol.id reason)
answer cfg room_id sender_mxid text protocol (inr payload) =
    validate_protocol_input_schema cfg protocol payload >>= λ u.
    if is_trusted_protocol_peer cfg.trust sender_mxid room_id protocol.id
    then ok (some (matched cfg protocol payload (trim_space protocol.trigger.prefix) text))
    else err (coded trust_mismatch protocol.id not_trusted)

-- Whether a protocol is for messages, and what a message that has its prefix holds.
unfoldable pub heard : Decoder → WorkflowProtocol → String → Option (Reason ⊎ Fields)
unfolding parse_protocol_message
heard decode protocol text =
    if not (protocol.trigger.kind == "matrix.protocol_message")
      || is_empty (trim_space protocol.trigger.prefix)
    then none
    else parse_protocol_message decode (trim_space protocol.trigger.prefix) text

unfoldable pub match_in :
    Decoder
    → Config
    → String
    → String
    → String
    → List WorkflowProtocol
    → Result (Option InboundProtocolMatch)
unfolding heard is_trusted_protocol_peer validate_protocol_input_schema
match_in decode cfg room_id sender_mxid text [] = ok none
match_in decode cfg room_id sender_mxid text (protocol ∷ rest) =
    let later = match_in decode cfg room_id sender_mxid text rest in
    elim (heard decode protocol text) [
      | none ↦ later
      | some got ↦ answer cfg room_id sender_mxid text protocol got
    ]

unfoldable pub match_inbound_protocol :
    Decoder → Config → String → String → String → Result (Option InboundProtocolMatch)
unfolding match_in
match_inbound_protocol decode cfg room_id sender_mxid text =
    if is_empty (trim_space text)
    then ok none
    else match_in decode cfg room_id sender_mxid (trim_space text) cfg.workflow.protocols

-- common/spec/envelope: an event of a gateway, its time as the text that the code formats;
-- `message` and `details` are its payload.
pub record Event : Type 0 where
  pub source : String
  pub kind : String
  pub ts : String
  pub message : String
  pub details : Fields

abbrev put_unless : Bool → String → Value → Fields → Fields
put_unless b k v m = if b then m else put k v m

abbrev has_entries : Fields → Bool
has_entries end = false
has_entries (field k v m) = true

unfoldable pub event_payload : Event → Fields
event_payload evt = put_unless (not (has_entries evt.details)) "data" (obj evt.details) (
    put_unless (is_empty evt.message) "message" (str evt.message) (
      field "source" (str evt.source) (
        field "type" (str evt.kind) (
          field "ts" (str evt.ts) (
            field "payload"
              (obj (field "message" (str evt.message) (field "data" (obj evt.details) end)))
              (field "gateway"
                (obj (
                  field "source" (str evt.source) (
                    field "event_type" (str evt.kind) (
                      field "timestamp" (str evt.ts)
                        (field "message" (str evt.message) (field "data" (obj evt.details) end))))))
                end))))))

abbrev is_for : Event → WorkflowProtocol → Bool
is_for evt protocol =
    protocol.trigger.kind == "gateway.event"
    && (is_empty (trim_space protocol.trigger.prefix)
        || trim_space protocol.trigger.prefix == evt.kind)

abbrev raw_text : Event → String
raw_text evt = append "gateway:" (append evt.source (append "/" evt.kind))

abbrev answer_event : Config → Event → WorkflowProtocol → Result (Option InboundProtocolMatch)
answer_event cfg evt protocol =
    validate_protocol_input_schema cfg protocol (event_payload evt) >>= λ u. ok (
      some (
        matched cfg protocol (event_payload evt) (trim_space protocol.trigger.prefix)
          (raw_text evt)))

unfoldable pub match_event_in :
    Config → Event → List WorkflowProtocol → Result (Option InboundProtocolMatch)
unfolding event_payload validate_protocol_input_schema
match_event_in cfg evt [] = ok none
match_event_in cfg evt (protocol ∷ rest) =
    let later = match_event_in cfg evt rest in
    if is_for evt protocol then answer_event cfg evt protocol else later

unfoldable pub match_gateway_protocol : Config → Event → Result (Option InboundProtocolMatch)
unfolding match_event_in
match_gateway_protocol cfg evt = match_event_in cfg evt cfg.workflow.protocols

unfoldable pub new_execution_context :
    String → String → String → InboundProtocolMatch → ExecutionContext
new_execution_context trace_id room_id sender_mxid m = record {
  trace_id = trace_id;
  room_id = room_id;
  sender_mxid = sender_mxid;
  protocol_id = m.protocol.id;
  input = m.payload;
  state = m.payload;
  schema_definitions = m.schema_definitions;
}
