-- ===== src/Workflow/Tests.antt =====
-- A protocol that plans, writes a message and keeps a value, over a peer's message.
use Prim.Native.String.{String}
use mathlib.Core.List.{Memᴰ}
use ruriko.Gosuto.Check.{◌also◌}
use ruriko.Gosuto.Validate.{validate}
use ruriko.Workflow.Match.Schemas.{BlamesPayload, validate_protocol_input_schema-BlamesPayload}
use ruriko.Prelude.{
  true, false, if◌then◌else◌, none, some, List, [], ◌∷◌, ◌==◌, string_eq, ◌≡◌, ◌≢◌, ◌⊎◌, ◌↔◌, inl,
  inr, refl, All, Bool-cases, arith, none-ne-some, text_eq_iff, sym, some-injective,
}
use ruriko.Prelude.Int.{pos}
use ruriko.Prelude.Text.{is_empty, trim_space, cut, cut_suffix, split}
use ruriko.Json.{Value, str, obj, arr, null, nil, cons, Fields, end, field, get, print}
use ruriko.Gosuto.Types.{Config}
use ruriko.Gosuto.Workflow.{StepFields, WorkflowProtocol, step, no_step, followed}
use ruriko.Workflow.State.{
  State, ok, err, diverges, ExecutionContext, new_state_from_execution_context, coded,
  trust_mismatch, not_trusted,
}
use ruriko.Workflow.Schema.{validate_payload_against_schema}
use ruriko.Workflow.Schema.Conforms.{IsOk, Conforms, validate_payload_against_schema-Conforms}
use ruriko.Workflow.Match.{validate_protocol_input_schema, Decoder, match_inbound_protocol}
use ruriko.Workflow.Match.Trusted.{FirstDecides, match_inbound_protocol-FirstDecides}
use ruriko.Workflow.Act.{answer, ◌>>=◌, pure, read, set_value}
use ruriko.Workflow.Act.Costs.{tool_calls}
use ruriko.Workflow.Step.{World, is_schema_retry_step}
use ruriko.Workflow.Nested.{run_for_each, run_step, run_nested, check_output}
use ruriko.Workflow.Nested.ForEach.{run_for_each-get}
use ruriko.Workflow.Run.{execute_protocol, run, attempted}
use ruriko.Workflow.Run.Calls.{IsFrom, execute_protocol-IsFrom}
use ruriko.Workflow.Run.Counted.{IsCounted, execute_protocol-IsCounted}
use ruriko.Workflow.Run.Outcome.{Ends, run-Ends}
use ruriko.Workflow.Run.Retries.{attempted_once}
use ruriko.Workflow.Template.{
  resolve_path_token, resolve_path, resolve_parts, single_template_token, interpolate_string,
  replacement,
}
use ruriko.Workflow.Template.Ends.{braces, HasPlainValues, interpolate_string-ends}
use ruriko.Workflow.Template.Loops.{interpolate_string-diverges}

abbrev notify : StepFields
notify = record {
  kind = "send_message";
  tool = "";
  args_template = end;
  branch_expr = "";
  prompt = "";
  input_schema_ref = "";
  output_schema_ref = "";
  retries = pos 3;
  max_output_items = pos 0;
  target_alias = "kairos";
  payload_template = "Got {{input.topic}}";
  persist_key = "";
  persist_value = "";
  items_expr = "";
  item_var = "";
  max_iterations = pos 0;
  for_each_iteration_schema_ref = "";
  for_each_result_schema_ref = "";
  collect_from = "";
  collect_mode = "";
  collect_flatten = false;
}

abbrev loop_topics : StepFields
loop_topics = record {
  kind = "for_each";
  tool = "";
  args_template = end;
  branch_expr = "";
  prompt = "";
  input_schema_ref = "";
  output_schema_ref = "";
  retries = pos 0;
  max_output_items = pos 0;
  target_alias = "";
  payload_template = "";
  persist_key = "";
  persist_value = "";
  items_expr = "{{input.list}}";
  item_var = "topic";
  max_iterations = pos 2;
  for_each_iteration_schema_ref = "";
  for_each_result_schema_ref = "";
  collect_from = "";
  collect_mode = "";
  collect_flatten = false;
}

abbrev keep : StepFields
keep = record {
  kind = "persist";
  tool = "";
  args_template = end;
  branch_expr = "";
  prompt = "";
  input_schema_ref = "";
  output_schema_ref = "";
  retries = pos 0;
  max_output_items = pos 0;
  target_alias = "";
  payload_template = "";
  persist_key = "saved";
  persist_value = "{{input.topic}}!";
  items_expr = "";
  item_var = "";
  max_iterations = pos 0;
  for_each_iteration_schema_ref = "";
  for_each_result_schema_ref = "";
  collect_from = "";
  collect_mode = "";
  collect_flatten = false;
}

abbrev report : WorkflowProtocol
report = record {
  id = "report.v1";
  trigger = record { kind = "matrix.protocol_message"; prefix = "REPORT" };
  input_schema_ref = "topic";
  retries = pos 1;
  steps =
      followed (step notify no_step)
        (followed (step loop_topics (followed (step notify no_step) no_step)) no_step);
}

abbrev topic_schema : Fields
topic_schema = field "type" (str "object") (
    field "required" (arr (cons (str "topic") nil))
      (field "properties" (obj (field "topic" (obj (field "type" (str "string") end)) end)) end))

abbrev payload : Fields
payload =
    field "topic" (str "go")
      (field "list" (arr (cons (str "a") (cons (str "b") (cons (str "c") nil)))) end)

abbrev decode : Decoder
decode text = if text == "{...}" then some (obj payload) else none

abbrev world : World
world = record {
  reply = λ s call. answer "sent";
  decode = decode;
  describe = λ e. "failed";
  started_at = λ i. "10:00";
  completed_at = λ i. "10:01";
  duration_ms = λ i. "60000";
  rounds = 4;
}

abbrev cfg : Config
cfg = record {
  api_version = "gosuto/v1";
  metadata = record { name = "kumo"; template = ""; canonical_name = ""; description = "" };
  limits = record {
    max_requests_per_minute = pos 0;
    max_tokens_per_request = pos 0;
    max_concurrent_requests = pos 0;
    max_monthly_cost_is_negative = false;
    max_events_per_minute = pos 0;
  };
  approvals = record { enabled = true; room = "!a"; approvers = []; ttl_seconds = 60 };
  mcps = [];
  gateways = [];
  secrets = [];
  temperature_in_range = none;
  instructions = record { role = ""; workflow = []; user = ""; peers = [] };
  workflow = record {
    schemas = record { definitions = field "topic" (obj topic_schema) end; duplicates = [] };
    protocols = report ∷ [];
  };
  trust = record {
    allowed_rooms = "*" ∷ [];
    allowed_senders = "*" ∷ [];
    require_e2ee = false;
    admin_room = "!a";
    trusted_peers =
        record { mxid = "@saito"; room_id = "!r"; alias = "saito"; protocols = "report.v1" ∷ [] }
        ∷ [];
  };
  capabilities = [];
  messaging = record { allowed_targets = []; max_messages_per_minute = pos 0 };
}

test_stranger :
    match_inbound_protocol decode cfg "!r" "@mallory" "REPORT {...}"
    ≡ err (coded trust_mismatch "report.v1" not_trusted)
unfolding match_inbound_protocol validate_payload_against_schema
test_stranger = refl

match_inbound_protocol-FirstDecides_example :
    ((is_empty (trim_space "REPORT {...}") ≡ true)
      × (match_inbound_protocol decode cfg "!r" "@saito" "REPORT {...}" ≡ ok none))
    ⊎ ((is_empty (trim_space "REPORT {...}") ≡ false)
        × FirstDecides decode cfg "!r" "@saito"
            (trim_space "REPORT {...}")
            cfg.workflow.protocols
            (match_inbound_protocol decode cfg "!r" "@saito" "REPORT {...}"))
match_inbound_protocol-FirstDecides_example =
    match_inbound_protocol-FirstDecides decode cfg "!r" "@saito" "REPORT {...}"

validate_payload_against_schema-Conforms_example :
    IsOk (validate_payload_against_schema topic_schema payload) ↔ Conforms topic_schema payload
validate_payload_against_schema-Conforms_example =
    validate_payload_against_schema-Conforms topic_schema payload

abbrev context : ExecutionContext
context = record {
  trace_id = "t1";
  room_id = "!r";
  sender_mxid = "@saito";
  protocol_id = "report.v1";
  input = payload;
  state = payload;
  schema_definitions = cfg.workflow.schemas.definitions;
}

abbrev state : State
state = record {
  trace_id = "t1";
  room_id = "!r";
  sender_mxid = "@saito";
  protocol_id = "report.v1";
  input = payload;
  values = payload;
  schemas = cfg.workflow.schemas.definitions;
  step_outputs = end;
  final_output = "";
  final = record { step_key = ""; step_index = 0; step_type = ""; value = null };
  trace = (new_state_from_execution_context context).trace;
  history = [];
}

-- A step that only keeps a value: no tool is called.
test_persist :
    (run_step world "p" (step keep no_step) (new_state_from_execution_context context)).1
    ≡ ok (str "go!", 0)
unfolding run_step ◌>>=◌ pure read set_value interpolate_string resolve_path_token print trim_space
    new_state_from_execution_context single_template_token cut_suffix cut split
test_persist = refl

execute_protocol-IsFrom_example :
    All (IsFrom "@saito") ((execute_protocol world report context).0.history)
execute_protocol-IsFrom_example = execute_protocol-IsFrom world report context

execute_protocol-IsCounted_example : IsCounted (execute_protocol world report context)
execute_protocol-IsCounted_example = execute_protocol-IsCounted world report context

run-Ends_example : Ends 2 (run world report state)
run-Ends_example = run-Ends world report state

attempted_once_example :
    ((is_schema_retry_step "send_message" ≡ true)
      × (tool_calls ((attempted world "report.v1" (pos 1) notify no_step state).0.history) ≡ 0))
    ⊎ ((is_schema_retry_step "send_message" ≡ false)
        × (attempted world "report.v1" (pos 1) notify no_step state
            ≡ (run_step world "report.v1" (step notify no_step) >>= λ p.
                  check_output "report.v1" notify p)
                state))
attempted_once_example = attempted_once world "report.v1" (pos 1) notify no_step state

run_for_each-get_example :
    get "topic" (
      (run_for_each world "report.v1" loop_topics true
        (λ i.
          run_nested world "report.v1" i
            (followed (step notify no_step) no_step)
            0
            (end, (null, 0)))
        state).0.values)
    ≡ get "topic" state.values
unfolding trim_space
run_for_each-get_example =
    run_for_each-get world "report.v1" loop_topics true
      (λ i.
        run_nested world "report.v1" i (followed (step notify no_step) no_step) 0 (end, (null, 0)))
      "topic" state (inl refl)

abbrev empty_state : State
empty_state = record {
  trace_id = "";
  room_id = "";
  sender_mxid = "";
  protocol_id = "";
  input = end;
  values = end;
  schemas = end;
  step_outputs = end;
  final_output = "";
  final = state.final;
  trace = state.trace;
  history = [];
}

plain_parts :
    (parts : List String) (v : Value)
    → resolve_parts parts empty_state ≡ some v
    → braces (replacement v) ≡ 0
unfolding resolve_path print
plain_parts [] v e = elim (none-ne-some v e) [ ]
plain_parts (name ∷ []) v e = elim (Bool-cases (name == "input")) [
  | inl a ↦ rw (sym (some-injective _ _ (rw ((text_eq_iff name "input").0 a) at e))) refl
  | inr a ↦ elim (Bool-cases (name == "state")) [
    | inl b ↦ rw (sym (some-injective _ _ (rw ((text_eq_iff name "state").0 b) at e))) refl
    | inr b ↦ elim (Bool-cases (name == "steps")) [
      | inl c ↦ rw (sym (some-injective _ _ (rw ((text_eq_iff name "steps").0 c) at e))) refl
      | inr c ↦ elim (none-ne-some v (rw (a, b, c) at e)) [ ]
    ]
  ]
]
plain_parts (name ∷ k ∷ []) v e = elim (Bool-cases (name == "input")) [
  | inl a ↦ elim (none-ne-some v (rw ((text_eq_iff name "input").0 a) at e)) [ ]
  | inr a ↦ elim (Bool-cases (name == "state")) [
    | inl b ↦ elim (none-ne-some v (rw ((text_eq_iff name "state").0 b) at e)) [ ]
    | inr b ↦ elim (Bool-cases (name == "steps")) [
      | inl c ↦ elim (none-ne-some v (rw ((text_eq_iff name "steps").0 c) at e)) [ ]
      | inr c ↦ elim (none-ne-some v (rw (a, b, c) at e)) [ ]
    ]
  ]
]
plain_parts (name ∷ k ∷ j ∷ path) v e = elim (Bool-cases (name == "input")) [
  | inl a ↦ elim (none-ne-some v (rw ((text_eq_iff name "input").0 a) at e)) [ ]
  | inr a ↦ elim (Bool-cases (name == "state")) [
    | inl b ↦ elim (none-ne-some v (rw ((text_eq_iff name "state").0 b) at e)) [ ]
    | inr b ↦ elim (Bool-cases (name == "steps")) [
      | inl c ↦ elim (none-ne-some v (rw ((text_eq_iff name "steps").0 c) at e)) [ ]
      | inr c ↦ elim (none-ne-some v (rw (a, b, c) at e)) [ ]
    ]
  ]
]

empty_HasPlainValues : HasPlainValues empty_state
unfolding resolve_path_token
empty_HasPlainValues token v e = elim (Bool-cases (is_empty token)) [
  | inl b ↦ elim (none-ne-some v (rw b at e)) [ ]
  | inr b ↦ plain_parts (split 46 token) v (rw b at e)
]

interpolate_string-ends_example : interpolate_string 5 empty_state "All: {{state}}" ≢ diverges
interpolate_string-ends_example =
    interpolate_string-ends 5 empty_state "All: {{state}}" empty_HasPlainValues (omega arith)

abbrev echo_state : State
echo_state = record {
  trace_id = "";
  room_id = "";
  sender_mxid = "@mallory";
  protocol_id = "";
  input = field "text" (str "{{input.text}}") end;
  values = end;
  schemas = end;
  step_outputs = end;
  final_output = "";
  final = state.final;
  trace = state.trace;
  history = [];
}

interpolate_string-diverges_example :
    interpolate_string 1000 echo_state "Sum up: {{input.text}}." ≡ diverges
unfolding trim_space resolve_path_token split
interpolate_string-diverges_example =
    interpolate_string-diverges 1000 echo_state "Sum up: " "input.text" "." refl refl refl refl refl
      refl refl

validate_protocol_input_schema-BlamesPayload_example :
    BlamesPayload (validate_protocol_input_schema cfg report end)
unfolding validate ◌also◌ trim_space cut
validate_protocol_input_schema-BlamesPayload_example =
    validate_protocol_input_schema-BlamesPayload cfg report end refl (Memᴰ.head refl) refl
