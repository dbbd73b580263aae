-- ===== src/Workflow/State.antt =====
-- internal/gitai/workflow/state.go, and the errors of workflow.go and runner.go.
use ruriko.Prelude.{ℕ, String, Option, none, List, []}
use ruriko.Json.{Value, Fields, end, null}

pub data Code : Type 0 where
  invalid_protocol_message schema_validation trust_mismatch : Code

-- What a message of an error says, but for the names in it.
pub data Reason : Type 0 where
  missing_payload payload_not_decoded payload_not_object not_trusted : Reason
  schema_not_found schema_not_object schemas_missing unsupported_schema_type : Reason
  required_not_array required_not_string properties_not_object : Reason
  missing_field wrong_field_type : String → Reason
  wrong_type not_an_object too_many_items : Reason
  unresolved_token missing_closing empty_token unmatched_braces : Reason
  no_tool no_prompt no_schema_ref no_target no_message no_persist_key : Reason
  no_items_expr no_nested_steps no_collect_from bad_collect_mode no_result not_an_array : Reason
  args_not_object not_json branch_not_implemented unsupported_type : Reason
  dispatch_failed : String → Reason

-- An error with a code is a *Error; `after_retries` wraps the last error of a step that was tried.
pub data Error : Type 0 where
  coded : Code → String → Reason → Error
  plain : Reason → Error
  after_retries : String → String → ℕ → Error → Error
  in_iteration : ℕ → ℕ → String → Error → Error
  bad_iteration : ℕ → Error → Error
  in_step : ℕ → String → Error → Error

-- `diverges` stands for a loop that does not end.
pub data Result (A : Type 0) : Type 0 where
  ok : A → Result A
  err : Error → Result A
  diverges : Result A

infixl 5 ◌>>=◌
abbrev pub ◌>>=◌ : {A B : Type 0} → Result A → (A → Result B) → Result B
ok a >>= f = f a
err e >>= f = err e
diverges >>= f = diverges

-- What the dispatcher is asked for.
pub data Call : Type 0 where
  tool : String → String → Fields → Call
  summarize : String → Call

pub data Status : Type 0 where
  running success error : Status

pub record Trace : Type 0 where
  pub status : Status
  pub failure : Option Error
  pub tool_calls : ℕ
  pub steps_total : ℕ
  pub steps_completed : ℕ

pub record Final : Type 0 where
  pub step_key : String
  pub step_index : ℕ
  pub step_type : String
  pub value : Value

-- `history` is what has been asked of the dispatcher, the last call first.
pub record State : Type 0 where
  pub trace_id : String
  pub room_id : String
  pub sender_mxid : String
  pub protocol_id : String
  pub input : Fields
  pub values : Fields
  pub schemas : Fields
  pub step_outputs : Fields
  pub final_output : String
  pub final : Final
  pub trace : Trace
  pub history : List Call

pub record ExecutionContext : Type 0 where
  pub trace_id : String
  pub room_id : String
  pub sender_mxid : String
  pub protocol_id : String
  pub input : Fields
  pub state : Fields
  pub schema_definitions : Fields

abbrev no_final : Final
no_final = record { step_key = ""; step_index = 0; step_type = ""; value = null }

abbrev fresh_trace : Trace
fresh_trace = record {
  status = running;
  failure = none;
  tool_calls = 0;
  steps_total = 0;
  steps_completed = 0;
}

unfoldable pub new_state_from_execution_context : ExecutionContext → State
new_state_from_execution_context c = record {
  trace_id = c.trace_id;
  room_id = c.room_id;
  sender_mxid = c.sender_mxid;
  protocol_id = c.protocol_id;
  input = c.input;
  values = c.state;
  schemas = c.schema_definitions;
  step_outputs = end;
  final_output = "";
  final = no_final;
  trace = fresh_trace;
  history = [];
}

-- The state with one part new.
abbrev pub with_values : Fields → State → State
with_values m s = record {
  trace_id = s.trace_id;
  room_id = s.room_id;
  sender_mxid = s.sender_mxid;
  protocol_id = s.protocol_id;
  input = s.input;
  values = m;
  schemas = s.schemas;
  step_outputs = s.step_outputs;
  final_output = s.final_output;
  final = s.final;
  trace = s.trace;
  history = s.history;
}

abbrev pub with_history : List Call → State → State
with_history calls s = record {
  trace_id = s.trace_id;
  room_id = s.room_id;
  sender_mxid = s.sender_mxid;
  protocol_id = s.protocol_id;
  input = s.input;
  values = s.values;
  schemas = s.schemas;
  step_outputs = s.step_outputs;
  final_output = s.final_output;
  final = s.final;
  trace = s.trace;
  history = calls;
}

abbrev pub with_trace : Trace → State → State
with_trace t s = record {
  trace_id = s.trace_id;
  room_id = s.room_id;
  sender_mxid = s.sender_mxid;
  protocol_id = s.protocol_id;
  input = s.input;
  values = s.values;
  schemas = s.schemas;
  step_outputs = s.step_outputs;
  final_output = s.final_output;
  final = s.final;
  trace = t;
  history = s.history;
}

abbrev pub with_output : Fields → State → State
with_output outputs s = record {
  trace_id = s.trace_id;
  room_id = s.room_id;
  sender_mxid = s.sender_mxid;
  protocol_id = s.protocol_id;
  input = s.input;
  values = s.values;
  schemas = s.schemas;
  step_outputs = outputs;
  final_output = s.final_output;
  final = s.final;
  trace = s.trace;
  history = s.history;
}

abbrev pub with_final : String → Fields → Final → State → State
with_final text m f s = record {
  trace_id = s.trace_id;
  room_id = s.room_id;
  sender_mxid = s.sender_mxid;
  protocol_id = s.protocol_id;
  input = s.input;
  values = m;
  schemas = s.schemas;
  step_outputs = s.step_outputs;
  final_output = text;
  final = f;
  trace = s.trace;
  history = s.history;
}
