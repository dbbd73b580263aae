-- ===== src/Gosuto/Workflow.antt =====
-- common/spec/gosuto/types.go: the workflow part of a configuration.
use ruriko.Prelude.{ℕ, suc, String, Bool, List}
use ruriko.Prelude.Int.{ℤ}
use ruriko.Json.{Fields}

-- What a step holds beside its nested steps; `kind` is its type.
pub record StepFields : Type 0 where
  pub kind : String
  pub tool : String
  pub args_template : Fields
  pub branch_expr : String
  pub prompt : String
  pub input_schema_ref : String
  pub output_schema_ref : String
  pub retries : ℤ
  pub max_output_items : ℤ
  pub target_alias : String
  pub payload_template : String
  pub persist_key : String
  pub persist_value : String
  pub items_expr : String
  pub item_var : String
  pub max_iterations : ℤ
  pub for_each_iteration_schema_ref : String
  pub for_each_result_schema_ref : String
  pub collect_from : String
  pub collect_mode : String
  pub collect_flatten : Bool

mutual
  pub data WorkflowProtocolStep : Type 0 where
    step : StepFields → Steps → WorkflowProtocolStep

  pub data Steps : Type 0 where
    no_step : Steps
    followed : WorkflowProtocolStep → Steps → Steps

abbrev pub steps_length : Steps → ℕ
steps_length no_step = 0
steps_length (followed s rest) = suc (steps_length rest)

pub record WorkflowTrigger : Type 0 where
  pub kind : String
  pub prefix : String

pub record WorkflowProtocol : Type 0 where
  pub id : String
  pub trigger : WorkflowTrigger
  pub input_schema_ref : String
  pub retries : ℤ
  pub steps : Steps

pub record WorkflowSchemas : Type 0 where
  pub definitions : Fields
  pub duplicates : List String

pub record Workflow : Type 0 where
  pub schemas : WorkflowSchemas
  pub protocols : List WorkflowProtocol
