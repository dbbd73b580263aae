-- ===== src/Gosuto/Check.antt =====
-- The checks of a configuration: the first problem that is found, or none.
pub mod Passes
use Prim.Native.Char.{code}
use Prim.Native.String.{String}
use ruriko.Prelude.{
  Bool, false, ◌||◌, Option, none, some, List, [], ◌∷◌, ◌==◌, string_eq, if◌then◌else◌, contains,
  nat_eq,
}
use ruriko.Prelude.Text.{is_empty, trim_space, or_else}

-- What the message of an error says, but for the names and places in it.
pub data Problem : Type 0 where
  wrong_api_version blank_name no_rooms wrong_room no_senders wrong_sender : Problem
  wrong_peer_mxid wrong_peer_room no_protocols blank_protocol duplicate_peer : Problem
  negative_limit blank_command duplicate_name type_and_command no_type_or_command : Problem
  no_expression no_target no_payload unknown_source no_hmac_secret unknown_gateway_type : Problem
  blank_trigger blank_action blank_role wrong_temperature : Problem
  blank_room wrong_target_room blank_alias alias_with_blanks duplicate_alias : Problem
  duplicate_schema wrong_schema blank_ref external_ref no_schemas ref_not_found : Problem
  unknown_step_type negative_retries negative_max_items ref_only_for_each no_prompt no_output_ref :
      Problem
  no_items_expr negative_iterations no_nested_steps no_collect_from wrong_collect_mode : Problem
  blank_protocol_id blank_trigger_type prefix_with_blanks no_prefix wrong_trigger_type : Problem

abbrev pub Check : Type 0
Check = Option Problem

abbrev pub fail_if : Bool → Problem → Check
fail_if b p = if b then some p else none

-- One check, and the next one if it finds nothing.
infixr 40 ◌also◌
unfoldable pub ◌also◌ : Check → Check → Check
a also b = or_else a b

abbrev pub is_blank : String → Bool
is_blank s = is_empty (trim_space s)

abbrev pub check_all {ℓ} : {A : Type ℓ} → (A → Check) → List A → Check
check_all f [] = none
check_all f (x ∷ xs) = f x also check_all f xs

-- The names that a loop has seen behind some entries, the last one first.
abbrev pub add_names {ℓ} : {A : Type ℓ} → (A → String) → List A → List String → List String
add_names name [] seen = seen
add_names name (x ∷ xs) seen = add_names name xs (name x ∷ seen)

-- A loop that checks each entry, and that its name is new.
abbrev pub check_named {ℓ} :
    {A : Type ℓ} → (A → Check) → (A → String) → Problem → List String → List A → Check
check_named f name p seen [] = none
check_named f name p seen (x ∷ xs) =
    f x also fail_if (contains seen (name x)) p also check_named f name p (name x ∷ seen) xs

-- strings.ContainsAny(s, " \t\n\r")
abbrev pub has_blank : String → Bool
has_blank String.[] = false
has_blank (String.◌∷◌ c s) =
    let n = code c in n == 32 || n == 9 || n == 10 || n == 13 || has_blank s
