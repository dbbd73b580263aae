-- ===== src/Gosuto/Validate.antt =====
-- common/spec/gosuto/validate.go: Validate.
pub mod Sections
pub mod Names
pub mod Steps
use Prim.Native.String.{String}
use ruriko.Prelude.{◌==◌, string_eq, not}
use ruriko.Gosuto.Types.{Config}
use ruriko.Gosuto.Check.{Check, fail_if, ◌also◌, is_blank, check_all, wrong_api_version, blank_name}
use ruriko.Gosuto.Validate.Sections.{
  validate_trust, validate_limits, validate_capability, validate_supervised, validate_secret,
  validate_persona, validate_instructions, validate_messaging,
}
use ruriko.Gosuto.Validate.Steps.{validate_workflow}

unfoldable pub validate : Config → Check
unfolding validate_trust validate_workflow validate_limits validate_capability validate_supervised
    validate_secret validate_persona validate_instructions validate_messaging
validate cfg =
    fail_if (not (cfg.api_version == "gosuto/v1")) wrong_api_version
    also fail_if (is_blank cfg.metadata.name) blank_name
    also validate_trust cfg.trust
    also validate_workflow cfg.workflow
    also validate_limits cfg.limits
    also check_all validate_capability cfg.capabilities
    also validate_supervised cfg.mcps cfg.gateways
    also check_all validate_secret cfg.secrets
    also validate_persona cfg.temperature_in_range
    also validate_instructions cfg.instructions
    also validate_messaging cfg.messaging
