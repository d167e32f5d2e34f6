-- ===== src/Deployment.antt =====
-- src/ep_governance/deployment.py: `EnforcementCapability` and what it has to show before a token is
-- issued.
pub mod Attestation
pub mod Fields
pub mod Attested
pub mod Bounded
use ep_governance.Prelude.{
  ℕ, String, Bool, true, not, ◌&&◌, List, any, is_empty, str_eq, ltb, if◌then◌else◌,
}
use ep_governance.Value.{Value}
use ep_governance.Errors.{Result, ok, err, guard, ◌>>◌, enforcement_unavailable, type_error}

-- What `datetime.fromisoformat` makes of a text: not a time, a time without a zone, or an instant in
-- microseconds.
pub data ParsedTime : Type 0 where
  invalid : ParsedTime
  naive : ℕ → ParsedTime
  aware : ℕ → ParsedTime

-- The datetime module: `fromisoformat` after the `Z` is replaced, and `strftime` of an instant of
-- UTC with microseconds and a `Z`.
pub record Clock : Type 0 where
  pub fromisoformat : String → ParsedTime
  pub strftime : ℕ → String

-- `verification_time`, `failure_reasons` and `runtime_instance_id` may come from JSON as they are.
pub record EnforcementCapability : Type 0 where
  pub effective_mode : String
  pub binding_enforcement_active : Bool
  pub agent_principal_id : String
  pub verification_time : Value
  pub failure_reasons : Value
  pub proxy_scoped : Bool
  pub issued_at : String
  pub expires_at : String
  pub deployment_id : String
  pub runtime_instance_id : Value
  pub proxy_principal_id : String
  pub proxy_audience : String
  pub target_id : String
  pub supported_action_types : List String
  pub attestation_digest : String
  pub trust_level : String

-- A time without a zone does not compare with the clock's.
unfoldable pub check_unexpired : ℕ → ParsedTime → Result (Unit {0})
check_unexpired now invalid = err enforcement_unavailable
check_unexpired now (naive t) = err type_error
check_unexpired now (aware t) = guard (not (ltb t now)) enforcement_unavailable

-- `production` is what EP_PRODUCTION_MODE says.
unfoldable pub require_binding_enforcement :
    Clock → ℕ → Bool → EnforcementCapability → Result (Unit {0})
unfolding check_unexpired
require_binding_enforcement clock now production c =
    guard c.binding_enforcement_active enforcement_unavailable
    >> (if str_eq c.expires_at ""
        then ok tt
        else check_unexpired now (clock.fromisoformat c.expires_at))
    >> guard (not (production && not (str_eq c.trust_level "signed_attestation")))
        enforcement_unavailable

unfoldable pub require_proxy_scoped : EnforcementCapability → Result (Unit {0})
require_proxy_scoped c =
    guard c.proxy_scoped enforcement_unavailable
    >> guard (not (str_eq c.proxy_principal_id "")) enforcement_unavailable
    >> guard (not (str_eq c.proxy_audience "")) enforcement_unavailable

-- An empty list supports every type.
unfoldable pub supports_action_type : EnforcementCapability → String → Bool
supports_action_type c action_type =
    if is_empty c.supported_action_types
    then true
    else any (str_eq action_type) c.supported_action_types
