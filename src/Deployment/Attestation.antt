-- ===== src/Deployment/Attestation.antt =====
-- `EnforcementCapability.from_signed_attestation`.
use ep_governance.Prelude.{
  ℕ, ◌+◌, String, Bool, true, false, not, ◌&&◌, Option, none, some, List, [], ◌∷◌, all, any, str_eq,
  ltb, if◌then◌else◌, codes,
}
use ep_governance.Authorizations.{Signing}
use ep_governance.Authorizations.Claim.{get_or}
use ep_governance.Authorizations.Verify.{is_signed}
use ep_governance.Deployment.{ParsedTime, invalid, naive, aware, Clock, EnforcementCapability}
use ep_governance.Errors.{
  Result, ok, err, guard, ◌>>=◌, ◌>>◌, enforcement_unavailable, attribute_error,
}
use ep_governance.Service.{Service}
use ep_governance.Value.{
  Value, Items, Fields, null, boolean, integer, text, array, object, nil, cons, has_field, value_eq,
}

abbrev pub required_fields : List String
required_fields =
    "effective_mode" ∷ "binding_enforcement_active" ∷ "agent_principal_id" ∷ "proxy_scoped"
    ∷ "issued_at" ∷ "expires_at" ∷ "proxy_principal_id" ∷ "proxy_audience" ∷ "deployment_id"
    ∷ "target_id" ∷ "supported_action_types" ∷ []

-- `data[key]`, of a key that is there.
unfoldable pub item : String → Fields → Value
unfolding get_or
item key d = get_or key null d

-- `v is True`
unfoldable pub is_true : Value → Bool
is_true (boolean b) = b
is_true _ = false

-- A text that was checked to be one.
unfoldable pub text_of : Value → String
text_of (text s) = s
text_of _ = ""

-- A text that is not empty.
unfoldable pub nonempty_text : Value → Result String
nonempty_text (text s) = guard (not (str_eq s "")) enforcement_unavailable >> ok s
nonempty_text _ = err enforcement_unavailable

-- The elements of a list, all of them texts that are not empty.
unfoldable pub nonempty_texts : Items → Result (List String)
unfolding nonempty_text
nonempty_texts nil = ok []
nonempty_texts (cons v vs) = nonempty_text v >>= λ s. nonempty_texts vs >>= λ rest. ok (s ∷ rest)

-- `len(set(xs)) == len(xs)`
unfoldable pub distinct : List String → Bool
distinct [] = true
distinct (s ∷ rest) = not (any (str_eq s) rest) && distinct rest

unfoldable pub action_types : Value → Result (List String)
unfolding nonempty_texts distinct
action_types (array nil) = err enforcement_unavailable
action_types (array (cons v vs)) = nonempty_texts (cons v vs) >>= λ types.
    guard (distinct types) enforcement_unavailable >> ok types
action_types _ = err enforcement_unavailable

-- `_parse_attestation_time`: a time has to have a zone.
unfoldable pub attestation_time : ParsedTime → Result ℕ
attestation_time invalid = err enforcement_unavailable
attestation_time (naive t) = err enforcement_unavailable
attestation_time (aware t) = ok t

-- The version of the schema, the fields and the mode.
unfoldable pub check_semantics : Fields → Result (Unit {0})
unfolding item is_true
check_semantics d =
    guard (value_eq (get_or "schema_version" (integer 1) d) (integer 1)) enforcement_unavailable
    >> guard (all (λ k. has_field k d) required_fields) enforcement_unavailable
    >> guard (value_eq (item "effective_mode" d) (text "enforced")) enforcement_unavailable
    >> guard (is_true (item "binding_enforcement_active" d)) enforcement_unavailable
    >> guard (is_true (item "proxy_scoped" d)) enforcement_unavailable
    >> guard (value_eq (item "agent_principal_id" d) (text "proxy")) enforcement_unavailable

-- 5 minutes of clock skew and a life of 1 hour, in microseconds.
abbrev pub allowed_clock_skew : ℕ
allowed_clock_skew = 300000000

abbrev pub max_signed_attestation_lifetime : ℕ
max_signed_attestation_lifetime = 3600000000

unfoldable pub check_times : ℕ → ℕ → ℕ → Result (Unit {0})
check_times now expires issued =
    guard (ltb now expires) enforcement_unavailable
    >> guard (not (ltb (now + allowed_clock_skew) issued)) enforcement_unavailable
    >> guard (ltb issued expires) enforcement_unavailable
    >> guard (not (ltb (issued + max_signed_attestation_lifetime) expires)) enforcement_unavailable

-- What the verifier may expect.
pub record Expected : Type 0 where
  pub proxy_principal_id : Option String
  pub proxy_audience : Option String
  pub deployment_id : Option String
  pub target_id : Option String

-- `if expected and found != expected: raise`
unfoldable pub check_expected : Option String → String → Result (Unit {0})
check_expected none found = ok tt
check_expected (some e) found =
    if str_eq e "" then ok tt else guard (str_eq found e) enforcement_unavailable

-- The capability of the fields that were checked.
unfoldable pub attested :
    Service
    → String
    → Fields
    → String
    → String
    → String
    → String
    → String
    → String
    → List String
    → EnforcementCapability
unfolding item is_true text_of
attested svc attestation d issued_at expires_at proxy_principal_id proxy_audience deployment_id
      target_id types =
    record {
      effective_mode = text_of (item "effective_mode" d);
      binding_enforcement_active = is_true (item "binding_enforcement_active" d);
      agent_principal_id = text_of (item "agent_principal_id" d);
      verification_time = get_or "verification_time" (text issued_at) d;
      failure_reasons = get_or "failure_reasons" (array nil) d;
      proxy_scoped = is_true (item "proxy_scoped" d);
      issued_at = issued_at;
      expires_at = expires_at;
      deployment_id = deployment_id;
      runtime_instance_id = get_or "runtime_instance_id" (text "") d;
      proxy_principal_id = proxy_principal_id;
      proxy_audience = proxy_audience;
      target_id = target_id;
      supported_action_types = types;
      attestation_digest = svc.sha256 (codes attestation);
      trust_level = "signed_attestation";
    }

-- The capability, with its times and the verifier's expectations checked.
unfoldable pub check_capability :
    Clock → ℕ → Expected → EnforcementCapability → Result EnforcementCapability
unfolding attestation_time check_times check_expected
check_capability clock now expected c =
    attestation_time (clock.fromisoformat c.expires_at) >>= λ expires.
    attestation_time (clock.fromisoformat c.issued_at) >>= λ issued.
    check_times now expires issued
    >> check_expected expected.proxy_principal_id c.proxy_principal_id
    >> check_expected expected.proxy_audience c.proxy_audience
    >> check_expected expected.deployment_id c.deployment_id
    >> check_expected expected.target_id c.target_id
    >> ok c

-- The six identifiers and times, and the action types.
unfoldable pub attested_fields : Service → String → Fields → Result EnforcementCapability
unfolding attested action_types
attested_fields svc attestation d =
    nonempty_text (item "proxy_principal_id" d) >>= λ proxy_principal_id.
    nonempty_text (item "proxy_audience" d) >>= λ proxy_audience.
    nonempty_text (item "deployment_id" d) >>= λ deployment_id.
    nonempty_text (item "target_id" d) >>= λ target_id.
    nonempty_text (item "issued_at" d) >>= λ issued_at.
    nonempty_text (item "expires_at" d) >>= λ expires_at.
    action_types (item "supported_action_types" d) >>= λ types. ok (
      attested svc attestation d issued_at expires_at proxy_principal_id proxy_audience
        deployment_id target_id types)

unfoldable pub attest :
    Service → Signing → Clock → ℕ → Expected → String → Option Value → Result EnforcementCapability
unfolding check_semantics attested_fields check_capability
attest svc keys clock now expected attestation none = err enforcement_unavailable
attest svc keys clock now expected attestation (some (object d)) =
    guard (is_signed keys d) enforcement_unavailable
    >> check_semantics d
    >> attested_fields svc attestation d
    >>= λ c. check_capability clock now expected c
attest svc keys clock now expected attestation (some _) = err attribute_error

-- `now` is in microseconds.
unfoldable pub from_signed_attestation :
    Service → Signing → Clock → ℕ → Expected → String → Result EnforcementCapability
unfolding attest
from_signed_attestation svc keys clock now expected attestation =
    attest svc keys clock now expected attestation (keys.json_loads attestation)
