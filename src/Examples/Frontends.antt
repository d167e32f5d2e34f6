-- ===== src/Examples/Frontends.antt =====
-- Witnesses for the theorems on attestations, on the front end, on policies as rows, on work claims
-- and on the configuration.
use ep_governance.Prelude.{
  ℕ, ◌<◌, ◌⊎◌, String, ◌≡◌, refl, Bool, true, false, Option, none, some, List, [], ◌∷◌, filter,
  arith, str_eq, if◌then◌else◌,
}
use ep_governance.Authorizations.{Signing}
use ep_governance.Config.{Environment, Config, pos, load_config, load_config-enforced}
use ep_governance.Deployment.{
  Clock, aware, EnforcementCapability, require_binding_enforcement, require_proxy_scoped,
}
use ep_governance.Deployment.Attestation.{Expected, from_signed_attestation}
use ep_governance.Deployment.Attested.{Attested}
use ep_governance.Deployment.Bounded.{from_signed_attestation-bounded}
use ep_governance.Errors.{ok, err, enforcement_unavailable}
use ep_governance.Examples.{svc}
use ep_governance.Value.{Value, integer, boolean, text, array, cons, nil, object, field, end}
use ep_governance.WorkClaims.{sqlite, WorkClaim, active, begin, claims, releases, claim, release}
use ep_governance.WorkClaims.Exclusive.{IsExclusive, Claims-IsExclusive, claim-sqlite_once}

abbrev document : Value
document = object (
    field "schema_version" (integer 1) (
      field "effective_mode" (text "enforced") (
        field "binding_enforcement_active" (boolean true) (
          field "agent_principal_id" (text "proxy") (
            field "proxy_scoped" (boolean true) (
              field "issued_at" (text "i") (
                field "expires_at" (text "e") (
                  field "proxy_principal_id" (text "px") (
                    field "proxy_audience" (text "pg") (
                      field "deployment_id" (text "d") (
                        field "target_id" (text "t") (
                          field "supported_action_types" (array (cons (text "postgres") nil))
                            (field "signature" (text "sig") end)))))))))))))

abbrev controller : Signing
controller = record { sign = λ _. "sig"; verify = λ _ _. true; json_loads = λ _. some document }

abbrev utc : Clock
utc = record {
  fromisoformat = λ s. if str_eq s "e" then aware 9 else aware 1;
  strftime = λ _. "2025-01-01T00:00:00Z";
}

abbrev expected : Expected
expected = record {
  proxy_principal_id = some "px";
  proxy_audience = none;
  deployment_id = some "";
  target_id = some "t";
}

abbrev issued : EnforcementCapability
issued = record {
  effective_mode = "enforced";
  binding_enforcement_active = true;
  agent_principal_id = "proxy";
  verification_time = text "i";
  failure_reasons = array nil;
  proxy_scoped = true;
  issued_at = "i";
  expires_at = "e";
  deployment_id = "d";
  runtime_instance_id = text "";
  proxy_principal_id = "px";
  proxy_audience = "pg";
  target_id = "t";
  supported_action_types = "postgres" ∷ [];
  attestation_digest = "h";
  trust_level = "signed_attestation";
}

attests : from_signed_attestation svc controller utc 5 expected "{}" ≡ ok issued
unfolding from_signed_attestation ep_governance.Authorizations.Verify.is_signed
    ep_governance.Value.get_field str_eq ep_governance.Value.value_eq ep_governance.Prelude.all
    ep_governance.Value.has_field ep_governance.Prelude.any
attests = refl

from_signed_attestation-bounded_example :
    (require_binding_enforcement utc 5 true issued ≡ ok tt)
    × (require_proxy_scoped issued ≡ ok tt)
    × (require_binding_enforcement utc 3900000006 true issued ≡ err enforcement_unavailable)
from_signed_attestation-bounded_example =
    from_signed_attestation-bounded svc controller utc 5 expected "{}" issued true 3900000006
      attests (omega arith)

abbrev some_claims : List WorkClaim
some_claims = (claim sqlite "c1" "2025-01-01T00:00:01Z" "ann" "main" "src" []).1

abbrev the_claim : WorkClaim
the_claim = record {
  id = "c1";
  agent_id = "ann";
  branch_id = "main";
  region = "src";
  status = active;
  claimed_at = "2025-01-01T00:00:01Z";
  released_at = none;
}

claims_it :
    claim sqlite "c1" "2025-01-01T00:00:01Z" "ann" "main" "src" []
    ≡ (ok (some the_claim), some_claims)
unfolding claim ep_governance.Prelude.any
claims_it = refl

Claims-IsExclusive_example : IsExclusive some_claims
Claims-IsExclusive_example =
    Claims-IsExclusive sqlite (claims "c1" "2025-01-01T00:00:01Z" "ann" "main" "src" begin)

abbrev released_claims : List WorkClaim
released_claims = (release "c1" "2025-01-01T00:00:02Z" some_claims).1

claim-sqlite_once_example :
    claim sqlite "c2" "2025-01-01T00:00:03Z" "bob" "main" "src" released_claims
    ≡ (ok none, released_claims)
claim-sqlite_once_example =
    claim-sqlite_once "c1" "2025-01-01T00:00:01Z" "ann" "main" "src" [] the_claim some_claims
      released_claims claims_it (releases "c1" "2025-01-01T00:00:02Z" begin) "c2"
      "2025-01-01T00:00:03Z" "bob"

abbrev developer : Environment
developer = record {
  variable = λ name.
      if str_eq name "EP_MODE"
      then some "advisory"
      else if str_eq name "EP_DB_URL"
      then some "sqlite:///ep.db"
      else if str_eq name "EP_DEV"
      then some "1"
      else if str_eq name "EP_ALLOW_ADVISORY_EXECUTION"
      then some "yes"
      else none;
  lower = λ s. s;
  int = λ s. some (pos 300);
}

abbrev loaded : Config
loaded = record {
  mode = "advisory";
  db_url = "sqlite:///ep.db";
  db_schema = "";
  embedding_provider = "none";
  embedding_model = "";
  embedding_host = "";
  embedding_api_key = "";
  mcp_transport = "stdio";
  mcp_port = pos 300;
  mcp_tls_cert = "";
  mcp_tls_key = "";
  mcp_allowed_hosts = "";
  notify_backend = "native";
  nats_url = "";
  token_ttl_seconds = pos 300;
  dev = true;
  bootstrap_token_hash = none;
  signing_key_file = none;
  allow_advisory_execution = true;
  require_signed_authorization = true;
  fail_closed = true;
}

loads : load_config developer ≡ ok loaded
unfolding load_config ep_governance.Prelude.any str_eq
loads = refl

load_config-enforced_example :
    ((loaded.mode ≡ "enforced")
      ⊎ ((loaded.mode ≡ "advisory")
          × (loaded.dev ≡ true)
          × (loaded.allow_advisory_execution ≡ true)))
    × (str_eq loaded.db_url "" ≡ false)
load_config-enforced_example = load_config-enforced developer loaded loads
