-- ===== src/Authorizations/Issue.antt =====
-- `AuthorizationToken` and `AuthorizationEngine.issue_authorization`.
use ep_governance.Prelude.{
  ℕ, ◌+◌, ◌*◌, String, Bool, false, Option, none, some, List, [], ◌∷◌, str_eq, if◌then◌else◌,
}
use ep_governance.Authorizations.{Signing}
use ep_governance.Db.{Authorization}
use ep_governance.Deployment.{
  Clock, EnforcementCapability, require_binding_enforcement, require_proxy_scoped,
  supports_action_type,
}
use ep_governance.Errors.{Result, guard, ◌>>◌ as ◌then_do◌, enforcement_unavailable}
use ep_governance.Repositories.Authorizations.{insert_authorization}
use ep_governance.Service.{Service, Env}
use ep_governance.Transitions.Proposal.{compute_policy_set_hash, put_version}
use ep_governance.Tx.{Tx, pure, lift, ◌>>◌}
use ep_governance.Value.{Value, Fields, text, integer, object, end, field}
use ep_governance.Value.Canonical.{canonical_json}

pub record AuthorizationToken : Type 0 where
  pub authorization_id : String
  pub transition_id : String
  pub agent_id : String
  pub project_id : String
  pub branch_id : String
  pub proxy_audience : String
  pub tool : String
  pub payload_hash : String
  pub policy_set_hash : String
  pub matched_policy_versions : List (String × ℕ)
  pub issued_at : String
  pub expires_at : String
  pub nonce : String
  pub signature : String

versions_object : List (String × ℕ) → Fields
versions_object [] = end
versions_object ((id, v) ∷ rest) = field id (integer v) (versions_object rest)

-- The payload's fields, followed by `rest`.
payload_fields : AuthorizationToken → Fields → Fields
unfolding versions_object
payload_fields t rest = field "authorization_id" (text t.authorization_id) (
    field "transition_id" (text t.transition_id) (
      field "agent_id" (text t.agent_id) (
        field "project_id" (text t.project_id) (
          field "branch_id" (text t.branch_id) (
            field "proxy_audience" (text t.proxy_audience) (
              field "tool" (text t.tool) (
                field "payload_hash" (text t.payload_hash) (
                  field "policy_set_hash" (text t.policy_set_hash) (
                    field "matched_policy_versions"
                      (object (versions_object t.matched_policy_versions))
                      (field "issued_at" (text t.issued_at) (
                        field "expires_at" (text t.expires_at)
                          (field "nonce" (text t.nonce) rest))))))))))))

unfoldable pub to_canonical_payload : AuthorizationToken → Value
unfolding payload_fields
to_canonical_payload t = object (payload_fields t end)

-- The token with its signature.
unfoldable pub signed : Signing → AuthorizationToken → AuthorizationToken
signed keys t = record t { signature = keys.sign (canonical_json (to_canonical_payload t)) }

-- The signed token's JSON text, by its code points.
unfoldable pub to_signed_token : Signing → AuthorizationToken → List ℕ
unfolding signed payload_fields
to_signed_token keys t =
    canonical_json
      (object (payload_fields t (field "signature" (text (signed keys t).signature) end)))

-- A matched policy as a dict: a key that is not there is `none`.
pub record PolicyDict : Type 0 where
  pub id : Option String
  pub policy_id : Option String
  pub activation_version : Option ℕ
  pub version : Option ℕ

-- `policy.get("id") or policy.get("policy_id")`
unfoldable policy_key : PolicyDict → Option String
policy_key p = elim p.id [ none ↦ p.policy_id | some i ↦ if str_eq i "" then p.policy_id else p.id ]

unfoldable policy_version : PolicyDict → ℕ
policy_version p = elim p.activation_version [
  | some v ↦ v
  | none ↦ elim p.version [ none ↦ 0 | some v ↦ v ]
]

put_policy : Option String → ℕ → List (String × ℕ) → List (String × ℕ)
unfolding put_version
put_policy none v versions = versions
put_policy (some id) v versions = put_version id v versions

versions_of : List (String × ℕ) → List PolicyDict → List (String × ℕ)
unfolding put_policy policy_key policy_version
versions_of versions [] = versions
versions_of versions (p ∷ ps) =
    versions_of (put_policy (policy_key p) (policy_version p) versions) ps

-- What the capability has to show for this agent, audience and tool.
unfoldable pub capability_allows :
    Clock → ℕ → Bool → EnforcementCapability → String → String → String → Result (Unit {0})
unfolding require_binding_enforcement require_proxy_scoped supports_action_type
capability_allows clock now production c agent_id proxy_audience tool =
    require_binding_enforcement clock now production c
    then_do (if c.proxy_scoped
        then require_proxy_scoped c
          then_do guard (str_eq c.proxy_audience proxy_audience) enforcement_unavailable
          then_do guard (supports_action_type c tool) enforcement_unavailable
        else guard (str_eq c.agent_principal_id agent_id) enforcement_unavailable)

-- The token before it is signed; `now` is in microseconds.
unfoldable pub new_token :
    Service
    → Clock
    → ℕ
    → Env
    → ℕ
    → String
    → String
    → String
    → String
    → String
    → String
    → String
    → String
    → List PolicyDict
    → AuthorizationToken
unfolding versions_of
new_token svc clock token_ttl_seconds env now nonce transition_id agent_id project_id branch_id
      proxy_audience tool payload_hash matched_policies =
    let versions = versions_of [] matched_policies in
    record {
      authorization_id = env.xid 0;
      transition_id = transition_id;
      agent_id = agent_id;
      project_id = project_id;
      branch_id = branch_id;
      proxy_audience = proxy_audience;
      tool = tool;
      payload_hash = payload_hash;
      policy_set_hash = compute_policy_set_hash svc versions;
      matched_policy_versions = versions;
      issued_at = clock.strftime now;
      expires_at = clock.strftime (now + token_ttl_seconds * 1000000);
      nonce = nonce;
      signature = "";
    }

-- The row that is inserted.
unfoldable pub authorization_row : Service → Signing → Env → AuthorizationToken → Authorization
authorization_row svc keys env t = record {
  id = t.authorization_id;
  transition_id = t.transition_id;
  agent_id = t.agent_id;
  project_id = t.project_id;
  branch_id = t.branch_id;
  proxy_audience = t.proxy_audience;
  tool = t.tool;
  payload_hash = t.payload_hash;
  policy_set_hash = t.policy_set_hash;
  token_hash = svc.sha256 (to_signed_token keys t);
  matched_policy_versions = t.matched_policy_versions;
  issued_at = t.issued_at;
  expires_at = t.expires_at;
  nonce = t.nonce;
  used = false;
  used_at = none;
  execution_attempt_id = none;
  created_at = env.now 0;
}

unfoldable pub issue_authorization :
    Service
    → Signing
    → Clock
    → ℕ
    → Bool
    → Env
    → ℕ
    → String
    → String
    → String
    → String
    → String
    → String
    → String
    → String
    → List PolicyDict
    → EnforcementCapability
    → Tx AuthorizationToken
unfolding capability_allows new_token signed authorization_row
issue_authorization svc keys clock token_ttl_seconds production env now nonce transition_id agent_id
      project_id branch_id proxy_audience tool payload_hash matched_policies c =
    do
      lift (capability_allows clock now production c agent_id proxy_audience tool)
      let token =
          new_token svc clock token_ttl_seconds env now nonce transition_id agent_id project_id
            branch_id proxy_audience tool payload_hash matched_policies
      insert_authorization (authorization_row svc keys env token)
      pure (signed keys token)
