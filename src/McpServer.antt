-- ===== src/McpServer.antt =====
-- src/ep_governance/mcp_server.py: the tools `ep_check` and `ep_execute`, from a call to a proposal
-- and a signed token.
pub mod Issuance
pub mod Roles
use ep_governance.Prelude.{
  ℕ, String, Bool, false, not, ◌&&◌, ◌||◌, Option, none, some, List, [], ◌∷◌, map, str_eq,
  if◌then◌else◌,
}
use ep_governance.Authorizations.{Signing}
use ep_governance.Authorizations.Issue.{
  AuthorizationToken, PolicyDict, issue_authorization, to_signed_token,
}
use ep_governance.Db.{Db, Transition, Stage, denied, pending_approval, authorized}
use ep_governance.Deployment.{Clock, EnforcementCapability, require_binding_enforcement}
use ep_governance.Errors.{Result, ok, err, guard, ◌>>=◌, ◌>>◌, policy_integrity_error}
use ep_governance.Policies.{Policy, validate_scope_consistency}
use ep_governance.PolicyEngine.Matching.{Cel}
use ep_governance.Proxy.{actual_payload_hash}
use ep_governance.Repositories.Branches.{project_of_branch}
use ep_governance.Repositories.Policies.{PolicyRow, list_effective_policies}
use ep_governance.Service.{Service, Env}
use ep_governance.Transitions.Proposal.{Classifier, PolicyEngine, Proposed, propose}
use ep_governance.Tx.{transaction}
use ep_governance.Value.{Value}

-- `args`, with what `args.get("proxy_audience", "postgres-proxy")` gives.
pub record ToolCall : Type 0 where
  pub branch_id : String
  pub tool : String
  pub arguments : Value
  pub proxy_audience : String

-- What one call reads from the world: the fresh idempotency key, what the two engines read, the
-- instant in microseconds and the token's nonce.
pub record CallEnv : Type 0 where
  pub idempotency_key : String
  pub propose : Env
  pub issue : Env
  pub now : ℕ
  pub nonce : String

-- Each active row has to be a valid policy. Columns that are no policy at all are not modelled.
unfoldable pub validate_rows : List PolicyRow → Result (List Policy)
validate_rows [] = ok []
validate_rows (r ∷ rest) = elim (validate_scope_consistency r.policy) [
  | err _ ↦ err policy_integrity_error
  | ok _ ↦ validate_rows rest >>= λ policies. ok (r.policy ∷ policies)
]

engine_of : Cel → List PolicyRow → Result PolicyEngine
unfolding validate_rows
engine_of cel rows =
    validate_rows rows >>= λ policies. ok (record { cel = cel; policies = policies })

-- `_build_policy_engine`
unfoldable pub build_policy_engine :
    Cel → List PolicyRow → String → String → Option String → Result PolicyEngine
unfolding engine_of
build_policy_engine cel rows branch_id agent_id none = err policy_integrity_error
build_policy_engine cel rows branch_id agent_id (some project_id) =
    guard (not (str_eq branch_id "" || str_eq project_id "" || str_eq agent_id ""))
      policy_integrity_error
    >> engine_of cel (list_effective_policies project_id branch_id agent_id rows)

-- `_resolve_project_id(conn, branch_id=…)`, which asks only about a branch that is named.
unfoldable pub resolve_project_id : String → Db → Option String
resolve_project_id branch_id db =
    if str_eq branch_id "" then none else project_of_branch branch_id db

unfoldable pub proposed_call : CallEnv → ToolCall → String → Proposed
proposed_call env call agent_id = record {
  agent_id = agent_id;
  branch_id = call.branch_id;
  tool = call.tool;
  arguments = call.arguments;
  idempotency_key = env.idempotency_key;
  expected_head_id = none;
  expected_version = none;
}

unfoldable pub propose_call :
    Service
    → CallEnv
    → Classifier
    → ToolCall
    → String
    → Result PolicyEngine
    → Db
    → Result Transition × Db
unfolding proposed_call
propose_call svc env classify call agent_id (err e) db = (err e, db)
propose_call svc env classify call agent_id (ok engine) db =
    transaction (propose svc env.propose classify (some engine) (proposed_call env call agent_id))
      db

-- `_ep_check`: the transition's stage is the answer.
unfoldable pub ep_check :
    Service
    → CallEnv
    → Cel
    → Classifier
    → List PolicyRow
    → ToolCall
    → String
    → Db
    → Result Transition × Db
unfolding build_policy_engine propose_call resolve_project_id
ep_check svc env cel classify rows call agent_id db =
    propose_call svc env classify call agent_id
      (build_policy_engine cel rows call.branch_id agent_id (resolve_project_id call.branch_id db))
      db

-- What `_ep_execute` returns: each case of `next_action`.
pub data Response : Type 0 where
  action_denied_by_policy await_approval : String → Response
  unexpected_stage : String → Stage → Response
  requires_enforcement_capability no_project : String → Response
  submit_token_to_proxy : String → AuthorizationToken → List ℕ → Response

unfoldable pub policy_dict : String × ℕ → PolicyDict
policy_dict v = record {
  id = some v.0;
  policy_id = none;
  activation_version = some v.1;
  version = none;
}

-- The server's signing key, clock and lifetime of tokens, and what EP_PRODUCTION_MODE says.
pub record ServerKeys : Type 0 where
  pub keys : Signing
  pub clock : Clock
  pub token_ttl_seconds : ℕ
  pub production : Bool

unfoldable pub token_response :
    ServerKeys → Transition → Result AuthorizationToken × Db → Result Response × Db
token_response s t (err e, db) = (err e, db)
token_response s t (ok token, db) =
    (ok (submit_token_to_proxy t.id token (to_signed_token s.keys token)), db)

unfoldable pub issue_token :
    Service
    → ServerKeys
    → CallEnv
    → ToolCall
    → String
    → EnforcementCapability
    → Transition
    → Option String
    → Db
    → Result Response × Db
unfolding token_response policy_dict
issue_token svc s env call agent_id c t none db = (ok (no_project t.id), db)
issue_token svc s env call agent_id c t (some project_id) db =
    if str_eq project_id ""
    then (ok (no_project t.id), db)
    else token_response s t (
        transaction
          (issue_authorization svc s.keys s.clock s.token_ttl_seconds s.production env.issue env.now
            env.nonce t.id agent_id project_id call.branch_id call.proxy_audience call.tool
            (actual_payload_hash svc call.arguments) (map policy_dict t.matched_policy_versions) c)
          db)

unfoldable pub entitled_token :
    Service
    → ServerKeys
    → CallEnv
    → ToolCall
    → String
    → EnforcementCapability
    → Transition
    → Result (Unit {0})
    → Db
    → Result Response × Db
unfolding issue_token resolve_project_id
entitled_token svc s env call agent_id c t (err e) db = (err e, db)
entitled_token svc s env call agent_id c t (ok tt) db =
    issue_token svc s env call agent_id c t (resolve_project_id call.branch_id db) db

-- An action that is authorized, with or without a capability.
unfoldable pub authorized_response :
    Service
    → ServerKeys
    → CallEnv
    → ToolCall
    → String
    → Option EnforcementCapability
    → Transition
    → Db
    → Result Response × Db
unfolding entitled_token
authorized_response svc s env call agent_id none t db =
    (ok (requires_enforcement_capability t.id), db)
authorized_response svc s env call agent_id (some c) t db =
    entitled_token svc s env call agent_id c t
      (require_binding_enforcement s.clock env.now s.production c) db

unfoldable pub stage_response :
    Service
    → ServerKeys
    → CallEnv
    → ToolCall
    → String
    → Option EnforcementCapability
    → Transition
    → Stage
    → Db
    → Result Response × Db
unfolding authorized_response
stage_response svc s env call agent_id c t denied db = (ok (action_denied_by_policy t.id), db)
stage_response svc s env call agent_id c t pending_approval db = (ok (await_approval t.id), db)
stage_response svc s env call agent_id c t authorized db =
    authorized_response svc s env call agent_id c t db
stage_response svc s env call agent_id c t stage db = (ok (unexpected_stage t.id stage), db)

unfoldable pub after_proposal :
    Service
    → ServerKeys
    → CallEnv
    → ToolCall
    → String
    → Option EnforcementCapability
    → Result Transition × Db
    → Result Response × Db
unfolding stage_response
after_proposal svc s env call agent_id c (err e, db) = (err e, db)
after_proposal svc s env call agent_id c (ok t, db) =
    stage_response svc s env call agent_id c t t.stage db

-- `_ep_execute`
unfoldable pub ep_execute :
    Service
    → ServerKeys
    → CallEnv
    → Cel
    → Classifier
    → List PolicyRow
    → ToolCall
    → String
    → Option EnforcementCapability
    → Db
    → Result Response × Db
unfolding after_proposal ep_check
ep_execute svc s env cel classify rows call agent_id c db =
    after_proposal svc s env call agent_id c (ep_check svc env cel classify rows call agent_id db)
