-- ===== src/Examples/Server.antt =====
-- Witnesses for the theorems on the server.
use ep_governance.Prelude.{
  ℕ, String, ◌≡◌, ◌≢◌, refl, Bool, true, false, Option, none, some, List, [], ◌∷◌, map, str_eq,
}
use ep_governance.Authorizations.Issue.{AuthorizationToken, to_signed_token}
use ep_governance.Authorizations.Issued.{Entitles}
use ep_governance.Db.{Db, Authorization, ApprovalRequest, Transition, pending_approval, authorized}
use ep_governance.History.{stage_at}
use ep_governance.Repositories.Approvals.{get_request}
use ep_governance.Deployment.{EnforcementCapability}
use ep_governance.Errors.{ok}
use ep_governance.Examples.{svc, env1, env2, env3, db0, at, classify, clock, keys, capability}
use ep_governance.Examples.Policy.{cel, allows}
use ep_governance.McpServer.{
  ToolCall, CallEnv, ServerKeys, Response, submit_token_to_proxy, build_policy_engine,
  resolve_project_id, ep_execute,
}
use ep_governance.McpServer.Issuance.{ep_execute-issued}
use ep_governance.McpServer.Roles.{Access, Principal, principal_key, may_execute, may_decide}
use ep_governance.McpServer.Roles.Approval.{
  DecisionCall, decides, project_of_approval, handle_ep_approve,
}
use ep_governance.McpServer.Roles.Deciding.{handle_ep_approve-authority}
use ep_governance.McpServer.Roles.Handler.{responds, handle_ep_execute}
use ep_governance.McpServer.Roles.Held.{HoldsRole, handle_ep_execute-HoldsRole}
use ep_governance.Proxy.{actual_payload_hash}
use ep_governance.Repositories.Authorizations.{authorization_key}
use ep_governance.Repositories.Branches.{project_of_branch}
use ep_governance.Repositories.Policies.{PolicyRow}
use ep_governance.Repositories.Transitions.{get_transition, get_by_idempotency_key}
use ep_governance.Table.{find}
use ep_governance.Transitions.Admission.{Permits}
use ep_governance.Transitions.Proposal.{PolicyEngine, reusable, classification}
use ep_governance.Value.{object, end}

abbrev rows : List PolicyRow
rows = record { policy = allows; created_at = "2025"; updated_at = "2025" } ∷ []

abbrev call : ToolCall
call = record {
  branch_id = "main";
  tool = "postgres";
  arguments = object end;
  proxy_audience = "pg";
}

abbrev world : CallEnv
world = record { idempotency_key = "k1"; propose = env1; issue = env3; now = 5; nonce = "nonce" }

abbrev server : ServerKeys
server = record { keys = keys; clock = clock; token_ttl_seconds = 300; production = true }

executed :
    (id : String) × (token : AuthorizationToken) × (signed : List ℕ) × (db' : Db) × (ep_execute svc
        server world cel classify rows call "ann"
        (some capability)
        db0
      ≡ (ok (submit_token_to_proxy id token signed), db'))
unfolding ep_execute str_eq project_of_branch find
    ep_governance.Repositories.Policies.list_effective_policies
    ep_governance.Repositories.Policies.ordered ep_governance.Prelude.filter
    ep_governance.Policies.validate_scope_consistency ep_governance.Tx.transaction
    ep_governance.Transitions.Proposal.propose ep_governance.Tx.◌>>=◌ get_by_idempotency_key
    ep_governance.Table.latest ep_governance.Transitions.Proposal.assess
    ep_governance.Repositories.Transitions.insert_transition ep_governance.Prelude.any
    ep_governance.Table.insert_row ep_governance.Transitions.Proposal.conclude
    ep_governance.Transitions.Proposal.assessment_of
    ep_governance.Transitions.Proposal.verification_of
    ep_governance.PolicyEngine.Resolution.evaluate
    ep_governance.PolicyEngine.Matching.match_policies ep_governance.Policies.is_in_force
    ep_governance.Fnmatch.fnmatchcase ep_governance.PolicyEngine.Overrides.compute_overrides
    ep_governance.Transitions.Stepping.advance_stage
    ep_governance.Repositories.Transitions.get_transition
    ep_governance.Transitions.Proposal.proposal_row ep_governance.Stages.is_legal_transition
    ep_governance.Repositories.Transitions.update_stage ep_governance.Table.update_rows
    ep_governance.Transitions.Stepping.write_audit_event
    ep_governance.Audit.write_event_in_transaction
    ep_governance.Deployment.require_binding_enforcement
    ep_governance.Authorizations.Issue.issue_authorization
    ep_governance.Repositories.Authorizations.insert_authorization
executed = (_, _, _, _, refl)

unused_key : reusable (get_by_idempotency_key "k1" db0) ≡ none
unfolding reusable get_by_idempotency_key ep_governance.Table.latest
    ep_governance.Transitions.Proposal.conclude
unused_key = refl

ep_execute-issued_example :
    (engine : PolicyEngine) × (project : String) × (build_policy_engine cel rows "main" "ann"
        (resolve_project_id "main" db0)
      ≡ ok engine)
    × (project_of_branch "main" db0 ≡ some project)
    × Permits engine
        (env1.now 0)
        "ann"
        project
        "main"
        (classification classify "postgres" (object end))
    × (c : EnforcementCapability) × (◌≡◌ {A = Option EnforcementCapability}
        (some capability)
        (some c))
    × Entitles c true "ann" "pg" "postgres"
    × (a : Authorization) × (find authorization_key executed.1.authorization_id
          executed.3.authorizations
        ≡ some a)
    × (a.used ≡ false)
    × (a.payload_hash ≡ actual_payload_hash svc (object end))
    × (a.token_hash ≡ svc.sha256 executed.2)
ep_execute-issued_example =
    let (id, token, signed, db', ran) = executed in
    ep_execute-issued svc server world cel classify rows call "ann" (some capability) db0 id token
      signed db' unused_key ran

-- The agent has its role in the branch's project.
abbrev access : Access
access = record {
  principals = record { id = "ann"; kind = "agent"; status = "active" } ∷ [];
  roles = record { id = "r1"; name = "agent" } ∷ [];
  bindings = record { principal_id = "ann"; role_id = "r1"; project_id = some "p" } ∷ [];
}

answered :
    (x : Response) × (db' : Db) × (handle_ep_execute access false svc server world cel classify rows
        call "ann"
        (some capability)
        db0
      ≡ (ok (responds x), db'))
unfolding ep_execute handle_ep_execute find str_eq ep_governance.Prelude.any
    ep_governance.Prelude.filter project_of_branch
    ep_governance.Deployment.require_binding_enforcement
    ep_governance.Repositories.Policies.list_effective_policies
    ep_governance.Repositories.Policies.ordered ep_governance.Policies.validate_scope_consistency
    ep_governance.Tx.transaction ep_governance.Transitions.Proposal.propose ep_governance.Tx.◌>>=◌
    get_by_idempotency_key ep_governance.Table.latest ep_governance.Transitions.Proposal.assess
    ep_governance.Repositories.Transitions.insert_transition ep_governance.Table.insert_row
    ep_governance.Transitions.Proposal.conclude ep_governance.Transitions.Proposal.assessment_of
    ep_governance.Transitions.Proposal.verification_of
    ep_governance.PolicyEngine.Resolution.evaluate
    ep_governance.PolicyEngine.Matching.match_policies ep_governance.Policies.is_in_force
    ep_governance.Fnmatch.fnmatchcase ep_governance.PolicyEngine.Overrides.compute_overrides
    ep_governance.Transitions.Stepping.advance_stage
    ep_governance.Repositories.Transitions.get_transition
    ep_governance.Transitions.Proposal.proposal_row ep_governance.Stages.is_legal_transition
    ep_governance.Repositories.Transitions.update_stage ep_governance.Table.update_rows
    ep_governance.Transitions.Stepping.write_audit_event
    ep_governance.Audit.write_event_in_transaction
    ep_governance.Authorizations.Issue.issue_authorization
    ep_governance.Repositories.Authorizations.insert_authorization
answered = (_, _, refl)

handle_ep_execute-HoldsRole_example :
    ((p : Principal) × (find principal_key "ann" access.principals ≡ some p)
      × (p.status ≡ "active"))
    × HoldsRole access "ann" may_execute (resolve_project_id "main" db0)
handle_ep_execute-HoldsRole_example =
    let (x, db', ran) = answered in
    handle_ep_execute-HoldsRole access false svc server world cel classify rows call "ann"
      (some capability) db0 x db' ran

-- A human who decides for every project.
abbrev deciders : Access
deciders = record {
  principals = record { id = "boss"; kind = "human"; status = "active" } ∷ [];
  roles = record { id = "r2"; name = "policy_approver" } ∷ [];
  bindings = record { principal_id = "boss"; role_id = "r2"; project_id = none } ∷ [];
}

abbrev approval : DecisionCall
approval = record { approval_id = "q1"; reason = "fine" }

decided :
    (db' : Db) × (handle_ep_approve deciders false svc env2 approval "boss" (at pending_approval)
      ≡ (ok (decides "t1" authorized), db'))
unfolding handle_ep_approve find str_eq ep_governance.Prelude.any ep_governance.Prelude.filter
    get_request ep_governance.Tx.transaction ep_governance.Transitions.Decision.approve
    ep_governance.Tx.◌>>=◌ get_transition
    ep_governance.Repositories.Approvals.find_pending_by_transition ep_governance.Table.latest
    ep_governance.Repositories.Approvals.decide ep_governance.Table.affects
    ep_governance.Table.update_rows ep_governance.Transitions.Stepping.advance_stage
    ep_governance.Stages.is_legal_transition ep_governance.Repositories.Transitions.update_stage
    ep_governance.Transitions.Stepping.write_audit_event
    ep_governance.Audit.write_event_in_transaction ep_governance.Repositories.Branches.get_branch
decided = (_, refl)

handle_ep_approve-authority_example :
    ((p : Principal) × (find principal_key "boss" deciders.principals ≡ some p)
      × (p.status ≡ "active")
      × (p.kind ≡ "human"))
    × HoldsRole deciders "boss" may_decide (project_of_approval "q1" (at pending_approval))
    × (request : ApprovalRequest) × (get_request "q1" (at pending_approval) ≡ some request)
    × (request.transition_id ≡ "t1")
    × (t : Transition) × (get_transition request.transition_id (at pending_approval) ≡ some t)
    × (t.stage ≡ pending_approval)
    × ("boss" ≢ t.agent_id)
    × (stage_at request.transition_id decided.0 ≡ some authorized)
handle_ep_approve-authority_example =
    handle_ep_approve-authority deciders false svc env2 approval "boss" (at pending_approval) "t1"
      authorized decided.0 decided.1
