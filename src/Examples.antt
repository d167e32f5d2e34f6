-- ===== src/Examples.antt =====
-- A small service and a day of it, for the tests and the witnesses: one branch, one agent, one
-- administrator, and a transition from its proposal to its commit.
pub mod Runs
pub mod Policy
pub mod Proposals
pub mod Tampering
pub mod Log
pub mod Execution
pub mod Identifiers
pub mod Frontends
pub mod Server
use ep_governance.Prelude.{
  ℕ, zero, suc, String, Bool, true, false, Option, none, some, List, [], ◌∷◌,
}
use ep_governance.Audit.{genesis_hash}
use ep_governance.Authorizations.{Signing}
use ep_governance.Authorizations.Claim.{verify_and_claim, ClaimResult}
use ep_governance.Authorizations.Issue.{issue_authorization, PolicyDict}
use ep_governance.Branches.{CommitRequest, commit}
use ep_governance.Db.{Db, Transition, Stage, ApprovalRequest, RequestStatus, Authorization}
use ep_governance.Deployment.{Clock, EnforcementCapability, aware}
use ep_governance.Service.{Service, Env}
use ep_governance.Transitions.Decision.{approve}
use ep_governance.Transitions.Proposal.{Classifier, Proposed, propose}
use ep_governance.Tx.{transaction}
use ep_governance.Value.{Value, integer, text, array, nil, object, end, field}

abbrev pub svc : Service
svc = record { sha256 = λ _. "h"; ep_service_principal_id = "ep" }

abbrev ids : String → String → String → ℕ → String
ids a b c zero = a
ids a b c (suc zero) = b
ids a b c (suc (suc _)) = c

abbrev pub env_of : String → String → String → String → Env
env_of a b c now = record { xid = ids a b c; now = λ _. now }

abbrev pub env1 : Env
env1 = env_of "t1" "e1" "q1" "2025-01-01T00:00:01Z"

abbrev pub env2 : Env
env2 = env_of "e2" "x2" "y2" "2025-01-01T00:00:02Z"

abbrev pub env3 : Env
env3 = env_of "a1" "x3" "y3" "2025-01-01T00:00:03Z"

abbrev pub env4 : Env
env4 = env_of "attempt1" "x4" "y4" "2025-01-01T00:00:04Z"

abbrev pub env5 : Env
env5 = env_of "n1" "g1" "e5" "2025-01-01T00:00:05Z"

abbrev pub db0 : Db
db0 = record {
  transitions = [];
  lattices = record { id = "l"; project_id = "p" } ∷ [];
  branches =
      record { id = "main"; lattice_id = "l"; name = "main"; head_node_id = none; version = 0 }
      ∷ [];
  nodes = [];
  edges = [];
  approval_requests = [];
  approval_policies = [];
  authorizations = [];
  audit_heads = record { lattice_id = "l"; last_sequence = 0; last_hash = genesis_hash } ∷ [];
  events = [];
  role_bindings = ("boss", "administrator") ∷ [];
}

abbrev pub classify : Classifier
classify _ _ = none

abbrev pub proposal : Proposed
proposal = record {
  agent_id = "ann";
  branch_id = "main";
  tool = "postgres";
  arguments = object end;
  idempotency_key = "k1";
  expected_head_id = none;
  expected_version = none;
}

-- The transition of the proposal.
abbrev pub transition_at : Stage → Transition
transition_at s = record {
  id = "t1";
  branch_id = "main";
  agent_id = "ann";
  to_node_id = none;
  tool = "postgres";
  action = "opaque";
  resource = none;
  payload = object end;
  payload_hash = "h";
  expected_head_id = none;
  expected_version = none;
  idempotency_key = "k1";
  stage = s;
  exit_status = none;
  result_summary = none;
  policy_set_hash = none;
  matched_policy_versions = [];
  requires_manual_reconciliation = false;
  created_at = "2025-01-01T00:00:01Z";
  updated_at = "2025-01-01T00:00:01Z";
}

abbrev pub pending_request : ApprovalRequest
pending_request = record {
  id = "q1";
  transition_id = "t1";
  policy_id = none;
  requested_by = "ann";
  justification = "Action 'opaque' requires approval";
  status = RequestStatus.pending;
  decided_by = none;
  decided_at = none;
  decision = none;
  reason = none;
  created_at = "2025-01-01T00:00:01Z";
  updated_at = "2025-01-01T00:00:01Z";
}

abbrev pub authorization : Authorization
authorization = record {
  id = "a1";
  transition_id = "t1";
  agent_id = "ann";
  project_id = "p";
  branch_id = "main";
  proxy_audience = "pg";
  tool = "postgres";
  payload_hash = "h";
  policy_set_hash = "";
  token_hash = "h";
  matched_policy_versions = [];
  issued_at = "2025-01-01T00:00:03Z";
  expires_at = "2025-01-01T00:05:03Z";
  nonce = "nonce";
  used = false;
  used_at = none;
  execution_attempt_id = none;
  created_at = "2025-01-01T00:00:03Z";
}

-- The database where the transition has the stage.
abbrev pub at : Stage → Db
at s = record db0 {
  transitions = transition_at s ∷ [];
  approval_requests = pending_request ∷ [];
  authorizations = authorization ∷ [];
}

abbrev pub keys : Signing
keys = record {
  sign = λ _. "sig";
  verify = λ _ _. true;
  json_loads = λ _. some (
      object (
        field "signature" (text "sig")
          (field "payload_hash" (text "h") (field "authorization_id" (text "a1") end))));
}

abbrev pub clock : Clock
clock = record { fromisoformat = λ _. aware 9; strftime = λ _. "2025-01-01T00:05:00Z" }

abbrev pub capability : EnforcementCapability
capability = record {
  effective_mode = "enforced";
  binding_enforcement_active = true;
  agent_principal_id = "proxy";
  verification_time = text "2025-01-01T00:00:00Z";
  failure_reasons = array nil;
  proxy_scoped = true;
  issued_at = "2025-01-01T00:00:00Z";
  expires_at = "2025-01-01T01:00:00Z";
  deployment_id = "d";
  runtime_instance_id = text "";
  proxy_principal_id = "px";
  proxy_audience = "pg";
  target_id = "t";
  supported_action_types = "postgres" ∷ [];
  attestation_digest = "h";
  trust_level = "signed_attestation";
}

abbrev pub no_policies : List PolicyDict
no_policies = []

abbrev pub request : CommitRequest
request = record {
  transition_id = "t1";
  branch_id = "main";
  agent_id = "ann";
  description = "done";
  bt_planning_budget = integer 0;
  metadata = object end;
  expected_head_id = none;
  expected_version = 0;
  lattice_id = "l";
}
