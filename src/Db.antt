-- ===== src/Db.antt =====
-- The tables of migrations/sqlite/001_init.sql and migrations/postgres/001_init.sql that the
-- modelled code reads and writes, one record to a table. A bt_planning_budget is stored and never
-- computed with, so it is kept as a `Value`.
use ep_governance.Prelude.{ℕ, String, Bool, Option, List}
use ep_governance.Value.{Value}

pub data Stage : Type 0 where
  proposed pending_approval authorized executing succeeded failed : Stage
  execution_uncertain cancelled expired denied : Stage

pub record Transition : Type 0 where
  pub id : String
  pub branch_id : String
  pub agent_id : String
  pub to_node_id : Option String
  pub tool : String
  pub action : String
  pub resource : Option String
  pub payload : Value
  pub payload_hash : String
  pub expected_head_id : Option String
  pub expected_version : Option ℕ
  pub idempotency_key : String
  pub stage : Stage
  pub exit_status : Option String
  pub result_summary : Option String
  pub policy_set_hash : Option String
  pub matched_policy_versions : List (String × ℕ)
  pub requires_manual_reconciliation : Bool
  pub created_at : String
  pub updated_at : String

pub record Lattice : Type 0 where
  pub id : String
  pub project_id : String

pub record Branch : Type 0 where
  pub id : String
  pub lattice_id : String
  pub name : String
  pub head_node_id : Option String
  pub version : ℕ

pub data NodeStatus : Type 0 where
  committed superseded quarantined at_risk : NodeStatus

pub record Node : Type 0 where
  pub id : String
  pub branch_id : String
  pub agent_id : String
  pub description : String
  pub bt_planning_budget : Value
  pub metadata : Value
  pub status : NodeStatus
  pub created_at : String
  pub committed_at : Option String

pub record Edge : Type 0 where
  pub id : String
  pub upstream_node_id : String
  pub downstream_node_id : String
  pub created_at : String

pub data RequestStatus : Type 0 where
  pending approved denied : RequestStatus

pub record ApprovalRequest : Type 0 where
  pub id : String
  pub transition_id : String
  pub policy_id : Option String
  pub requested_by : String
  pub justification : String
  pub status : RequestStatus
  pub decided_by : Option String
  pub decided_at : Option String
  pub decision : Option String
  pub reason : Option String
  pub created_at : String
  pub updated_at : String

pub record Authorization : Type 0 where
  pub id : String
  pub transition_id : String
  pub agent_id : String
  pub project_id : String
  pub branch_id : String
  pub proxy_audience : String
  pub tool : String
  pub payload_hash : String
  pub policy_set_hash : String
  pub token_hash : String
  pub matched_policy_versions : List (String × ℕ)
  pub issued_at : String
  pub expires_at : String
  pub nonce : String
  pub used : Bool
  pub used_at : Option String
  pub execution_attempt_id : Option String
  pub created_at : String

pub record AuditHead : Type 0 where
  pub lattice_id : String
  pub last_sequence : ℕ
  pub last_hash : String

pub record AuditEvent : Type 0 where
  pub id : String
  pub lattice_id : String
  pub sequence : ℕ
  pub event_type : String
  pub event_data : Value
  pub previous_hash : String
  pub event_hash : String
  pub actor_principal_id : String
  pub authenticated_caller_id : String
  pub event_writer_id : String
  pub created_at : String

-- `role_bindings` joins ep_role_bindings and ep_roles: a principal and the name of a role of it.
pub record Db : Type 0 where
  pub transitions : List Transition
  pub lattices : List Lattice
  pub branches : List Branch
  pub nodes : List Node
  pub edges : List Edge
  pub approval_requests : List ApprovalRequest
  pub approval_policies : List (String × String)
  pub authorizations : List Authorization
  pub audit_heads : List AuditHead
  pub events : List AuditEvent
  pub role_bindings : List (String × String)
