-- ===== src/McpServer/Roles/Approval.antt =====
-- `_ep_approve` and `_ep_deny` of src/ep_governance/mcp_server.py, behind the gate of
-- `_handle_tool_call`, with the project that `_resolve_project_id` finds for an approval request.
use ep_governance.Prelude.{String, Bool, not, Option, none, some, str_eq, if◌then◌else◌}
use ep_governance.Db.{Db, Stage, Transition, ApprovalRequest}
use ep_governance.Errors.{Result, ok, err}
use ep_governance.McpServer.{resolve_project_id}
use ep_governance.McpServer.Roles.{Access, Denial, denial, principal_key}
use ep_governance.Repositories.Approvals.{get_request}
use ep_governance.Repositories.Transitions.{get_transition}
use ep_governance.Service.{Service, Env}
use ep_governance.Table.{find}
use ep_governance.Transitions.Decision.{approve, deny_approval}
use ep_governance.Tx.{transaction}

-- The arguments, with the reason that is taken where none is given.
pub record DecisionCall : Type 0 where
  pub approval_id : String
  pub reason : String

pub data Decision : Type 0 where
  turned_away : Denial → Decision
  not_human request_not_found : Decision
  decides : String → Stage → Decision

unfoldable pub project_of_transition : Option Transition → Db → Option String
unfolding resolve_project_id
project_of_transition none db = none
project_of_transition (some t) db = resolve_project_id t.branch_id db

unfoldable pub project_of_request : Option ApprovalRequest → Db → Option String
unfolding project_of_transition
project_of_request none db = none
project_of_request (some r) db =
    if str_eq r.transition_id ""
    then none
    else project_of_transition (get_transition r.transition_id db) db

-- `_resolve_project_id(conn, approval_id=…)`
unfoldable pub project_of_approval : String → Db → Option String
unfolding project_of_request
project_of_approval approval_id db =
    if str_eq approval_id "" then none else project_of_request (get_request approval_id db) db

unfoldable pub decision_response : String → Result Transition × Db → Result Decision × Db
decision_response transition_id (ok t, db) = (ok (decides transition_id t.stage), db)
decision_response transition_id (err e, db) = (err e, db)

-- The request names the transition; its own state is not looked at here.
unfoldable pub approve_request :
    Service → Env → String → String → Option ApprovalRequest → Db → Result Decision × Db
unfolding decision_response
approve_request svc env approver_id reason none db = (ok request_not_found, db)
approve_request svc env approver_id reason (some r) db =
    decision_response r.transition_id
      (transaction (approve svc env r.transition_id approver_id "human" reason) db)

unfoldable pub ep_approve :
    Service → Env → DecisionCall → String → String → Db → Result Decision × Db
unfolding approve_request
ep_approve svc env call approver_id approver_type db =
    if not (str_eq approver_type "human")
    then (ok not_human, db)
    else approve_request svc env approver_id call.reason (get_request call.approval_id db) db

unfoldable pub deny_request :
    Service → Env → String → String → Option ApprovalRequest → Db → Result Decision × Db
unfolding decision_response
deny_request svc env approver_id reason none db = (ok request_not_found, db)
deny_request svc env approver_id reason (some r) db =
    decision_response r.transition_id
      (transaction (deny_approval svc env r.transition_id approver_id reason) db)

unfoldable pub ep_deny : Service → Env → DecisionCall → String → String → Db → Result Decision × Db
unfolding deny_request
ep_deny svc env call approver_id approver_type db =
    if not (str_eq approver_type "human")
    then (ok not_human, db)
    else deny_request svc env approver_id call.reason (get_request call.approval_id db) db

-- `principal["type"]`, of a principal that the gate has found.
unfoldable pub principal_type : Access → String → String
principal_type a principal_id = elim (find principal_key principal_id a.principals) [
  | none ↦ ""
  | some p ↦ p.kind
]

unfoldable pub past_gate : Option Denial → Db → Result Decision × Db → Result Decision × Db
past_gate (some d) db rest = (ok (turned_away d), db)
past_gate none db rest = rest

unfoldable pub handle_ep_approve :
    Access → Bool → Service → Env → DecisionCall → String → Db → Result Decision × Db
unfolding past_gate ep_approve principal_type denial project_of_approval
handle_ep_approve a bootstrap svc env call principal_id db =
    past_gate
      (denial a bootstrap principal_id "ep_approve" (project_of_approval call.approval_id db)) db
      (ep_approve svc env call principal_id (principal_type a principal_id) db)

unfoldable pub handle_ep_deny :
    Access → Bool → Service → Env → DecisionCall → String → Db → Result Decision × Db
unfolding past_gate ep_deny principal_type denial project_of_approval
handle_ep_deny a bootstrap svc env call principal_id db =
    past_gate (denial a bootstrap principal_id "ep_deny" (project_of_approval call.approval_id db))
      db (ep_deny svc env call principal_id (principal_type a principal_id) db)
