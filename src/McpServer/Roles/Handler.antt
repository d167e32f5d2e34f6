-- ===== src/McpServer/Roles/Handler.antt =====
-- `_handle_tool_call` of src/ep_governance/mcp_server.py for `ep_execute`.
use ep_governance.Prelude.{String, Bool, Option, none, some, List}
use ep_governance.Db.{Db}
use ep_governance.Deployment.{EnforcementCapability, require_binding_enforcement}
use ep_governance.Errors.{Result, ok, err}
use ep_governance.McpServer.{
  ToolCall, CallEnv, ServerKeys, Response, ep_execute, resolve_project_id,
}
use ep_governance.McpServer.Roles.{Access, Denial, denial}
use ep_governance.PolicyEngine.Matching.{Cel}
use ep_governance.Repositories.Policies.{PolicyRow}
use ep_governance.Service.{Service}
use ep_governance.Transitions.Proposal.{Classifier}

-- The error of a call that is not admitted, or the tool's answer.
pub data Answer : Type 0 where
  denies : Denial → Answer
  responds : Response → Answer

unfoldable pub answer : Result Response × Db → Result Answer × Db
answer (ok r, db) = (ok (responds r), db)
answer (err e, db) = (err e, db)

-- A capability that the server has must be active before anything else.
unfoldable pub capability_active :
    ServerKeys → CallEnv → Option EnforcementCapability → Result (Unit {0})
capability_active s env none = ok tt
capability_active s env (some c) = require_binding_enforcement s.clock env.now s.production c

unfoldable pub if_active : Result (Unit {0}) → Db → Result Response × Db → Result Response × Db
if_active (err e) db rest = (err e, db)
if_active (ok tt) db rest = rest

unfoldable pub admitted : Option Denial → Db → Result Answer × Db → Result Answer × Db
admitted (some d) db rest = (ok (denies d), db)
admitted none db rest = rest

unfoldable pub handle_ep_execute :
    Access
    → Bool
    → Service
    → ServerKeys
    → CallEnv
    → Cel
    → Classifier
    → List PolicyRow
    → ToolCall
    → String
    → Option EnforcementCapability
    → Db
    → Result Answer × Db
unfolding admitted answer if_active capability_active denial
handle_ep_execute a bootstrap svc s env cel classify rows call principal_id c db =
    admitted (denial a bootstrap principal_id "ep_execute" (resolve_project_id call.branch_id db))
      db
      (answer (
        if_active (capability_active s env c) db
          (ep_execute svc s env cel classify rows call principal_id c db)))
