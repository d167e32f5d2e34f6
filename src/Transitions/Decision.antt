-- ===== src/Transitions/Decision.antt =====
-- `TransitionEngine.approve`, `deny_approval` and `cancel`.
use ep_governance.Prelude.{String, Bool, not, ◌&&◌, ◌||◌, List, [], ◌∷◌, any, str_eq}
use ep_governance.Db.{
  Db, Transition, Stage, proposed, pending_approval, authorized, cancelled, denied,
}
use ep_governance.Errors.{
  illegal_transition, separation_of_duties, approval_already_decided, authorization_error,
}
use ep_governance.Repositories.Approvals.{find_pending_by_transition, decide}
use ep_governance.Repositories.Transitions.{get_transition}
use ep_governance.Service.{Service, Env}
use ep_governance.Stages.{same_stage, is_in}
use ep_governance.Transitions.Stepping.{advance_stage, write_audit_event}
use ep_governance.Tx.{Tx, pure, require, guard, gets, ◌>>=◌, ◌>>◌}
use ep_governance.Value.{Value, text, object, field, end}

approval_event : String → String → String → String → Value
approval_event transition_id approver_id approver_type reason = object (
    field "transition_id" (text transition_id) (
      field "approver_id" (text approver_id)
        (field "approver_type" (text approver_type) (field "reason" (text reason) end))))

-- The requester and agents are refused; the pending request of the proposal is decided, and the
-- transition advances to authorized.
unfoldable pub approve : Service → Env → String → String → String → String → Tx Transition
unfolding approval_event
approve svc env transition_id approver_id approver_type reason = do
  found ← gets (get_transition transition_id)
  transition ← require found illegal_transition
  guard (same_stage transition.stage pending_approval) illegal_transition
  guard (not (str_eq approver_id transition.agent_id)) separation_of_duties
  guard (not (str_eq approver_type "agent")) separation_of_duties
  request ← gets (find_pending_by_transition transition_id)
  approval ← require request illegal_transition
  decided ← decide approval.id approver_id "approved" reason (env.now 0)
  require decided approval_already_decided
  u ← advance_stage transition_id authorized (env.now 1)
  write_audit_event svc (env.xid 0) (env.now 2) transition.branch_id "transition.approved"
      approver_id (approval_event transition_id approver_id approver_type reason)
  pure u

denial_event : String → String → String → Value
denial_event transition_id approver_id reason = object (
    field "transition_id" (text transition_id)
      (field "approver_id" (text approver_id) (field "reason" (text reason) end)))

unfoldable pub deny_approval : Service → Env → String → String → String → Tx Transition
unfolding denial_event
deny_approval svc env transition_id approver_id reason = do
  found ← gets (get_transition transition_id)
  transition ← require found illegal_transition
  guard (same_stage transition.stage pending_approval) illegal_transition
  guard (not (str_eq approver_id transition.agent_id)) separation_of_duties
  request ← gets (find_pending_by_transition transition_id)
  approval ← require request illegal_transition
  decided ← decide approval.id approver_id "denied" reason (env.now 0)
  require decided approval_already_decided
  u ← advance_stage transition_id denied (env.now 1)
  write_audit_event svc (env.xid 0) (env.now 2) transition.branch_id "transition.denied_approval"
      approver_id (denial_event transition_id approver_id reason)
  pure u

abbrev pub cancellable_stages : List Stage
cancellable_stages = proposed ∷ pending_approval ∷ authorized ∷ []

-- The count of the administrator bindings is above 0. The query itself is taken not to fail.
unfoldable pub is_admin : String → Db → Bool
is_admin agent_id db = any (λ b. str_eq b.0 agent_id && str_eq b.1 "administrator") db.role_bindings

cancel_event : String → String → Value
cancel_event transition_id agent_id =
    object (field "transition_id" (text transition_id) (field "agent_id" (text agent_id) end))

-- For the agent that proposed the transition, or an administrator.
unfoldable pub cancel : Service → Env → String → String → Tx Transition
unfolding cancel_event
cancel svc env transition_id agent_id = do
  found ← gets (get_transition transition_id)
  transition ← require found illegal_transition
  guard (is_in transition.stage cancellable_stages) illegal_transition
  admin ← gets (is_admin agent_id)
  guard (str_eq agent_id transition.agent_id || admin) authorization_error
  u ← advance_stage transition_id cancelled (env.now 0)
  write_audit_event svc (env.xid 0) (env.now 1) transition.branch_id "transition.cancelled" agent_id
      (cancel_event transition_id agent_id)
  pure u
