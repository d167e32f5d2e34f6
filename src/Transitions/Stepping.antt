-- ===== src/Transitions/Stepping.antt =====
-- The engine's private helpers: `_advance_stage_impl` and `_write_audit_event`.
use ep_governance.Prelude.{String, Option, none, some}
use ep_governance.Db.{Transition, Stage, AuditEvent, Branch}
use ep_governance.Errors.{illegal_transition}
use ep_governance.Audit.{write_event_in_transaction}
use ep_governance.Repositories.Branches.{get_branch}
use ep_governance.Repositories.Transitions.{get_transition, update_stage}
use ep_governance.Service.{Service}
use ep_governance.Stages.{is_legal_transition}
use ep_governance.Tx.{Tx, require, guard, gets, ◌>>=◌, ◌>>◌}
use ep_governance.Value.{Value}

-- A missing transition, an illegal move and a row that is gone after the update raise.
unfoldable pub advance_stage : String → Stage → String → Tx Transition
advance_stage transition_id to_stage now = do
  found ← gets (get_transition transition_id)
  transition ← require found illegal_transition
  guard (is_legal_transition transition.stage to_stage) illegal_transition
  update_stage transition_id to_stage none now
  updated ← gets (get_transition transition_id)
  require updated illegal_transition

-- The branch's lattice, or the branch's own identifier where the branch is not there.
lattice_of : String → Option Branch → String
lattice_of branch_id none = branch_id
lattice_of branch_id (some b) = b.lattice_id

unfoldable pub write_audit_event :
    Service → String → String → String → String → String → Value → Tx AuditEvent
unfolding lattice_of
write_audit_event svc event_id now branch_id event_type actor event_data = do
  branch ← gets (get_branch branch_id)
  write_event_in_transaction svc event_id now (lattice_of branch_id branch) event_type event_data
      actor actor
