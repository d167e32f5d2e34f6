-- ===== src/Transitions/Outcome.antt =====
-- `TransitionEngine.record_result` and `reconcile`.
use ep_governance.Prelude.{ℕ, String, true, false, Option, none, some, str_eq, if◌then◌else◌}
use ep_governance.Branches.{CommitRequest, commit}
use ep_governance.Db.{Db, Transition, Stage, executing, succeeded, failed, execution_uncertain}
use ep_governance.Errors.{Result, ok, err, illegal_transition}
use ep_governance.Repositories.Branches.{get_branch, get_head}
use ep_governance.Repositories.Transitions.{
  get_transition, update_result, set_requires_manual_reconciliation,
}
use ep_governance.Service.{Service, Env}
use ep_governance.Stages.{same_stage}
use ep_governance.Transitions.Stepping.{advance_stage, write_audit_event}
use ep_governance.Tx.{Tx, pure, require, guard, gets, transaction, ◌>>=◌, ◌>>◌}
use ep_governance.Value.{Value, Fields, null, boolean, text, object, field, end}

optional_node : Option String → Value
optional_node none = null
optional_node (some n) = text n

result_fields : String → String → String → Fields → Value
result_fields transition_id exit_status summary rest = object (
    field "transition_id" (text transition_id)
      (field "exit_status" (text exit_status) (field "result_summary" (text summary) rest)))

-- One branch per outcome: the stage, the event's type and the event's last field.
unfoldable pub record_outcome :
    Service
    → Env
    → Transition
    → String
    → String
    → Option String
    → Stage
    → String
    → Fields
    → Tx Transition
unfolding result_fields
record_outcome svc env t exit_status summary node stage event_type rest = do
  update_result t.id exit_status summary node (env.now 1)
  u ← advance_stage t.id stage (env.now 2)
  write_audit_event svc (env.xid 0) (env.now 3) t.branch_id event_type t.agent_id
      (result_fields t.id exit_status summary rest)
  pure u

-- The three outcomes: a timeout and any other status are uncertain.
unfoldable pub record_status :
    Service → Env → Transition → String → String → Option String → Tx Transition
unfolding record_outcome optional_node
record_status svc env t exit_status summary node =
    if str_eq exit_status "success"
    then record_outcome svc env t exit_status summary node succeeded "transition.succeeded"
        (field "to_node_id" (optional_node node) end)
    else if str_eq exit_status "failure"
    then record_outcome svc env t exit_status summary node failed "transition.failed" end
    else do
      set_requires_manual_reconciliation t.id true (env.now 0)
      record_outcome svc env t exit_status summary node execution_uncertain
          "transition.execution_uncertain"
          (field "requires_manual_reconciliation" (boolean true) end)

unfoldable pub record_result :
    Service → Env → String → String → String → Option String → Tx Transition
unfolding record_status
record_result svc env transition_id exit_status summary node = do
  found ← gets (get_transition transition_id)
  t ← require found illegal_transition
  guard (same_stage t.stage executing) illegal_transition
  record_status svc env t exit_status summary node

-- What the caller of `reconcile` may give for the branch commitment.
pub record Commitment : Type 0 where
  pub description : Option String
  pub bt_planning_budget : Value
  pub metadata : Option Value
  pub expected_head_id : Option String
  pub expected_version : Option ℕ
  pub lattice_id : Option String

-- `a if a is not None else b`
or_default : {A : Type 0} → Option A → A → A
or_default none b = b
or_default (some a) b = a

first_some : Option String → Option String → Option String
first_some none b = b
first_some (some a) b = some a

-- Phase 2: the caller's expectations, else the stored ones, else the branch as it is.
unfoldable pub commit_request : Commitment → Transition → String → Db → CommitRequest
unfolding or_default first_some
commit_request c t summary db = record {
  transition_id = t.id;
  branch_id = t.branch_id;
  agent_id = t.agent_id;
  description = or_default c.description summary;
  bt_planning_budget = c.bt_planning_budget;
  metadata = or_default c.metadata (object end);
  expected_head_id =
      first_some c.expected_head_id (first_some t.expected_head_id (get_head t.branch_id db).0);
  expected_version =
      or_default c.expected_version (or_default t.expected_version (get_head t.branch_id db).1);
  lattice_id =
      or_default c.lattice_id
        (elim (get_branch t.branch_id db) [ none ↦ t.branch_id | some b ↦ b.lattice_id ]);
}

reconciled_event : String → String → String → Value
reconciled_event transition_id final_status summary = object (
    field "transition_id" (text transition_id) (
      field "final_status" (text final_status) (
        field "result_summary" (text summary)
          (field "requires_manual_reconciliation" (boolean false) end))))

-- The transition that is reconciled, read on a connection of its own.
unfoldable pub uncertain_transition : String → Tx Transition
uncertain_transition transition_id = do
  found ← gets (get_transition transition_id)
  t ← require found illegal_transition
  guard (same_stage t.stage execution_uncertain) illegal_transition
  pure t

-- The flag and the event after a failed commitment, in one transaction; then a fresh read.
unfoldable pub commit_failed : Service → Env → Transition → Tx (Unit {0})
commit_failed svc env t = do
  set_requires_manual_reconciliation t.id true (env.now 5)
  write_audit_event svc (env.xid 3) (env.now 6) t.branch_id "transition.reconcile_commit_failed"
      t.agent_id
      (object (
        field "transition_id" (text t.id) (
          field "final_status" (text "succeeded")
            (field "requires_manual_reconciliation" (boolean true) end))))
  pure tt

unfoldable pub reread : String → Tx Transition
reread transition_id = do
  found ← gets (get_transition transition_id)
  require found illegal_transition

-- After a commitment: the flag is cleared and the event written.
unfoldable pub reconciled : Service → Env → Transition → String → String → Tx (Unit {0})
unfolding reconciled_event
reconciled svc env t final_status summary = do
  set_requires_manual_reconciliation t.id false (env.now 7)
  write_audit_event svc (env.xid 4) (env.now 8) t.branch_id "transition.reconciled" t.agent_id
      (reconciled_event t.id final_status summary)
  pure tt

unfoldable pub reconcile_failed : Service → Env → Transition → String → Tx Transition
unfolding reconciled
reconcile_failed svc env t summary = do
  u ← advance_stage t.id failed (env.now 9)
  reconciled svc env t "failed" summary
  pure u

-- A step that ran alone: its error ends the operation, its writes stay.
unfoldable pub and_then : {A B : Type 0} → Result A × Db → (A → Db → Result B × Db) → Result B × Db
and_then (ok a, db) k = k a db
and_then (err e, db) k = (err e, db)

unfoldable pub after_commit :
    {A : Type 0} → Service → Env → Transition → String → Result A × Db → Result Transition × Db
unfolding and_then
after_commit svc env t summary (err e, db) =
    and_then (transaction (commit_failed svc env t) db) λ _ db'. transaction (reread t.id) db'
after_commit svc env t summary (ok _, db) = and_then (transaction (reread t.id) db) λ u db'.
    and_then (transaction (reconciled svc env t "succeeded" summary) db') λ _ db''. (ok u, db'')

-- `none` without a branch committer.
unfoldable pub reconcile_commit :
    Service → Env → Transition → String → Option Commitment → Db → Result Transition × Db
unfolding after_commit
reconcile_commit svc env t summary none db = (err illegal_transition, db)
reconcile_commit svc env t summary (some c) db =
    after_commit svc env t summary (transaction (commit svc env (commit_request c t summary db)) db)

-- Several transactions, one after another.
unfoldable pub reconcile :
    Service → Env → String → String → String → Option Commitment → Db → Result Transition × Db
unfolding and_then reconcile_commit
reconcile svc env transition_id final_status summary commitment db =
    and_then (transaction (uncertain_transition transition_id) db) λ t db'.
      if str_eq final_status "succeeded"
      then reconcile_commit svc env t summary commitment db'
      else if str_eq final_status "failed"
      then transaction (reconcile_failed svc env t summary) db'
      else (err illegal_transition, db')
