-- ===== src/Branches.antt =====
-- src/ep_governance/branches.py: `BranchCommitter.commit`, the nine steps that realise a node and
-- advance the branch's head in one transaction.
pub mod Optimistic
use ep_governance.Prelude.{
  ℕ, ◌+◌, String, Bool, true, false, not, ◌&&◌, ◌||◌, Option, none, some, List, [], ◌∷◌, ◌==◌,
  str_eq, if◌then◌else◌,
}
use ep_governance.Audit.{write_event_in_transaction}
use ep_governance.Db.{
  Db, Transition, Stage, executing, execution_uncertain, succeeded, Node, committed, Edge,
}
use ep_governance.Errors.{illegal_transition, stale_head}
use ep_governance.Repositories.Branches.{
  get_head, update_head, insert_node, mark_superseded, insert_edge,
}
use ep_governance.Repositories.Transitions.{get_transition, update_stage, update_result}
use ep_governance.Service.{Service, Env}
use ep_governance.Stages.{is_in}
use ep_governance.Tx.{Tx, pure, require, guard, gets, ◌>>=◌, ◌>>◌}
use ep_governance.Value.{Value, integer, text, null, object, field, end}

pub record CommitRequest : Type 0 where
  pub transition_id : String
  pub branch_id : String
  pub agent_id : String
  pub description : String
  pub bt_planning_budget : Value
  pub metadata : Value
  pub expected_head_id : Option String
  pub expected_version : ℕ
  pub lattice_id : String

-- The stages from which a commit starts.
abbrev pub committable : List Stage
committable = executing ∷ execution_uncertain ∷ []

-- `expected is not None and head != expected` is a mismatch.
unfoldable pub head_matches : Option String → Option String → Bool
head_matches none head = true
head_matches (some e) none = false
head_matches (some e) (some h) = str_eq h e

unfoldable pub new_node : Env → CommitRequest → Node
new_node env r = record {
  id = env.xid 0;
  branch_id = r.branch_id;
  agent_id = r.agent_id;
  description = r.description;
  bt_planning_budget = r.bt_planning_budget;
  metadata = r.metadata;
  status = committed;
  created_at = env.now 1;
  committed_at = some (env.now 1);
}

-- Steps 4 and 5, where the branch had a head.
unfoldable pub link_head : Env → Option String → Tx (Unit {0})
link_head env none = pure tt
link_head env (some head) = do
  insert_edge (record {
    id = env.xid 1;
    upstream_node_id = head;
    downstream_node_id = env.xid 0;
    created_at = env.now 0;
  })
  mark_superseded head
  pure tt

unfoldable pub head_value : Option String → Value
head_value none = null
head_value (some h) = text h

unfoldable pub commit_event : Env → CommitRequest → Option String → Value
unfolding head_value
commit_event env r head = object (
    field "transition_id" (text r.transition_id) (
      field "branch_id" (text r.branch_id) (
        field "new_node_id" (text (env.xid 0)) (
          field "old_head_id" (head_value head)
            (field "new_version" (integer (r.expected_version + 1)) end)))))

-- Steps 7 to 9: the result, the stage and the event.
unfoldable pub finish_commit :
    Service → Env → CommitRequest → Stage → Option String → Tx (String × ℕ)
unfolding commit_event
finish_commit svc env r stage head = do
  update_result r.transition_id "success" r.description (some (env.xid 0)) (env.now 2)
  advanced ← update_stage r.transition_id succeeded (some stage) (env.now 3)
  guard advanced illegal_transition
  write_event_in_transaction svc (env.xid 2) (env.now 4) r.lattice_id "branch_committed"
      (commit_event env r head) r.agent_id svc.ep_service_principal_id
  pure (env.xid 0, r.expected_version + 1)

-- Steps 3 to 9: the node, its edge, the branch's head, and what follows.
unfoldable pub realise : Service → Env → CommitRequest → Stage → Option String → Tx (String × ℕ)
unfolding new_node link_head finish_commit
realise svc env r stage head = do
  insert_node (new_node env r)
  link_head env head
  updated ← update_head r.branch_id (env.xid 0) r.expected_version
  guard updated stale_head
  finish_commit svc env r stage head

-- Returns the new node's identifier and the new version.
unfoldable pub commit : Service → Env → CommitRequest → Tx (String × ℕ)
unfolding head_matches realise
commit svc env r = do
  found ← gets (get_transition r.transition_id)
  transition ← require found illegal_transition
  guard (is_in transition.stage committable) illegal_transition
  head ← gets (get_head r.branch_id)
  guard (head_matches r.expected_head_id head.0) stale_head
  guard (head.1 == r.expected_version) stale_head
  realise svc env r transition.stage head.0
