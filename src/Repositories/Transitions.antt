-- ===== src/Repositories/Transitions.antt =====
-- `TransitionRepository` of repositories.py, with the unique index on `idempotency_key` and the CHECK
-- on `exit_status` of migrations/sqlite/001_init.sql and migrations/postgres/001_init.sql, and the
-- statements that src/ep_governance/transitions.py runs on ep_transitions itself.
use ep_governance.Prelude.{
  String, Bool, true, false, ◌||◌, Option, none, some, any, str_eq, if◌then◌else◌,
}
use ep_governance.Db.{Db, Transition, Stage}
use ep_governance.Errors.{integrity_error}
use ep_governance.Stages.{same_stage}
use ep_governance.Table.{find, insert_row, affects, update_rows, latest}
use ep_governance.Tx.{Tx, pure, lift, raise, gets, ◌>>=◌}

abbrev pub transition_key : Transition → String
transition_key t = t.id

unfoldable pub get_transition : String → Db → Option Transition
get_transition id db = find transition_key id db.transitions

-- The latest transition of the key.
unfoldable pub get_by_idempotency_key : String → Db → Option Transition
get_by_idempotency_key key db =
    latest (λ t. str_eq t.idempotency_key key) (λ t. t.created_at) db.transitions

-- Refused where the identifier or the idempotency key is taken.
unfoldable pub insert_transition : Transition → Tx Transition
insert_transition t = do
  rows ← gets (λ db. db.transitions)
  if any (λ u. str_eq u.idempotency_key t.idempotency_key) rows then raise integrity_error else do
    transitions ← lift (insert_row transition_key t rows)
    λ db. pure t (record db { transitions = transitions })

-- The optional guard `AND stage = :expected_current_stage`.
abbrev pub at_stage : Option Stage → Transition → Bool
at_stage none t = true
at_stage (some s) t = same_stage t.stage s

abbrev pub set_stage : Stage → String → Transition → Transition
set_stage s now t = record t { stage = s; updated_at = now }

unfoldable pub update_stage : String → Stage → Option Stage → String → Tx Bool
update_stage id stage expected now = do
  updated ← gets (λ db. affects transition_key (at_stage expected) id db.transitions)
  λ db. pure updated (record db {
    transitions =
        update_rows transition_key (at_stage expected) (set_stage stage now) id db.transitions;
  })

-- CHECK (exit_status IN ('success', 'failure', 'timeout'))
unfoldable pub exit_status_allowed : String → Bool
exit_status_allowed s = str_eq s "success" || str_eq s "failure" || str_eq s "timeout"

abbrev pub set_result : String → String → Option String → String → Transition → Transition
set_result exit_status summary node now t = record t {
  exit_status = some exit_status;
  result_summary = some summary;
  to_node_id = node;
  updated_at = now;
}

abbrev pub always : Transition → Bool
always _ = true

unfoldable pub update_result : String → String → String → Option String → String → Tx Bool
update_result id exit_status summary node now = do
  updated ← gets (λ db. affects transition_key always id db.transitions)
  if updated
      then (if exit_status_allowed exit_status
          then (λ db. pure true (record db {
            transitions =
                update_rows transition_key always (set_result exit_status summary node now) id
                  db.transitions;
          }))
          else raise integrity_error)
      else pure false

abbrev pub set_flag : Bool → String → Transition → Transition
set_flag value now t = record t { requires_manual_reconciliation = value; updated_at = now }

unfoldable pub set_requires_manual_reconciliation : String → Bool → String → Tx (Unit {0})
set_requires_manual_reconciliation id value now = λ db. pure tt (record db {
  transitions = update_rows transition_key always (set_flag value now) id db.transitions;
})
