-- ===== src/Transitions/Result.antt =====
-- What recording a result leads to.
use ep_governance.Prelude.{
  String, ◌≡◌, ap, ◌∙◌, subst, true, Option, some, str_eq, if◌then◌else◌, Bool-cases, inl, inr,
}
use ep_governance.Db.{Db, Transition, Stage, executing, succeeded, failed, execution_uncertain}
use ep_governance.Errors.{ok}
use ep_governance.History.{stage_at, stage_of, same_stage-eq}
use ep_governance.Repositories.Transitions.{
  get_transition, transition_key, set_requires_manual_reconciliation,
}
use ep_governance.Service.{Service, Env}
use ep_governance.Table.{find}
use ep_governance.Table.Lookup.{find-key}
use ep_governance.Transitions.Authority.{decided}
use ep_governance.Transitions.Outcome.{record_result, record_status, record_outcome}
use ep_governance.Tx.Inversion.{bind-ok, guard-ok, require-ok, gets-ok}
use ep_governance.Value.{Fields}

-- The stage for an exit status.
abbrev pub outcome_stage : String → Stage
outcome_stage status =
    if str_eq status "success"
    then succeeded
    else if str_eq status "failure"
    then failed
    else execution_uncertain

record_outcome-reaches :
    (svc : Service) (env : Env) (t : Transition) (status summary : String) (n : Option String)
    (to : Stage) (type : String) (rest : Fields) (db : Db) (u : Transition) (db' : Db)
    → record_outcome svc env t status summary n to type rest db ≡ ok (u, db')
    → (stage_at t.id db' ≡ some to) × (get_transition t.id db' ≡ some u)
unfolding record_outcome
record_outcome-reaches svc env t status summary n to type rest db u db' ran =
    let (x, d1, stored, r1) = bind-ok _ _ db u db' ran in
    decided svc t.id to (env.now 2) (env.xid 0) (env.now 3) t.branch_id type t.agent_id _ d1 u db'
      r1

record_status-reaches :
    (svc : Service) (env : Env) (t : Transition) (status summary : String) (n : Option String)
    (db : Db) (u : Transition) (db' : Db)
    → record_status svc env t status summary n db ≡ ok (u, db')
    → (stage_at t.id db' ≡ some (outcome_stage status)) × (get_transition t.id db' ≡ some u)
unfolding record_status
record_status-reaches svc env t status summary n db u db' ran =
    elim (Bool-cases (str_eq status "success")) [
      | inl e ↦
          rw e (record_outcome-reaches svc env t status summary n _ _ _ db u db' (rw e at ran))
      | inr e ↦ elim (Bool-cases (str_eq status "failure")) [
        | inl f ↦
            rw (e, f)
              (record_outcome-reaches svc env t status summary n _ _ _ db u db' (rw (e, f) at ran))
        | inr f ↦
            let (x, d1, flagged, r1) =
              bind-ok (set_requires_manual_reconciliation t.id true (env.now 0)) _ db u db'
                (rw (e, f) at ran) in
            rw (e, f) (record_outcome-reaches svc env t status summary n _ _ _ d1 u db' r1)
      ]
    ]

-- A result is recorded only for a transition that is executing; a success leads to succeeded, a
-- failure to failed and anything else to execution_uncertain, and the transition in that stage is
-- the one returned.
pub record_result-outcome :
    (svc : Service) (env : Env) (id status summary : String) (n : Option String) (db : Db)
    (u : Transition) (db' : Db)
    → record_result svc env id status summary n db ≡ ok (u, db')
    → (stage_at id db ≡ some executing)
      × (stage_at id db' ≡ some (outcome_stage status))
      × (get_transition id db' ≡ some u)
unfolding record_result
record_result-outcome svc env id status summary n db u db' ran =
    let (t, found, r1) = require-ok _ _ _ db u db' (gets-ok _ _ db u db' ran) in
    let (running, r2) = guard-ok _ _ _ db u db' r1 in
    let row : find transition_key id db.transitions ≡ some t = unfold get_transition in found in
    let key : t.id ≡ id = find-key transition_key id t db.transitions row in
    let (at, there) = record_status-reaches svc env t status summary n db u db' r2 in
    (
      ap stage_of row ∙ ap some (same_stage-eq t.stage executing running),
      subst (λ k. stage_at k db' ≡ some (outcome_stage status)) key at,
      subst (λ k. get_transition k db' ≡ some u) key there,
    )
