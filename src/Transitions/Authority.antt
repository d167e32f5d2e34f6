-- ===== src/Transitions/Authority.antt =====
-- Who may approve, deny and cancel, and what a decision leads to.
use ep_governance.Prelude.{
  String, ◌≡◌, ◌≢◌, sym, ap, ◌∙◌, Bool, true, not, ◌||◌, ◌⊎◌, none, some, arith, str_eq, str_eq_iff,
  str_eq_refl,
}
use ep_governance.Db.{
  Db, Transition, Stage, pending_approval, authorized, cancelled, denied, AuditEvent,
}
use ep_governance.Errors.{ok}
use ep_governance.Frames.{write_event-beside}
use ep_governance.History.{
  stage_at, stage_of, same_stage-eq, advance_stage-parts, stage_at-update_stage,
}
use ep_governance.Repositories.Approvals.{find_pending_by_transition}
use ep_governance.Repositories.Transitions.{get_transition, transition_key}
use ep_governance.Service.{Service, Env}
use ep_governance.Stages.{is_in}
use ep_governance.Table.{find}
use ep_governance.Transitions.Decision.{
  approve, deny_approval, cancel, cancellable_stages, is_admin,
}
use ep_governance.Transitions.Stepping.{advance_stage, write_audit_event}
use ep_governance.Tx.{pure, ◌>>=◌}
use ep_governance.Tx.Inversion.{bind-ok, guard-ok, require-ok, gets-ok, pure-ok}
use ep_governance.Value.{Value}

-- A transition that has been advanced is in the stage that was asked for.
pub advance_stage-reaches :
    (k : String) (to : Stage) (now : String) (db : Db) (a : Transition) (db' : Db)
    → advance_stage k to now db ≡ ok (a, db')
    → (stage_at k db' ≡ some to) × (get_transition k db' ≡ some a)
advance_stage-reaches k to now db a db' ran =
    let (t, found, legal, updated, there) = advance_stage-parts k to now db a db' ran in
    let row : find transition_key k db.transitions ≡ some t = unfold get_transition in found in
    (
      stage_at-update_stage k to none now db _ db' k updated ∙ ground (arith, str_eq_refl k, row),
      there,
    )

-- Writing an audit event leaves the transitions alone.
pub write_audit_event-transitions :
    (svc : Service) (id now b type actor : String) (body : Value) (db : Db) (e : AuditEvent)
    (db' : Db)
    → write_audit_event svc id now b type actor body db ≡ ok (e, db')
    → db'.transitions ≡ db.transitions
unfolding write_audit_event
write_audit_event-transitions svc id now b type actor body db e db' ran =
    ((write_event-beside svc id now _ type body actor actor).at db e db'
      (gets-ok _ _ db e db' ran)).0

different : (a b : String) → not (str_eq a b) ≡ true → a ≢ b
different a b h e = ground (arith, str_eq_iff a b)

may_cancel : (a b : String) (admin : Bool) → (str_eq a b || admin) ≡ true → (a ≡ b) ⊎ (admin ≡ true)
may_cancel a b admin h = ground (arith, str_eq_iff a b)

-- What the last three calls of a decision do.
pub decided :
    (svc : Service) (k : String) (to : Stage) (now id now' b type actor : String) (body : Value)
    (db : Db) (u : Transition) (db' : Db)
    → (advance_stage k to now >>= λ v.
          write_audit_event svc id now' b type actor body >>= λ _. pure v)
        db
      ≡ ok (u, db')
    → (stage_at k db' ≡ some to) × (get_transition k db' ≡ some u)
decided svc k to now id now' b type actor body db u db' ran =
    let (v, mid, advanced, written) = bind-ok _ _ db u db' ran in
    let (e, after, event, returned) = bind-ok _ _ mid u db' written in
    let (same, same_db) = pure-ok v after u db' returned in
    let kept = write_audit_event-transitions svc id now' b type actor body mid e after event in
    let (at, there) = advance_stage-reaches k to now db v mid advanced in
    let same_rows : db'.transitions ≡ mid.transitions =
      sym (ap (λ d. d.transitions) same_db) ∙ kept in
    (
      ap (λ rows. stage_of (find transition_key k rows)) same_rows ∙ at,
      unfold get_transition in ap (find transition_key k) same_rows ∙ there ∙ ap some same,
    )

-- Only a pending approval is approved, by somebody other than the agent that proposed the transition
-- and not by an agent, while the proposal's approval request is pending; the transition is
-- authorized then, and is the one returned.
pub approve-authority :
    (svc : Service) (env : Env) (id approver type reason : String) (db : Db) (u : Transition)
    (db' : Db)
    → approve svc env id approver type reason db ≡ ok (u, db')
    → (t : Transition) × (get_transition id db ≡ some t)
      × (t.stage ≡ pending_approval)
      × (approver ≢ t.agent_id)
      × (type ≢ "agent")
      × (find_pending_by_transition id db ≢ none)
      × (stage_at id db' ≡ some authorized)
      × (get_transition id db' ≡ some u)
unfolding approve
approve-authority svc env id approver type reason db u db' ran =
    let (t, found, r1) = require-ok _ _ _ db u db' (gets-ok _ _ db u db' ran) in
    let (pending, r2) = guard-ok _ _ _ db u db' r1 in
    let (other, r3) = guard-ok _ _ _ db u db' r2 in
    let (human, r4) = guard-ok _ _ _ db u db' r3 in
    let (request, asked, r5) = require-ok _ _ _ db u db' (gets-ok _ _ db u db' r4) in
    let (o, mid, decide_it, r6) = bind-ok _ _ db u db' r5 in
    let (row, approved_row, r7) = require-ok _ _ _ mid u db' r6 in
    let (at, there) =
      decided svc id authorized (env.now 1) (env.xid 0) (env.now 2) t.branch_id
        "transition.approved" approver _ mid u db' r7 in
    (
      t,
      found,
      same_stage-eq t.stage pending_approval pending,
      different approver t.agent_id other,
      different type "agent" human,
      λ e. cc (asked, e),
      at,
      there,
    )

-- Only the agent that proposed a transition, or an administrator, cancels it, and only before it is
-- executed; the transition is cancelled then, and is the one returned.
pub cancel-authority :
    (svc : Service) (env : Env) (id agent : String) (db : Db) (u : Transition) (db' : Db)
    → cancel svc env id agent db ≡ ok (u, db')
    → (t : Transition) × (get_transition id db ≡ some t)
      × (is_in t.stage cancellable_stages ≡ true)
      × ((agent ≡ t.agent_id) ⊎ (is_admin agent db ≡ true))
      × (stage_at id db' ≡ some cancelled)
      × (get_transition id db' ≡ some u)
unfolding cancel
cancel-authority svc env id agent db u db' ran =
    let (t, found, r1) = require-ok _ _ _ db u db' (gets-ok _ _ db u db' ran) in
    let (early, r2) = guard-ok _ _ _ db u db' r1 in
    let (may, r3) = guard-ok _ _ _ db u db' (gets-ok _ _ db u db' r2) in
    let (at, there) =
      decided svc id cancelled (env.now 0) (env.xid 0) (env.now 1) t.branch_id
        "transition.cancelled" agent _ db u db' r3 in
    (t, found, early, may_cancel agent t.agent_id (is_admin agent db) may, at, there)

-- Only a pending approval is denied, by somebody other than the agent that proposed the transition,
-- while the proposal's approval request is pending; the transition is denied then, and is the one
-- returned.
pub deny_approval-authority :
    (svc : Service) (env : Env) (id approver reason : String) (db : Db) (u : Transition) (db' : Db)
    → deny_approval svc env id approver reason db ≡ ok (u, db')
    → (t : Transition) × (get_transition id db ≡ some t)
      × (t.stage ≡ pending_approval)
      × (approver ≢ t.agent_id)
      × (find_pending_by_transition id db ≢ none)
      × (stage_at id db' ≡ some denied)
      × (get_transition id db' ≡ some u)
unfolding deny_approval
deny_approval-authority svc env id approver reason db u db' ran =
    let (t, found, r1) = require-ok _ _ _ db u db' (gets-ok _ _ db u db' ran) in
    let (pending, r2) = guard-ok _ _ _ db u db' r1 in
    let (other, r3) = guard-ok _ _ _ db u db' r2 in
    let (request, asked, r4) = require-ok _ _ _ db u db' (gets-ok _ _ db u db' r3) in
    let (o, mid, decide_it, r5) = bind-ok _ _ db u db' r4 in
    let (row, denied_row, r6) = require-ok _ _ _ mid u db' r5 in
    let (at, there) =
      decided svc id denied (env.now 1) (env.xid 0) (env.now 2) t.branch_id
        "transition.denied_approval" approver _ mid u db' r6 in
    (
      t,
      found,
      same_stage-eq t.stage pending_approval pending,
      different approver t.agent_id other,
      λ e. cc (asked, e),
      at,
      there,
    )
