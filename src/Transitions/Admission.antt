-- ===== src/Transitions/Admission.antt =====
-- What a new proposal leads to.
use ep_governance.Prelude.{String, ◌≡◌, ◌≢◌, refl, sym, ap, ◌∙◌, subst, Option, none, some, arith}
use ep_governance.Db.{Db, Transition, Stage, authorized}
use ep_governance.Errors.{ok}
use ep_governance.Frames.{create_request-beside, add_policies-beside}
use ep_governance.History.{stage_at, stage_of}
use ep_governance.Policies.{PolicyEffect, deny, require_approval}
use ep_governance.PolicyEngine.Resolution.{evaluate}
use ep_governance.Repositories.Branches.{project_of_branch}
use ep_governance.Repositories.Transitions.{
  get_transition, transition_key, get_by_idempotency_key, insert_transition,
}
use ep_governance.Service.{Service, Env}
use ep_governance.Table.{find}
use ep_governance.Transitions.Authority.{
  decided, advance_stage-reaches, write_audit_event-transitions,
}
use ep_governance.Transitions.Proposal.{
  Classifier, PolicyEngine, Proposed, Assessment, VerificationResult, ClassificationResult, assess,
  assessment_of, verification_of, conclude, propose, propose_new, proposal_row, reusable, or_new,
  classification, proposal_context,
}
use ep_governance.Tx.{◌>>=◌}
use ep_governance.Tx.Inversion.{bind-ok, require-ok, gets-ok, pure-ok}

-- The stage that each verification leads to.
abbrev pub stage_for : VerificationResult → Stage
stage_for VerificationResult.denied = Stage.denied
stage_for VerificationResult.pending_approval = Stage.pending_approval
stage_for VerificationResult.admissible = Stage.authorized

conclude-reaches :
    (svc : Service) (env : Env) (t : Transition) (a : Assessment) (v : VerificationResult) (db : Db)
    (u : Transition) (db' : Db)
    → conclude svc env t a v db ≡ ok (u, db')
    → (stage_at t.id db' ≡ some (stage_for v)) × (get_transition t.id db' ≡ some u)
unfolding conclude
conclude-reaches svc env t a VerificationResult.denied db u db' ran =
    decided svc t.id Stage.denied (env.now 2) (env.xid 1) (env.now 3) t.branch_id
      "transition.denied" t.agent_id _ db u db' ran
conclude-reaches svc env t a VerificationResult.admissible db u db' ran =
    decided svc t.id Stage.authorized (env.now 2) (env.xid 1) (env.now 3) t.branch_id
      "transition.authorized" t.agent_id _ db u db' ran
conclude-reaches svc env t a VerificationResult.pending_approval db u db' ran =
    let (v, d1, advanced, r1) = bind-ok _ _ db u db' ran in
    let (request, d2, requested, r2) = bind-ok _ _ d1 u db' r1 in
    let (x, d3, associated, r3) = bind-ok _ _ d2 u db' r2 in
    let (e, d4, event, r4) = bind-ok _ _ d3 u db' r3 in
    let (same, same_db) = pure-ok v d4 u db' r4 in
    let (at, there) =
      advance_stage-reaches t.id Stage.pending_approval (env.now 2) db v d1 advanced in
    let rows : db'.transitions ≡ d1.transitions =
      sym (ap (λ d. d.transitions) same_db)
      ∙ write_audit_event-transitions svc _ _ _ _ _ _ d3 e d4 event
      ∙ ((add_policies-beside _ _).at d2 x d3 associated).0
      ∙ ((create_request-beside _ _ _ _ _ _).at d1 request d2 requested).0 in
    (
      ap (λ ts. stage_of (find transition_key t.id ts)) rows ∙ at,
      unfold get_transition in ap (find transition_key t.id) rows ∙ there ∙ ap some same,
    )

pub assess-same :
    (svc : Service) (engine : Option PolicyEngine) (now agent branch : String)
    (c : ClassificationResult) (db : Db) (a : Assessment) (mid : Db)
    → assess svc engine now agent branch c db ≡ ok (a, mid)
    → mid ≡ db
unfolding assess
assess-same svc none now agent branch c db a mid ran = sym (pure-ok _ db a mid ran).1
assess-same svc (some engine) now agent branch c db a mid ran =
    let (p, found, r1) = require-ok _ _ _ db a mid (gets-ok _ _ db a mid ran) in
    sym (pure-ok _ db a mid r1).1

inserted_row :
    (t : Transition) (db : Db) (a : Transition) (mid : Db)
    → insert_transition t db ≡ ok (a, mid)
    → a ≡ t
unfolding insert_transition ◌>>=◌
inserted_row t db a mid ran = ground arith

-- Where no transition of the idempotency key is reused, a proposal that succeeds has assessed the
-- action, and the new transition is in the stage that the assessment leads to (denied,
-- pending_approval or authorized), and is the one returned.
pub propose-outcome :
    (svc : Service) (env : Env) (classify : Classifier) (engine : Option PolicyEngine)
    (p : Proposed) (db : Db) (u : Transition) (db' : Db)
    → reusable (get_by_idempotency_key p.idempotency_key db) ≡ none
    → propose svc env classify engine p db ≡ ok (u, db')
    → (a : Assessment) × (assess svc engine
          (env.now 0)
          p.agent_id
          p.branch_id
          (classification classify p.tool p.arguments)
          db
        ≡ ok (a, db))
      × (stage_at (env.xid 0) db' ≡ some (stage_for a.verification_result))
      × (get_transition (env.xid 0) db' ≡ some u)
unfolding propose or_new propose_new
propose-outcome svc env classify engine p db u db' new ran =
    let c = classification classify p.tool p.arguments in
    let r0 : propose_new svc env classify engine p db ≡ ok (u, db') =
      ap (λ o. or_new o (propose_new svc env classify engine p) db) (sym new)
      ∙ gets-ok (get_by_idempotency_key p.idempotency_key) _ db u db' ran in
    let (a, d1, assessed, r1) = bind-ok _ _ db u db' r0 in
    let same = assess-same svc engine (env.now 0) p.agent_id p.branch_id c db a d1 assessed in
    let (t, d2, inserted, r2) = bind-ok _ _ d1 u db' r1 in
    let row = inserted_row (proposal_row svc env p c a) d1 t d2 inserted in
    let id : t.id ≡ env.xid 0 = ap (λ x. x.id) row ∙ (unfold proposal_row in refl) in
    let (at, there) = conclude-reaches svc env t a a.verification_result d2 u db' r2 in
    (
      a,
      assessed ∙ ap (λ d. ok (a, d)) same,
      subst (λ k. stage_at k db' ≡ some (stage_for a.verification_result)) id at,
      subst (λ k. get_transition k db' ≡ some u) id there,
    )

admissible_effect :
    (e : PolicyEffect)
    → verification_of e ≡ VerificationResult.admissible
    → (e ≢ deny) × (e ≢ require_approval)
unfolding verification_of
admissible_effect e h = (λ d. ground (arith, d), λ d. ground (arith, d))

authorized_result :
    (v : VerificationResult)
    → ◌≡◌ {A = Option Stage} (some (stage_for v)) (some authorized)
    → v ≡ VerificationResult.admissible
authorized_result v h = ground arith

-- The engine's evaluation of the action, for a project and a branch, is neither deny nor
-- require_approval.
abbrev pub Permits :
    PolicyEngine → String → String → String → String → ClassificationResult → Type 0
Permits e now agent project branch c =
    ((evaluate e.cel e.policies now c.action_type c.canonical_resources
        (proposal_context agent project branch)).effect
      ≢ deny)
    × ((evaluate e.cel e.policies now c.action_type c.canonical_resources
          (proposal_context agent project branch)).effect
        ≢ require_approval)

assess-admissible :
    (svc : Service) (engine : Option PolicyEngine) (now agent branch : String)
    (c : ClassificationResult) (db : Db) (a : Assessment)
    → assess svc engine now agent branch c db ≡ ok (a, db)
    → a.verification_result ≡ VerificationResult.admissible
    → (e : PolicyEngine) × (project : String) × (engine ≡ some e)
      × (project_of_branch branch db ≡ some project)
      × Permits e now agent project branch c
unfolding assess
assess-admissible svc none now agent branch c db a ran v =
    let q = (pure-ok _ db a db ran).0 in absurd (cc (ap (λ x. x.verification_result) q, v))
assess-admissible svc (some e) now agent branch c db a ran v =
    let (project, found, r1) = require-ok _ _ _ db a db (gets-ok _ _ db a db ran) in
    let q = (pure-ok _ db a db r1).0 in
    let r =
      evaluate e.cel e.policies now c.action_type c.canonical_resources
        (proposal_context agent project branch) in
    let admitted : verification_of r.effect ≡ VerificationResult.admissible =
      unfold assessment_of in (ap (λ x. x.verification_result) q ∙ v) in
    (e, project, refl, found, admissible_effect r.effect admitted)

-- A new proposal that is authorized at once has a policy engine whose evaluation of the classified
-- action, for the project of the branch, is neither deny nor require_approval.
pub propose-authorized :
    (svc : Service) (env : Env) (classify : Classifier) (engine : Option PolicyEngine)
    (p : Proposed) (db : Db) (u : Transition) (db' : Db)
    → reusable (get_by_idempotency_key p.idempotency_key db) ≡ none
    → propose svc env classify engine p db ≡ ok (u, db')
    → stage_at (env.xid 0) db' ≡ some authorized
    → (e : PolicyEngine) × (project : String) × (engine ≡ some e)
      × (project_of_branch p.branch_id db ≡ some project)
      × Permits e
          (env.now 0)
          p.agent_id
          project
          p.branch_id
          (classification classify p.tool p.arguments)
propose-authorized svc env classify engine p db u db' new ran at =
    let (a, assessed, reached, _) = propose-outcome svc env classify engine p db u db' new ran in
    assess-admissible svc engine (env.now 0) p.agent_id p.branch_id
      (classification classify p.tool p.arguments) db a assessed
      (authorized_result a.verification_result (sym reached ∙ at))
