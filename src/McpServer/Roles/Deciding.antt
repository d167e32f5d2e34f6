-- ===== src/McpServer/Roles/Deciding.antt =====
-- Who approves an action through the server.
use ep_governance.Prelude.{
  String, ◌≡◌, ◌≢◌, refl, sym, ap, ◌∙◌, Bool, false, Option, none, some, any, str_eq, str_eq_iff,
  Bool-cases, inl, inr,
}
use ep_governance.Db.{Db, Stage, Transition, ApprovalRequest, pending_approval, authorized}
use ep_governance.Errors.{Result, ok, err}
use ep_governance.History.{stage_at}
use ep_governance.McpServer.Roles.{
  Access, Principal, Denial, principal_key, denial, required_roles, may_decide, setup_tools,
}
use ep_governance.McpServer.Roles.Approval.{
  DecisionCall, Decision, decides, project_of_approval, decision_response, approve_request,
  ep_approve, principal_type, past_gate, handle_ep_approve,
}
use ep_governance.McpServer.Roles.Held.{HoldsRole, denial-HoldsRole}
use ep_governance.Repositories.Approvals.{get_request}
use ep_governance.Repositories.Transitions.{get_transition}
use ep_governance.Service.{Service, Env}
use ep_governance.Table.{find}
use ep_governance.Transitions.Authority.{approve-authority}
use ep_governance.Transitions.Decision.{approve}
use ep_governance.Tx.Inversion.{transaction-ok}

past_gate-decides :
    (d : Option Denial) (db : Db) (rest : Result Decision × Db) (id : String) (stage : Stage)
    (db' : Db)
    → past_gate d db rest ≡ (ok (decides id stage), db')
    → (d ≡ none) × (rest ≡ (ok (decides id stage), db'))
unfolding past_gate
past_gate-decides none db rest id stage db' h = (refl, h)
past_gate-decides (some d) db rest id stage db' h = absurd (cc (ap (λ z. z.0) h))

decision_response-decides :
    (name : String) (r : Result Transition × Db) (id : String) (stage : Stage) (db' : Db)
    → decision_response name r ≡ (ok (decides id stage), db')
    → (name ≡ id) × (u : Transition) × (r ≡ (ok u, db'))
unfolding decision_response
decision_response-decides name (ok u, mid) id stage db' h =
    (cc (ap (λ z. z.0) h), u, ap (λ d. (ok u, d)) (ap (λ z. z.1) h))
decision_response-decides name (err e, mid) id stage db' h = absurd (cc (ap (λ z. z.0) h))

-- What the approval of a request did, if it was one.
approve_request-approved :
    (svc : Service) (env : Env) (who reason : String) (o : Option ApprovalRequest) (db : Db)
    (id : String) (stage : Stage) (db' : Db)
    → approve_request svc env who reason o db ≡ (ok (decides id stage), db')
    → (request : ApprovalRequest) × (o ≡ some request)
      × (request.transition_id ≡ id)
      × (u : Transition) × (approve svc env request.transition_id who "human" reason db
          ≡ ok (u, db'))
unfolding approve_request
approve_request-approved svc env who reason none db id stage db' h = absurd (cc (ap (λ z. z.0) h))
approve_request-approved svc env who reason (some r) db id stage db' h =
    let (same, u, ran) = decision_response-decides r.transition_id _ id stage db' h in
    (r, refl, same, u, transaction-ok _ db u db' ran)

ep_approve-human :
    (svc : Service) (env : Env) (call : DecisionCall) (who kind : String) (db : Db) (id : String)
    (stage : Stage) (db' : Db)
    → ep_approve svc env call who kind db ≡ (ok (decides id stage), db')
    → (kind ≡ "human")
      × (approve_request svc env who call.reason (get_request call.approval_id db) db
          ≡ (ok (decides id stage), db'))
unfolding ep_approve
ep_approve-human svc env call who kind db id stage db' h = elim (Bool-cases (str_eq kind "human")) [
  | inl e ↦ ((str_eq_iff kind "human").0 e, rw e at h)
  | inr e ↦ let h' = rw e at h in absurd (cc (ap (λ z. z.0) h'))
]

decides_roles : required_roles "ep_approve" ≡ some may_decide
unfolding required_roles any str_eq
decides_roles = refl

decides_later : any (str_eq "ep_approve") setup_tools ≡ false
unfolding any str_eq
decides_later = refl

principal_type_lem :
    (a : Access) (who : String) (p : Principal)
    → find principal_key who a.principals ≡ some p
    → principal_type a who ≡ p.kind
unfolding principal_type
principal_type_lem a who p e = rw (e, principal_type) refl

-- An approval that the server reports was given by a stored, active human, who is bound to the role
-- policy_approver or administrator, globally or in the project of the request's transition, and is
-- not the agent that proposed it; the transition that the request names was waiting for an approval,
-- and is authorized then.
pub handle_ep_approve-authority :
    (a : Access) (bootstrap : Bool) (svc : Service) (env : Env) (call : DecisionCall)
    (principal_id : String) (db : Db) (id : String) (stage : Stage) (db' : Db)
    → handle_ep_approve a bootstrap svc env call principal_id db ≡ (ok (decides id stage), db')
    → ((p : Principal) × (find principal_key principal_id a.principals ≡ some p)
        × (p.status ≡ "active")
        × (p.kind ≡ "human"))
      × HoldsRole a principal_id may_decide (project_of_approval call.approval_id db)
      × (request : ApprovalRequest) × (get_request call.approval_id db ≡ some request)
      × (request.transition_id ≡ id)
      × (t : Transition) × (get_transition request.transition_id db ≡ some t)
      × (t.stage ≡ pending_approval)
      × (principal_id ≢ t.agent_id)
      × (stage_at request.transition_id db' ≡ some authorized)
unfolding handle_ep_approve
handle_ep_approve-authority a bootstrap svc env call principal_id db id stage db' h =
    let project = project_of_approval call.approval_id db in
    let (admitted, ran) =
      past_gate-decides (denial a bootstrap principal_id "ep_approve" project) db _ id stage db'
        h in
    let ((p, found, active), holds) =
      denial-HoldsRole a bootstrap principal_id "ep_approve" may_decide project decides_roles
        decides_later admitted in
    let (human, approving) =
      ep_approve-human svc env call principal_id (principal_type a principal_id) db id stage db'
        ran in
    let (request, asked, same, u, approved) =
      approve_request-approved svc env principal_id call.reason _ db id stage db' approving in
    let (t, there, pending, other, _, _, at, _) =
      approve-authority svc env request.transition_id principal_id "human" call.reason db u db'
        approved in
    (
      (p, found, active, sym (principal_type_lem a principal_id p found) ∙ human),
      holds,
      request,
      asked,
      same,
      t,
      there,
      pending,
      other,
      at,
    )
