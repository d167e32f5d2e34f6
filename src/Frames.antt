-- ===== src/Frames.antt =====
-- Which tables each statement of the repositories leaves alone.
use ep_governance.Prelude.{ℕ, String, ◌≡◌, Bool, Option, List, arith, Option-cases, inl, inr}
use ep_governance.Audit.{write_event_in_transaction}
use ep_governance.Db.{Db, Transition, Stage, Node, Edge, Authorization}
use ep_governance.Repositories.Approvals.{create_request, decide, add_policies}
use ep_governance.Repositories.Authorizations.{
  insert_authorization, claim_authorization, update_execution_attempt_id,
}
use ep_governance.Repositories.Branches.{update_head, insert_node, mark_superseded, insert_edge}
use ep_governance.Transitions.Stepping.{advance_stage}
use ep_governance.Repositories.Transitions.{
  get_transition, insert_transition, update_stage, update_result,
  set_requires_manual_reconciliation,
}
use ep_governance.Service.{Service}
use ep_governance.Tx.{◌>>=◌}
use ep_governance.Tx.Along.{Along}
use ep_governance.Value.{Value}

abbrev pub SameTransitions : Db → Db → Type 0
SameTransitions db db' = db'.transitions ≡ db.transitions

abbrev pub SameAuthorizations : Db → Db → Type 0
SameAuthorizations db db' = db'.authorizations ≡ db.authorizations

abbrev pub SameLog : Db → Db → Type 0
SameLog db db' = (db'.events ≡ db.events) × (db'.audit_heads ≡ db.audit_heads)

abbrev pub SameBranches : Db → Db → Type 0
SameBranches db db' = db'.branches ≡ db.branches

-- What a statement on the transitions leaves alone.
abbrev pub BesideTransitions : Db → Db → Type 0
BesideTransitions db db' = SameAuthorizations db db' × SameLog db db' × SameBranches db db'

-- What a statement on the approvals leaves alone.
abbrev pub BesideApprovals : Db → Db → Type 0
BesideApprovals db db' = SameTransitions db db' × BesideTransitions db db'

-- What a statement on the branches, the nodes and the edges leaves alone.
abbrev pub BesideGraph : Db → Db → Type 0
BesideGraph db db' = SameTransitions db db' × SameAuthorizations db db' × SameLog db db'

-- What a statement on the authorizations leaves alone.
abbrev pub BesideAuthorizations : Db → Db → Type 0
BesideAuthorizations db db' = SameTransitions db db' × SameLog db db' × SameBranches db db'

-- What the audit writer leaves alone.
abbrev pub BesideLog : Db → Db → Type 0
BesideLog db db' = SameTransitions db db' × SameAuthorizations db db' × SameBranches db db'

pub insert_transition-beside : (t : Transition) → Along BesideTransitions (insert_transition t)
unfolding insert_transition ◌>>=◌
insert_transition-beside t = record { at = λ db a db' ran. ground arith }

pub update_stage-beside :
    (id : String) (s : Stage) (e : Option Stage) (now : String)
    → Along BesideTransitions (update_stage id s e now)
unfolding update_stage ◌>>=◌
update_stage-beside id s e now = record { at = λ db a db' ran. ground arith }

pub update_result-beside :
    (id status summary : String) (n : Option String) (now : String)
    → Along BesideTransitions (update_result id status summary n now)
unfolding update_result ◌>>=◌
update_result-beside id status summary n now = record { at = λ db a db' ran. ground arith }

pub set_flag-beside :
    (id : String) (value : Bool) (now : String)
    → Along BesideTransitions (set_requires_manual_reconciliation id value now)
unfolding set_requires_manual_reconciliation ◌>>=◌
set_flag-beside id value now = record { at = λ db a db' ran. ground arith }

pub create_request-beside :
    (id now t by j : String) (p : Option String)
    → Along BesideApprovals (create_request id now t by j p)
unfolding create_request ◌>>=◌
create_request-beside id now t by j p = record { at = λ db a db' ran. ground arith }

pub add_policies-beside :
    (id : String) (ids : List String) → Along BesideApprovals (add_policies id ids)
unfolding add_policies ◌>>=◌
add_policies-beside id ids = record { at = λ db a db' ran. ground arith }

pub decide-beside :
    (id by decision reason now : String) → Along BesideApprovals (decide id by decision reason now)
unfolding decide ◌>>=◌
decide-beside id by decision reason now = record { at = λ db a db' ran. ground arith }

pub update_head-beside : (b n : String) (v : ℕ) → Along BesideGraph (update_head b n v)
unfolding update_head ◌>>=◌
update_head-beside b n v = record { at = λ db a db' ran. ground arith }

pub insert_node-beside : (n : Node) → Along BesideGraph (insert_node n)
unfolding insert_node ◌>>=◌
insert_node-beside n = record { at = λ db a db' ran. ground arith }

pub mark_superseded-beside : (n : String) → Along BesideGraph (mark_superseded n)
unfolding mark_superseded ◌>>=◌
mark_superseded-beside n = record { at = λ db a db' ran. ground arith }

pub insert_edge-beside : (e : Edge) → Along BesideGraph (insert_edge e)
unfolding insert_edge ◌>>=◌
insert_edge-beside e = record { at = λ db a db' ran. ground arith }

pub insert_authorization-beside :
    (a : Authorization) → Along BesideAuthorizations (insert_authorization a)
unfolding insert_authorization ◌>>=◌
insert_authorization-beside r = record { at = λ db a db' ran. ground arith }

pub claim_authorization-beside :
    (id proxy : String) (h : Option String) (now : String)
    → Along BesideAuthorizations (claim_authorization id proxy h now)
unfolding claim_authorization ◌>>=◌
claim_authorization-beside id proxy h now = record { at = λ db a db' ran. ground arith }

pub update_attempt-beside :
    (id attempt : String) → Along BesideAuthorizations (update_execution_attempt_id id attempt)
unfolding update_execution_attempt_id ◌>>=◌
update_attempt-beside id attempt = record { at = λ db a db' ran. ground arith }

pub write_event-beside :
    (svc : Service) (id now l type : String) (body : Value) (actor caller : String)
    → Along BesideLog (write_event_in_transaction svc id now l type body actor caller)
unfolding write_event_in_transaction ◌>>=◌
write_event-beside svc id now l type body actor caller = record {
  at = λ db a db' ran. ground arith;
}

pub advance_stage-beside :
    (k : String) (to : Stage) (now : String) → Along BesideTransitions (advance_stage k to now)
unfolding advance_stage update_stage ◌>>=◌
advance_stage-beside k to now = record {
  at = λ db a db' ran. elim (Option-cases (get_transition k db)) [
    | inl e ↦ absurd (ground (arith, e))
    | inr (t, e) ↦ ground (arith, e)
  ];
}
