-- ===== src/Transitions/Idempotency.antt =====
-- A proposal whose idempotency key is taken.
use ep_governance.Prelude.{
  String, ◌≡◌, sym, ap, ◌∙◌, true, false, Option, none, some, List, [], ◌∷◌, arith, any, str_eq,
  Bool-cases, inl, inr,
}
use ep_governance.Db.{Db, Transition}
use ep_governance.Errors.{ok}
use ep_governance.Repositories.Transitions.{get_by_idempotency_key, insert_transition}
use ep_governance.Service.{Service, Env}
use ep_governance.Stages.{is_in, idempotent_allow_new}
use ep_governance.Stages.Lifecycle.{idempotency_classes}
use ep_governance.Table.{latest}
use ep_governance.Transitions.Proposal.{
  Classifier, PolicyEngine, Proposed, propose, propose_new, proposal_row, reusable, or_new,
}
use ep_governance.Tx.{◌>>=◌}
use ep_governance.Transitions.Admission.{assess-same}
use ep_governance.Tx.Inversion.{bind-ok, gets-ok}

-- A proposal whose key belongs to a transition in a stage that is returned gives that transition and
-- changes nothing.
pub propose-reused :
    (svc : Service) (env : Env) (classify : Classifier) (engine : Option PolicyEngine)
    (p : Proposed) (db : Db) (t : Transition)
    → get_by_idempotency_key p.idempotency_key db ≡ some t
    → is_in t.stage idempotent_allow_new ≡ false
    → propose svc env classify engine p db ≡ ok (t, db)
unfolding propose or_new reusable ◌>>=◌
propose-reused svc env classify engine p db t found kept =
    ground (arith, found, kept, idempotency_classes t.stage)

latest-any :
    (key : String) (rows : List Transition) (t : Transition)
    → latest (λ u. str_eq u.idempotency_key key) (λ u. u.created_at) rows ≡ some t
    → any (λ u. str_eq u.idempotency_key key) rows ≡ true
unfolding latest any
latest-any key [] t h = absurd (ground arith)
latest-any key (u ∷ rows) t h = elim (Bool-cases (str_eq u.idempotency_key key)) [
  | inl e ↦ ground (arith, e)
  | inr e ↦ ground (arith, e, latest-any key rows t (rw e at h))
]

insert-refused :
    (t : Transition) (db : Db) (a : Transition) (mid : Db)
    → any (λ u. str_eq u.idempotency_key t.idempotency_key) db.transitions ≡ true
    → ¬ (insert_transition t db ≡ ok (a, mid))
unfolding insert_transition ◌>>=◌
insert-refused t db a mid taken ran = ground arith

-- Where the latest transition of the key is in a stage that is meant to allow a new attempt (failed,
-- cancelled, expired, denied or execution_uncertain), a proposal of the key raises: it gives neither
-- that transition nor a new one.
pub propose-refused :
    (svc : Service) (env : Env) (classify : Classifier) (engine : Option PolicyEngine)
    (p : Proposed) (db : Db) (t : Transition)
    → get_by_idempotency_key p.idempotency_key db ≡ some t
    → is_in t.stage idempotent_allow_new ≡ true
    → (u : Transition) (db' : Db) → ¬ (propose svc env classify engine p db ≡ ok (u, db'))
unfolding propose or_new propose_new proposal_row
propose-refused svc env classify engine p db t found again u db' ran =
    let new : reusable (get_by_idempotency_key p.idempotency_key db) ≡ none =
      unfold reusable in ground (arith, found, again, idempotency_classes t.stage) in
    let r0 : propose_new svc env classify engine p db ≡ ok (u, db') =
      ap (λ o. or_new o (propose_new svc env classify engine p) db) (sym new)
      ∙ gets-ok (get_by_idempotency_key p.idempotency_key) _ db u db' ran in
    let (a, d1, assessed, r1) = bind-ok _ _ db u db' r0 in
    let same = assess-same svc engine _ p.agent_id p.branch_id _ db a d1 assessed in
    let (x, d2, inserted, _) = bind-ok _ _ d1 u db' r1 in
    insert-refused (proposal_row svc env p _ a) d1 x d2
      (ap (λ d. any (λ v. str_eq v.idempotency_key p.idempotency_key) d.transitions) same
        ∙ latest-any p.idempotency_key db.transitions t (unfold get_by_idempotency_key in found))
      inserted
