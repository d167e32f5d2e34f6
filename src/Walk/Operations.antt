-- ===== src/Walk/Operations.antt =====
-- Each operation of the engines, from its statements.
use ep_governance.Prelude.{
  String, ◌≡◌, refl, Bool, true, false, Option, none, some, any, arith, str_eq, if◌then◌else◌,
}
use ep_governance.Branches.{CommitRequest, commit, link_head, committable, finish_commit, realise}
use ep_governance.Db.{Db, Transition, Stage, succeeded}
use ep_governance.Errors.{Error, Result, ok, err, illegal_transition}
use ep_governance.Repositories.Branches.{get_head}
use ep_governance.Repositories.Transitions.{insert_transition}
use ep_governance.Service.{Service, Env}
use ep_governance.Stages.{is_in, is_legal_transition}
use ep_governance.Transitions.Decision.{approve, deny_approval, cancel}
use ep_governance.Transitions.Outcome.{
  record_outcome, record_status, record_result, commit_failed, reconciled, reconcile_failed,
  and_then, after_commit, reconcile_commit, reread, uncertain_transition, reconcile, Commitment,
  commit_request,
}
use ep_governance.Transitions.Proposal.{
  Classifier, PolicyEngine, Proposed, Assessment, VerificationResult, ClassificationResult, assess,
  conclude, propose, proposal_row, propose_new, or_new,
}
use ep_governance.Transitions.Stepping.{write_audit_event}
use ep_governance.Tx.{Tx, transaction, pure, require, guard, gets, ◌>>=◌}
use ep_governance.Tx.Along.{
  Along, Along-pure, Along-require, Along-gets, Along-if, Along-guard, Along-bind, Along-checked,
  transaction-Along,
}
use ep_governance.Value.{Value, Fields}
use ep_governance.Walk.{Statements, Outcomes, Decisions}

module _ {svc : Service} {allowed : Stage → Bool} {R : Db → Db → Type 0}
    (s : Statements svc allowed R) where
  pub bind :
      {A B : Type 0} (m : Tx A) (f : A → Tx B)
      → Along R m
      → ((a : A) → Along R (f a))
      → Along R (m >>= f)
  bind m f = Along-bind s.preorder m f

  pub returns : {A : Type 0} (a : A) → Along R (pure a)
  returns a = Along-pure s.preorder a

  demands : {A : Type 0} (o : Option A) (e : Error) → Along R (require o e)
  demands o e = Along-require s.preorder o e

  pub reads : {A : Type 0} (f : Db → A) → Along R (gets f)
  reads f = Along-gets s.preorder f

  checks : (b : Bool) (e : Error) → Along R (guard b e)
  checks b e = Along-guard s.preorder b e

  chooses :
      {A : Type 0} (b : Bool) (m n : Tx A) → Along R m → Along R n → Along R (if b then m else n)
  chooses b m n = Along-if s.preorder b m n

  pub write_audit_event-Along :
      (id now b type actor : String) (body : Value)
      → Along R (write_audit_event svc id now b type actor body)
  unfolding write_audit_event
  write_audit_event-Along id now b type actor body = search (bind, reads, s.writes)

  pub approve-Along :
      (d : Decisions allowed) (env : Env) (id approver type reason : String)
      → Along R (approve svc env id approver type reason)
  unfolding approve
  approve-Along d env id approver type reason =
      search
        (
          bind, returns, demands, reads, checks, s.decides, s.advances, d.authorizes,
          write_audit_event-Along,
        )
        depth 30

  pub deny_approval-Along :
      (d : Decisions allowed) (env : Env) (id approver reason : String)
      → Along R (deny_approval svc env id approver reason)
  unfolding deny_approval
  deny_approval-Along d env id approver reason =
      search
        (
          bind, returns, demands, reads, checks, s.decides, s.advances, d.denies,
          write_audit_event-Along,
        )
        depth 30

  pub cancel-Along :
      (d : Decisions allowed) (env : Env) (id agent : String) → Along R (cancel svc env id agent)
  unfolding cancel
  cancel-Along d env id agent =
      search (bind, returns, demands, reads, checks, s.advances, d.cancels, write_audit_event-Along)
        depth 30

  record_outcome-Along :
      (env : Env) (t : Transition) (status summary : String) (n : Option String) (to : Stage)
      (type : String) (rest : Fields)
      → allowed to ≡ true
      → Along R (record_outcome svc env t status summary n to type rest)
  unfolding record_outcome
  record_outcome-Along env t status summary n to type rest h =
      search (bind, returns, s.results, s.advances, h, write_audit_event-Along) depth 30

  record_status-Along :
      (f : Outcomes allowed) (env : Env) (t : Transition) (status summary : String)
      (n : Option String)
      → Along R (record_status svc env t status summary n)
  unfolding record_status
  record_status-Along f env t status summary n =
      search (bind, s.flags, record_outcome-Along, f.succeeds, f.fails, f.doubts, chooses) depth 30

  pub record_result-Along :
      (f : Outcomes allowed) (env : Env) (id status summary : String) (n : Option String)
      → Along R (record_result svc env id status summary n)
  unfolding record_result
  record_result-Along f env id status summary n =
      search (bind, demands, reads, checks, record_status-Along f) depth 30

  assess-Along :
      (engine : Option PolicyEngine) (now agent branch : String) (c : ClassificationResult)
      → Along R (assess svc engine now agent branch c)
  unfolding assess
  assess-Along none now agent branch c = returns _
  assess-Along (some engine) now agent branch c = search (bind, returns, demands, reads) depth 10

  conclude-Along :
      (d : Decisions allowed) (env : Env) (t : Transition) (a : Assessment) (v : VerificationResult)
      → Along R (conclude svc env t a v)
  unfolding conclude
  conclude-Along d env t a VerificationResult.denied =
      search (bind, returns, s.advances, d.denies, write_audit_event-Along) depth 10
  conclude-Along d env t a VerificationResult.pending_approval =
      search
        (bind, returns, s.advances, d.defers, s.requests, s.associates, write_audit_event-Along)
        depth 20
  conclude-Along d env t a VerificationResult.admissible =
      search (bind, returns, s.advances, d.authorizes, write_audit_event-Along) depth 10

  row_is_new :
      (env : Env) (p : Proposed) (c : ClassificationResult) (a : Assessment)
      → Along R (insert_transition (proposal_row svc env p c a))
  row_is_new env p c a = s.inserts (proposal_row svc env p c a) (unfold proposal_row in refl)

  propose_new-Along :
      (d : Decisions allowed) (env : Env) (classify : Classifier) (engine : Option PolicyEngine)
      (p : Proposed)
      → Along R (propose_new svc env classify engine p)
  unfolding propose_new
  propose_new-Along d env classify engine p =
      search (bind, assess-Along, row_is_new, conclude-Along d) depth 10

  or_new-Along : (o : Option Transition) (m : Tx Transition) → Along R m → Along R (or_new o m)
  unfolding or_new
  or_new-Along none m h = h
  or_new-Along (some t) m h = returns t

  pub propose-Along :
      (d : Decisions allowed) (env : Env) (classify : Classifier) (engine : Option PolicyEngine)
      (p : Proposed)
      → Along R (propose svc env classify engine p)
  propose-Along d env classify engine p =
      unfold propose in search (bind, reads, or_new-Along, propose_new-Along d) depth 10

  link_head-Along : (env : Env) (head : Option String) → Along R (link_head env head)
  unfolding link_head
  link_head-Along env none = returns tt
  link_head-Along env (some head) = search (bind, returns, s.edges, s.supersedes) depth 10

  to_succeeded : (t : Stage) → is_in t committable ≡ true → is_legal_transition t succeeded ≡ true
  unfolding is_in is_legal_transition any
  to_succeeded t h = ground arith

  finish_commit-Along :
      (f : Outcomes allowed) (env : Env) (r : CommitRequest) (stage : Stage) (head : Option String)
      → is_legal_transition stage succeeded ≡ true
      → Along R (finish_commit svc env r stage head)
  unfolding finish_commit
  finish_commit-Along f env r stage head legal = bind _ _ (s.results _ _ _ _ _) λ _.
      bind _ _ (s.guarded r.transition_id stage succeeded (env.now 3) legal f.succeeds) λ advanced.
        bind _ _ (checks advanced _) λ _. bind _ _ (s.writes _ _ _ _ _ _ _) λ _. returns _

  realise-Along :
      (f : Outcomes allowed) (env : Env) (r : CommitRequest) (stage : Stage) (head : Option String)
      → is_legal_transition stage succeeded ≡ true
      → Along R (realise svc env r stage head)
  unfolding realise
  realise-Along f env r stage head legal = bind _ _ (s.nodes _) λ _.
      bind _ _ (link_head-Along env head) λ _.
        bind _ _ (s.heads _ _ _)
          λ updated. bind _ _ (checks updated _) λ _. finish_commit-Along f env r stage head legal

  pub commit-Along :
      (f : Outcomes allowed) (env : Env) (r : CommitRequest) → Along R (commit svc env r)
  unfolding commit
  commit-Along f env r = bind _ _ (reads _) λ found.
      bind _ _ (demands found illegal_transition) λ t.
        Along-checked s.preorder (is_in t.stage committable) illegal_transition _ λ ready _.
          bind _ _ (reads (get_head r.branch_id)) λ head. bind _ _ (checks _ _) λ _.
            bind _ _ (checks _ _)
              λ _. realise-Along f env r t.stage head.0 (to_succeeded t.stage ready)

  pub commit_failed-Along : (env : Env) (t : Transition) → Along R (commit_failed svc env t)
  unfolding commit_failed
  commit_failed-Along env t = search (bind, returns, s.flags, write_audit_event-Along) depth 10

  pub reconciled-Along :
      (env : Env) (t : Transition) (status summary : String)
      → Along R (reconciled svc env t status summary)
  unfolding reconciled
  reconciled-Along env t status summary =
      search (bind, returns, s.flags, write_audit_event-Along) depth 10

  reconcile_failed-Along :
      (f : Outcomes allowed) (env : Env) (t : Transition) (summary : String)
      → Along R (reconcile_failed svc env t summary)
  unfolding reconcile_failed
  reconcile_failed-Along f env t summary =
      search (bind, returns, s.advances, f.fails, reconciled-Along) depth 10

  steps :
      {A B : Type 0} (db : Db) (r : Result A × Db) (k : A → Db → Result B × Db)
      → R db r.1
      → ((a : A) (mid : Db) → R mid (k a mid).1)
      → R db (and_then r k).1
  unfolding and_then
  steps db (ok a, mid) k first later = s.preorder.transitive db mid _ first (later a mid)
  steps db (err e, mid) k first later = first

  pub alone : {A : Type 0} (m : Tx A) (db : Db) → Along R m → R db (transaction m db).1
  alone m db km = transaction-Along s.preorder m db km

  reread-Along : (id : String) → Along R (reread id)
  unfolding reread
  reread-Along id = search (bind, reads, demands) depth 10

  after_commit-R :
      {A : Type 0} (env : Env) (t : Transition) (summary : String) (db : Db) (r : Result A × Db)
      → R db r.1
      → R db (after_commit svc env t summary r).1
  unfolding after_commit
  after_commit-R env t summary db (err e, mid) h = s.preorder.transitive db mid _ h (
      steps {A = Unit {0}} {B = Transition} mid (transaction (commit_failed svc env t) mid)
        (λ _ m. transaction (reread t.id) m) (alone _ mid (commit_failed-Along env t))
        λ _ m. alone _ m (reread-Along t.id))
  after_commit-R env t summary db (ok a, mid) h = s.preorder.transitive db mid _ h (
      steps {A = Transition} {B = Transition} mid (transaction (reread t.id) mid)
        (λ u m.
          and_then (transaction (reconciled svc env t "succeeded" summary) m) λ _ n. (ok u, n))
        (alone _ mid (reread-Along t.id))
        λ u m.
          steps {A = Unit {0}} {B = Transition} m
            (transaction (reconciled svc env t "succeeded" summary) m) (λ _ n. (ok u, n))
            (alone _ m (reconciled-Along env t "succeeded" summary)) λ _ n. s.preorder.reflexive n)

  uncertain-Along : (id : String) → Along R (uncertain_transition id)
  unfolding uncertain_transition
  uncertain-Along id = search (bind, returns, reads, demands, checks) depth 10

  conclusion :
      (b c : Bool) (x y z : Result Transition × Db) (db : Db)
      → R db x.1
      → R db y.1
      → R db z.1
      → R db (if b then x else if c then y else z).1
  conclusion true c x y z db hx hy hz = hx
  conclusion false true x y z db hx hy hz = hy
  conclusion false false x y z db hx hy hz = hz

  committing :
      (f : Outcomes allowed) (env : Env) (t : Transition) (summary : String) (c : Option Commitment)
      (m : Db)
      → R m (reconcile_commit svc env t summary c m).1
  unfolding reconcile_commit
  committing f env t summary none m = s.preorder.reflexive m
  committing f env t summary (some c) m =
      after_commit-R env t summary m (transaction (commit svc env (commit_request c t summary m)) m)
        (alone _ m (commit-Along f env (commit_request c t summary m)))

  pub reconcile-R :
      (f : Outcomes allowed) (env : Env) (id status summary : String) (c : Option Commitment)
      (db : Db)
      → R db (reconcile svc env id status summary c db).1
  unfolding reconcile
  reconcile-R f env id status summary c db =
      steps {A = Transition} {B = Transition} db (transaction (uncertain_transition id) db) _
        (alone _ db (uncertain-Along id))
        λ t m.
          conclusion (str_eq status "succeeded") (str_eq status "failed") _ _ _ m
            (committing f env t summary c m) (alone _ m (reconcile_failed-Along f env t summary))
            (s.preorder.reflexive m)
