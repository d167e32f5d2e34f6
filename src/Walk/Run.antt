-- ===== src/Walk/Run.antt =====
-- Runs of the service: any operations of the engines and of the
-- proxies, with any arguments, one after another. An
-- operation that raises is a step too: its transaction is rolled back.
use ep_governance.Prelude.{
  ℕ, String, ◌≡◌, refl, Bool, true, false, Bool-cases, inl, inr, Option, List,
}
use ep_governance.Authorizations.{Signing}
use ep_governance.Authorizations.Claim.{verify_and_claim}
use ep_governance.Authorizations.Issue.{PolicyDict, issue_authorization}
use ep_governance.Branches.{CommitRequest, commit}
use ep_governance.Db.{Db, Stage, executing}
use ep_governance.Deployment.{Clock, EnforcementCapability}
use ep_governance.Proxy.{Proxy, ProxyEnv}
use ep_governance.Proxy.Execute.{execute}
use ep_governance.Service.{Service, Env}
use ep_governance.Transitions.Decision.{approve, deny_approval, cancel}
use ep_governance.Transitions.Outcome.{record_result, reconcile, Commitment}
use ep_governance.Transitions.Proposal.{Classifier, PolicyEngine, Proposed, propose}
use ep_governance.Tx.{transaction}
use ep_governance.Value.{Value}
use ep_governance.Walk.{Statements, Outcomes, Decisions, every, every_outcome, every_decision}
use ep_governance.Walk.Execution.{execute-R}
use ep_governance.Walk.Operations.{
  propose-Along, approve-Along, deny_approval-Along, cancel-Along, record_result-Along,
  commit-Along, reconcile-R, alone,
}
use ep_governance.Walk.Tokens.{issue_authorization-Along, verify_and_claim-Along}

-- One operation.
pub data Step (svc : Service) (db : Db) : Db → Type 0 where
  proposes :
      (env : Env) (classify : Classifier) (engine : Option PolicyEngine) (p : Proposed)
      → Step svc db (transaction (propose svc env classify engine p) db).1
  approves :
      (env : Env) (id approver type reason : String)
      → Step svc db (transaction (approve svc env id approver type reason) db).1
  denies :
      (env : Env) (id approver reason : String)
      → Step svc db (transaction (deny_approval svc env id approver reason) db).1
  cancels :
      (env : Env) (id agent : String) → Step svc db (transaction (cancel svc env id agent) db).1
  records :
      (env : Env) (id status summary : String) (n : Option String)
      → Step svc db (transaction (record_result svc env id status summary n) db).1
  commits : (env : Env) (r : CommitRequest) → Step svc db (transaction (commit svc env r) db).1
  reconciles :
      (env : Env) (id status summary : String) (c : Option Commitment)
      → Step svc db (reconcile svc env id status summary c db).1
  issues :
      (keys : Signing) (clock : Clock) (ttl : ℕ) (production : Bool) (env : Env) (now : ℕ)
      (nonce transition agent project branch audience tool payload : String)
      (policies : List PolicyDict) (c : EnforcementCapability)
      → Step svc db
          (transaction
            (issue_authorization svc keys clock ttl production env now nonce transition agent
              project branch audience tool payload policies c)
            db).1
  claims :
      (keys : Signing) (env : Env) (id token payload_hash proxy : String)
      → Step svc db (verify_and_claim svc keys env id token payload_hash proxy db).1
  executes :
      (keys : Signing) (clock : Clock) (strptime : String → Option ℕ) (production : Bool)
      (p : Proxy) (env : ProxyEnv) (token : String) (payload : Value) (c : EnforcementCapability)
      → Step svc db (execute svc keys clock strptime production p env token payload c db).1

-- A run, from its first database.
pub data Run (svc : Service) (db : Db) : Db → Type 0 where
  start : Run svc db db
  next : {mid db' : Db} → Run svc db mid → Step svc mid db' → Run svc db db'

-- The operations that claim an authorization.
unfoldable pub is_claim : {svc : Service} {db db' : Db} → Step svc db db' → Bool
is_claim (claims _ _ _ _ _ _) = true
is_claim (executes _ _ _ _ _ _ _ _ _) = true
is_claim _ = false

module _ {svc : Service} {allowed : Stage → Bool} {R : Db → Db → Type 0}
    (s : Statements svc allowed R) (f : Outcomes allowed) where
  -- A claim moves along a preorder that need not allow decisions.
  pub claim-along :
      (x : allowed executing ≡ true) {db db' : Db} (step : Step svc db db')
      → is_claim step ≡ true
      → R db db'
  unfolding is_claim
  claim-along x {db} (claims keys env id token payload_hash proxy) h =
      unfold verify_and_claim in
      alone s _ db (verify_and_claim-Along s x keys env id token payload_hash proxy)
  claim-along x {db} (executes keys clock strptime production p env token payload c) h =
      execute-R s f x keys clock strptime production p env token payload c db
  claim-along x (proposes _ _ _ _) h = absurd (cc)
  claim-along x (approves _ _ _ _ _) h = absurd (cc)
  claim-along x (denies _ _ _ _) h = absurd (cc)
  claim-along x (cancels _ _ _) h = absurd (cc)
  claim-along x (records _ _ _ _ _) h = absurd (cc)
  claim-along x (commits _ _) h = absurd (cc)
  claim-along x (reconciles _ _ _ _ _) h = absurd (cc)
  claim-along x (issues _ _ _ _ _ _ _ _ _ _ _ _ _ _ _ _) h = absurd (cc)

  -- Any other operation moves along a preorder that need not allow an execution.
  pub other-along :
      (d : Decisions allowed) {db db' : Db} (step : Step svc db db')
      → is_claim step ≡ false
      → R db db'
  unfolding is_claim
  other-along d {db} (proposes env classify engine p) h =
      alone s _ db (propose-Along s d env classify engine p)
  other-along d {db} (approves env id approver type reason) h =
      alone s _ db (approve-Along s d env id approver type reason)
  other-along d {db} (denies env id approver reason) h =
      alone s _ db (deny_approval-Along s d env id approver reason)
  other-along d {db} (cancels env id agent) h = alone s _ db (cancel-Along s d env id agent)
  other-along d {db} (records env id status summary n) h =
      alone s _ db (record_result-Along s f env id status summary n)
  other-along d {db} (commits env r) h = alone s _ db (commit-Along s f env r)
  other-along d {db} (reconciles env id status summary c) h =
      reconcile-R s f env id status summary c db
  other-along d {db}
        (issues keys clock ttl production env now nonce t a p b audience tool payload ps c) h =
      alone s _ db (
        issue_authorization-Along s keys clock ttl production env now nonce t a p b audience tool
          payload ps c)
  other-along d (claims _ _ _ _ _ _) h = absurd (cc)
  other-along d (executes _ _ _ _ _ _ _ _ _) h = absurd (cc)

module _ {svc : Service} {R : Db → Db → Type 0} (s : Statements svc every R) where
  Step-along : {db db' : Db} → Step svc db db' → R db db'
  Step-along step = elim (Bool-cases (is_claim step)) [
    | inl e ↦ claim-along s every_outcome refl step e
    | inr e ↦ other-along s every_outcome every_decision step e
  ]

  -- A run moves along every preorder that its statements move along.
  pub Run-along : {db db' : Db} → Run svc db db' → R db db'
  Run-along {db} start = s.preorder.reflexive db
  Run-along {db} {db'} (next {mid} run step) =
      s.preorder.transitive db mid db' (Run-along run) (Step-along step)
