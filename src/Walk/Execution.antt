-- ===== src/Walk/Execution.antt =====
-- An execution of the proxy, from the statements of its claim and of what it records.
use ep_governance.Prelude.{
  ℕ, String, ◌≡◌, Bool, true, false, Option, none, some, str_eq, if◌then◌else◌,
}
use ep_governance.Authorizations.{Signing}
use ep_governance.Authorizations.Verify.{VerifiedToken, verify_token}
use ep_governance.Db.{Db, Transition, Stage, executing}
use ep_governance.Deployment.{Clock, EnforcementCapability, require_binding_enforcement}
use ep_governance.Errors.{Result, ok, err}
use ep_governance.Proxy.{
  Proxy, ProxyEnv, ExecutionResult, Execution, Refusal, as_text, first_refusal, last_refusal,
}
use ep_governance.Proxy.Execute.{
  Claiming, refuses, holds, claim_token, revalidate_and_claim, commit_found, commit_execution,
  unless_refused, after_commitment, after_record, record_execution, record_named, perform,
  after_claim, execute_checked, after_checks, execute_verified, after_capability, execute,
}
use ep_governance.Service.{Service}
use ep_governance.Tx.Along.{Along, Along-lift}
use ep_governance.Value.{Value}
use ep_governance.Walk.{Statements, Outcomes}
use ep_governance.Walk.Operations.{bind, returns, alone, commit-Along, record_result-Along}
use ep_governance.Walk.Tokens.{verify_and_claim-Along}

module _ {svc : Service} {allowed : Stage → Bool} {R : Db → Db → Type 0}
    (s : Statements svc allowed R) (f : Outcomes allowed) (x : allowed executing ≡ true) where
  commit_found-R :
      (env : ProxyEnv) (summary : String) (o : Option Transition) (db : Db)
      → R db (commit_found svc env summary o db).1
  unfolding commit_found
  commit_found-R env summary none db = s.preorder.reflexive db
  commit_found-R env summary (some t) db = alone s _ db (commit-Along s f env.commit _)

  after_commitment-R :
      {A : Type 0} (env : ProxyEnv) (id : String) (result : ExecutionResult) (db : Db)
      (r : Result A × Db)
      → R db r.1
      → R db (after_commitment svc env id result r).1
  unfolding after_commitment
  after_commitment-R env id result db (ok a, mid) h = h
  after_commitment-R env id result db (err e, mid) h =
      s.preorder.transitive db mid _ h
        (alone s _ mid (record_result-Along s f env.record_env _ _ _ _))

  after_record-R :
      {A : Type 0} (result : ExecutionResult) (db : Db) (r : Result A × Db)
      → R db r.1
      → R db (after_record result r).1
  unfolding after_record
  after_record-R result db (ok a, mid) h = h
  after_record-R result db (err e, mid) h = h

  either :
      {A : Type 0} (b : Bool) (x y : Result A × Db) (db : Db)
      → R db x.1
      → R db y.1
      → R db (if b then x else y).1
  either true x y db h k = h
  either false x y db h k = k

  record_named-R :
      (p : Proxy) (env : ProxyEnv) (result : ExecutionResult) (id : Result String) (db : Db)
      → R db (record_named svc p env result id db).1
  unfolding record_named record_execution commit_execution
  record_named-R p env result (err e) db = s.preorder.reflexive db
  record_named-R p env result (ok id) db =
      either (str_eq result.exit_status "success") _ _ db
        (either p.has_branch_committer _ _ db
          (after_commitment-R env id result db _ (commit_found-R env _ _ db))
          (s.preorder.reflexive db))
        (after_record-R result db _ (alone s _ db (record_result-Along s f env.record_env _ _ _ _)))

  pub perform-R :
      (p : Proxy) (env : ProxyEnv) (t : VerifiedToken) (payload : Value) (db : Db)
      → R db (perform svc p env t payload db).1
  unfolding perform
  perform-R p env t payload db =
      either p.has_transition_engine _ _ db (record_named-R p env _ (as_text t.transition_id) db)
        (s.preorder.reflexive db)

  revalidate_and_claim-Along :
      (keys : Signing) (p : Proxy) (env : ProxyEnv) (token : String) (t : VerifiedToken)
      (payload : Value)
      → Along R (revalidate_and_claim svc keys p env token t payload)
  unfolding revalidate_and_claim
  revalidate_and_claim-Along keys p env token t payload =
      go (last_refusal svc p env.policy_now t payload)
    where
      go :
          (o : Option Refusal)
          → Along R (unless_refused o (claim_token svc keys p env token t payload))
      go (some r) = returns s _
      go none =
          bind s _ _ (Along-lift s.preorder (as_text t.authorization_id)) λ id.
            bind s _ _ (verify_and_claim-Along s x keys env.claim id token _ _) λ c. returns s _

  after_claim-R :
      (p : Proxy) (env : ProxyEnv) (t : VerifiedToken) (payload : Value) (db : Db)
      (r : Result Claiming × Db)
      → R db r.1
      → R db (after_claim svc p env t payload r).1
  unfolding after_claim
  after_claim-R p env t payload db (err e, mid) h = h
  after_claim-R p env t payload db (ok (refuses r), mid) h = h
  after_claim-R p env t payload db (ok (holds c), mid) h =
      s.preorder.transitive db mid _ h (perform-R p env t payload mid)

  execute_checked-R :
      (keys : Signing) (p : Proxy) (env : ProxyEnv) (token : String) (t : VerifiedToken)
      (payload : Value) (db : Db)
      → R db (execute_checked svc keys p env token t payload db).1
  unfolding execute_checked
  execute_checked-R keys p env token t payload db =
      either env.conflict _ _ db (s.preorder.reflexive db) (
        after_claim-R p env t payload db _
          (alone s _ db (revalidate_and_claim-Along keys p env token t payload)))

  after_checks-R :
      (o : Result (Option Refusal)) (db : Db) (rest : Result Execution × Db)
      → R db rest.1
      → R db (after_checks o db rest).1
  unfolding after_checks
  after_checks-R (err e) db rest h = s.preorder.reflexive db
  after_checks-R (ok (some r)) db rest h = s.preorder.reflexive db
  after_checks-R (ok none) db rest h = h

  execute_verified-R :
      (keys : Signing) (p : Proxy) (env : ProxyEnv) (token : String) (c : EnforcementCapability)
      (payload : Value) (o : Result (Option VerifiedToken)) (db : Db)
      → R db (execute_verified svc keys p env token c payload o db).1
  unfolding execute_verified
  execute_verified-R keys p env token c payload (err e) db = s.preorder.reflexive db
  execute_verified-R keys p env token c payload (ok none) db = s.preorder.reflexive db
  execute_verified-R keys p env token c payload (ok (some t)) db =
      after_checks-R (first_refusal svc p c t payload db) db _
        (execute_checked-R keys p env token t payload db)

  after_capability-R :
      (o : Result (Unit {0})) (db : Db) (rest : Result Execution × Db)
      → R db rest.1
      → R db (after_capability o db rest).1
  unfolding after_capability
  after_capability-R (err e) db rest h = s.preorder.reflexive db
  after_capability-R (ok tt) db rest h = h

  pub execute-R :
      (keys : Signing) (clock : Clock) (strptime : String → Option ℕ) (production : Bool)
      (p : Proxy) (env : ProxyEnv) (token : String) (payload : Value) (c : EnforcementCapability)
      (db : Db)
      → R db (execute svc keys clock strptime production p env token payload c db).1
  unfolding execute
  execute-R keys clock strptime production p env token payload c db =
      after_capability-R (require_binding_enforcement clock env.microseconds production c) db _ (
        execute_verified-R keys p env token c payload
          (verify_token keys strptime env.microseconds (keys.json_loads token)) db)
