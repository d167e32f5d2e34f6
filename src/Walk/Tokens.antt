-- ===== src/Walk/Tokens.antt =====
-- The operations on tokens, from their statements.
use ep_governance.Prelude.{
  ℕ, String, ◌≡◌, refl, Bool, true, false, Option, none, some, List, arith, str_eq, any, ◌∙◌,
}
use ep_governance.Authorizations.{Signing}
use ep_governance.Authorizations.Claim.{
  savepoint, kept, begin_execution, claim_and_advance, claim_matched, claim_accepted,
  token_accepted, verify_and_claim_in_transaction,
}
use ep_governance.Authorizations.Issue.{
  PolicyDict, issue_authorization, authorization_row, AuthorizationToken, capability_allows,
}
use ep_governance.Db.{Db, Authorization, Stage, authorized, executing}
use ep_governance.Deployment.{Clock, EnforcementCapability}
use ep_governance.Errors.{Result, ok, err}
use ep_governance.Repositories.Authorizations.{insert_authorization}
use ep_governance.Service.{Service, Env}
use ep_governance.Stages.{is_legal_transition}
use ep_governance.Tx.{Tx, raise, pure}
use ep_governance.Tx.Along.{Along, Along-if, Along-lift, Along-raise, unchanged}
use ep_governance.Walk.{Statements}
use ep_governance.Walk.Operations.{bind, returns, reads}

module _ {svc : Service} {allowed : Stage → Bool} {R : Db → Db → Type 0}
    (s : Statements svc allowed R) where
  savepoint-Along : {A : Type 0} (m : Tx (Option A)) → Along R m → Along R (savepoint m)
  unfolding savepoint
  savepoint-Along {A} m km = record { at = λ db a db' h. go db a db' (m db) refl h }
    where
      go :
          (db : Db) (a : Option A) (db' : Db) (r : Result (Option A × Db))
          → m db ≡ r
          → kept db r ≡ ok (a, db')
          → R db db'
      go db a db' (ok (none, mid)) e h = unchanged s.preorder db db' none a h
      go db a db' (ok (some b, mid)) e h = km.at db (some b) db' (e ∙ ground (arith, h))
      go db a db' (err x) e h = absurd (cc)

  insert_row-Along :
      (keys : Signing) (env : Env) (t : AuthorizationToken)
      → Along R (insert_authorization (authorization_row svc keys env t))
  insert_row-Along keys env t =
      s.issues (authorization_row svc keys env t) (unfold authorization_row in refl)

  pub issue_authorization-Along :
      (keys : Signing) (clock : Clock) (ttl : ℕ) (production : Bool) (env : Env) (now : ℕ)
      (nonce transition agent project branch audience tool payload : String)
      (policies : List PolicyDict) (c : EnforcementCapability)
      → Along R (
          issue_authorization svc keys clock ttl production env now nonce transition agent project
            branch audience tool payload policies c)
  unfolding issue_authorization
  issue_authorization-Along keys clock ttl production env now nonce transition agent project branch
        audience tool payload policies c =
      bind s _ _
        (Along-lift s.preorder (capability_allows clock now production c agent audience tool))
        λ _. bind s _ _ (insert_row-Along keys env _) λ _. returns s _

  begin_execution-Along :
      (x : allowed executing ≡ true) (env : Env) (id : String) (o : Option Authorization)
      → Along R (begin_execution env id o)
  unfolding begin_execution
  begin_execution-Along x env id none = returns s none
  begin_execution-Along x env id (some claimed) = bind s _ _ (s.attempts id (env.xid 0)) λ _.
      Along-if s.preorder (str_eq claimed.transition_id "") _ _ (returns s none) (
        bind s _ _
          (s.guarded claimed.transition_id authorized executing (env.now 1)
            (unfold is_legal_transition any in refl) x)
          λ updated. Along-if s.preorder updated _ _ (returns s (some claimed)) (returns s none))

  claim_and_advance-Along :
      (x : allowed executing ≡ true) (env : Env) (id proxy h : String)
      → Along R (claim_and_advance env id proxy h)
  unfolding claim_and_advance
  claim_and_advance-Along x env id proxy h =
      bind s _ _ (s.claims id proxy (some h) (env.now 0))
        λ claimed. begin_execution-Along x env id claimed

  claim_matched-Along :
      (x : allowed executing ≡ true) (env : Env) (id h proxy : String)
      → Along R (claim_matched env id h proxy)
  unfolding claim_matched
  claim_matched-Along x env id h proxy =
      bind s _ _ (savepoint-Along _ (claim_and_advance-Along x env id proxy h)) λ _. returns s _

  claim_accepted-Along :
      (x : allowed executing ≡ true) (env : Env) (id token proxy : String)
      → Along R (claim_accepted svc env id token proxy)
  unfolding claim_accepted
  claim_accepted-Along x env id token proxy =
      bind s _ _ (reads s _)
        λ stored. Along-if s.preorder _ _ _ (claim_matched-Along x env id _ proxy) (returns s none)

  checked :
      {A : Type 0} (r : Result Bool) (m : Tx (Option A))
      → Along R m
      → Along {A = Option A} R (elim r [ err e ↦ raise e | ok false ↦ pure none | ok true ↦ m ])
  checked (err e) m km = Along-raise s.preorder e
  checked (ok false) m km = returns s none
  checked (ok true) m km = km

  pub verify_and_claim-Along :
      (x : allowed executing ≡ true) (keys : Signing) (env : Env)
      (id token payload_hash proxy : String)
      → Along R (verify_and_claim_in_transaction svc keys env id token payload_hash proxy)
  unfolding verify_and_claim_in_transaction
  verify_and_claim-Along x keys env id token payload_hash proxy =
      checked (token_accepted keys id payload_hash (keys.json_loads token))
        (claim_accepted svc env id token proxy) (claim_accepted-Along x env id token proxy)
