-- ===== src/Proxy/Refused.antt =====
-- An execution that is refused leaves no trace.
use ep_governance.Prelude.{
  ℕ, String, ◌≡◌, refl, sym, ap, ◌∙◌, Bool, true, false, Option, none, some, arith, inl, inr,
  if◌then◌else◌, str_eq, codes,
}
use ep_governance.Authorizations.{Signing}
use ep_governance.Authorizations.Claim.{
  ClaimResult, claim_result, claim_matched, claim_accepted, savepoint, kept, claim_and_advance,
  token_accepted, hash_matches, verify_and_claim_in_transaction,
}
use ep_governance.Authorizations.Verify.{VerifiedToken, verify_token}
use ep_governance.Db.{Db, Authorization}
use ep_governance.Deployment.{Clock, EnforcementCapability, require_binding_enforcement}
use ep_governance.Errors.{Error, Result, ok, err}
use ep_governance.Proxy.{
  Proxy, ProxyEnv, Execution, ExecutionResult, refused, executed, uncommitted, Refusal, as_text,
  actual_payload_hash, first_refusal, last_refusal,
}
use ep_governance.Proxy.Execute.{
  Claiming, refuses, holds, claiming, claim_token, unless_refused, revalidate_and_claim, perform,
  after_claim, execute_checked, after_checks, execute_verified, after_capability, execute,
  record_named, record_unnamed, record_execution, after_commitment, after_record,
}
use ep_governance.Proxy.Reached.{lift-done}
use ep_governance.Repositories.Authorizations.{get_authorization}
use ep_governance.Service.{Service, Env}
use ep_governance.Tx.{Tx, pure, raise}
use ep_governance.Tx.Inversion.{bind-ok, pure-ok, gets-ok, if-ok, transaction-ok}
use ep_governance.Value.{Value}

savepoint-none :
    {A : Type 0} (m : Tx (Option A)) (db mid : Db) → savepoint m db ≡ ok (none, mid) → mid ≡ db
unfolding savepoint
savepoint-none {A} m db mid h = go (m db) h
  where
    go : (r : Result (Option A × Db)) → kept db r ≡ ok (none, mid) → mid ≡ db
    go (ok (none, d)) e = ground (arith, e)
    go (ok (some a, d)) e = absurd (cc)
    go (err x) e = absurd (cc)

claim_result-none :
    (env : Env) (id proxy : String) (o : Option Authorization)
    → claim_result env id proxy o ≡ none
    → o ≡ none
unfolding claim_result
claim_result-none env id proxy none h = refl
claim_result-none env id proxy (some a) h = absurd (cc)

claim_accepted-none :
    (svc : Service) (env : Env) (id token proxy : String) (db mid : Db)
    → claim_accepted svc env id token proxy db ≡ ok (none, mid)
    → mid ≡ db
unfolding claim_accepted claim_matched
claim_accepted-none svc env id token proxy db mid h =
    let hash = svc.sha256 (codes token) in
    elim (if-ok (hash_matches hash (get_authorization id db)) (claim_matched env id hash proxy)
      (pure none) db none mid (gets-ok (get_authorization id) _ db none mid h)) [
        | inl (e, went) ↦
            let (o, d, saved, rest) = bind-ok _ _ db none mid went in
            let (q, same) = pure-ok _ d none mid rest in
            sym same
            ∙ savepoint-none (claim_and_advance env id proxy hash) db d
                (saved ∙ ap (λ x. ok (x, d)) (claim_result-none env id proxy o q))
        | inr (e, went) ↦ sym (pure-ok none db none mid went).1
      ]

accepted-none :
    {A : Type 0} (r : Result Bool) (m : Tx (Option A)) (db mid : Db)
    → (m db ≡ ok (none, mid) → mid ≡ db)
    → (elim r as (λ _. Tx (Option A)) [ err e ↦ raise e | ok false ↦ pure none | ok true ↦ m ]) db
      ≡ ok (none, mid)
    → mid ≡ db
unfolding pure raise
accepted-none (err e) m db mid same h = absurd (cc)
accepted-none (ok false) m db mid same h = ground (arith, h)
accepted-none (ok true) m db mid same h = same h

claiming-refuses : (o : Option ClaimResult) (f : Refusal) → claiming o ≡ refuses f → o ≡ none
unfolding claiming
claiming-refuses none f h = refl
claiming-refuses (some c) f h = absurd (cc)

claim_token-refuses :
    (svc : Service) (keys : Signing) (p : Proxy) (env : ProxyEnv) (token : String)
    (t : VerifiedToken) (payload : Value) (db : Db) (f : Refusal) (mid : Db)
    → claim_token svc keys p env token t payload db ≡ ok (refuses f, mid)
    → mid ≡ db
unfolding claim_token verify_and_claim_in_transaction
claim_token-refuses svc keys p env token t payload db f mid h =
    let (id, d1, named, r1) = bind-ok _ _ db (refuses f) mid h in
    let (_, same) = lift-done _ db id d1 named in
    let (o, d2, claimed, r2) = bind-ok _ _ d1 (refuses f) mid r1 in
    let (e, same') = pure-ok (claiming o) d2 (refuses f) mid r2 in
    let back : d2 ≡ d1 =
      accepted-none
        (token_accepted keys id (actual_payload_hash svc payload) (keys.json_loads token))
        (claim_accepted svc env.claim id token p.config.ep_service_principal_id) d1 d2
        (claim_accepted-none svc env.claim id token p.config.ep_service_principal_id d1 d2)
        (claimed ∙ ap (λ x. ok (x, d2)) (claiming-refuses o f e)) in
    sym same' ∙ back ∙ same

revalidate-refuses :
    (svc : Service) (keys : Signing) (p : Proxy) (env : ProxyEnv) (token : String)
    (t : VerifiedToken) (payload : Value) (db : Db) (f : Refusal) (mid : Db)
    → revalidate_and_claim svc keys p env token t payload db ≡ ok (refuses f, mid)
    → mid ≡ db
unfolding revalidate_and_claim
revalidate-refuses svc keys p env token t payload db f mid h =
    go (last_refusal svc p env.policy_now t payload) h
  where
    go :
        (o : Option Refusal)
        → unless_refused o (claim_token svc keys p env token t payload) db ≡ ok (refuses f, mid)
        → mid ≡ db
    go none e = claim_token-refuses svc keys p env token t payload db f mid e
    go (some r) e = sym (pure-ok (refuses r) db (refuses f) mid e).1

-- What follows the claim gives no refusal.
refusal_of : Result Execution → Option Refusal
refusal_of (ok (refused f)) = some f
refusal_of (ok (executed r)) = none
refusal_of (ok (uncommitted r)) = none
refusal_of (err e) = none

either :
    (b : Bool) (x y : Result Execution × Db)
    → refusal_of x.0 ≡ none
    → refusal_of y.0 ≡ none
    → refusal_of (if b then x else y).0 ≡ none
either true x y h k = h
either false x y h k = k

after_commitment-unrefused :
    {A : Type 0} (svc : Service) (env : ProxyEnv) (id : String) (result : ExecutionResult)
    (r : Result A × Db)
    → refusal_of (after_commitment svc env id result r).0 ≡ none
unfolding after_commitment refusal_of
after_commitment-unrefused svc env id result (ok a, db) = refl
after_commitment-unrefused svc env id result (err e, db) = refl

after_record-unrefused :
    {A : Type 0} (result : ExecutionResult) (r : Result A × Db)
    → refusal_of (after_record result r).0 ≡ none
unfolding after_record refusal_of
after_record-unrefused result (ok a, db) = refl
after_record-unrefused result (err e, db) = refl

unnamed :
    (p : Proxy) (env : ProxyEnv) (result : ExecutionResult) (e : Error)
    → refusal_of (record_unnamed p env result e) ≡ none
unfolding record_unnamed refusal_of
unnamed p env result e = ground arith

record_named-unrefused :
    (svc : Service) (p : Proxy) (env : ProxyEnv) (result : ExecutionResult) (o : Result String)
    (db : Db)
    → refusal_of (record_named svc p env result o db).0 ≡ none
unfolding record_named record_execution refusal_of
record_named-unrefused svc p env result (err e) db = unnamed p env result e
record_named-unrefused svc p env result (ok id) db =
    either (str_eq result.exit_status "success") _ _
      (either p.has_branch_committer _ _ (after_commitment-unrefused svc env id result _) refl)
      (after_record-unrefused result _)

perform-unrefused :
    (svc : Service) (p : Proxy) (env : ProxyEnv) (t : VerifiedToken) (payload : Value) (db : Db)
    → refusal_of (perform svc p env t payload db).0 ≡ none
unfolding perform refusal_of
perform-unrefused svc p env t payload db =
    either p.has_transition_engine _ _
      (record_named-unrefused svc p env _ (as_text t.transition_id) db) refl

module _ (f : Refusal) where
  -- A step that is refused with `f` ends where it began.
  abbrev Untouched : Db → Result Execution × Db → Type 0
  Untouched db r = (db' : Db) → r ≡ (ok (refused f), db') → db' ≡ db

  here : (e : Refusal) (db : Db) → Untouched db (ok (refused e), db)
  here e db db' h = sym (ap (λ z. z.1) h)

  failed : (e : Error) (db mid : Db) → Untouched db (err e, mid)
  failed e db mid db' h = absurd (not_ok e (ap (λ z. z.0) h))
    where
      not_ok : (e : Error) → err e ≡ ok (refused f) → ⊥
      not_ok e k = cc

  choice :
      (b : Bool) (x y : Result Execution × Db) (db : Db)
      → Untouched db x
      → Untouched db y
      → Untouched db (if b then x else y)
  choice true x y db h k = h
  choice false x y db h k = k

  after_claim-Untouched :
      (svc : Service) (p : Proxy) (env : ProxyEnv) (t : VerifiedToken) (payload : Value) (db : Db)
      (o : Result Claiming × Db)
      → ((g : Refusal) (mid : Db) → o ≡ (ok (refuses g), mid) → mid ≡ db)
      → Untouched db (after_claim svc p env t payload o)
  unfolding after_claim refusal_of
  after_claim-Untouched svc p env t payload db (err e, mid) back db' h = failed e db mid db' h
  after_claim-Untouched svc p env t payload db (ok (refuses g), mid) back db' h =
      sym (ap (λ z. z.1) h) ∙ back g mid refl
  after_claim-Untouched svc p env t payload db (ok (holds c), mid) back db' h =
      absurd (clash (sym (perform-unrefused svc p env t payload mid) ∙ ap (λ z. refusal_of z.0) h))
    where
      clash : none ≡ refusal_of (ok (refused f)) → ⊥
      clash k = cc

  execute_checked-Untouched :
      (svc : Service) (keys : Signing) (p : Proxy) (env : ProxyEnv) (token : String)
      (t : VerifiedToken) (payload : Value) (db : Db)
      → Untouched db (execute_checked svc keys p env token t payload db)
  unfolding execute_checked
  execute_checked-Untouched svc keys p env token t payload db =
      choice env.conflict _ _ db (here _ db) (
        after_claim-Untouched svc p env t payload db _ λ g mid e.
          revalidate-refuses svc keys p env token t payload db g mid
            (transaction-ok _ db (refuses g) mid e))

  after_checks-Untouched :
      (o : Result (Option Refusal)) (db : Db) (rest : Result Execution × Db)
      → Untouched db rest
      → Untouched db (after_checks o db rest)
  unfolding after_checks
  after_checks-Untouched (err e) db rest h = failed e db db
  after_checks-Untouched (ok (some g)) db rest h = here g db
  after_checks-Untouched (ok none) db rest h = h

  execute_verified-Untouched :
      (svc : Service) (keys : Signing) (p : Proxy) (env : ProxyEnv) (token : String)
      (c : EnforcementCapability) (payload : Value) (o : Result (Option VerifiedToken)) (db : Db)
      → Untouched db (execute_verified svc keys p env token c payload o db)
  unfolding execute_verified
  execute_verified-Untouched svc keys p env token c payload (err e) db = failed e db db
  execute_verified-Untouched svc keys p env token c payload (ok none) db = here _ db
  execute_verified-Untouched svc keys p env token c payload (ok (some t)) db =
      after_checks-Untouched (first_refusal svc p c t payload db) db _
        (execute_checked-Untouched svc keys p env token t payload db)

  after_capability-Untouched :
      (o : Result (Unit {0})) (db : Db) (rest : Result Execution × Db)
      → Untouched db rest
      → Untouched db (after_capability o db rest)
  unfolding after_capability
  after_capability-Untouched (err e) db rest h = here _ db
  after_capability-Untouched (ok tt) db rest h = h

-- An execution that is refused, for whatever reason, leaves the database as it was: no token is
-- consumed, and no transition is moved.
pub execute-refused :
    (svc : Service) (keys : Signing) (clock : Clock) (strptime : String → Option ℕ)
    (production : Bool) (p : Proxy) (env : ProxyEnv) (token : String) (payload : Value)
    (c : EnforcementCapability) (db : Db) (f : Refusal) (db' : Db)
    → execute svc keys clock strptime production p env token payload c db ≡ (ok (refused f), db')
    → db' ≡ db
unfolding execute
execute-refused svc keys clock strptime production p env token payload c db f db' h =
    after_capability-Untouched f (require_binding_enforcement clock env.microseconds production c)
      db _
      (execute_verified-Untouched f svc keys p env token c payload
        (verify_token keys strptime env.microseconds (keys.json_loads token)) db)
      db' h
