-- ===== src/Proxy/Reached.antt =====
-- The checks that an execution which reached the adapter has passed, one after another.
use ep_governance.Prelude.{
  ℕ, String, ◌≡◌, refl, sym, ap, ◌∙◌, Bool, true, false, Option, none, some, arith, if◌then◌else◌,
}
use ep_governance.Authorizations.{Signing}
use ep_governance.Authorizations.Claim.{
  ClaimResult, verify_and_claim, verify_and_claim_in_transaction,
}
use ep_governance.Authorizations.Verify.{VerifiedToken, verify_token}
use ep_governance.Db.{Db}
use ep_governance.Deployment.{Clock, EnforcementCapability, require_binding_enforcement}
use ep_governance.Errors.{Result, ok, err}
use ep_governance.Proxy.{
  Proxy, ProxyEnv, Execution, refused, executed, uncommitted, Refusal, as_text, actual_payload_hash,
  first_refusal, last_refusal,
}
use ep_governance.Proxy.Execute.{
  Claiming, refuses, holds, claiming, claim_token, unless_refused, revalidate_and_claim, perform,
  after_claim, execute_checked, after_checks, execute_verified, after_capability, execute,
}
use ep_governance.Service.{Service}
use ep_governance.Tx.{Tx, transaction, pure, lift}
use ep_governance.Tx.Inversion.{bind-ok, pure-ok, transaction-ok}
use ep_governance.Value.{Value, null, boolean, integer, array, object, text}

-- The adapter was run.
unfoldable pub ran : Execution → Bool
ran (refused r) = false
ran (executed r) = true
ran (uncommitted r) = true

-- A transaction that reports success, the other way.
transaction-done :
    {A : Type 0} (m : Tx A) (db : Db) (a : A) (db' : Db)
    → m db ≡ ok (a, db')
    → transaction m db ≡ (ok a, db')
unfolding transaction
transaction-done m db a db' done = rw (done, transaction) refl

after_capability-ran :
    (o : Result (Unit {0})) (db : Db) (rest : Result Execution × Db) (x : Execution) (db' : Db)
    → ran x ≡ true
    → after_capability o db rest ≡ (ok x, db')
    → (o ≡ ok tt) × (rest ≡ (ok x, db'))
unfolding after_capability ran
after_capability-ran (ok tt) db rest x db' r h = (refl, h)
after_capability-ran (err e) db rest x db' r h = absurd (ground (arith, h))

after_checks-ran :
    (o : Result (Option Refusal)) (db : Db) (rest : Result Execution × Db) (x : Execution)
    (db' : Db)
    → ran x ≡ true
    → after_checks o db rest ≡ (ok x, db')
    → (o ≡ ok none) × (rest ≡ (ok x, db'))
unfolding after_checks ran
after_checks-ran (ok none) db rest x db' r h = (refl, h)
after_checks-ran (ok (some f)) db rest x db' r h = absurd (ground (arith, h))
after_checks-ran (err e) db rest x db' r h = absurd (ground (arith, h))

after_claim-ran :
    (svc : Service) (p : Proxy) (env : ProxyEnv) (t : VerifiedToken) (payload : Value)
    (o : Result Claiming × Db) (x : Execution) (db' : Db)
    → ran x ≡ true
    → after_claim svc p env t payload o ≡ (ok x, db')
    → (c : ClaimResult) × (mid : Db) × (o ≡ (ok (holds c), mid))
      × (perform svc p env t payload mid ≡ (ok x, db'))
unfolding after_claim ran
after_claim-ran svc p env t payload (ok (holds c), mid) x db' r h = (c, mid, refl, h)
after_claim-ran svc p env t payload (ok (refuses f), mid) x db' r h = absurd (ground (arith, h))
after_claim-ran svc p env t payload (err e, mid) x db' r h = absurd (ground (arith, h))

if-ran :
    (b : Bool) (f : Refusal) (db : Db) (rest : Result Execution × Db) (x : Execution) (db' : Db)
    → ran x ≡ true
    → (if b then (ok (refused f), db) else rest) ≡ (ok x, db')
    → rest ≡ (ok x, db')
unfolding ran
if-ran true f db rest x db' r h = absurd (ground (arith, h))
if-ran false f db rest x db' r h = h

verified-ran :
    (svc : Service) (keys : Signing) (p : Proxy) (env : ProxyEnv) (token : String)
    (c : EnforcementCapability) (payload : Value) (o : Result (Option VerifiedToken)) (db : Db)
    (x : Execution) (db' : Db)
    → ran x ≡ true
    → execute_verified svc keys p env token c payload o db ≡ (ok x, db')
    → (t : VerifiedToken) × (o ≡ ok (some t))
      × (first_refusal svc p c t payload db ≡ ok none)
      × (execute_checked svc keys p env token t payload db ≡ (ok x, db'))
unfolding execute_verified ran
verified-ran svc keys p env token c payload (ok (some t)) db x db' r h =
    let (passed, went) = after_checks-ran (first_refusal svc p c t payload db) db _ x db' r h in
    (t, refl, passed, went)
verified-ran svc keys p env token c payload (ok none) db x db' r h = absurd (ground (arith, h))
verified-ran svc keys p env token c payload (err e) db x db' r h = absurd (ground (arith, h))

pub as_text-ok : (v : Value) (s : String) → as_text v ≡ ok s → v ≡ text s
unfolding as_text
as_text-ok (text r) s h = ground (arith, h)
as_text-ok null s h = absurd (cc)
as_text-ok (boolean b) s h = absurd (cc)
as_text-ok (integer n) s h = absurd (cc)
as_text-ok (array xs) s h = absurd (cc)
as_text-ok (object fs) s h = absurd (cc)

claiming-holds : (o : Option ClaimResult) (c : ClaimResult) → claiming o ≡ holds c → o ≡ some c
unfolding claiming
claiming-holds none c h = absurd (cc)
claiming-holds (some d) c h = ground (arith, h)

pub lift-done :
    {A : Type 0} (o : Result A) (db : Db) (a : A) (mid : Db)
    → lift o db ≡ ok (a, mid)
    → (o ≡ ok a) × (mid ≡ db)
unfolding lift
lift-done (ok b) db a mid h = (ground (arith, h), ground (arith, h))
lift-done (err e) db a mid h = absurd (cc)

unless_refused-holds :
    (o : Option Refusal) (m : Tx Claiming) (db : Db) (c : ClaimResult) (mid : Db)
    → unless_refused o m db ≡ ok (holds c, mid)
    → (o ≡ none) × (m db ≡ ok (holds c, mid))
unfolding unless_refused pure
unless_refused-holds none m db c mid h = (refl, h)
unless_refused-holds (some f) m db c mid h = absurd (cc)

claim_token-holds :
    (svc : Service) (keys : Signing) (p : Proxy) (env : ProxyEnv) (token : String)
    (t : VerifiedToken) (payload : Value) (db : Db) (c : ClaimResult) (mid : Db)
    → claim_token svc keys p env token t payload db ≡ ok (holds c, mid)
    → (id : String) × (t.authorization_id ≡ text id)
      × (verify_and_claim svc keys env.claim id token
            (actual_payload_hash svc payload)
            p.config.ep_service_principal_id
            db
          ≡ (ok (some c), mid))
unfolding claim_token verify_and_claim
claim_token-holds svc keys p env token t payload db c mid h =
    let (id, d1, named, r1) = bind-ok _ _ db (holds c) mid h in
    let (is_id, same) = lift-done _ db id d1 named in
    let (o, d2, claimed, r2) = bind-ok _ _ d1 (holds c) mid r1 in
    let (e, same') = pure-ok (claiming o) d2 (holds c) mid r2 in
    let it = claiming-holds o c e in
    (
      id,
      as_text-ok t.authorization_id id is_id,
      transaction-done _ db (some c) mid (
          ap
            (verify_and_claim_in_transaction svc keys env.claim id token
              (actual_payload_hash svc payload) p.config.ep_service_principal_id)
            (sym same)
          ∙ claimed
          ∙ ap (λ y. ok (y, d2)) it
          ∙ ap (λ d. ok (some c, d)) same'),
    )

-- An execution that ran the adapter passed each step before it.
pub record Reached (svc : Service) (keys : Signing) (clock : Clock) (strptime : String → Option ℕ)
    (production : Bool) (p : Proxy) (env : ProxyEnv) (token : String) (payload : Value)
    (c : EnforcementCapability) (db : Db) (x : Execution) (db' : Db) : Type 0 where
  pub entitled : require_binding_enforcement clock env.microseconds production c ≡ ok tt
  pub token_of : VerifiedToken
  pub verified :
      verify_token keys strptime env.microseconds (keys.json_loads token) ≡ ok (some token_of)
  pub accepted : first_refusal svc p c token_of payload db ≡ ok none
  pub unrefused : last_refusal svc p env.policy_now token_of payload ≡ none
  pub authorization_id : String
  pub is_id : token_of.authorization_id ≡ text authorization_id
  pub claim : ClaimResult
  pub mid : Db
  pub claimed :
      verify_and_claim svc keys env.claim authorization_id token
        (actual_payload_hash svc payload)
        p.config.ep_service_principal_id
        db
      ≡ (ok (some claim), mid)
  pub performed : perform svc p env token_of payload mid ≡ (ok x, db')

pub execute-Reached :
    (svc : Service) (keys : Signing) (clock : Clock) (strptime : String → Option ℕ)
    (production : Bool) (p : Proxy) (env : ProxyEnv) (token : String) (payload : Value)
    (c : EnforcementCapability) (db : Db) (x : Execution) (db' : Db)
    → execute svc keys clock strptime production p env token payload c db ≡ (ok x, db')
    → ran x ≡ true
    → Reached svc keys clock strptime production p env token payload c db x db'
unfolding execute execute_checked revalidate_and_claim
execute-Reached svc keys clock strptime production p env token payload c db x db' done r =
    let (able, h1) =
      after_capability-ran (require_binding_enforcement clock env.microseconds production c) db _ x
        db' r done in
    let (t, good, passed, h2) =
      verified-ran svc keys p env token c payload
        (verify_token keys strptime env.microseconds (keys.json_loads token)) db x db' r h1 in
    let (claim, mid, h3, h4) =
      after_claim-ran svc p env t payload _ x db' r (if-ran env.conflict _ db _ x db' r h2) in
    let (free, h5) =
      unless_refused-holds (last_refusal svc p env.policy_now t payload)
        (claim_token svc keys p env token t payload) db claim mid
        (transaction-ok _ db (holds claim) mid h3) in
    let (id, is_id, claimed) = claim_token-holds svc keys p env token t payload db claim mid h5 in
    record {
      entitled = able;
      token_of = t;
      verified = good;
      accepted = passed;
      unrefused = free;
      authorization_id = id;
      is_id = is_id;
      claim = claim;
      mid = mid;
      claimed = claimed;
      performed = h4;
    }
