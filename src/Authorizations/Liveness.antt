-- ===== src/Authorizations/Liveness.antt =====
-- When a claim succeeds.
use ep_governance.Prelude.{
  String, ◌≡◌, refl, ap, ◌∙◌, Bool, true, false, Option, none, some, arith, str_eq, str_eq_iff,
  str_eq_refl, codes,
}
use ep_governance.Authorizations.{Signing}
use ep_governance.Authorizations.Claim.{
  verify_and_claim_in_transaction, verify_and_claim, claim_accepted, token_accepted, ClaimResult,
  claim_and_advance, begin_execution, savepoint, hash_matches, kept, claim_matched, claim_result,
}
use ep_governance.Db.{Db, Authorization, authorized, executing}
use ep_governance.Errors.{Result, ok, err}
use ep_governance.Repositories.Authorizations.{authorization_key, set_used, set_attempt}
use ep_governance.Repositories.Authorizations.{
  claim_authorization, claimable, get_authorization, update_execution_attempt_id, any_row,
}
use ep_governance.Repositories.Transitions.{update_stage, transition_key, at_stage, set_stage}
use ep_governance.Service.{Service, Env}
use ep_governance.Table.{find, update_rows, affects}
use ep_governance.Table.Lookup.{find-update_rows}
use ep_governance.Tx.{Tx, continue, pure, raise, transaction, ◌>>=◌}

accepted-runs :
    {A : Type 0} (r : Result Bool) (m : Tx (Option A)) (db : Db) (a : Option A) (db' : Db)
    → r ≡ ok true
    → m db ≡ ok (a, db')
    → (elim r as (λ _. Tx (Option A)) [ err e ↦ raise e | ok false ↦ pure none | ok true ↦ m ]) db
      ≡ ok (a, db')
accepted-runs (err e) m db a db' h ran = absurd (cc)
accepted-runs (ok false) m db a db' h ran = absurd (cc)
accepted-runs (ok true) m db a db' h ran = ran

committed :
    {A : Type 0} (m : Tx A) (db : Db) (a : A) (db' : Db)
    → m db ≡ ok (a, db')
    → transaction m db ≡ (ok a, db')
unfolding transaction
committed m db a db' ran = rw (ran, transaction) refl

claimed_row :
    (id proxy h now : String) (db : Db) (a : Authorization)
    → find authorization_key id db.authorizations ≡ some a
    → claimable (some h) now a ≡ true
    → claim_authorization id proxy (some h) now db
      ≡ ok (
        some (set_used now a),
        record db {
          authorizations =
              update_rows authorization_key
                (claimable (some h) now)
                (set_used now)
                id
                db.authorizations;
        },
      )
unfolding claim_authorization ◌>>=◌ affects
claimed_row id proxy h now db a found fits = ground (
  arith,
  found,
  fits,
  str_eq_refl id,
  find-update_rows authorization_key (claimable (some h) now) (set_used now) id id db.authorizations
      (λ r. refl),
)

begun :
    (env : Env) (id : String) (c : Authorization) (mid : Db)
    → str_eq c.transition_id "" ≡ false
    → affects transition_key (at_stage (some authorized)) c.transition_id mid.transitions ≡ true
    → (db' : Db) × (begin_execution env id (some c) mid ≡ ok (some c, db'))
unfolding begin_execution update_execution_attempt_id update_stage ◌>>=◌
begun env id c mid there hit = (
  record mid {
    authorizations =
        update_rows authorization_key any_row (set_attempt (env.xid 0)) id mid.authorizations;
    transitions =
        update_rows transition_key (at_stage (some authorized)) (set_stage executing (env.now 1))
          c.transition_id mid.transitions;
  },
  ground (arith, there, hit),
)

module _ (svc : Service) (keys : Signing) (env : Env) (id token payload_hash proxy : String)
    (db : Db) (a : Authorization)
    (accepted : token_accepted keys id payload_hash (keys.json_loads token) ≡ ok true)
    (found : find authorization_key id db.authorizations ≡ some a)
    (fits : claimable (some (svc.sha256 (codes token))) (env.now 0) a ≡ true)
    (hashed : str_eq (svc.sha256 (codes token)) "" ≡ false)
    (there : str_eq a.transition_id "" ≡ false)
    (ready : affects transition_key (at_stage (some authorized)) a.transition_id db.transitions
      ≡ true) where
  h : String
  h = svc.sha256 (codes token)

  advanced :
      (db' : Db) × (claim_and_advance env id proxy h db ≡ ok (some (set_used (env.now 0) a), db'))
  unfolding claim_and_advance ◌>>=◌ h
  advanced =
      let (db', e) = begun env id (set_used (env.now 0) a) _ there ready in
      (
        db',
        ap (λ r. continue r (begin_execution env id))
              (claimed_row id proxy h (env.now 0) db a found fits)
            ∙ e,
      )

  result : ClaimResult
  result = record {
    authorization_id = id;
    transition_id = a.transition_id;
    execution_attempt_id = env.xid 0;
    payload_hash = a.payload_hash;
    policy_set_hash = a.policy_set_hash;
    proxy_principal_id = proxy;
  }

  matched : (db' : Db) × (claim_matched env id h proxy db ≡ ok (some result, db'))
  unfolding claim_matched savepoint claim_result ◌>>=◌ result
  matched =
      let (db', e) = advanced in
      (db', ap (λ r. continue (kept db r) (λ claimed. pure (claim_result env id proxy claimed))) e)

  bound : a.token_hash ≡ h
  unfolding claimable h
  bound = ground (arith, str_eq_iff a.token_hash (svc.sha256 (codes token)))

  matches : hash_matches h (some a) ≡ true
  unfolding hash_matches h
  matches = rw bound ground (arith, hashed, str_eq_refl (svc.sha256 (codes token)))

  accepts : (db' : Db) × (claim_accepted svc env id token proxy db ≡ ok (some result, db'))
  unfolding claim_accepted get_authorization h ◌>>=◌
  accepts = let (db', e) = matched in (db', rw (found, matches) e)

  -- A claim succeeds where the key accepts the token for this payload and this authorization, the
  -- stored authorization is unused, unexpired and issued with this token, names a transition, and
  -- that transition is authorized.
  pub claim-succeeds :
      (r : ClaimResult) × (db' : Db) × (verify_and_claim svc keys env id token payload_hash proxy db
        ≡ (ok (some r), db'))
  unfolding verify_and_claim verify_and_claim_in_transaction
  claim-succeeds =
      let (db', e) = accepts in
      (
        result,
        db',
        committed _ db (some result) db' (
            accepted-runs (token_accepted keys id payload_hash (keys.json_loads token))
              (claim_accepted svc env id token proxy) db (some result) db' accepted e),
      )
