-- ===== src/Authorizations/Once.antt =====
-- A token is claimed only as it was issued, and only once.
use ep_governance.Prelude.{String, ◌≡◌, refl, subst, Bool, true, false, Option, none, some}
use ep_governance.Authorizations.{Signing}
use ep_governance.Authorizations.Claim.{
  verify_and_claim_in_transaction, verify_and_claim, claim_accepted, token_accepted, ClaimResult,
}
use ep_governance.Authorizations.Claimed.{Claimed, claim_accepted-Claimed}
use ep_governance.Db.{Db, Authorization}
use ep_governance.Errors.{Result, ok, err}
use ep_governance.Repositories.Authorizations.{authorization_key, set_used, set_attempt}
use ep_governance.Service.{Service, Env}
use ep_governance.Table.{find}
use ep_governance.Tx.{Tx, pure, raise}
use ep_governance.Tx.Inversion.{transaction-ok}
use ep_governance.Walk.Run.{Run}
use ep_governance.Walk.SingleUse.{Run-Preserves, Keeps}

accepted-ok :
    {A : Type 0} (r : Result Bool) (m : Tx (Option A)) (db : Db) (a : A) (db' : Db)
    → (elim r as (λ _. Tx (Option A)) [ err e ↦ raise e | ok false ↦ pure none | ok true ↦ m ]) db
      ≡ ok (some a, db')
    → (r ≡ ok true) × (m db ≡ ok (some a, db'))
unfolding pure raise
accepted-ok (err e) m db a db' ran = absurd (cc)
accepted-ok (ok false) m db a db' ran = absurd (cc)
accepted-ok (ok true) m db a db' ran = (refl, ran)

-- A claim that succeeds has a token whose signature the key accepts, for this payload and this
-- authorization; the stored authorization was unused, unexpired and issued with exactly this token;
-- its transition was authorized and is executing now, and the authorization is used now.
pub verify_and_claim-Claimed :
    (svc : Service) (keys : Signing) (env : Env) (id token payload_hash proxy : String) (db : Db)
    (r : ClaimResult) (db' : Db)
    → verify_and_claim svc keys env id token payload_hash proxy db ≡ (ok (some r), db')
    → (token_accepted keys id payload_hash (keys.json_loads token) ≡ ok true)
      × Claimed svc env id token db r db'
unfolding verify_and_claim verify_and_claim_in_transaction
verify_and_claim-Claimed svc keys env id token payload_hash proxy db r db' ran =
    let (accepted, claimed) =
      accepted-ok (token_accepted keys id payload_hash (keys.json_loads token))
        (claim_accepted svc env id token proxy) db r db' (transaction-ok _ db (some r) db' ran) in
    (accepted, claim_accepted-Claimed svc env id token proxy db r db' claimed)

pub used_stays :
    (a : Authorization) (o : Option Authorization) (b : Authorization)
    → Keeps (some a) o
    → a.used ≡ true
    → o ≡ some b
    → b.used ≡ true
used_stays a none b k used e = absurd (cc)
used_stays a (some c) b (_, stays) used e = cc (stays used, e)

-- An authorization is claimed at most once: after a claim that succeeded and any run, no claim of it
-- succeeds, with whatever token, payload, proxy and time.
pub claimed-once :
    (svc : Service) (keys : Signing) (env : Env) (id token payload_hash proxy : String) (db : Db)
    (r : ClaimResult) (db' later : Db)
    → verify_and_claim svc keys env id token payload_hash proxy db ≡ (ok (some r), db')
    → Run svc db' later
    → (keys' : Signing) (env' : Env) (token' payload_hash' proxy' : String) (r' : ClaimResult)
      (end : Db)
    → ¬ (verify_and_claim svc keys' env' id token' payload_hash' proxy' later ≡ (ok (some r'), end))
claimed-once svc keys env id token payload_hash proxy db r db' later first run keys' env' token'
      payload_hash' proxy' r' end second =
    let a = (verify_and_claim-Claimed svc keys env id token payload_hash proxy db r db' first).1 in
    let b =
      (verify_and_claim-Claimed svc keys' env' id token' payload_hash' proxy' later r' end
        second).1 in
    let kept =
      subst (λ o. Keeps o (find authorization_key id later.authorizations)) a.is_used
        (Run-Preserves svc id run) in
    let used =
      used_stays (set_attempt (env.xid 0) (set_used (env.now 0) a.stored))
        (find authorization_key id later.authorizations) b.stored kept refl b.was_stored in
    cc (used, b.was_unused)
