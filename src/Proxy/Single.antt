-- ===== src/Proxy/Single.antt =====
-- A token is executed once.
use ep_governance.Prelude.{
  ℕ, String, ◌≡◌, refl, ap, subst, Bool, true, false, Option, none, some, arith, Bool-cases, inl,
  inr,
}
use ep_governance.Authorizations.{Signing}
use ep_governance.Authorizations.Once.{verify_and_claim-Claimed, used_stays}
use ep_governance.Authorizations.Verify.{
  VerifiedToken, rebuild, verified, verify_fields, verify_token, unexpired, is_signed,
}
use ep_governance.Authorizations.Claim.{truthy, get_or}
use ep_governance.Db.{Db, Authorization}
use ep_governance.Deployment.{Clock, EnforcementCapability}
use ep_governance.Errors.{ok}
use ep_governance.Proxy.{Proxy, ProxyEnv, Execution}
use ep_governance.Proxy.Execute.{execute, perform}
use ep_governance.Proxy.Reached.{ran, execute-Reached}
use ep_governance.Repositories.Authorizations.{authorization_key, set_used, set_attempt}
use ep_governance.Service.{Service}
use ep_governance.Table.{find}
use ep_governance.Value.{Value, Fields, null, boolean, integer, text, array, object, get_field}
use ep_governance.Walk.{every_outcome}
use ep_governance.Walk.Execution.{perform-R}
use ep_governance.Walk.Run.{Run}
use ep_governance.Walk.SingleUse.{
  Run-Preserves, Keeps, Keeps-trans, Preserves, Preserves-Statements,
}

rebuild-id :
    (keys : Signing) (d : Fields) (t : VerifiedToken)
    → rebuild keys d ≡ some t
    → get_field "authorization_id" d ≡ some t.authorization_id
unfolding rebuild
rebuild-id keys d t h = ground (arith, h)

verified-rebuilt :
    (keys : Signing) (strptime : String → Option ℕ) (now : ℕ) (d : Fields) (v : Value)
    (t : VerifiedToken)
    → verified keys strptime now d v ≡ ok (some t)
    → rebuild keys d ≡ some t
unfolding verified
verified-rebuilt keys strptime now d (text s) t h = elim (Bool-cases (unexpired now (strptime s))) [
  | inl e ↦ (let h' = rw e at h in cc h')
  | inr e ↦ (let h' = rw e at h in absurd (cc h'))
]
verified-rebuilt keys strptime now d null t h = absurd (cc)
verified-rebuilt keys strptime now d (boolean b) t h = absurd (cc)
verified-rebuilt keys strptime now d (integer n) t h = absurd (cc)
verified-rebuilt keys strptime now d (array xs) t h = absurd (cc)
verified-rebuilt keys strptime now d (object fs) t h = absurd (cc)

-- The authorization that a token names is in its JSON text.
id_of : Value → Option Value
id_of (object d) = get_field "authorization_id" d
id_of _ = none

named_id : Option Value → Option Value
unfolding id_of
named_id none = none
named_id (some v) = id_of v

fields-id :
    (keys : Signing) (strptime : String → Option ℕ) (now : ℕ) (d : Fields) (t : VerifiedToken)
    → verify_fields keys strptime now d ≡ ok (some t)
    → get_field "authorization_id" d ≡ some t.authorization_id
unfolding verify_fields
fields-id keys strptime now d t h =
    let v : Value = get_or "expires_at" (text "") d in
    elim (Bool-cases (is_signed keys d)) [
      | inr e ↦ (let h' = rw e at h in absurd (cc h'))
      | inl e ↦ elim (Bool-cases (truthy v)) [
        | inr f ↦ (let h' = rw (e, f) at h in absurd (cc h'))
        | inl f ↦ rebuild-id keys d t (verified-rebuilt keys strptime now d v t (rw (e, f) at h))
      ]
    ]

verify_token-id :
    (keys : Signing) (strptime : String → Option ℕ) (now : ℕ) (o : Option Value) (t : VerifiedToken)
    → verify_token keys strptime now o ≡ ok (some t)
    → named_id o ≡ some t.authorization_id
unfolding verify_token named_id
verify_token-id keys strptime now none t h = absurd (cc)
verify_token-id keys strptime now (some (object d)) t h = fields-id keys strptime now d t h
verify_token-id keys strptime now (some null) t h = absurd (cc)
verify_token-id keys strptime now (some (boolean b)) t h = absurd (cc)
verify_token-id keys strptime now (some (integer n)) t h = absurd (cc)
verify_token-id keys strptime now (some (text s)) t h = absurd (cc)
verify_token-id keys strptime now (some (array xs)) t h = absurd (cc)

same_id :
    (o : Option Value) (u v : Value) (i j : String)
    → o ≡ some u
    → o ≡ some v
    → u ≡ text i
    → v ≡ text j
    → i ≡ j
same_id o u v i j a b e f = cc

-- An authorization that the claim used is not found unused later.
unused_again :
    (svc : Service) (p : Proxy) (env : ProxyEnv) (payload : Value) (t : VerifiedToken)
    (mid db' later : Db) (id : String) (a b : Authorization)
    → find authorization_key id mid.authorizations
      ≡ some (set_attempt (env.claim.xid 0) (set_used (env.claim.now 0) a))
    → (perform svc p env t payload mid).1 ≡ db'
    → Run svc db' later
    → find authorization_key id later.authorizations ≡ some b
    → b.used ≡ false
    → ⊥
unused_again svc p env payload t mid db' later id a b used done run found unused =
    let kept : Keeps (find authorization_key id mid.authorizations)
        (find authorization_key id later.authorizations) =
      Keeps-trans _ (find authorization_key id db'.authorizations) _
        (subst (λ d. Preserves mid d) done
          (perform-R (Preserves-Statements svc) every_outcome refl p env t payload mid) id)
        (Run-Preserves svc id run) in
    let again =
      used_stays (set_attempt (env.claim.xid 0) (set_used (env.claim.now 0) a)) _ b
        (subst (λ o. Keeps o (find authorization_key id later.authorizations)) used kept) refl
        found in
    cc (again, unused)

-- A token is executed at most once: after an execution that ran the adapter and any run of the
-- service, an execution of the same token does not run it, at whatever proxy, with whatever payload,
-- capability and time.
pub execute-once :
    (svc : Service) (keys : Signing) (clock : Clock) (strptime : String → Option ℕ)
    (production : Bool) (p : Proxy) (env : ProxyEnv) (token : String) (payload : Value)
    (c : EnforcementCapability) (db : Db) (x : Execution) (db' later : Db)
    → execute svc keys clock strptime production p env token payload c db ≡ (ok x, db')
    → ran x ≡ true
    → Run svc db' later
    → (clock' : Clock) (strptime' : String → Option ℕ) (production' : Bool) (p' : Proxy)
      (env' : ProxyEnv) (payload' : Value) (c' : EnforcementCapability) (y : Execution) (end : Db)
    → execute svc keys clock' strptime' production' p' env' token payload' c' later ≡ (ok y, end)
    → ran y ≡ false
execute-once svc keys clock strptime production p env token payload c db x db' later first r run
      clock' strptime' production' p' env' payload' c' y end second =
    elim (Bool-cases (ran y)) [
      | inr e ↦ e
      | inl e ↦
          let a =
            execute-Reached svc keys clock strptime production p env token payload c db x db' first
              r in
          let b =
            execute-Reached svc keys clock' strptime' production' p' env' token payload' c' later y
              end second e in
          let same : b.authorization_id ≡ a.authorization_id =
            same_id _ b.token_of.authorization_id a.token_of.authorization_id _ _
              (verify_token-id keys strptime' env'.microseconds (keys.json_loads token) b.token_of
                b.verified)
              (verify_token-id keys strptime env.microseconds (keys.json_loads token) a.token_of
                a.verified)
              b.is_id a.is_id in
          let first_claim =
            (verify_and_claim-Claimed svc keys env.claim a.authorization_id token _ _ db a.claim
              a.mid a.claimed).1 in
          let second_claim =
            (verify_and_claim-Claimed svc keys env'.claim b.authorization_id token _ _ later b.claim
              b.mid b.claimed).1 in
          absurd (
            unused_again svc p env payload a.token_of a.mid db' later a.authorization_id
              first_claim.stored second_claim.stored first_claim.is_used (ap (λ z. z.1) a.performed)
              run
              (subst (λ i. find authorization_key i later.authorizations ≡ some second_claim.stored)
                same second_claim.was_stored)
              second_claim.was_unused)
    ]
