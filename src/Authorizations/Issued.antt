-- ===== src/Authorizations/Issued.antt =====
-- Who is issued a token, and what is stored.
use ep_governance.Prelude.{
  ℕ, String, ◌≡◌, refl, sym, ap, ◌∙◌, subst, Bool, true, false, some, List, arith, str_eq_iff,
  str_eq_refl, if◌then◌else◌,
}
use ep_governance.Authorizations.{Signing}
use ep_governance.Authorizations.Issue.{
  PolicyDict, issue_authorization, authorization_row, AuthorizationToken, capability_allows,
  new_token, signed, to_signed_token, to_canonical_payload,
}
use ep_governance.Db.{Db, Authorization}
use ep_governance.Deployment.{
  Clock, EnforcementCapability, require_binding_enforcement, require_proxy_scoped,
  supports_action_type,
}
use ep_governance.Errors.{Result, ok, err}
use ep_governance.Repositories.Authorizations.{authorization_key, insert_authorization}
use ep_governance.Service.{Service, Env}
use ep_governance.Table.{find, insert_row}
use ep_governance.Table.Lookup.{find-insert_row}
use ep_governance.Tx.{lift, ◌>>=◌}
use ep_governance.Tx.Inversion.{bind-ok, pure-ok}

-- The capability is active, in production it is a signed attestation, and it is for this agent, or
-- for this audience and tool.
pub record Entitles (c : EnforcementCapability) (production : Bool) (agent audience tool : String)
    : Type 0 where
  pub active : c.binding_enforcement_active ≡ true
  pub trusted : production ≡ true → c.trust_level ≡ "signed_attestation"
  pub for_agent : c.proxy_scoped ≡ false → c.agent_principal_id ≡ agent
  pub for_audience : c.proxy_scoped ≡ true → c.proxy_audience ≡ audience
  pub for_tool : c.proxy_scoped ≡ true → supports_action_type c tool ≡ true

capability_allows-Entitles :
    (clock : Clock) (now : ℕ) (production : Bool) (c : EnforcementCapability)
    (agent audience tool : String)
    → capability_allows clock now production c agent audience tool ≡ ok tt
    → Entitles c production agent audience tool
unfolding capability_allows require_binding_enforcement require_proxy_scoped
capability_allows-Entitles clock now production c agent audience tool h = record {
  active = ground arith;
  trusted = λ p. ground (arith, p, str_eq_iff c.trust_level "signed_attestation");
  for_agent = λ s. ground (arith, s, str_eq_iff c.agent_principal_id agent);
  for_audience = λ s. ground (arith, s, str_eq_iff c.proxy_audience audience);
  for_tool = λ s. ground (arith, s);
}

insert_authorization-inserted :
    (a : Authorization) (db : Db) (u : Unit {0}) (db' : Db)
    → insert_authorization a db ≡ ok (u, db')
    → insert_row authorization_key a db.authorizations ≡ ok db'.authorizations
unfolding insert_authorization ◌>>=◌
insert_authorization-inserted a db u db' ran = ground arith

lift-ok :
    (r : Result (Unit {0})) (db : Db) (u : Unit {0}) (mid : Db)
    → lift r db ≡ ok (u, mid)
    → r ≡ ok tt
unfolding lift
lift-ok (ok tt) db u mid ran = refl
lift-ok (err e) db u mid ran = absurd (cc)

row-id :
    (svc : Service) (keys : Signing) (env : Env) (w t : AuthorizationToken)
    → signed keys w ≡ t
    → (authorization_row svc keys env w).id ≡ t.authorization_id
unfolding authorization_row signed
row-id svc keys env w t same = ap (λ x. x.authorization_id) same

-- The signature is no part of what is signed.
token-signed :
    (keys : Signing) (w : AuthorizationToken)
    → to_signed_token keys w ≡ to_signed_token keys (signed keys w)
unfolding to_signed_token signed to_canonical_payload
token-signed keys w = refl

-- A token is issued only under a capability that entitles its agent, audience and tool; the row that
-- is stored for it is unused, and bound to the digest of the signed token that is returned.
pub issue_authorization-Entitles :
    (svc : Service) (keys : Signing) (clock : Clock) (ttl : ℕ) (production : Bool) (env : Env)
    (now : ℕ) (nonce transition agent project branch audience tool payload : String)
    (policies : List PolicyDict) (c : EnforcementCapability) (db : Db) (t : AuthorizationToken)
    (db' : Db)
    → issue_authorization svc keys clock ttl production env now nonce transition agent project
        branch audience tool payload policies c db
      ≡ ok (t, db')
    → Entitles c production agent audience tool
      × (a : Authorization) × (find authorization_key t.authorization_id db'.authorizations
          ≡ some a)
      × (a.used ≡ false)
      × (a.agent_id ≡ agent)
      × (a.transition_id ≡ transition)
      × (a.payload_hash ≡ payload)
      × (a.token_hash ≡ svc.sha256 (to_signed_token keys t))
unfolding issue_authorization
issue_authorization-Entitles svc keys clock ttl production env now nonce transition agent project
      branch audience tool payload policies c db t db' ran =
    let (x, d1, allowed, r1) = bind-ok _ _ db t db' ran in
    let (y, d2, inserted, r2) = bind-ok _ _ d1 t db' r1 in
    let (same, same_db) = pure-ok _ d2 t db' r2 in
    let w =
      new_token svc clock ttl env now nonce transition agent project branch audience tool payload
        policies in
    let row = authorization_row svc keys env w in
    let stored = insert_authorization-inserted row d1 y d2 inserted in
    (
      capability_allows-Entitles clock now production c agent audience tool
          (lift-ok (capability_allows clock now production c agent audience tool) db x d1 allowed),
      row,
      subst (λ i. find authorization_key i db'.authorizations ≡ some row)
          (row-id svc keys env w t same)
          (ap (λ d. find authorization_key row.id d.authorizations) (sym same_db)
            ∙ find-insert_row authorization_key row d1.authorizations d2.authorizations row.id
                stored
            ∙ ap (λ b. if b then some row else find authorization_key row.id d1.authorizations)
                (str_eq_refl row.id)),
      unfold authorization_row in refl,
      unfold authorization_row new_token in refl,
      unfold authorization_row new_token in refl,
      unfold authorization_row new_token in refl,
      ap svc.sha256 (token-signed keys w ∙ ap (to_signed_token keys) same),
    )
