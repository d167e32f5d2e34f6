-- ===== src/Proxy/Governed.antt =====
-- What has been shown when the adapter of a proxy is run.
use ep_governance.Prelude.{
  ℕ, String, ◌≡◌, sym, ap, ◌∙◌, Bool, true, false, any, is_empty, str_eq, Option, none, some, arith,
  str_eq_iff, Option-cases, inl, inr, [],
}
use ep_governance.Authorizations.{Signing}
use ep_governance.Authorizations.Claim.{ClaimResult}
use ep_governance.Authorizations.Claimed.{Claimed}
use ep_governance.Authorizations.Once.{verify_and_claim-Claimed}
use ep_governance.Authorizations.Verify.{VerifiedToken, verify_token}
use ep_governance.Db.{Db}
use ep_governance.Deployment.{Clock, EnforcementCapability, require_binding_enforcement}
use ep_governance.Errors.{ok}
use ep_governance.PolicyEngine.Resolution.{PolicyResolution}
use ep_governance.Proxy.{
  Proxy, ProxyEnv, Execution, actual_payload_hash, identity_refusal, first_refusal, Classifiers,
  last_refusal, policy_refusal, classified_refusal, resolution_refusal, current_resolution, blocks,
}
use ep_governance.Proxy.Execute.{execute}
use ep_governance.Proxy.Reached.{ran, execute-Reached}
use ep_governance.Service.{Service}
use ep_governance.Transitions.Proposal.{
  ClassificationResult, PolicyEngine, compute_policy_set_hash, versions_from,
}
use ep_governance.Value.Equality.{text_value, value_text}
use ep_governance.Value.{Value, text, value_eq}

-- The policies as they are now let the action pass, and are those that the token was issued under.
pub record Allowed (svc : Service) (engine : PolicyEngine) (classifiers : Classifiers)
    (now : String) (t : VerifiedToken) (payload : Value) : Type 0 where
  pub classify : Value → Option ClassificationResult
  pub has_classifier : classifiers t.tool ≡ some classify
  pub classification : ClassificationResult
  pub is_classified : classify payload ≡ some classification
  pub unblocked : blocks (current_resolution engine now t classification).effect ≡ false
  pub same_policies :
      t.policy_set_hash
      ≡ text (
          compute_policy_set_hash svc
            (versions_from [] (current_resolution engine now t classification).matched_policies))

resolution-none :
    (svc : Service) (t : VerifiedToken) (r : PolicyResolution)
    → resolution_refusal svc t r ≡ none
    → (blocks r.effect ≡ false)
      × (t.policy_set_hash
          ≡ text (compute_policy_set_hash svc (versions_from [] r.matched_policies)))
unfolding resolution_refusal
resolution-none svc t r h = (ground (arith, h), text_value _ _ (ground (arith, h)))

policy-Allowed :
    (svc : Service) (engine : PolicyEngine) (classifiers : Classifiers) (now : String)
    (t : VerifiedToken) (payload : Value)
    → policy_refusal svc (some engine) classifiers now t payload ≡ none
    → Allowed svc engine classifiers now t payload
unfolding policy_refusal
policy-Allowed svc engine classifiers now t payload h = elim (Option-cases (classifiers t.tool)) [
  | inl e ↦ absurd (ground (arith, e, h))
  | inr (classify, e) ↦ elim (Option-cases (classify payload)) [
    | inl f ↦ absurd (unfold classified_refusal in ground (arith, e, f, h))
    | inr (c, f) ↦
        let rest : resolution_refusal svc t (current_resolution engine now t c) ≡ none =
          unfold classified_refusal in ground (arith, e, f, h) in
        let (open_, same) = resolution-none svc t (current_resolution engine now t c) rest in
        record {
          classify = classify;
          has_classifier = e;
          classification = c;
          is_classified = f;
          unblocked = open_;
          same_policies = same;
        }
  ]
]

-- What an execution that ran the adapter has shown.
pub record Governed (svc : Service) (keys : Signing) (strptime : String → Option ℕ)
    (production : Bool) (p : Proxy) (env : ProxyEnv) (token : String) (payload : Value)
    (c : EnforcementCapability) (db : Db) : Type 0 where
  pub active : c.binding_enforcement_active ≡ true
  pub trusted : production ≡ true → c.trust_level ≡ "signed_attestation"
  pub token_of : VerifiedToken
  pub verified :
      verify_token keys strptime env.microseconds (keys.json_loads token) ≡ ok (some token_of)
  pub for_agent : c.proxy_scoped ≡ false → token_of.agent_id ≡ text c.agent_principal_id
  pub for_audience :
      c.proxy_scoped ≡ true
      → str_eq c.proxy_audience "" ≡ false
      → token_of.proxy_audience ≡ text c.proxy_audience
  pub for_tool :
      c.proxy_scoped ≡ true
      → is_empty c.supported_action_types ≡ false
      → any (λ a. value_eq token_of.tool (text a)) c.supported_action_types ≡ true
  pub for_payload : token_of.payload_hash ≡ text (actual_payload_hash svc payload)
  pub for_proxy : token_of.proxy_audience ≡ text p.config.proxy_audience
  pub allowed :
      (engine : PolicyEngine)
      → p.policy_engine ≡ some engine
      → Allowed svc engine p.get_classifier env.policy_now token_of payload
  pub valid : p.adapter.validate payload token_of ≡ none
  pub authorization_id : String
  pub is_id : token_of.authorization_id ≡ text authorization_id
  pub claim : ClaimResult
  pub mid : Db
  pub claimed : Claimed svc env.claim authorization_id token db claim mid

first-none :
    (svc : Service) (p : Proxy) (c : EnforcementCapability) (t : VerifiedToken) (payload : Value)
    (db : Db)
    → first_refusal svc p c t payload db ≡ ok none
    → (c.proxy_scoped ≡ false → t.agent_id ≡ text c.agent_principal_id)
      × (c.proxy_scoped ≡ true
          → str_eq c.proxy_audience "" ≡ false
          → t.proxy_audience ≡ text c.proxy_audience)
      × (c.proxy_scoped ≡ true
          → is_empty c.supported_action_types ≡ false
          → any (λ a. value_eq t.tool (text a)) c.supported_action_types ≡ true)
      × (t.payload_hash ≡ text (actual_payload_hash svc payload))
      × (t.proxy_audience ≡ text p.config.proxy_audience)
unfolding first_refusal
first-none svc p c t payload db h = elim (Option-cases (identity_refusal c t)) [
  | inr (r, e) ↦ absurd (ground (arith, e, h))
  | inl e ↦ (
    λ scoped. text_value _ _ (unfold identity_refusal in ground (arith, e, scoped)),
    λ scoped named. value_text _ _ (unfold identity_refusal in ground (arith, e, scoped, named)),
    λ scoped limited. unfold identity_refusal in ground (arith, e, scoped, limited),
    value_text _ _ (ground (arith, e, h)),
    value_text _ _ (ground (arith, e, h)),
  )
]

last-none :
    (svc : Service) (p : Proxy) (now : String) (t : VerifiedToken) (payload : Value)
    → last_refusal svc p now t payload ≡ none
    → (policy_refusal svc p.policy_engine p.get_classifier now t payload ≡ none)
      × (p.adapter.validate payload t ≡ none)
unfolding last_refusal
last-none svc p now t payload h =
    elim (Option-cases (policy_refusal svc p.policy_engine p.get_classifier now t payload)) [
      | inl e ↦ (e, ground (arith, e, h))
      | inr (r, e) ↦ absurd (ground (arith, e, h))
    ]

entitled-active :
    (clock : Clock) (now : ℕ) (production : Bool) (c : EnforcementCapability)
    → require_binding_enforcement clock now production c ≡ ok tt
    → (c.binding_enforcement_active ≡ true)
      × (production ≡ true → c.trust_level ≡ "signed_attestation")
unfolding require_binding_enforcement
entitled-active clock now production c h =
    (ground (arith, h), λ e. ground (arith, h, e, str_eq_iff c.trust_level "signed_attestation"))

-- The adapter of a proxy is run only under an active capability (in production a signed
-- attestation), for a token that the key accepts, that has not expired, and that was issued for this
-- payload and this proxy's audience. A capability that is not scoped to a proxy names the token's
-- agent; of one that is scoped to a proxy the agent is not compared, and the token's audience and
-- tool are the ones it names, where it names any. The policies, if the proxy has an engine, still let
-- the action pass and are the ones that the token names. The authorization was claimed before: it was
-- unused and stored for this very token, and its transition was authorized.
pub execute-Governed :
    (svc : Service) (keys : Signing) (clock : Clock) (strptime : String → Option ℕ)
    (production : Bool) (p : Proxy) (env : ProxyEnv) (token : String) (payload : Value)
    (c : EnforcementCapability) (db : Db) (x : Execution) (db' : Db)
    → execute svc keys clock strptime production p env token payload c db ≡ (ok x, db')
    → ran x ≡ true
    → Governed svc keys strptime production p env token payload c db
execute-Governed svc keys clock strptime production p env token payload c db x db' done r =
    let reached =
      execute-Reached svc keys clock strptime production p env token payload c db x db' done r in
    let t = reached.token_of in
    let (for_agent, for_audience, for_tool, for_payload, for_proxy) =
      first-none svc p c t payload db reached.accepted in
    let (policies, valid) = last-none svc p env.policy_now t payload reached.unrefused in
    record {
      active = (entitled-active clock env.microseconds production c reached.entitled).0;
      trusted = (entitled-active clock env.microseconds production c reached.entitled).1;
      token_of = t;
      verified = reached.verified;
      for_agent = for_agent;
      for_audience = for_audience;
      for_tool = for_tool;
      for_payload = for_payload;
      for_proxy = for_proxy;
      allowed = λ engine e. policy-Allowed svc engine p.get_classifier env.policy_now t payload (
          ap (λ o. policy_refusal svc o p.get_classifier env.policy_now t payload) (sym e)
          ∙ policies);
      valid = valid;
      authorization_id = reached.authorization_id;
      is_id = reached.is_id;
      claim = reached.claim;
      mid = reached.mid;
      claimed =
          (verify_and_claim-Claimed svc keys env.claim reached.authorization_id token _ _ db
            reached.claim reached.mid reached.claimed).1;
    }
