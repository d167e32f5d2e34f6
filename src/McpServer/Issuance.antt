-- ===== src/McpServer/Issuance.antt =====
-- What a call of `ep_execute` that gives a token has shown.
use ep_governance.Prelude.{
  ℕ, String, ◌≡◌, refl, sym, ap, ◌∙◌, subst, false, Option, none, some, List, str_eq, Bool-cases,
  inl, inr, map,
}
use ep_governance.Authorizations.Issue.{AuthorizationToken, issue_authorization, to_signed_token}
use ep_governance.Authorizations.Issued.{Entitles, issue_authorization-Entitles}
use ep_governance.Db.{
  Db, Transition, Stage, proposed, pending_approval, authorized, executing, succeeded, failed,
  execution_uncertain, cancelled, expired, denied, Authorization,
}
use ep_governance.Deployment.{EnforcementCapability, require_binding_enforcement}
use ep_governance.Errors.{Result, ok, err}
use ep_governance.History.{stage_of}
use ep_governance.McpServer.{
  ToolCall, CallEnv, ServerKeys, Response, submit_token_to_proxy, build_policy_engine,
  resolve_project_id, proposed_call, propose_call, ep_check, policy_dict, token_response,
  issue_token, entitled_token, authorized_response, stage_response, after_proposal, ep_execute,
}
use ep_governance.PolicyEngine.Matching.{Cel}
use ep_governance.Proxy.{actual_payload_hash}
use ep_governance.Repositories.Authorizations.{authorization_key}
use ep_governance.Repositories.Branches.{project_of_branch}
use ep_governance.Repositories.Policies.{PolicyRow}
use ep_governance.Repositories.Transitions.{get_transition, get_by_idempotency_key}
use ep_governance.Service.{Service}
use ep_governance.Table.{find}
use ep_governance.Transitions.Admission.{Permits, propose-authorized, propose-outcome}
use ep_governance.Transitions.Proposal.{Classifier, PolicyEngine, propose, reusable, classification}
use ep_governance.Tx.Inversion.{transaction-ok}

module _ (svc : Service) (s : ServerKeys) (env : CallEnv) (call : ToolCall) (agent_id : String)
    (id : String) (token : AuthorizationToken) (signed : List ℕ) (db' : Db) where
  -- A result that hands out this token.
  abbrev Issues : Result Response × Db → Type 0
  Issues r = r ≡ (ok (submit_token_to_proxy id token signed), db')

  Issuing : EnforcementCapability → Transition → Db → Type 0
  Issuing c t db =
      (project : String) × (t.id ≡ id)
      × (signed ≡ to_signed_token s.keys token)
      × (issue_authorization svc s.keys s.clock s.token_ttl_seconds s.production env.issue env.now
            env.nonce t.id agent_id project call.branch_id call.proxy_audience call.tool
            (actual_payload_hash svc call.arguments) (map policy_dict t.matched_policy_versions) c
            db
          ≡ ok (token, db'))

  token_response-issued :
      (t : Transition) (r : Result AuthorizationToken × Db)
      → Issues (token_response s t r)
      → (t.id ≡ id) × (signed ≡ to_signed_token s.keys token) × (r ≡ (ok token, db'))
  unfolding token_response
  token_response-issued t (ok token', mid) h =
      let same : token' ≡ token = cc (ap (λ z. z.0) h) in
      let text : to_signed_token s.keys token' ≡ signed = cc (ap (λ z. z.0) h) in
      (
        cc (ap (λ z. z.0) h),
        sym text ∙ ap (to_signed_token s.keys) same,
        ap (λ x. (ok x, mid)) same ∙ ap (λ d. (ok token, d)) (ap (λ z. z.1) h),
      )
  token_response-issued t (err e, mid) h = absurd (cc (ap (λ z. z.0) h))

  issue_token-issued :
      (c : EnforcementCapability) (t : Transition) (project : Option String) (db : Db)
      → Issues (issue_token svc s env call agent_id c t project db)
      → Issuing c t db
  unfolding issue_token Issuing
  issue_token-issued c t none db h = absurd (cc (ap (λ z. z.0) h))
  issue_token-issued c t (some project) db h = elim (Bool-cases (str_eq project "")) [
    | inl e ↦ (let h' = rw e at h in absurd (cc (ap (λ z. z.0) h')))
    | inr e ↦
        let (same, text, ran) = token_response-issued t _ (rw e at h) in
        (project, same, text, transaction-ok _ db token db' ran)
  ]

  authorized-issued :
      (c : Option EnforcementCapability) (t : Transition) (db : Db)
      → Issues (authorized_response svc s env call agent_id c t db)
      → (c' : EnforcementCapability) × (c ≡ some c') × Issuing c' t db
  unfolding authorized_response entitled_token
  authorized-issued none t db h = absurd (cc (ap (λ z. z.0) h))
  authorized-issued (some c) t db h =
      go (require_binding_enforcement s.clock env.now s.production c) h
    where
      go :
          (r : Result (Unit {0}))
          → Issues (entitled_token svc s env call agent_id c t r db)
          → (c' : EnforcementCapability) × (some c ≡ some c') × Issuing c' t db
      go (ok tt) k = (c, refl, issue_token-issued c t (resolve_project_id call.branch_id db) db k)
      go (err e) k = absurd (cc (ap (λ z. z.0) k))

  stage-issued :
      (c : Option EnforcementCapability) (t : Transition) (stage : Stage) (db : Db)
      → Issues (stage_response svc s env call agent_id c t stage db)
      → (stage ≡ authorized) × (c' : EnforcementCapability) × (c ≡ some c') × Issuing c' t db
  unfolding stage_response
  stage-issued c t authorized db h =
      let (c', e, issuing) = authorized-issued c t db h in (refl, c', e, issuing)
  stage-issued c t denied db h = absurd (cc (ap (λ z. z.0) h))
  stage-issued c t pending_approval db h = absurd (cc (ap (λ z. z.0) h))
  stage-issued c t proposed db h = absurd (cc (ap (λ z. z.0) h))
  stage-issued c t executing db h = absurd (cc (ap (λ z. z.0) h))
  stage-issued c t succeeded db h = absurd (cc (ap (λ z. z.0) h))
  stage-issued c t failed db h = absurd (cc (ap (λ z. z.0) h))
  stage-issued c t execution_uncertain db h = absurd (cc (ap (λ z. z.0) h))
  stage-issued c t cancelled db h = absurd (cc (ap (λ z. z.0) h))
  stage-issued c t expired db h = absurd (cc (ap (λ z. z.0) h))

  after_proposal-issued :
      (c : Option EnforcementCapability) (r : Result Transition × Db)
      → Issues (after_proposal svc s env call agent_id c r)
      → (t : Transition) × (mid : Db) × (r ≡ (ok t, mid))
        × (t.stage ≡ authorized)
        × (c' : EnforcementCapability) × (c ≡ some c')
        × Issuing c' t mid
  unfolding after_proposal
  after_proposal-issued c (ok t, mid) h =
      let (at, c', e, issuing) = stage-issued c t t.stage mid h in
      (t, mid, refl, at, c', e, issuing)
  after_proposal-issued c (err e, mid) h = absurd (cc (ap (λ z. z.0) h))

-- What the proposal of a call did.
proposed-ok :
    (svc : Service) (env : CallEnv) (classify : Classifier) (call : ToolCall) (agent_id : String)
    (o : Result PolicyEngine) (db : Db) (t : Transition) (mid : Db)
    → propose_call svc env classify call agent_id o db ≡ (ok t, mid)
    → (engine : PolicyEngine) × (o ≡ ok engine)
      × (propose svc env.propose classify (some engine) (proposed_call env call agent_id) db
          ≡ ok (t, mid))
unfolding propose_call
proposed-ok svc env classify call agent_id (ok engine) db t mid h =
    (engine, refl, transaction-ok _ db t mid h)
proposed-ok svc env classify call agent_id (err e) db t mid h = absurd (cc (ap (λ z. z.0) h))

some-injective : {A : Type 0} {a b : A} → some a ≡ some b → a ≡ b
some-injective h = cc

-- A call of `ep_execute` with a fresh key gives a token only where the policies that are effective
-- for the branch's project, the branch and the agent neither deny the action nor require an approval,
-- the capability entitles the agent, audience and tool, and the token that is stored, unused, is
-- bound to the text that is given out and to the payload's hash as the proxy computes it.
pub ep_execute-issued :
    (svc : Service) (s : ServerKeys) (env : CallEnv) (cel : Cel) (classify : Classifier)
    (rows : List PolicyRow) (call : ToolCall) (agent_id : String) (c : Option EnforcementCapability)
    (db : Db) (id : String) (token : AuthorizationToken) (signed : List ℕ) (db' : Db)
    → reusable (get_by_idempotency_key env.idempotency_key db) ≡ none
    → ep_execute svc s env cel classify rows call agent_id c db
      ≡ (ok (submit_token_to_proxy id token signed), db')
    → (engine : PolicyEngine) × (project : String) × (build_policy_engine cel rows call.branch_id
          agent_id
          (resolve_project_id call.branch_id db)
        ≡ ok engine)
      × (project_of_branch call.branch_id db ≡ some project)
      × Permits engine
          (env.propose.now 0)
          agent_id
          project
          call.branch_id
          (classification classify call.tool call.arguments)
      × (c' : EnforcementCapability) × (c ≡ some c')
      × Entitles c' s.production agent_id call.proxy_audience call.tool
      × (a : Authorization) × (find authorization_key token.authorization_id db'.authorizations
          ≡ some a)
      × (a.used ≡ false)
      × (a.payload_hash ≡ actual_payload_hash svc call.arguments)
      × (a.token_hash ≡ svc.sha256 signed)
unfolding ep_execute ep_check proposed_call Issuing get_transition
ep_execute-issued svc s env cel classify rows call agent_id c db id token signed db' fresh h =
    let (t, mid, proposed_it, at, c', e, (project', same, text, issued)) =
      after_proposal-issued svc s env call agent_id id token signed db' c _ h in
    let (engine, built, ran) =
      proposed-ok svc env classify call agent_id
        (build_policy_engine cel rows call.branch_id agent_id
          (resolve_project_id call.branch_id db))
        db t mid proposed_it in
    let (_, _, _, row) =
      propose-outcome svc env.propose classify (some engine) (proposed_call env call agent_id) db t
        mid fresh ran in
    let (engine', project, engines, found, permits) =
      propose-authorized svc env.propose classify (some engine) (proposed_call env call agent_id) db
        t mid fresh ran (ap stage_of row ∙ ap some at) in
    let (entitles, a, stored, unused, _, _, hash, bound) =
      issue_authorization-Entitles svc s.keys s.clock s.token_ttl_seconds s.production env.issue
        env.now env.nonce t.id agent_id project' call.branch_id call.proxy_audience call.tool _ _ c'
        mid token db' issued in
    (
      engine,
      project,
      built,
      found,
      subst
          (λ x.
            Permits x (env.propose.now 0) agent_id project call.branch_id
              (classification classify call.tool call.arguments))
          (sym (some-injective engines)) permits,
      c',
      e,
      entitles,
      a,
      stored,
      unused,
      hash,
      bound ∙ ap svc.sha256 (sym text),
    )
