-- ===== src/Proxy.antt =====
-- src/ep_governance/proxy/base.py: `GovernedProxy.execute`, from a token to the adapter and to the
-- commitment of what it did.
pub mod Execute
pub mod Reached
pub mod Governed
pub mod Single
pub mod Refused
pub mod Outcome
use Prim.Native.String.{◌++◌ as append}
use ep_governance.Prelude.{
  ℕ, String, Bool, true, false, not, ◌||◌, ◌&&◌, Option, none, some, List, [], ◌∷◌, any, is_empty,
  str_eq, if◌then◌else◌,
}
use ep_governance.Authorizations.Claim.{truthy, ClaimResult}
use ep_governance.Authorizations.Verify.{VerifiedToken}
use ep_governance.Db.{Db, Transition, authorized}
use ep_governance.Deployment.{EnforcementCapability}
use ep_governance.Errors.{Result, ok, err, type_error}
use ep_governance.Policies.{PolicyEffect, deny, require_approval, warn, allow}
use ep_governance.PolicyEngine.Matching.{PolicyMatch}
use ep_governance.PolicyEngine.Resolution.{PolicyResolution, evaluate}
use ep_governance.Repositories.Transitions.{get_transition}
use ep_governance.Service.{Service, Env}
use ep_governance.Stages.{same_stage}
use ep_governance.Transitions.Proposal.{
  ClassificationResult, PolicyEngine, canonical_hash, compute_policy_set_hash, versions_from,
}
use ep_governance.Value.{Value, Fields, text, object, end, field, value_eq}

pub record ProxyConfig : Type 0 where
  pub proxy_audience : String
  pub ep_service_principal_id : String

pub record ExecutionResult : Type 0 where
  pub success : Bool
  pub exit_status : String
  pub result_summary : String
  pub rows_affected : ℕ
  pub output : Value
  pub execution_attempt_id : String
  pub started_at : String
  pub completed_at : String
  pub redacted : Bool

-- What the adapter's code does: it returns, or raises `TimeoutError` or any other exception.
pub data Attempt : Type 0 where
  returned : ExecutionResult → Attempt
  timed_out : Attempt
  raised : Attempt

-- `_validate_adapter_payload`, which gives a message where the payload is refused, and
-- `_execute_adapter`, of a subclass.
pub record Adapter : Type 0 where
  pub validate : Value → VerifiedToken → Option String
  pub run : Value → VerifiedToken → String → Attempt

-- `get_classifier`: a classifier may raise, which is `none`.
abbrev pub Classifiers : Type 0
Classifiers = Value → Option (Value → Option ClassificationResult)

pub record Proxy : Type 0 where
  pub config : ProxyConfig
  pub adapter : Adapter
  pub get_classifier : Classifiers
  pub policy_engine : Option PolicyEngine
  pub has_transition_engine : Bool
  pub has_branch_committer : Bool

-- What one execution reads from the world: its own identifier and times, what each engine reads, and
-- whether the database refuses the serializable transaction (`OperationalError`).
pub record ProxyEnv : Type 0 where
  pub attempt_id : String
  pub started_at : String
  pub completed_at : String
  pub microseconds : ℕ
  pub policy_now : String
  pub conflict : Bool
  pub claim : Env
  pub commit : Env
  pub record_env : Env

-- Why the adapter is not run: one for each `ExecutionResult(success=False, exit_status="failure")`
-- that is returned before it.
pub data Refusal : Type 0 where
  capability_inactive token_unverified agent_mismatch audience_unsupported tool_unsupported :
      Refusal
  payload_mismatch audience_mismatch transition_missing transition_not_authorized : Refusal
  no_classifier classification_failed blocked_by_policy policy_set_changed : Refusal
  payload_invalid serialization_conflict not_claimed : Refusal

-- What `execute` returns: a refusal, the adapter's result, or the result of an action that was run
-- and could not be committed.
pub data Execution : Type 0 where
  refused : Refusal → Execution
  executed : ExecutionResult → Execution
  uncommitted : ExecutionResult → Execution

-- A statement's parameter.
unfoldable pub as_text : Value → Result String
as_text (text s) = ok s
as_text _ = err type_error

-- Step 1b. The list of types may be empty, which supports every type.
unfoldable pub identity_refusal : EnforcementCapability → VerifiedToken → Option Refusal
identity_refusal c t =
    if not c.proxy_scoped
    then (if value_eq (text c.agent_principal_id) t.agent_id then none else some agent_mismatch)
    else if not (str_eq c.proxy_audience "")
        && not (value_eq t.proxy_audience (text c.proxy_audience))
    then some audience_unsupported
    else if is_empty c.supported_action_types
        || any (λ a. value_eq t.tool (text a)) c.supported_action_types
    then none
    else some tool_unsupported

-- Step 2: the hash of the payload that came.
unfoldable pub actual_payload_hash : Service → Value → String
unfolding canonical_hash
actual_payload_hash svc payload = append "sha256:" (canonical_hash svc payload)

unfoldable pub stage_refusal : Option Transition → Option Refusal
stage_refusal none = some transition_missing
stage_refusal (some t) =
    if same_stage t.stage authorized then none else some transition_not_authorized

-- Step 4.5, where there is a transition engine and the token names a transition.
unfoldable pub transition_refusal : Proxy → VerifiedToken → Db → Result (Option Refusal)
unfolding truthy as_text stage_refusal
transition_refusal p t db =
    if p.has_transition_engine && truthy t.transition_id
    then (elim (as_text t.transition_id) [
      | err e ↦ err e
      | ok id ↦ ok (stage_refusal (get_transition id db))
    ])
    else ok none

-- Steps 1b to 4.5, in their order.
unfoldable pub first_refusal :
    Service → Proxy → EnforcementCapability → VerifiedToken → Value → Db → Result (Option Refusal)
unfolding identity_refusal actual_payload_hash transition_refusal
first_refusal svc p c t payload db = elim (identity_refusal c t) [
  | some r ↦ ok (some r)
  | none ↦
      if not (value_eq t.payload_hash (text (actual_payload_hash svc payload)))
      then ok (some payload_mismatch)
      else if not (value_eq t.proxy_audience (text p.config.proxy_audience))
      then ok (some audience_mismatch)
      else transition_refusal p t db
]

-- `effect in ("deny", "require_approval")`
unfoldable pub blocks : PolicyEffect → Bool
blocks deny = true
blocks require_approval = true
blocks warn = false
blocks allow = false

-- Steps 5c to 5e.
unfoldable pub resolution_refusal : Service → VerifiedToken → PolicyResolution → Option Refusal
unfolding blocks versions_from
resolution_refusal svc t r =
    if blocks r.effect
    then some blocked_by_policy
    else if value_eq (text (compute_policy_set_hash svc (versions_from [] r.matched_policies)))
        t.policy_set_hash
    then none
    else some policy_set_changed

unfoldable pub execution_context : VerifiedToken → Fields
execution_context t =
    field "agent_id" t.agent_id
      (field "project_id" t.project_id (field "branch_id" t.branch_id end))

-- The policies as they are now, for the payload as it is classified now.
unfoldable pub current_resolution :
    PolicyEngine → String → VerifiedToken → ClassificationResult → PolicyResolution
unfolding execution_context
current_resolution engine now t c =
    evaluate engine.cel engine.policies now c.action_type c.canonical_resources
      (execution_context t)

unfoldable pub classified_refusal :
    Service → PolicyEngine → String → VerifiedToken → Option ClassificationResult → Option Refusal
unfolding resolution_refusal current_resolution
classified_refusal svc engine now t none = some classification_failed
classified_refusal svc engine now t (some c) =
    resolution_refusal svc t (current_resolution engine now t c)

-- Step 5.
unfoldable pub policy_refusal :
    Service → Option PolicyEngine → Classifiers → String → VerifiedToken → Value → Option Refusal
unfolding classified_refusal
policy_refusal svc none get_classifier now t payload = none
policy_refusal svc (some engine) get_classifier now t payload = elim (get_classifier t.tool) [
  | none ↦ some no_classifier
  | some classify ↦ classified_refusal svc engine now t (classify payload)
]

-- Steps 5 and 5.5: the adapter's validation comes before the claim.
unfoldable pub last_refusal : Service → Proxy → String → VerifiedToken → Value → Option Refusal
unfolding policy_refusal
last_refusal svc p now t payload =
    elim (policy_refusal svc p.policy_engine p.get_classifier now t payload) [
      | some r ↦ some r
      | none ↦ elim (p.adapter.validate payload t) [ none ↦ none | some _ ↦ some payload_invalid ]
    ]
