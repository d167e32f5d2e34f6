-- ===== src/Transitions/Proposal.antt =====
-- `TransitionEngine.propose`. The classifier of src/ep_governance/classification.py is the argument
-- `classify`: `none` where no classifier is registered for the tool.
use Prim.Native.String.{◌++◌ as append}
use ep_governance.Prelude.{
  ℕ, String, false, ◌||◌, Option, none, some, List, [], ◌∷◌, is_empty, head?, str_eq, codes,
  if◌then◌else◌,
}
use ep_governance.Db.{Transition, Stage, proposed}
use ep_governance.Errors.{illegal_transition}
use ep_governance.Order.{text_ltb}
use ep_governance.Policies.{Policy, PolicyEffect, deny, require_approval, warn, allow}
use ep_governance.PolicyEngine.Matching.{Cel, PolicyMatch}
use ep_governance.PolicyEngine.Overrides.{with_effect}
use ep_governance.PolicyEngine.Resolution.{PolicyResolution, evaluate}
use ep_governance.Repositories.Approvals.{create_request, add_policies}
use ep_governance.Repositories.Branches.{project_of_branch}
use ep_governance.Repositories.Transitions.{get_by_idempotency_key, insert_transition}
use ep_governance.Service.{Service, Env}
use ep_governance.Stages.{is_in, idempotent_return_existing, idempotent_return_result}
use ep_governance.Transitions.Stepping.{advance_stage, write_audit_event}
use ep_governance.Tx.{Tx, pure, require, gets, ◌>>=◌, ◌>>◌}
use ep_governance.Value.{Value, Items, Fields, text, integer, array, object, nil, cons, field, end}
use ep_governance.Value.Canonical.{canonical_json}

pub record ClassificationResult : Type 0 where
  pub action_type : String
  pub canonical_resources : List String

abbrev pub Classifier : Type 0
Classifier = String → Value → Option ClassificationResult

-- The classification of a tool without a classifier.
abbrev opaque_result : ClassificationResult
opaque_result = record { action_type = "opaque"; canonical_resources = [] }

unfoldable pub classification : Classifier → String → Value → ClassificationResult
classification classify tool arguments = elim (classify tool arguments) [
  | none ↦ opaque_result
  | some c ↦ c
]

-- `canonical_hash` of canonical.py.
unfoldable pub canonical_hash : Service → Value → String
canonical_hash svc v = svc.sha256 (canonical_json v)

-- A dict from policy ids to versions: a key that is there keeps its place.
unfoldable pub put_version : String → ℕ → List (String × ℕ) → List (String × ℕ)
put_version id v [] = (id, v) ∷ []
put_version id v ((k, w) ∷ rest) =
    if str_eq k id then (k, v) ∷ rest else (k, w) ∷ put_version id v rest

unfoldable pub activation_version : Policy → ℕ
activation_version p = elim p.activation_version [ none ↦ 0 | some v ↦ v ]

unfoldable pub versions_from : List (String × ℕ) → List PolicyMatch → List (String × ℕ)
unfolding put_version activation_version
versions_from versions [] = versions
versions_from versions (m ∷ ms) =
    versions_from (put_version m.policy.id (activation_version m.policy) versions) ms

-- `sorted(matched_policy_versions.items())`; the ids of a dict differ.
insert_version : String × ℕ → List (String × ℕ) → List (String × ℕ)
insert_version p [] = p ∷ []
insert_version p (q ∷ rest) =
    if text_ltb (codes q.0) (codes p.0) then q ∷ insert_version p rest else p ∷ q ∷ rest

sort_versions : List (String × ℕ) → List (String × ℕ)
unfolding insert_version
sort_versions [] = []
sort_versions (p ∷ rest) = insert_version p (sort_versions rest)

version_items : List (String × ℕ) → Items
version_items [] = nil
version_items ((id, v) ∷ rest) =
    cons (array (cons (text id) (cons (integer v) nil))) (version_items rest)

unfoldable pub compute_policy_set_hash : Service → List (String × ℕ) → String
unfolding canonical_hash sort_versions version_items
compute_policy_set_hash svc versions =
    if is_empty versions
    then ""
    else canonical_hash svc (array (version_items (sort_versions versions)))

pub data VerificationResult : Type 0 where
  denied pending_approval admissible : VerificationResult

unfoldable pub verification_of : PolicyEffect → VerificationResult
verification_of deny = VerificationResult.denied
verification_of require_approval = VerificationResult.pending_approval
verification_of warn = VerificationResult.admissible
verification_of allow = VerificationResult.admissible

pub record PolicyEngine : Type 0 where
  pub cel : Cel
  pub policies : List Policy

-- What the policies say of a proposal.
pub record Assessment : Type 0 where
  pub verification_result : VerificationResult
  pub matched_policies : List PolicyMatch
  pub matched_policy_versions : List (String × ℕ)
  pub policy_set_hash : Option String

abbrev pub proposal_context : String → String → String → Fields
proposal_context agent_id project_id branch_id =
    field "agent_id" (text agent_id)
      (field "project_id" (text project_id) (field "branch_id" (text branch_id) end))

-- No policy is no permission.
abbrev unassessed : Assessment
unassessed = record {
  verification_result = VerificationResult.pending_approval;
  matched_policies = [];
  matched_policy_versions = [];
  policy_set_hash = none;
}

unfoldable pub assessment_of : Service → PolicyResolution → Assessment
unfolding versions_from
assessment_of svc r =
    let versions = versions_from [] r.matched_policies in
    record {
      verification_result = verification_of r.effect;
      matched_policies = r.matched_policies;
      matched_policy_versions = versions;
      policy_set_hash =
          if is_empty r.matched_policies then none else some (compute_policy_set_hash svc versions);
    }

unfoldable pub assess :
    Service → Option PolicyEngine → String → String → String → ClassificationResult → Tx Assessment
assess svc none now agent_id branch_id c = pure unassessed
assess svc (some engine) now agent_id branch_id c = do
  project ← gets (project_of_branch branch_id)
  project_id ← require project illegal_transition
  pure (
      assessment_of svc (
        evaluate engine.cel engine.policies now c.action_type c.canonical_resources
          (proposal_context agent_id project_id branch_id)))

-- The ids of the matched policies that want an approval.
ids_of : List PolicyMatch → List String
ids_of [] = []
ids_of (m ∷ ms) = m.policy.id ∷ ids_of ms

unfoldable pub approval_policy_ids : Assessment → List String
unfolding ids_of with_effect
approval_policy_ids a = ids_of (with_effect require_approval a.matched_policies)

pub record Proposed : Type 0 where
  pub agent_id : String
  pub branch_id : String
  pub tool : String
  pub arguments : Value
  pub idempotency_key : String
  pub expected_head_id : Option String
  pub expected_version : Option ℕ

-- The row that is inserted.
unfoldable pub proposal_row :
    Service → Env → Proposed → ClassificationResult → Assessment → Transition
proposal_row svc env p c a = record {
  id = env.xid 0;
  branch_id = p.branch_id;
  agent_id = p.agent_id;
  to_node_id = none;
  tool = p.tool;
  action = c.action_type;
  resource = head? c.canonical_resources;
  payload = p.arguments;
  payload_hash = canonical_hash svc p.arguments;
  expected_head_id = p.expected_head_id;
  expected_version = p.expected_version;
  idempotency_key = p.idempotency_key;
  stage = proposed;
  exit_status = none;
  result_summary = none;
  policy_set_hash = a.policy_set_hash;
  matched_policy_versions = a.matched_policy_versions;
  requires_manual_reconciliation = false;
  created_at = env.now 1;
  updated_at = env.now 1;
}

unfoldable pub proposal_event : Transition → String → String → Value
proposal_event t verification_result reason = object (
    field "transition_id" (text t.id) (
      field "tool" (text t.tool) (
        field "action" (text t.action) (
          field "verification_result" (text verification_result)
            (field "reason" (text reason) end)))))

unfoldable pub justification : String → String
justification action = append (append "Action '" action) "' requires approval"

-- The stage that follows from the verification, with the approval request where one is wanted.
unfoldable pub conclude :
    Service → Env → Transition → Assessment → VerificationResult → Tx Transition
unfolding proposal_event justification
conclude svc env t a VerificationResult.denied = do
  u ← advance_stage t.id Stage.denied (env.now 2)
  write_audit_event svc (env.xid 1) (env.now 3) t.branch_id "transition.denied" t.agent_id
      (proposal_event t "denied" "policy_deny")
  pure u
conclude svc env t a VerificationResult.pending_approval = do
  u ← advance_stage t.id Stage.pending_approval (env.now 2)
  request ←
      create_request (env.xid 2) (env.now 4) t.id t.agent_id (justification t.action)
        (head? (approval_policy_ids a))
  add_policies request.id (approval_policy_ids a)
  write_audit_event svc (env.xid 1) (env.now 3) t.branch_id "transition.pending_approval" t.agent_id
      (proposal_event t "pending_approval" "requires_approval")
  pure u
conclude svc env t a VerificationResult.admissible = do
  u ← advance_stage t.id Stage.authorized (env.now 2)
  write_audit_event svc (env.xid 1) (env.now 3) t.branch_id "transition.authorized" t.agent_id
      (proposal_event t "admissible" "policy_allow")
  pure u

unfoldable pub propose_new :
    Service → Env → Classifier → Option PolicyEngine → Proposed → Tx Transition
unfolding classification
propose_new svc env classify engine p = do
  let c = classification classify p.tool p.arguments
  a ← assess svc engine (env.now 0) p.agent_id p.branch_id c
  t ← insert_transition (proposal_row svc env p c a)
  conclude svc env t a a.verification_result

-- An existing transition of the key is returned, unless its stage allows a new one.
unfoldable pub reusable : Option Transition → Option Transition
reusable none = none
reusable (some t) =
    if is_in t.stage idempotent_return_existing || is_in t.stage idempotent_return_result
    then some t
    else none

unfoldable pub or_new : Option Transition → Tx Transition → Tx Transition
or_new (some t) m = pure t
or_new none m = m

unfoldable pub propose : Service → Env → Classifier → Option PolicyEngine → Proposed → Tx Transition
unfolding propose_new reusable or_new
propose svc env classify engine p = do
  existing ← gets (get_by_idempotency_key p.idempotency_key)
  or_new (reusable existing) (propose_new svc env classify engine p)
