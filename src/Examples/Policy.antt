-- ===== src/Examples/Policy.antt =====
-- Witnesses for the theorems on policies and on the lifecycle.
use ep_governance.Prelude.{
  ℕ, String, ◌≡◌, ◌≢◌, refl, Bool, true, false, Option, none, some, List, [], ◌∷◌, ◌++◌, ◌↔◌, In,
  inl, inr, any, arith, ap, not, filter, sym, ◌∙◌, ◌==◌, ◌||◌, str_eq, ◌≤◌,
}
use ep_governance.Errors.{ok}
use ep_governance.Policies.{
  Policy, PolicyEffect, deny, require_approval, warn, allow, PolicyScope, global, agent,
  PolicyStatus, active, is_some, validate_scope_consistency, is_in_force, status_is_active,
}
use ep_governance.PolicyEngine.Matching.{Cel, PolicyMatch, match_policies}
use ep_governance.PolicyEngine.Matching.Effective.{match_policies-effective}
use ep_governance.PolicyEngine.Matching.Soundness.{match_policies-Exact, Exact}
use ep_governance.PolicyEngine.Overrides.{compute_overrides}
use ep_governance.PolicyEngine.Overrides.Controls.{Justified, compute_overrides-Justified}
use ep_governance.PolicyEngine.Resolution.{evaluate, is_overridden}
use ep_governance.PolicyEngine.Resolution.Admission.{Backed, evaluate-Justified, evaluate-Backed}
use ep_governance.PolicyEngine.Resolution.DenyWins.{evaluate-deny}
use ep_governance.Repositories.Policies.{is_effective}
use ep_governance.Transitions.Proposal.{proposal_context}
use ep_governance.Value.{Value, Fields, null, end, field, text}

abbrev pub cel : Cel
cel _ _ = none

abbrev pub policy_of : String → PolicyEffect → ℕ → Policy
policy_of id effect priority = record {
  id = id;
  effect = effect;
  actions = "*" ∷ [];
  resources = "*" ∷ [];
  conditions = end;
  priority = priority;
  scope = global;
  agent_scope = none;
  project_id = none;
  branch_id = none;
  description = "";
  status = active;
  created_by = "boss";
  approved_by = some "boss";
  approved_at = none;
  activation_version = some 1;
  exception_to = [];
  valid_from = none;
  valid_until = none;
  justification = none;
}

abbrev forbids : Policy
forbids = policy_of "deny1" deny 1

abbrev pub allows : Policy
allows = policy_of "allow1" allow 9

-- An allow policy for one agent, which overrides the deny policy.
abbrev exempts : Policy
exempts = record allows {
  scope = agent;
  agent_scope = some "ann";
  exception_to = "deny1" ∷ [];
  valid_until = some "2026-01-01T00:00:00Z";
  justification = some "migration";
}

abbrev match_of : Policy → PolicyMatch
match_of p = record { policy = p; matched_actions = "*" ∷ []; matched_resources = "*" ∷ [] }

abbrev pub now : String
now = "2025-01-01T00:00:01Z"

abbrev context : Fields
context = field "agent_id" (text "ann") end

matches_forbid :
    match_policies cel now "opaque" [] context (forbids ∷ allows ∷ [])
    ≡ ok (match_of forbids ∷ match_of allows ∷ [])
unfolding match_policies is_in_force ep_governance.Prelude.filter ep_governance.Fnmatch.fnmatchcase
    ep_governance.Prelude.str_eq
matches_forbid = refl

matches_exempt :
    match_policies cel now "opaque" [] context (forbids ∷ exempts ∷ [])
    ≡ ok (match_of forbids ∷ match_of exempts ∷ [])
unfolding match_policies is_in_force ep_governance.Prelude.filter ep_governance.Fnmatch.fnmatchcase
    ep_governance.Prelude.str_eq ep_governance.Order.text_leb ep_governance.Order.stamp
    ep_governance.Value.get_field ep_governance.Value.value_eq
matches_exempt = refl

not_overridden :
    is_overridden
      (compute_overrides (forbids ∷ allows ∷ []) (match_of forbids ∷ match_of allows ∷ [])).0
      "deny1"
    ≡ false
unfolding is_overridden compute_overrides any ep_governance.Prelude.filter
not_overridden = refl

evaluate-deny_example : (evaluate cel (forbids ∷ allows ∷ []) now "opaque" [] context).effect ≡ deny
evaluate-deny_example =
    evaluate-deny cel (forbids ∷ allows ∷ []) now "opaque" [] context
      (match_of forbids ∷ match_of allows ∷ []) (match_of forbids) matches_forbid (inl refl) refl
      not_overridden

exempted : (evaluate cel (forbids ∷ exempts ∷ []) now "opaque" [] context).effect ≡ allow
unfolding evaluate match_policies is_in_force ep_governance.Prelude.filter
    ep_governance.Fnmatch.fnmatchcase ep_governance.Prelude.str_eq ep_governance.Order.text_leb
    ep_governance.Order.stamp ep_governance.Value.get_field ep_governance.Value.value_eq any
    compute_overrides ep_governance.Policies.is_set
exempted = refl

allowed_not : (e d : PolicyEffect) → e ≡ allow → d ≢ allow → e ≢ d
allowed_not e d p ne q = ground arith

evaluate-Justified_example :
    Justified (forbids ∷ exempts ∷ []) (match_of forbids ∷ match_of exempts ∷ []) "deny1"
evaluate-Justified_example =
    evaluate-Justified cel (forbids ∷ exempts ∷ []) now "opaque" [] context
      (match_of forbids ∷ match_of exempts ∷ []) (match_of forbids) matches_exempt (inl refl) refl
      (allowed_not _ deny exempted (λ q. cc))

evaluate-Backed_example :
    (matched : List PolicyMatch) × (match_policies cel now "opaque" [] context
        (forbids ∷ exempts ∷ [])
      ≡ ok matched)
    × (matched ≢ [])
    × Backed
        (evaluate cel (forbids ∷ exempts ∷ []) now "opaque" [] context).effect
        (forbids ∷ exempts ∷ [])
        matched
evaluate-Backed_example =
    evaluate-Backed cel (forbids ∷ exempts ∷ []) now "opaque" [] context
      (allowed_not _ require_approval exempted (λ q. cc)) (allowed_not _ deny exempted (λ q. cc))

match_policies-Exact_example :
    Exact cel now "opaque" [] context
      (forbids ∷ exempts ∷ [])
      (match_of forbids ∷ match_of exempts ∷ [])
match_policies-Exact_example =
    match_policies-Exact cel now "opaque" [] context (forbids ∷ exempts ∷ [])
      (match_of forbids ∷ match_of exempts ∷ []) matches_exempt

overridden :
    In "deny1"
      (compute_overrides (forbids ∷ exempts ∷ []) (match_of forbids ∷ match_of exempts ∷ [])).0
unfolding compute_overrides ep_governance.Prelude.filter str_eq ep_governance.Policies.is_set
overridden = inl refl

compute_overrides-Justified_example :
    Justified (forbids ∷ exempts ∷ []) (match_of forbids ∷ match_of exempts ∷ []) "deny1"
compute_overrides-Justified_example =
    compute_overrides-Justified (forbids ∷ exempts ∷ []) (match_of forbids ∷ match_of exempts ∷ [])
      "deny1" overridden

match_policies-effective_example :
    match_policies cel now "opaque" []
      (proposal_context "ann" "p" "main")
      (filter (is_effective "p" "main" "ann") (forbids ∷ exempts ∷ []))
    ≡ match_policies cel now "opaque" []
        (proposal_context "ann" "p" "main")
        (forbids ∷ exempts ∷ [])
match_policies-effective_example =
    match_policies-effective cel now "opaque" [] "p" "main" "ann" (forbids ∷ exempts ∷ [])
