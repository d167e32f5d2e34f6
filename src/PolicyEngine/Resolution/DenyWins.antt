-- ===== src/PolicyEngine/Resolution/DenyWins.antt =====
-- A deny that is not overridden governs, whatever the priorities.
use ep_governance.Prelude.{
  String, ◌≡◌, true, false, not, List, [], ◌∷◌, arith, any, In, In-any, In-filter, ap,
}
use ep_governance.Errors.{ok}
use ep_governance.Policies.{deny}
use ep_governance.PolicyEngine.Matching.{Cel, PolicyMatch, match_policies}
use ep_governance.PolicyEngine.Overrides.{Warning, Overrides, compute_overrides, same_effect}
use ep_governance.PolicyEngine.Resolution.{
  effect_of, is_deny, is_overridden, effective, resolve, resolve_effective, evaluate,
}
use ep_governance.Policies.{Policy}
use ep_governance.Value.{Fields}

resolve_effective-deny :
    (matched eff : List PolicyMatch) (ws : List Warning)
    → any is_deny eff ≡ true
    → (resolve_effective matched eff ws).effect ≡ deny
unfolding resolve_effective any
resolve_effective-deny matched [] ws h = absurd (ground arith)
resolve_effective-deny matched (m ∷ ms) ws h = ground arith

resolve-deny :
    (matched : List PolicyMatch) (o : Overrides) (m : PolicyMatch)
    → In m matched
    → effect_of m ≡ deny
    → is_overridden o.0 m.policy.id ≡ false
    → (resolve matched o).effect ≡ deny
unfolding resolve is_deny
resolve-deny matched (ids, ws) m here e h =
    resolve_effective-deny matched (effective ids matched) ws (
      In-any is_deny m (effective ids matched)
        (unfold effective in In-filter _ m matched here (ap not h))
        (ap (λ x. same_effect x deny) e))

-- If the policies match without an error and one of the matches is a deny whose id the overrides
-- do not name, then the evaluation's effect is deny. Nothing is asked of the priorities.
pub evaluate-deny :
    (cel : Cel) (policies : List Policy) (now action_type : String) (resources : List String)
    (context : Fields) (matched : List PolicyMatch) (m : PolicyMatch)
    → match_policies cel now action_type resources context policies ≡ ok matched
    → In m matched
    → effect_of m ≡ deny
    → is_overridden (compute_overrides policies matched).0 m.policy.id ≡ false
    → (evaluate cel policies now action_type resources context).effect ≡ deny
unfolding evaluate
evaluate-deny cel policies now action_type resources context [] m found here e h = absurd here
evaluate-deny cel policies now action_type resources context (n ∷ ms) m found here e h =
    rw found (resolve-deny (n ∷ ms) (compute_overrides policies (n ∷ ms)) m here e h)
