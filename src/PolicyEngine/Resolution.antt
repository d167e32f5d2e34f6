-- ===== src/PolicyEngine/Resolution.antt =====
-- `PolicyEngine.evaluate` of policy_engine.py: from the matches to the governing effect.
pub mod DenyWins
pub mod Admission
pub mod Conflict
use Prim.Native.Nat.{max}
use ep_governance.Prelude.{
  ℕ, String, Bool, true, false, not, ◌&&◌, ◌||◌, Option, none, some, List, [], ◌∷◌, ◌++◌, any,
  filter, is_empty, str_eq, ◌==◌, ltb, if◌then◌else◌, length, map,
}
use ep_governance.Errors.{Result, ok, err}
use ep_governance.Policies.{Policy, PolicyEffect, deny, require_approval, warn, allow}
use ep_governance.PolicyEngine.Matching.{Cel, PolicyMatch, match_policies}
use ep_governance.PolicyEngine.Overrides.{
  Warning, evaluation_error, no_matching_policy, deny_conflict, effects_conflict, same_effect,
  Overrides, compute_overrides,
}
use ep_governance.Value.{Fields}

pub record PolicyResolution : Type 0 where
  pub effect : PolicyEffect
  pub matched_policies : List PolicyMatch
  pub conflict : Bool
  pub warnings : List Warning

abbrev pub effect_of : PolicyMatch → PolicyEffect
effect_of m = m.policy.effect

abbrev pub priority_of : PolicyMatch → ℕ
priority_of m = m.policy.priority

unfoldable pub is_overridden : List String → String → Bool
is_overridden ids id = any (λ i. str_eq i id) ids

unfoldable pub effective : List String → List PolicyMatch → List PolicyMatch
unfolding is_overridden
effective ids matched = filter (λ m. not (is_overridden ids m.policy.id)) matched

unfoldable pub is_deny : PolicyMatch → Bool
is_deny m = same_effect (effect_of m) deny

-- Some deny has this priority.
deny_at : List PolicyMatch → ℕ → Bool
deny_at denies p = any (λ d. priority_of d == p) denies

first_priority : List PolicyMatch → ℕ
first_priority [] = 0
first_priority (m ∷ _) = priority_of m

resolve_deny : List PolicyMatch → List PolicyMatch → List Warning → PolicyResolution
unfolding is_deny deny_at first_priority
resolve_deny matched eff warnings =
    let denies = filter is_deny eff in
    let others = filter (λ m. not (is_deny m) && deny_at denies (priority_of m)) eff in
    let conflict = not (is_empty others) in
    record {
      effect = deny;
      matched_policies = matched;
      conflict = conflict;
      warnings =
          if conflict then warnings ++ deny_conflict (first_priority denies) ∷ [] else warnings;
    }

pub max_priority : List PolicyMatch → ℕ
max_priority [] = 0
max_priority (m ∷ ms) = max (priority_of m) (max_priority ms)

-- A set of effects, as a list without repetition.
add_effect : PolicyEffect → List PolicyEffect → List PolicyEffect
add_effect e es = if any (same_effect e) es then es else e ∷ es

effect_set : List PolicyEffect → List PolicyEffect
unfolding add_effect
effect_set [] = []
effect_set (e ∷ es) = add_effect e (effect_set es)

-- `top_effects[0]`; the list is never empty where it is read.
first_effect : List PolicyEffect → PolicyEffect
first_effect [] = require_approval
first_effect (e ∷ _) = e

top_matches : List PolicyMatch → List PolicyMatch
unfolding max_priority
top_matches eff = filter (λ m. priority_of m == max_priority eff) eff

resolve_priority : List PolicyMatch → List PolicyMatch → List Warning → PolicyResolution
unfolding top_matches effect_set first_effect
resolve_priority matched eff warnings =
    let top_effects = map effect_of (top_matches eff) in
    let effects = effect_set top_effects in
    let conflict = ltb 1 (length effects) in
    record {
      effect = if conflict then require_approval else first_effect top_effects;
      matched_policies = matched;
      conflict = conflict;
      warnings =
          if conflict
          then warnings ++ effects_conflict (max_priority eff) effects ∷ []
          else warnings;
    }

pub resolve_effective : List PolicyMatch → List PolicyMatch → List Warning → PolicyResolution
unfolding resolve_deny resolve_priority
resolve_effective matched eff warnings =
    if is_empty eff
    then record {
      effect = allow;
      matched_policies = matched;
      conflict = false;
      warnings = warnings;
    }
    else if any is_deny eff
    then resolve_deny matched eff warnings
    else resolve_priority matched eff warnings

-- From the overrides on.
resolve : List PolicyMatch → Overrides → PolicyResolution
unfolding resolve_effective effective
resolve matched (ids, warnings) = resolve_effective matched (effective ids matched) warnings

abbrev pub fail_closed : Warning → PolicyResolution
fail_closed w = record {
  effect = require_approval;
  matched_policies = [];
  conflict = false;
  warnings = w ∷ [];
}

resolve_matches : List Policy → Result (List PolicyMatch) → PolicyResolution
unfolding resolve
resolve_matches index (err e) = fail_closed (evaluation_error e)
resolve_matches index (ok []) = fail_closed no_matching_policy
resolve_matches index (ok (m ∷ ms)) = resolve (m ∷ ms) (compute_overrides index (m ∷ ms))

-- `policies` is the engine's list; `now` is the clock that `is_in_force` reads.
unfoldable pub evaluate :
    Cel → List Policy → String → String → List String → Fields → PolicyResolution
unfolding resolve_matches
evaluate cel policies now action_type canonical_resources context =
    resolve_matches policies
      (match_policies cel now action_type canonical_resources context policies)
