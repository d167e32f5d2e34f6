-- ===== src/PolicyEngine/Resolution/Admission.antt =====
-- What an evaluation that lets an action through rests on.
use ep_governance.Prelude.{
  String, ◌≡◌, refl, sym, ap, ◌≢◌, ◌≤◌, true, ◌⊎◌, inl, inr, List, [], ◌∷◌, arith, any, Bool-cases,
  In, any-In, filter-In, str_eq_iff, length, map, ==_iff, ltb, subst,
}
use ep_governance.Errors.{Result, ok, err}
use ep_governance.Policies.{PolicyEffect, deny, require_approval, Policy}
use ep_governance.PolicyEngine.Matching.{Cel, PolicyMatch, match_policies}
use ep_governance.PolicyEngine.Overrides.{Warning, compute_overrides}
use ep_governance.PolicyEngine.Overrides.Controls.{Justified, compute_overrides-Justified}
use ep_governance.PolicyEngine.Resolution.{
  effect_of, priority_of, is_deny, is_overridden, effective, resolve, resolve_effective,
  resolve_deny, resolve_priority, evaluate, max_priority, top_matches, first_effect, effect_set,
}
use ep_governance.PolicyEngine.Resolution.DenyWins.{evaluate-deny}
use ep_governance.Value.{Fields}

is_overridden-In : (ids : List String) (id : String) → is_overridden ids id ≡ true → In id ids
unfolding is_overridden
is_overridden-In ids id h =
    let (i, m, e) = any-In _ ids h in subst (λ j. In j ids) ((str_eq_iff i id).0 e) m

-- If one of the matches is a deny and the evaluation's effect is not deny, then the deny is
-- overridden by a matched allow policy under all five controls.
pub evaluate-Justified :
    (cel : Cel) (policies : List Policy) (now action_type : String) (resources : List String)
    (context : Fields) (matched : List PolicyMatch) (m : PolicyMatch)
    → match_policies cel now action_type resources context policies ≡ ok matched
    → In m matched
    → effect_of m ≡ deny
    → (evaluate cel policies now action_type resources context).effect ≢ deny
    → Justified policies matched m.policy.id
evaluate-Justified cel policies now action_type resources context matched m found here e ne =
    elim (Bool-cases (is_overridden (compute_overrides policies matched).0 m.policy.id)) [
      | inl over ↦
          compute_overrides-Justified policies matched m.policy.id
            (is_overridden-In (compute_overrides policies matched).0 m.policy.id over)
      | inr kept ↦ absurd (
          ne (
            evaluate-deny cel policies now action_type resources context matched m found here e
              kept))
    ]

-- The match has the highest priority of the list.
abbrev pub IsTop : PolicyMatch → List PolicyMatch → Type 0
IsTop m ms = In m ms × ((n : PolicyMatch) → In n ms → priority_of n ≤ priority_of m)

pub priority-le-max :
    (n : PolicyMatch) (ms : List PolicyMatch) → In n ms → priority_of n ≤ max_priority ms
unfolding max_priority
priority-le-max n [] h = absurd h
priority-le-max n (m ∷ ms) (inl e) = omega (arith, ap priority_of e)
priority-le-max n (m ∷ ms) (inr h) = omega (arith, priority-le-max n ms h)

top_matches-IsTop : (m : PolicyMatch) (ms : List PolicyMatch) → In m (top_matches ms) → IsTop m ms
unfolding top_matches
top_matches-IsTop m ms h =
    let (here, e) = filter-In _ m ms h in
    (
      here,
      λ n k. omega (arith, priority-le-max n ms k, (==_iff (priority_of m) (max_priority ms)).0 e),
    )

-- The effect of some top match of the list.
abbrev TopEffect : PolicyEffect → List PolicyMatch → Type 0
TopEffect e ms = (m : PolicyMatch) × IsTop m ms × (effect_of m ≡ e)

first_effect-Top :
    (e : PolicyEffect) (ms tops : List PolicyMatch)
    → ((m : PolicyMatch) → In m tops → IsTop m ms)
    → first_effect (map effect_of tops) ≡ e
    → e ≢ require_approval
    → TopEffect e ms
unfolding first_effect
first_effect-Top e ms [] sub q ne = absurd (ne (sym q))
first_effect-Top e ms (m ∷ tops) sub q ne = (m, sub m (inl refl), q)

-- What stands behind an action that is let through.
abbrev pub Backed : PolicyEffect → List Policy → List PolicyMatch → Type 0
Backed e policies matched =
    let eff = effective (compute_overrides policies matched).0 matched in
    (eff ≡ []) ⊎ ((m : PolicyMatch) × IsTop m eff × (effect_of m ≡ e))

resolve_priority-Top :
    (e : PolicyEffect) (matched eff : List PolicyMatch) (ws : List Warning)
    → (resolve_priority matched eff ws).effect ≡ e
    → e ≢ require_approval
    → TopEffect e eff
unfolding resolve_priority
resolve_priority-Top e matched eff ws h ne =
    elim (Bool-cases (ltb 1 (length (effect_set (map effect_of (top_matches eff)))))) [
      | inl c ↦ absurd (ne (sym (rw c at h)))
      | inr c ↦
          first_effect-Top e eff (top_matches eff) (λ m. top_matches-IsTop m eff) (rw c at h) ne
    ]

resolve_effective-Top :
    (e : PolicyEffect) (matched eff : List PolicyMatch) (ws : List Warning)
    → (resolve_effective matched eff ws).effect ≡ e
    → e ≢ require_approval
    → e ≢ deny
    → (eff ≡ []) ⊎ TopEffect e eff
unfolding resolve_effective
resolve_effective-Top e matched [] ws h nr nd = inl refl
resolve_effective-Top e matched (m ∷ ms) ws h nr nd = elim (Bool-cases (any is_deny (m ∷ ms))) [
  | inl c ↦ absurd (nd (sym (unfold resolve_deny in (rw c at h))))
  | inr c ↦ inr (resolve_priority-Top e matched (m ∷ ms) ws (rw c at h) nr)
]

-- If the evaluation's effect is neither deny nor require_approval (so allow or warn), then the
-- policies matched without an error, at least one of them, and either every match is overridden
-- or some match that is not overridden has that effect and the highest priority of those.
pub evaluate-Backed :
    (cel : Cel) (policies : List Policy) (now action_type : String) (resources : List String)
    (context : Fields)
    → let e = (evaluate cel policies now action_type resources context).effect in
      e ≢ require_approval
      → e ≢ deny
      → (matched : List PolicyMatch) × (match_policies cel now action_type resources context
            policies
          ≡ ok matched)
        × (matched ≢ [])
        × Backed e policies matched
unfolding evaluate
evaluate-Backed cel policies now action_type resources context nr nd =
    go (match_policies cel now action_type resources context policies) refl
  where
    go :
        (r : Result (List PolicyMatch))
        → match_policies cel now action_type resources context policies ≡ r
        → (matched : List PolicyMatch) × (match_policies cel now action_type resources context
              policies
            ≡ ok matched)
          × (matched ≢ [])
          × Backed (evaluate cel policies now action_type resources context).effect policies matched
    go (err x) q = absurd (nr (rw q))
    go (ok []) q = absurd (nr (rw q))
    go (ok (m ∷ ms)) q = (
      m ∷ ms,
      q,
      (λ z. cc),
      rw q (unfold resolve in resolve_effective-Top _ (m ∷ ms) _ _ refl (rw q at nr) (rw q at nd)),
    )
