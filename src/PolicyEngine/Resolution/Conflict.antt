-- ===== src/PolicyEngine/Resolution/Conflict.antt =====
-- Without a deny, contradicting effects at the highest priority fail closed.
use ep_governance.Prelude.{
  ℕ, ◌≡◌, refl, sym, ap, ◌∙◌, ◌≢◌, ◌≤◌, ◌<◌, true, false, inl, inr, List, [], ◌∷◌, arith, any,
  Bool-cases, In, In-filter, any-In, length, map, ==_iff, ltb, lt→ltb, subst,
}
use ep_governance.Policies.{PolicyEffect, require_approval}
use ep_governance.PolicyEngine.Matching.{PolicyMatch}
use ep_governance.PolicyEngine.Overrides.{Warning, same_effect}
use ep_governance.PolicyEngine.Resolution.{
  effect_of, priority_of, is_deny, resolve_effective, resolve_priority, max_priority, top_matches,
  effect_set,
}
use ep_governance.PolicyEngine.Resolution.Admission.{IsTop, priority-le-max}

same_effect-eq : (a b : PolicyEffect) → same_effect a b ≡ true → a ≡ b
same_effect-eq a b h = ground arith

In-map : (m : PolicyMatch) (ms : List PolicyMatch) → In m ms → In (effect_of m) (map effect_of ms)
In-map m [] h = absurd h
In-map m (n ∷ ms) (inl e) = inl (ap effect_of e)
In-map m (n ∷ ms) (inr h) = inr (In-map m ms h)

In-effect_set : (e : PolicyEffect) (es : List PolicyEffect) → In e es → In e (effect_set es)
unfolding effect_set
In-effect_set e [] h = absurd h
In-effect_set e (x ∷ es) h = elim (Bool-cases (any (same_effect x) (effect_set es))) [
  | inl old ↦ rw old (elim h [
    | inl q ↦
        let (y, m, s) = any-In (same_effect x) (effect_set es) old in
        subst (λ z. In z (effect_set es)) (sym (same_effect-eq x y s) ∙ sym q) m
    | inr r ↦ In-effect_set e es r
  ])
  | inr new ↦ rw new (elim h [ inl q ↦ inl q | inr r ↦ inr (In-effect_set e es r) ])
]

two_members :
    (a b : PolicyEffect) (es : List PolicyEffect) → In a es → In b es → a ≢ b → 1 < length es
two_members a b [] h k ne = absurd h
two_members a b (x ∷ []) (inl p) (inl q) ne = absurd (ne (p ∙ sym q))
two_members a b (x ∷ []) (inr p) k ne = absurd p
two_members a b (x ∷ []) h (inr q) ne = absurd q
two_members a b (x ∷ y ∷ es) h k ne = omega arith

max-le :
    (b : ℕ) (ms : List PolicyMatch)
    → ((n : PolicyMatch) → In n ms → priority_of n ≤ b)
    → max_priority ms ≤ b
unfolding max_priority
max-le b [] h = omega arith
max-le b (m ∷ ms) h = omega (arith, h m (inl refl), max-le b ms (λ n k. h n (inr k)))

IsTop-top : (m : PolicyMatch) (ms : List PolicyMatch) → IsTop m ms → In m (top_matches ms)
unfolding top_matches
IsTop-top m ms (here, top) = In-filter _ m ms here (
    (==_iff (priority_of m) (max_priority ms)).1
      (omega (arith, priority-le-max m ms here, max-le (priority_of m) ms top)))

several :
    (a b : PolicyEffect) (es : List PolicyEffect)
    → In a es
    → In b es
    → a ≢ b
    → ltb 1 (length (effect_set es)) ≡ true
several a b es h k ne =
    lt→ltb _ _ (two_members a b (effect_set es) (In-effect_set a es h) (In-effect_set b es k) ne)

-- If no match of the list is a deny, and two matches of the highest priority have different
-- effects, then the resolution is require_approval, with the conflict flag set.
pub resolve_effective-conflict :
    (matched eff : List PolicyMatch) (ws : List Warning) (m n : PolicyMatch)
    → any is_deny eff ≡ false
    → IsTop m eff
    → IsTop n eff
    → effect_of m ≢ effect_of n
    → let r = resolve_effective matched eff ws in
      (r.effect ≡ require_approval) × (r.conflict ≡ true)
unfolding resolve_effective
resolve_effective-conflict matched [] ws m n nd tm tn ne = absurd tm.0
resolve_effective-conflict matched (x ∷ ms) ws m n nd tm tn ne = rw nd (
    let e : ltb 1 (length (effect_set (map effect_of (top_matches (x ∷ ms))))) ≡ true =
      several (effect_of m) (effect_of n) (map effect_of (top_matches (x ∷ ms)))
        (In-map m (top_matches (x ∷ ms)) (IsTop-top m (x ∷ ms) tm))
        (In-map n (top_matches (x ∷ ms)) (IsTop-top n (x ∷ ms) tn)) ne in
    unfold resolve_priority in (rw e, rw e))
