-- ===== src/PolicyEngine/Matching/Soundness.antt =====
-- The loop of `_match_policies` yields exactly the policies that apply.
use ep_governance.Prelude.{
  String, ◌≡◌, refl, ap, ◌∙◌, true, false, inl, inr, Option, none, some, List, [], ◌∷◌, arith,
  is_empty, In, subst, sym,
}
use ep_governance.Errors.{ok, >>=-ok}
use ep_governance.Policies.{Policy, is_in_force}
use ep_governance.Policies.Validity.{is_in_force_iff}
use ep_governance.PolicyEngine.Matching.{
  Cel, PolicyMatch, scope_applies, actions_matching, resources_matching, conditions_match,
  match_policy, add_match, match_policies,
}
use ep_governance.Value.{Fields}

module _ (cel : Cel) (now action_type : String) (resources : List String) (context : Fields) where
  -- The policy is in force, its scope is the context's, some action pattern and some resource
  -- pattern fit, and its conditions hold.
  pub record Applies (p : Policy) : Type 0 where
    pub in_force : is_in_force p now ≡ true
    pub in_scope : scope_applies p p.scope context ≡ ok true
    pub acts : is_empty (actions_matching p action_type) ≡ false
    pub reaches : is_empty (resources_matching p resources) ≡ false
    pub holds : conditions_match cel p.conditions context ≡ ok true

  match_policy-some :
      (p : Policy) (m : PolicyMatch)
      → match_policy cel now action_type resources context p ≡ ok (some m)
      → (m.policy ≡ p) × Applies p
  unfolding match_policy
  match_policy-some p m h = (
    ground arith,
    record {
      in_force = ground arith;
      in_scope = ground arith;
      acts = ground arith;
      reaches = ground arith;
      holds = ground arith;
    },
  )

  match_policy-Applies :
      (p : Policy)
      → Applies p
      → (m : PolicyMatch) × (match_policy cel now action_type resources context p ≡ ok (some m))
        × (m.policy ≡ p)
  unfolding match_policy
  match_policy-Applies p a = (
    record {
      policy = p;
      matched_actions = actions_matching p action_type;
      matched_resources = resources_matching p resources;
    },
    ground (arith, (is_in_force_iff p now).0 a.in_force),
    refl,
  )

  abbrev pub Exact : List Policy → List PolicyMatch → Type 0
  Exact policies matched =
      ((m : PolicyMatch) → In m matched → In m.policy policies × Applies m.policy)
      × ((p : Policy)
          → In p policies
          → Applies p
          → (m : PolicyMatch) × In m matched × (m.policy ≡ p))

  extend :
      (p : Policy) (ps : List Policy) (o : Option PolicyMatch) (ms : List PolicyMatch)
      → match_policy cel now action_type resources context p ≡ ok o
      → Exact ps ms
      → Exact (p ∷ ps) (add_match o ms)
  unfolding add_match
  extend p ps none ms first (sound, complete) = (
    λ m k. (inr (sound m k).0, (sound m k).1),
    λ q k a. elim k [
      | inl e ↦
          let (m, found, same) = match_policy-Applies p (subst Applies e a) in
          absurd (cc (first, found))
      | inr r ↦ complete q r a
    ],
  )
  extend p ps (some m) ms first (sound, complete) =
      let (same, applies) = match_policy-some p m first in
      (
        λ n k. elim k [
          | inl e ↦ (
            inl (ap (λ x. x.policy) e ∙ same),
            subst Applies (sym (ap (λ x. x.policy) e ∙ same)) applies,
          )
          | inr r ↦ (inr (sound n r).0, (sound n r).1)
        ],
        λ q k a. elim k [
          | inl e ↦ (m, inl refl, same ∙ sym e)
          | inr r ↦ let (n, there, eq) = complete q r a in (n, inr there, eq)
        ],
      )

  ok-injective : {x y : List PolicyMatch} → ok x ≡ ok y → x ≡ y
  ok-injective h = cc

  -- Where the loop ends without an error, its matches are exactly those of the policies that
  -- apply: each match's policy is one of the engine's and applies, and each policy of the engine
  -- that applies has a match.
  pub match_policies-Exact :
      (policies : List Policy) (matched : List PolicyMatch)
      → match_policies cel now action_type resources context policies ≡ ok matched
      → Exact policies matched
  unfolding match_policies
  match_policies-Exact [] matched h =
      (λ m k. absurd (subst (In m) (sym (ok-injective h)) k), λ p k a. absurd k)
  match_policies-Exact (p ∷ ps) matched h =
      let (o, first, rest) = >>=-ok (match_policy cel now action_type resources context p) _ h in
      let (ms, later, last) =
        >>=-ok (match_policies cel now action_type resources context ps) _ rest in
      subst (Exact (p ∷ ps)) (ok-injective last)
        (extend p ps o ms first (match_policies-Exact ps ms later))
