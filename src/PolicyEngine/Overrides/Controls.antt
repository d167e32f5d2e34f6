-- ===== src/PolicyEngine/Overrides/Controls.antt =====
-- An override is granted only under all five controls.
use ep_governance.Prelude.{
  String, ◌≡◌, refl, sym, subst, ◌||◌, Option-cases, true, inl, inr, some, List, [], ◌∷◌, arith,
  Bool-cases, In, In-append, filter-In, is_empty,
}
use ep_governance.Policies.{Policy, PolicyEffect, deny, allow, is_set}
use ep_governance.PolicyEngine.Matching.{PolicyMatch}
use ep_governance.PolicyEngine.Overrides.{
  same_effect, is_agent, is_global, with_effect, find_deny, check_override, add_override,
  overrides_of, override_loop, compute_overrides,
}

-- The controls of an allow policy `a` on the policy of id `deny_id`.
pub record Controlled (deny_matches : List PolicyMatch) (index : List Policy) (a : Policy)
    (deny_id : String) : Type 0 where
  pub listed : In deny_id a.exception_to
  pub target : Policy
  pub found : find_deny deny_matches index deny_id ≡ some target
  pub narrower : is_agent a.scope ≡ true
  pub wider : is_global target.scope ≡ true
  pub bounded : is_set a.valid_until ≡ true
  pub justified : is_set a.justification ≡ true
  pub approved : is_set a.approved_by ≡ true

check_override-granted :
    (deny_matches : List PolicyMatch) (index : List Policy) (a : Policy) (deny_id : String)
    → In deny_id a.exception_to
    → (check_override a deny_id (find_deny deny_matches index deny_id)).0 ≡ true
    → Controlled deny_matches index a deny_id
unfolding check_override
check_override-granted deny_matches index a deny_id listed h =
    elim (Option-cases (find_deny deny_matches index deny_id)) [
      | inl e ↦ absurd (ground (arith, e))
      | inr (d, e) ↦ record {
        listed = listed;
        target = d;
        found = e;
        narrower = ground (arith, e);
        wider = ground (arith, e);
        bounded = ground (arith, e);
        justified = ground (arith, e);
        approved = ground (arith, e);
      }
    ]

overrides_of-Controlled :
    (deny_matches : List PolicyMatch) (index : List Policy) (a : Policy) (ids : List String)
    (id : String)
    → ((j : String) → In j ids → In j a.exception_to)
    → In id (overrides_of deny_matches index a ids).0
    → Controlled deny_matches index a id
unfolding overrides_of
overrides_of-Controlled deny_matches index a [] id sub m = absurd m
overrides_of-Controlled deny_matches index a (i ∷ ids) id sub m =
    let rest = overrides_of-Controlled deny_matches index a ids id (λ j n. sub j (inr n)) in
    elim (Bool-cases (check_override a i (find_deny deny_matches index i)).0) [
      | inl e ↦ elim (rw (e, add_override) at m) [
        | inl q ↦
            subst (Controlled deny_matches index a) (sym q)
              (check_override-granted deny_matches index a i (sub i (inl refl)) e)
        | inr r ↦ rest r
      ]
      | inr e ↦ rest (rw (e, add_override) at m)
    ]

-- Some allow match of the list controls the override of the id.
pub record Exception (deny_matches : List PolicyMatch) (index : List Policy)
    (matched : List PolicyMatch) (id : String) : Type 0 where
  pub exempting : PolicyMatch
  pub among : In exempting matched
  pub controlled : Controlled deny_matches index exempting.policy id

override_loop-Exception :
    (deny_matches : List PolicyMatch) (index : List Policy) (ms : List PolicyMatch) (id : String)
    → In id (override_loop deny_matches index ms).0
    → Exception deny_matches index ms id
unfolding override_loop
override_loop-Exception deny_matches index [] id m = absurd m
override_loop-Exception deny_matches index (a ∷ ms) id m =
    elim (In-append id (overrides_of deny_matches index a.policy a.policy.exception_to).0
      (override_loop deny_matches index ms).0 m) [
        | inl l ↦ record {
          exempting = a;
          among = inl refl;
          controlled =
              overrides_of-Controlled deny_matches index a.policy a.policy.exception_to id
                (λ j n. n) l;
        }
        | inr r ↦
            let x = override_loop-Exception deny_matches index ms id r in
            record { exempting = x.exempting; among = inr x.among; controlled = x.controlled }
      ]

-- An allow match that satisfies every control on the id.
pub record Justified (index : List Policy) (matched : List PolicyMatch) (id : String) : Type 0 where
  pub exempting : PolicyMatch
  pub among : In exempting matched
  pub allows : exempting.policy.effect ≡ allow
  pub controlled : Controlled (with_effect deny matched) index exempting.policy id

same_effect-eq : (a : PolicyEffect) → same_effect a allow ≡ true → a ≡ allow
same_effect-eq a h = ground arith

-- An overridden id is named by the `exception_to` of a matched allow policy which is agent-scoped,
-- bounded in time, justified and approved, while the policy of that id is global.
pub compute_overrides-Justified :
    (index : List Policy) (matched : List PolicyMatch) (id : String)
    → In id (compute_overrides index matched).0
    → Justified index matched id
unfolding compute_overrides
compute_overrides-Justified index matched id m =
    elim (Bool-cases
      (is_empty (with_effect deny matched) || is_empty (with_effect allow matched))) [
        | inl e ↦ absurd (rw e at m)
        | inr e ↦
            let x =
              override_loop-Exception (with_effect deny matched) index (with_effect allow matched)
                id (rw e at m) in
            let (there, same) = filter-In _ x.exempting matched (unfold with_effect in x.among) in
            record {
              exempting = x.exempting;
              among = there;
              allows = same_effect-eq x.exempting.policy.effect same;
              controlled = x.controlled;
            }
      ]
