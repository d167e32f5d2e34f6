-- ===== src/PolicyEngine/Matching/Effective.antt =====
-- The engine needs no more than the policies that are effective in its context.
use ep_governance.Prelude.{
  String, ◌≡◌, refl, sym, ap, ◌∙◌, Bool, true, false, Option, none, some, List, [], ◌∷◌, filter,
  arith, str_eq, Bool-cases, inl, inr,
}
use ep_governance.Errors.{Result, ok, err, ◌>>=◌}
use ep_governance.Policies.{
  Policy, PolicyScope, global, project, branch, agent, status_is_active, is_in_force,
}
use ep_governance.PolicyEngine.Matching.{
  Cel, match_policies, match_policy, PolicyMatch, scope_applies, in_scope, context_value, add_match,
}
use ep_governance.Repositories.Policies.{is_effective, in_context, column_is}
use ep_governance.Transitions.Proposal.{proposal_context}
use ep_governance.Value.{get_field, value_eq, text}

-- What a scoped policy compares.
column-in_scope :
    (owner : Option String) (value : String)
    → in_scope owner (some (text value)) ≡ ok (column_is owner value)
unfolding in_scope column_is value_eq
column-in_scope none value = refl
column-in_scope (some s) value = refl

scope-in_context :
    (project_id branch_id agent_id : String) (p : Policy) (s : PolicyScope)
    → scope_applies p s (proposal_context agent_id project_id branch_id)
      ≡ ok (in_context project_id branch_id agent_id p s)
unfolding scope_applies in_context context_value get_field str_eq
scope-in_context project_id branch_id agent_id p global = refl
scope-in_context project_id branch_id agent_id p project = column-in_scope p.project_id project_id
scope-in_context project_id branch_id agent_id p branch = column-in_scope p.branch_id branch_id
scope-in_context project_id branch_id agent_id p agent = column-in_scope p.agent_scope agent_id

match_policy-skipped :
    (cel : Cel) (now action : String) (resources : List String)
    (project_id branch_id agent_id : String) (p : Policy)
    → is_effective project_id branch_id agent_id p ≡ false
    → match_policy cel now action resources (proposal_context agent_id project_id branch_id) p
      ≡ ok none
unfolding match_policy is_effective
match_policy-skipped cel now action resources project_id branch_id agent_id p h =
    elim (Bool-cases (status_is_active p.status)) [
      | inr e ↦ rw e refl
      | inl e ↦ elim (Bool-cases (is_in_force p now)) [
        | inr f ↦ rw (e, f) refl
        | inl f ↦
            let out : in_context project_id branch_id agent_id p p.scope ≡ false =
              ground (arith, e, h) in
            rw (e, f, scope-in_context project_id branch_id agent_id p p.scope, out) refl
      ]
    ]

-- One round before the others.
round : Result (Option PolicyMatch) → Result (List PolicyMatch) → Result (List PolicyMatch)
round m rest = m >>= λ found. rest >>= λ ms. ok (add_match found ms)

round-none : (rest : Result (List PolicyMatch)) → round (ok none) rest ≡ rest
unfolding round add_match
round-none (ok ms) = refl
round-none (err e) = refl

module _ (cel : Cel) (now action : String) (resources : List String)
    (project_id branch_id agent_id : String) where
  found : List Policy → Result (List PolicyMatch)
  found = match_policies cel now action resources (proposal_context agent_id project_id branch_id)

  filtered :
      (p : Policy) (ps : List Policy) (b : Bool)
      → is_effective project_id branch_id agent_id p ≡ b
      → found (filter (is_effective project_id branch_id agent_id) ps) ≡ found ps
      → found (elim b [
        | true ↦ p ∷ filter (is_effective project_id branch_id agent_id) ps
        | false ↦ filter (is_effective project_id branch_id agent_id) ps
      ])
        ≡ found (p ∷ ps)
  unfolding found match_policies round
  filtered p ps true e rest =
      ap
        (round (
          match_policy cel now action resources (proposal_context agent_id project_id branch_id) p))
        rest
  filtered p ps false e rest =
      rest
      ∙ sym (round-none (found ps))
      ∙ ap (λ m. round m (found ps))
          (sym (match_policy-skipped cel now action resources project_id branch_id agent_id p e))

  -- Matching against the policies that the effective ones are selected from gives the same matches,
  -- or the same exception, as matching against the effective ones alone.
  pub match_policies-effective :
      (ps : List Policy)
      → match_policies cel now action resources
          (proposal_context agent_id project_id branch_id)
          (filter (is_effective project_id branch_id agent_id) ps)
        ≡ match_policies cel now action resources
            (proposal_context agent_id project_id branch_id)
            ps
  unfolding filter found
  match_policies-effective [] = refl
  match_policies-effective (p ∷ ps) =
      filtered p ps (is_effective project_id branch_id agent_id p) refl
        (match_policies-effective ps)
