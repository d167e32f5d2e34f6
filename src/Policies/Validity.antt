-- ===== src/Policies/Validity.antt =====
-- What the validator and `is_in_force` promise.
use ep_governance.Prelude.{String, ◌≡◌, refl, Bool, true, false, Option, none, some, arith, ◌↔◌}
use mathlib.Core.Option.{some-injective}
use ep_governance.Errors.{ok}
use ep_governance.Order.{text_ltb, text_leb, stamp}
use ep_governance.Policies.{
  Policy, PolicyScope, global, project, branch, agent, is_some, status_is_active,
  validate_scope_consistency, scope_check, is_in_force, not_yet, no_longer,
}

-- The scope fields that a scope wants, and no others.
abbrev pub ScopeFields : PolicyScope → Bool → Bool → Bool → Type 0
ScopeFields global p b a = (p ≡ false) × (b ≡ false) × (a ≡ false)
ScopeFields project p b a = (p ≡ true) × (b ≡ false) × (a ≡ false)
ScopeFields branch p b a = (p ≡ false) × (b ≡ true) × (a ≡ false)
ScopeFields agent p b a = (p ≡ false) × (b ≡ false) × (a ≡ true)

scope_check_iff :
    (s : PolicyScope) (p b a : Bool) → (scope_check s p b a ≡ ok tt) ↔ ScopeFields s p b a
unfolding scope_check
scope_check_iff global p b a = (ground arith, ground arith)
scope_check_iff project p b a = (ground arith, ground arith)
scope_check_iff branch p b a = (ground arith, ground arith)
scope_check_iff agent p b a = (ground arith, ground arith)

-- A policy passes the validator exactly when the field of its own scope is set and those of the
-- other scopes are not (a global policy sets none).
pub validate_scope_consistency_iff :
    (p : Policy)
    → (validate_scope_consistency p ≡ ok tt)
      ↔ ScopeFields p.scope (is_some p.project_id) (is_some p.branch_id) (is_some p.agent_scope)
unfolding validate_scope_consistency
validate_scope_consistency_iff p =
    scope_check_iff p.scope (is_some p.project_id) (is_some p.branch_id) (is_some p.agent_scope)

-- The time `now` is in the window: at or after `valid_from`, and before `valid_until`.
abbrev pub InWindow : Policy → String → Type 0
InWindow p now =
    ((vf : String) → p.valid_from ≡ some vf → text_leb (stamp vf) (stamp now) ≡ true)
    × ((vu : String) → p.valid_until ≡ some vu → text_ltb (stamp now) (stamp vu) ≡ true)

not_yet_iff :
    (o : Option String) (now : String)
    → (not_yet o now ≡ false)
      ↔ ((vf : String) → o ≡ some vf → text_leb (stamp vf) (stamp now) ≡ true)
unfolding not_yet text_leb
not_yet_iff none now = (λ h vf e. cc, λ h. refl)
not_yet_iff (some v) now =
    (λ h vf e. ground (arith, some-injective e), λ h. ground (arith, h v refl))

no_longer_iff :
    (o : Option String) (now : String)
    → (no_longer o now ≡ false)
      ↔ ((vu : String) → o ≡ some vu → text_ltb (stamp now) (stamp vu) ≡ true)
unfolding no_longer text_leb
no_longer_iff none now = (λ h vf e. cc, λ h. refl)
no_longer_iff (some v) now =
    (λ h vf e. ground (arith, some-injective e), λ h. ground (arith, h v refl))

is_in_force_parts :
    (p : Policy) (now : String)
    → (is_in_force p now ≡ true) ↔ (
        (status_is_active p.status ≡ true)
        × (not_yet p.valid_from now ≡ false)
        × (no_longer p.valid_until now ≡ false))
unfolding is_in_force
is_in_force_parts p now = (ground arith, ground arith)

-- A policy is in force exactly when it is active and the time is in its window, with `valid_from`
-- included and `valid_until` excluded.
pub is_in_force_iff :
    (p : Policy) (now : String)
    → (is_in_force p now ≡ true) ↔ ((status_is_active p.status ≡ true) × InWindow p now)
is_in_force_iff p now = (
  λ h.
      let parts = (is_in_force_parts p now).0 h in
      (parts.0, ((not_yet_iff _ now).0 parts.1, (no_longer_iff _ now).0 parts.2)),
  λ h.
      (is_in_force_parts p now).1 (h.0, (not_yet_iff _ now).1 h.1.0, (no_longer_iff _ now).1 h.1.1),
)
