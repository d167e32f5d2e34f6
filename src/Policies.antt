-- ===== src/Policies.antt =====
-- src/ep_governance/policies.py: the policy model, its scope validator and `is_in_force`.
pub mod Validity
use ep_governance.Prelude.{
  ℕ, String, Bool, true, false, not, ◌&&◌, ◌||◌, Option, none, some, List, str_eq, if◌then◌else◌,
}
use ep_governance.Errors.{Result, ok, err, validation_error}
use ep_governance.Order.{text_ltb, text_leb, stamp}
use ep_governance.Value.{Fields}

pub data PolicyEffect : Type 0 where
  deny require_approval warn allow : PolicyEffect

pub data PolicyScope : Type 0 where
  global project branch agent : PolicyScope

pub data PolicyStatus : Type 0 where
  draft pending_approval active rejected superseded retired : PolicyStatus

pub record Policy : Type 0 where
  pub id : String
  pub effect : PolicyEffect
  pub actions : List String
  pub resources : List String
  pub conditions : Fields
  pub priority : ℕ
  pub scope : PolicyScope
  pub agent_scope : Option String
  pub project_id : Option String
  pub branch_id : Option String
  pub description : String
  pub status : PolicyStatus
  pub created_by : String
  pub approved_by : Option String
  pub approved_at : Option String
  pub activation_version : Option ℕ
  pub exception_to : List String
  pub valid_from : Option String
  pub valid_until : Option String
  pub justification : Option String

-- `x is not None`
abbrev pub is_some {ℓ} : {A : Type ℓ} → Option A → Bool
is_some none = false
is_some (some _) = true

-- Python's truth of an optional text: neither None nor "".
unfoldable pub is_set : Option String → Bool
is_set none = false
is_set (some s) = not (str_eq s "")

-- `_validate_scope_consistency`, by the scope.
scope_check : PolicyScope → Bool → Bool → Bool → Result (Unit {0})
scope_check global p b a = if p || b || a then err validation_error else ok tt
scope_check project p b a =
    if not p then err validation_error else if b || a then err validation_error else ok tt
scope_check branch p b a =
    if not b then err validation_error else if p || a then err validation_error else ok tt
scope_check agent p b a =
    if not a then err validation_error else if p || b then err validation_error else ok tt

unfoldable pub validate_scope_consistency : Policy → Result (Unit {0})
unfolding scope_check
validate_scope_consistency p =
    scope_check p.scope (is_some p.project_id) (is_some p.branch_id) (is_some p.agent_scope)

abbrev pub status_is_active : PolicyStatus → Bool
status_is_active active = true
status_is_active _ = false

-- `valid_from > now` makes the policy not yet valid.
not_yet : Option String → String → Bool
not_yet none now = false
not_yet (some vf) now = text_ltb (stamp now) (stamp vf)

-- `valid_until <= now` makes it no longer valid.
no_longer : Option String → String → Bool
no_longer none now = false
no_longer (some vu) now = text_leb (stamp vu) (stamp now)

unfoldable pub is_in_force : Policy → String → Bool
unfolding not_yet no_longer
is_in_force p now =
    if not (status_is_active p.status)
    then false
    else if not_yet p.valid_from now
    then false
    else if no_longer p.valid_until now
    then false
    else true
