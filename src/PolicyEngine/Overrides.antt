-- ===== src/PolicyEngine/Overrides.antt =====
-- `PolicyEngine._compute_overrides` of policy_engine.py: the five controls of an exception.
pub mod Controls
use ep_governance.Prelude.{
  ℕ, String, Bool, true, false, not, ◌&&◌, ◌||◌, Option, none, some, List, [], ◌∷◌, ◌++◌, filter,
  is_empty, str_eq, if◌then◌else◌,
}
use ep_governance.Errors.{Error}
use ep_governance.Policies.{
  Policy, PolicyEffect, deny, require_approval, warn, allow, PolicyScope, global, project, branch,
  agent, is_set,
}
use ep_governance.PolicyEngine.Matching.{PolicyMatch}

-- The warnings' texts, by what they say.
pub data Warning : Type 0 where
  evaluation_error : Error → Warning
  no_matching_policy : Warning
  no_such_policy wrong_scopes granted : String → String → Warning
  no_valid_until no_justification not_approved : String → Warning
  deny_conflict : ℕ → Warning
  effects_conflict : ℕ → List PolicyEffect → Warning

abbrev pub same_effect : PolicyEffect → PolicyEffect → Bool
same_effect deny deny = true
same_effect require_approval require_approval = true
same_effect warn warn = true
same_effect allow allow = true
same_effect _ _ = false

abbrev pub is_agent : PolicyScope → Bool
is_agent agent = true
is_agent _ = false

abbrev pub is_global : PolicyScope → Bool
is_global global = true
is_global _ = false

-- `{p.id: p for p in policies}.get(key)`: the last policy of that id.
unfoldable pub by_id : String → List Policy → Option Policy
by_id key [] = none
by_id key (p ∷ ps) = elim (by_id key ps) [
  | some q ↦ some q
  | none ↦ if str_eq p.id key then some p else none
]

unfoldable pub with_effect : PolicyEffect → List PolicyMatch → List PolicyMatch
with_effect e ms = filter (λ m. same_effect m.policy.effect e) ms

policies_of : List PolicyMatch → List Policy
policies_of [] = []
policies_of (m ∷ ms) = m.policy ∷ policies_of ms

-- A referenced policy is looked up among the matched denies, then in the engine's index.
pub find_deny : List PolicyMatch → List Policy → String → Option Policy
unfolding by_id policies_of
find_deny deny_matches index deny_id = elim (by_id deny_id (policies_of deny_matches)) [
  | some p ↦ some p
  | none ↦ by_id deny_id index
]

-- The controls on one exception, in order: whether it is granted, and the warning.
check_override : Policy → String → Option Policy → Bool × Warning
check_override a deny_id none = (false, no_such_policy a.id deny_id)
check_override a deny_id (some d) =
    if not (is_agent a.scope && is_global d.scope)
    then (false, wrong_scopes a.id deny_id)
    else if not (is_set a.valid_until)
    then (false, no_valid_until a.id)
    else if not (is_set a.justification)
    then (false, no_justification a.id)
    else if not (is_set a.approved_by)
    then (false, not_approved a.id)
    else (true, granted a.id deny_id)

-- The overridden ids, and the warnings, in the order of the loop.
abbrev pub Overrides : Type 0
Overrides = List String × List Warning

add_override : String → Bool × Warning → Overrides → Overrides
add_override deny_id (b, w) (ids, ws) = (if b then deny_id ∷ ids else ids, w ∷ ws)

overrides_of : List PolicyMatch → List Policy → Policy → List String → Overrides
unfolding find_deny check_override add_override
overrides_of deny_matches index a [] = ([], [])
overrides_of deny_matches index a (deny_id ∷ rest) =
    add_override deny_id (check_override a deny_id (find_deny deny_matches index deny_id))
      (overrides_of deny_matches index a rest)

join : Overrides → Overrides → Overrides
join (ids, ws) (ids', ws') = (ids ++ ids', ws ++ ws')

override_loop : List PolicyMatch → List Policy → List PolicyMatch → Overrides
unfolding overrides_of join
override_loop deny_matches index [] = ([], [])
override_loop deny_matches index (m ∷ ms) =
    join (overrides_of deny_matches index m.policy m.policy.exception_to)
      (override_loop deny_matches index ms)

unfoldable pub compute_overrides : List Policy → List PolicyMatch → Overrides
unfolding override_loop with_effect
compute_overrides index matched =
    let deny_matches = with_effect deny matched in
    let allow_matches = with_effect allow matched in
    if is_empty deny_matches || is_empty allow_matches
    then ([], [])
    else override_loop deny_matches index allow_matches
