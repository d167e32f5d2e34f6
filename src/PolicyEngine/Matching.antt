-- ===== src/PolicyEngine/Matching.antt =====
-- `PolicyEngine._match_policies` and `_conditions_match` of policy_engine.py, and `match_glob` of
-- resources.py. The CEL library is the argument `cel`.
pub mod Soundness
pub mod Effective
use ep_governance.Prelude.{
  String, Bool, true, false, not, Option, none, some, List, [], ◌∷◌, any, filter, is_empty, str_eq,
  if◌then◌else◌,
}
use ep_governance.Errors.{Result, ok, err, ◌>>=◌, missing_policy_context, cel_error}
use ep_governance.Fnmatch.{fnmatchcase}
use ep_governance.Policies.{
  Policy, PolicyScope, global, project, branch, agent, status_is_active, is_in_force,
}
use ep_governance.Value.{Value, Fields, null, text, end, field, get_field, has_field, value_eq}

-- What the CEL library evaluates an expression to: a boolean, or a value of another type.
pub data CelResult : Type 0 where
  cel_bool : Bool → CelResult
  cel_other : CelResult

-- `none` where compiling or evaluating raises.
abbrev pub Cel : Type 0
Cel = String → Fields → Option CelResult

pub record PolicyMatch : Type 0 where
  pub policy : Policy
  pub matched_actions : List String
  pub matched_resources : List String

unfoldable pub match_glob : String → String → Bool
match_glob pattern canonical =
    if str_eq pattern ""
    then false
    else if str_eq canonical ""
    then false
    else fnmatchcase canonical pattern

-- `context.get(key)`, where a stored None counts as missing.
context_value : String → Fields → Option Value
context_value key context = elim (get_field key context) [
  | none ↦ none
  | some v ↦ elim v [ null ↦ none | other ↦ some other ]
]

-- `policy.project_id`, to compare with a value of the context.
optional_text : Option String → Value
optional_text none = null
optional_text (some s) = text s

-- A scoped policy wants its context, and applies if the value there is its own.
in_scope : Option String → Option Value → Result Bool
unfolding optional_text
in_scope owner none = err missing_policy_context
in_scope owner (some v) = ok (value_eq (optional_text owner) v)

pub scope_applies : Policy → PolicyScope → Fields → Result Bool
unfolding context_value in_scope
scope_applies p global context = ok true
scope_applies p project context = in_scope p.project_id (context_value "project_id" context)
scope_applies p branch context = in_scope p.branch_id (context_value "branch_id" context)
scope_applies p agent context = in_scope p.agent_scope (context_value "agent_id" context)

pub actions_matching : Policy → String → List String
actions_matching p action_type = filter (λ pattern. fnmatchcase action_type pattern) p.actions

-- With no resource, the first `*` among the patterns is the match.
wildcard : List String → List String
wildcard [] = []
wildcard (r ∷ rs) = if str_eq r "*" then "*" ∷ [] else wildcard rs

pub resources_matching : Policy → List String → List String
unfolding wildcard
resources_matching p canonical_resources =
    if is_empty canonical_resources
    then wildcard p.resources
    else filter (λ pattern. any (match_glob pattern) canonical_resources) p.resources

evaluate_cel_condition : Cel → String → Fields → Result Bool
evaluate_cel_condition cel expression context = elim (cel expression context) [
  | none ↦ err cel_error
  | some r ↦ elim r [ cel_bool b ↦ ok b | cel_other ↦ ok false ]
]

-- Every condition's key is in the context, with an equal value.
equalities : Fields → Fields → Bool
equalities end context = true
equalities (field key expected rest) context =
    if not (has_field key context) then false else (elim (get_field key context) [
      | none ↦ false
      | some v ↦ if not (value_eq v expected) then false else equalities rest context
    ])

-- A text under "cel" selects the CEL mode.
cel_expression : Fields → Option String
cel_expression conditions = elim (get_field "cel" conditions) [
  | none ↦ none
  | some v ↦ elim v [ text s ↦ some s | _ ↦ none ]
]

no_conditions : Fields → Bool
no_conditions end = true
no_conditions (field _ _ _) = false

pub conditions_match : Cel → Fields → Fields → Result Bool
unfolding evaluate_cel_condition equalities cel_expression no_conditions
conditions_match cel conditions context =
    if no_conditions conditions then ok true else (elim (cel_expression conditions) [
      | some expression ↦ evaluate_cel_condition cel expression context
      | none ↦ ok (equalities conditions context)
    ])

-- One round of the loop: the match, or `none` where the loop goes on.
match_policy : Cel → String → String → List String → Fields → Policy → Result (Option PolicyMatch)
unfolding scope_applies conditions_match actions_matching resources_matching
match_policy cel now action_type canonical_resources context p =
    if not (status_is_active p.status)
    then ok none
    else if not (is_in_force p now)
    then ok none
    else do
      applies ← scope_applies p p.scope context
      let actions = actions_matching p action_type
      let resources = resources_matching p canonical_resources
      if not applies
          then ok none
          else if is_empty actions
          then ok none
          else if is_empty resources
          then ok none
          else do
            holds ← conditions_match cel p.conditions context
            ok (
                if holds
                then some (record {
                  policy = p;
                  matched_actions = actions;
                  matched_resources = resources;
                })
                else none)

add_match : Option PolicyMatch → List PolicyMatch → List PolicyMatch
add_match none ms = ms
add_match (some m) ms = m ∷ ms

unfoldable pub match_policies :
    Cel → String → String → List String → Fields → List Policy → Result (List PolicyMatch)
unfolding match_policy add_match
match_policies cel now action_type canonical_resources context [] = ok []
match_policies cel now action_type canonical_resources context (p ∷ ps) = do
  m ← match_policy cel now action_type canonical_resources context p
  ms ← match_policies cel now action_type canonical_resources context ps
  ok (add_match m ms)
