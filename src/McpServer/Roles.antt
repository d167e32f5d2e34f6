-- ===== src/McpServer/Roles.antt =====
-- The gate of src/ep_governance/mcp_server.py before every tool: `_check_role`, with the roles that
-- src/ep_governance/tool_catalog.py requires, and the first part of `_handle_tool_call`.
pub mod Handler
pub mod Held
pub mod Approval
pub mod Deciding
use ep_governance.Prelude.{
  String, Bool, true, false, not, ◌&&◌, ◌||◌, Option, none, some, List, [], ◌∷◌, any, filter,
  is_empty, str_eq, if◌then◌else◌,
}
use ep_governance.Repositories.Policies.{column_is}
use ep_governance.Table.{find}

-- Rows of ep_principals, ep_roles and ep_role_bindings.
pub record Principal : Type 0 where
  pub id : String
  pub kind : String
  pub status : String

pub record Role : Type 0 where
  pub id : String
  pub name : String

pub record RoleBinding : Type 0 where
  pub principal_id : String
  pub role_id : String
  pub project_id : Option String

pub record Access : Type 0 where
  pub principals : List Principal
  pub roles : List Role
  pub bindings : List RoleBinding

abbrev pub principal_key : Principal → String
principal_key p = p.id

abbrev pub role_key : Role → String
role_key r = r.id

-- TOOL_REQUIRED_ROLES
abbrev pub may_execute : List String
may_execute = "agent" ∷ "operator" ∷ "administrator" ∷ []

abbrev pub may_decide : List String
may_decide = "policy_approver" ∷ "administrator" ∷ []

unfoldable pub required_roles : String → Option (List String)
required_roles tool =
    if any (str_eq tool) ("ep_check" ∷ "ep_execute" ∷ [])
    then some may_execute
    else if any (str_eq tool)
        ("ep_status" ∷ "ep_log" ∷ "ep_list_policies" ∷ "ep_pending_approvals" ∷ [])
    then some ("observer" ∷ may_execute)
    else if any (str_eq tool) ("ep_approve" ∷ "ep_deny" ∷ [])
    then some may_decide
    else if str_eq tool "ep_audit_verify"
    then some ("auditor" ∷ "administrator" ∷ [])
    else none

-- BOOTSTRAP_ALLOWED_TOOLS
abbrev pub setup_tools : List String
setup_tools = "ep_list_policies" ∷ "ep_status" ∷ []

-- A global binding always applies, one of a project only there.
unfoldable pub in_project : Option String → Option String → Bool
unfolding column_is
in_project project none = true
in_project none (some owner) = false
in_project (some project) (some owner) = column_is (some owner) project

unfoldable pub binds : String → Option String → RoleBinding → Bool
unfolding in_project
binds principal_id project_id b =
    str_eq b.principal_id principal_id && in_project project_id b.project_id

-- The join with ep_roles.
unfoldable pub role_names : List Role → List RoleBinding → List String
role_names roles [] = []
role_names roles (b ∷ rest) = elim (find role_key b.role_id roles) [
  | none ↦ role_names roles rest
  | some r ↦ r.name ∷ role_names roles rest
]

unfoldable pub held_roles : Access → String → Option String → List String
unfolding role_names binds
held_roles a principal_id project_id =
    role_names a.roles (filter (binds principal_id project_id) a.bindings)

unfoldable pub is_human : Access → String → Bool
is_human a principal_id = elim (find principal_key principal_id a.principals) [
  | none ↦ false
  | some p ↦ str_eq p.kind "human"
]

-- A human, while no human has a role.
unfoldable pub is_first_human : Access → String → Bool
unfolding is_human
is_first_human a principal_id =
    is_human a principal_id && not (any (λ b. is_human a b.principal_id) a.bindings)

pub data Denial : Type 0 where
  lacks_role setup_only no_role_bindings : Denial
  principal_unknown principal_inactive : Denial

-- `_check_role`, with `bootstrap` for what EP_BOOTSTRAP_MODE says.
unfoldable pub check_role :
    Access → Bool → String → List String → Option String → String → Option Denial
unfolding held_roles is_first_human
check_role a bootstrap principal_id required project_id tool =
    let held = held_roles a principal_id project_id in
    if not (is_empty held)
    then (if any (λ name. any (str_eq name) required) held then none else some lacks_role)
    else if bootstrap && is_first_human a principal_id
    then (if any (str_eq tool) setup_tools then none else some setup_only)
    else some no_role_bindings

unfoldable pub role_denial :
    Access → Bool → String → Option (List String) → Option String → String → Option Denial
unfolding check_role
role_denial a bootstrap principal_id none project_id tool = none
role_denial a bootstrap principal_id (some required) project_id tool =
    check_role a bootstrap principal_id required project_id tool

-- `_handle_tool_call` up to its dispatch: the principal is there and active, and has a role.
unfoldable pub denial : Access → Bool → String → String → Option String → Option Denial
unfolding role_denial required_roles
denial a bootstrap principal_id tool project_id =
    elim (find principal_key principal_id a.principals) [
      | none ↦ some principal_unknown
      | some p ↦
          if str_eq p.status "active"
          then role_denial a bootstrap principal_id (required_roles tool) project_id tool
          else some principal_inactive
    ]
