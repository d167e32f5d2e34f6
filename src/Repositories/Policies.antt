-- ===== src/Repositories/Policies.antt =====
-- `PolicyRepository` of repositories.py: the policies as rows, which are active, and which are
-- effective in one context.
use ep_governance.Prelude.{
  String, Bool, true, false, ◌&&◌, Option, none, some, List, [], ◌∷◌, filter, str_eq, ltb, ◌==◌,
  if◌then◌else◌, codes,
}
use ep_governance.Db.{Db}
use ep_governance.Errors.{Result}
use ep_governance.Order.{text_ltb}
use ep_governance.Policies.{
  Policy, PolicyScope, global, project, branch, agent, PolicyStatus, active, status_is_active,
}
use ep_governance.Repositories.Branches.{project_of_branch}
use ep_governance.Table.{find, insert_row, affects, update_rows}

-- A row of ep_policies: the policy and when it was stored and changed.
pub record PolicyRow : Type 0 where
  pub policy : Policy
  pub created_at : String
  pub updated_at : String

abbrev pub policy_key : PolicyRow → String
policy_key r = r.policy.id

-- The INSERT has no column for the justification, which is NULL in the row that is stored. The other
-- columns are given.
unfoldable pub insert_policy : PolicyRow → List PolicyRow → Result (List PolicyRow)
insert_policy r rows =
    insert_row policy_key (record r { policy = record r.policy { justification = none } }) rows

unfoldable pub get_policy : String → List PolicyRow → Option PolicyRow
get_policy policy_id rows = find policy_key policy_id rows

-- ORDER BY priority DESC, created_at: rows that are alike keep their order.
unfoldable pub comes_first : PolicyRow → PolicyRow → Bool
comes_first r s =
    if r.policy.priority == s.policy.priority
    then text_ltb (codes r.created_at) (codes s.created_at)
    else ltb s.policy.priority r.policy.priority

unfoldable pub insert_ordered : PolicyRow → List PolicyRow → List PolicyRow
unfolding comes_first
insert_ordered r [] = r ∷ []
insert_ordered r (s ∷ rest) = if comes_first s r then s ∷ insert_ordered r rest else r ∷ s ∷ rest

unfoldable pub ordered : List PolicyRow → List PolicyRow
unfolding insert_ordered
ordered [] = []
ordered (r ∷ rest) = insert_ordered r (ordered rest)

abbrev row_is_active : PolicyRow → Bool
row_is_active r = status_is_active r.policy.status

unfoldable pub list_active_policies : List PolicyRow → List PolicyRow
list_active_policies rows = ordered (filter row_is_active rows)

-- `column = :parameter`; NULL equals nothing.
unfoldable pub column_is : Option String → String → Bool
column_is none value = false
column_is (some s) value = str_eq s value

-- The branch belongs to the project, by the join with ep_lattices.
unfoldable pub branch_in_project : Option String → String → Db → Bool
unfolding column_is
branch_in_project none project_id db = false
branch_in_project (some b) project_id db = column_is (project_of_branch b db) project_id

unfoldable pub visible_to_project : String → Db → Policy → Bool
unfolding branch_in_project
visible_to_project project_id db p = elim p.scope [
  | global ↦ true
  | project ↦ column_is p.project_id project_id
  | branch ↦ branch_in_project p.branch_id project_id db
  | agent ↦ false
]

unfoldable pub list_active_policies_for_project : String → Db → List PolicyRow → List PolicyRow
unfolding visible_to_project
list_active_policies_for_project project_id db rows =
    ordered (filter (λ r. row_is_active r && visible_to_project project_id db r.policy) rows)

unfoldable pub in_context : String → String → String → Policy → PolicyScope → Bool
unfolding column_is
in_context project_id branch_id agent_id p global = true
in_context project_id branch_id agent_id p project = column_is p.project_id project_id
in_context project_id branch_id agent_id p branch = column_is p.branch_id branch_id
in_context project_id branch_id agent_id p agent = column_is p.agent_scope agent_id

-- The WHERE clause.
unfoldable pub is_effective : String → String → String → Policy → Bool
unfolding in_context
is_effective project_id branch_id agent_id p =
    status_is_active p.status && in_context project_id branch_id agent_id p p.scope

unfoldable pub list_effective_policies : String → String → String → List PolicyRow → List PolicyRow
unfolding is_effective
list_effective_policies project_id branch_id agent_id rows =
    ordered (filter (λ r. is_effective project_id branch_id agent_id r.policy) rows)

abbrev any_policy : PolicyRow → Bool
any_policy r = true

abbrev set_status : PolicyStatus → String → PolicyRow → PolicyRow
set_status status now r = record {
  policy = record r.policy { status = status };
  created_at = r.created_at;
  updated_at = now;
}

-- Whether a row was affected, and the rows.
unfoldable pub update_status :
    String → PolicyStatus → String → List PolicyRow → Bool × List PolicyRow
update_status policy_id status now rows = (
  affects policy_key any_policy policy_id rows,
  update_rows policy_key any_policy (set_status status now) policy_id rows,
)

abbrev set_approved : String → String → String → PolicyRow → PolicyRow
set_approved approved_by approved_at now r = record {
  policy = record r.policy {
    approved_by = some approved_by;
    approved_at = some approved_at;
    status = active;
  };
  created_at = r.created_at;
  updated_at = now;
}

unfoldable pub approve_policy :
    String → String → String → String → List PolicyRow → Bool × List PolicyRow
approve_policy policy_id approved_by approved_at now rows = (
  affects policy_key any_policy policy_id rows,
  update_rows policy_key any_policy (set_approved approved_by approved_at now) policy_id rows,
)
