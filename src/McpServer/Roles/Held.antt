-- ===== src/McpServer/Roles/Held.antt =====
-- Who gets an answer of `ep_execute`.
use ep_governance.Prelude.{
  String, ◌≡◌, refl, sym, ap, Bool, true, false, not, ◌&&◌, Option, none, some, List, [], ◌∷◌, In,
  filter-In, any-In, any, filter, is_empty, str_eq, str_eq_iff, if◌then◌else◌, ◌⊎◌, inl, inr, arith,
  Bool-cases, subst,
}
use ep_governance.Db.{Db}
use ep_governance.Deployment.{EnforcementCapability}
use ep_governance.Errors.{Result, ok}
use ep_governance.McpServer.{ToolCall, CallEnv, ServerKeys, Response, resolve_project_id}
use ep_governance.McpServer.Roles.{
  Access, RoleBinding, Role, Principal, Denial, principal_key, role_key, binds, in_project,
  held_roles, role_names, check_role, denial, role_denial, required_roles, may_execute, setup_tools,
  is_first_human,
}
use ep_governance.PolicyEngine.Matching.{Cel}
use ep_governance.Repositories.Policies.{PolicyRow, column_is}
use ep_governance.Service.{Service}
use ep_governance.Table.{find}
use ep_governance.Transitions.Proposal.{Classifier}
use ep_governance.McpServer.Roles.Handler.{handle_ep_execute, admitted, responds, Answer}

-- A binding of the principal, global or of this project, to a role of one of these names.
pub HoldsRole : Access → String → List String → Option String → Type 0
HoldsRole a principal_id names project_id =
    (b : RoleBinding) × (r : Role) × In b a.bindings
    × (b.principal_id ≡ principal_id)
    × (find role_key b.role_id a.roles ≡ some r)
    × In r.name names
    × ((b.project_id ≡ none)
        ⊎ ((owner : String) × (project_id ≡ some owner) × (b.project_id ≡ some owner)))

any-str_eq : (s : String) (names : List String) → any (str_eq s) names ≡ true → In s names
any-str_eq s names h =
    let (name, m, e) = any-In (str_eq s) names h in
    subst (λ x. In x names) (sym ((str_eq_iff s name).0 e)) m

-- A name that the join gives is of a role that one of the bindings names.
role_names-In :
    (roles : List Role) (name : String) (bs : List RoleBinding)
    → In name (role_names roles bs)
    → (b : RoleBinding) × (r : Role) × In b bs
      × (find role_key b.role_id roles ≡ some r)
      × (r.name ≡ name)
unfolding role_names
role_names-In roles name [] m = absurd m
role_names-In roles name (b ∷ bs) m =
    joined (λ k. role_names-In roles name bs k) (find role_key b.role_id roles) refl m
  where
    joined :
        (In name (role_names roles bs)
          → (c : RoleBinding) × (r : Role) × In c bs
            × (find role_key c.role_id roles ≡ some r)
            × (r.name ≡ name))
        → (o : Option Role) → find role_key b.role_id roles ≡ o
        → In name (elim o [ none ↦ role_names roles bs | some r ↦ r.name ∷ role_names roles bs ])
        → (c : RoleBinding) × (r : Role) × In c (b ∷ bs)
          × (find role_key c.role_id roles ≡ some r)
          × (r.name ≡ name)
    joined rest none e n = let (c, r, k, found, same) = rest n in (c, r, inr k, found, same)
    joined rest (some r) e (inl same) = (b, r, inl refl, e, sym same)
    joined rest (some r) e (inr n) =
        let (c, q, k, found, same) = rest n in (c, q, inr k, found, same)

in_project-owner :
    (project owner : Option String)
    → in_project project owner ≡ true
    → (owner ≡ none) ⊎ ((p : String) × (project ≡ some p) × (owner ≡ some p))
unfolding in_project column_is
in_project-owner project none h = inl refl
in_project-owner none (some o) h = absurd (ground (arith, h))
in_project-owner (some p) (some o) h = inr (p, refl, ap some ((str_eq_iff o p).0 h))

held-HoldsRole :
    (a : Access) (who : String) (required : List String) (project : Option String)
    → any (λ name. any (str_eq name) required) (held_roles a who project) ≡ true
    → HoldsRole a who required project
unfolding held_roles binds HoldsRole
held-HoldsRole a who required project h =
    let (name, held, wanted) =
      any-In (λ name. any (str_eq name) required) (held_roles a who project) h in
    let (b, r, m, found, same) =
      role_names-In a.roles name (filter (binds who project) a.bindings) held in
    let (listed, bound) = filter-In (binds who project) b a.bindings m in
    (
      b,
      r,
      listed,
      (str_eq_iff b.principal_id who).0 (ground (arith, bound)),
      found,
      subst (λ n. In n required) (sym same) (any-str_eq name required wanted),
      in_project-owner project b.project_id (ground (arith, bound)),
    )

verdict :
    (empty meets first setup : Bool)
    → (if not empty
        then (if meets then none else some Denial.lacks_role)
        else if first
        then (if setup then none else some Denial.setup_only)
        else some Denial.no_role_bindings)
      ≡ none
    → (meets ≡ true) ⊎ (setup ≡ true)
verdict empty true first setup h = inl refl
verdict empty false first true h = inr refl
verdict false false first false h = absurd (cc)
verdict true false true false h = absurd (cc)
verdict true false false false h = absurd (cc)

check_role-HoldsRole :
    (a : Access) (bootstrap : Bool) (who : String) (required : List String)
    (project : Option String) (tool : String)
    → check_role a bootstrap who required project tool ≡ none
    → any (str_eq tool) setup_tools ≡ false
    → HoldsRole a who required project
unfolding check_role
check_role-HoldsRole a bootstrap who required project tool h other =
    let held = held_roles a who project in
    elim (verdict (is_empty held) (any (λ name. any (str_eq name) required) held)
      (bootstrap && is_first_human a who) (any (str_eq tool) setup_tools) h) [
        | inl e ↦ held-HoldsRole a who required project e
        | inr e ↦ absurd (ground (arith, e, other))
      ]

-- What an admitted call of a tool that is not for the setup shows.
pub denial-HoldsRole :
    (a : Access) (bootstrap : Bool) (who tool : String) (required : List String)
    (project : Option String)
    → required_roles tool ≡ some required
    → any (str_eq tool) setup_tools ≡ false
    → denial a bootstrap who tool project ≡ none
    → ((p : Principal) × (find principal_key who a.principals ≡ some p) × (p.status ≡ "active"))
      × HoldsRole a who required project
unfolding denial role_denial
denial-HoldsRole a bootstrap who tool required project wants other h =
    go (find principal_key who a.principals) refl h
  where
    go :
        (o : Option Principal)
        → find principal_key who a.principals ≡ o
        → (elim o [
          | none ↦ some Denial.principal_unknown
          | some p ↦
              if str_eq p.status "active"
              then role_denial a bootstrap who (required_roles tool) project tool
              else some Denial.principal_inactive
        ])
          ≡ none
        → ((p : Principal) × (find principal_key who a.principals ≡ some p) × (p.status ≡ "active"))
          × HoldsRole a who required project
    go none e k = absurd (cc)
    go (some p) e k = elim (Bool-cases (str_eq p.status "active")) [
      | inr f ↦ (let k' = rw f at k in absurd (cc))
      | inl f ↦
          let k' = rw f at k in
          let k'' = rw wants at k' in
          (
            (p, e, (str_eq_iff p.status "active").0 f),
            check_role-HoldsRole a bootstrap who required project tool k'' other,
          )
    ]

admitted-answer :
    (d : Option Denial) (db : Db) (rest : Result Answer × Db) (x : Response) (db' : Db)
    → admitted d db rest ≡ (ok (responds x), db')
    → d ≡ none
unfolding admitted
admitted-answer none db rest x db' h = refl
admitted-answer (some d) db rest x db' h = absurd (cc (ap (λ z. z.0) h))

executes_roles : required_roles "ep_execute" ≡ some may_execute
unfolding required_roles any str_eq
executes_roles = refl

not_setup : any (str_eq "ep_execute") setup_tools ≡ false
unfolding any str_eq
not_setup = refl

-- `ep_execute` answers only a principal that is stored and active and that is bound to one of the
-- roles agent, operator and administrator, globally or in the project of the branch that the call
-- names. The mode for the setup does not help.
pub handle_ep_execute-HoldsRole :
    (a : Access) (bootstrap : Bool) (svc : Service) (s : ServerKeys) (env : CallEnv) (cel : Cel)
    (classify : Classifier) (rows : List PolicyRow) (call : ToolCall) (principal_id : String)
    (c : Option EnforcementCapability) (db : Db) (x : Response) (db' : Db)
    → handle_ep_execute a bootstrap svc s env cel classify rows call principal_id c db
      ≡ (ok (responds x), db')
    → ((p : Principal) × (find principal_key principal_id a.principals ≡ some p)
        × (p.status ≡ "active"))
      × HoldsRole a principal_id may_execute (resolve_project_id call.branch_id db)
unfolding handle_ep_execute
handle_ep_execute-HoldsRole a bootstrap svc s env cel classify rows call principal_id c db x db' h =
    denial-HoldsRole a bootstrap principal_id "ep_execute" may_execute
      (resolve_project_id call.branch_id db) executes_roles not_setup
      (admitted-answer
        (denial a bootstrap principal_id "ep_execute" (resolve_project_id call.branch_id db)) db _ x
        db' h)
