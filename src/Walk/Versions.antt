-- ===== src/Walk/Versions.antt =====
-- What every run does to the branches' versions.
use ep_governance.Prelude.{
  ℕ, ◌≤◌, String, ◌≡◌, refl, sym, ap, ◌∙◌, subst, Bool, Option, none, some, arith, str_eq,
  if◌then◌else◌,
}
use ep_governance.Db.{Db, Branch, Node, Edge}
use ep_governance.Frames.{
  SameBranches, insert_transition-beside, update_stage-beside, advance_stage-beside,
  update_result-beside, set_flag-beside, create_request-beside, decide-beside, add_policies-beside,
  write_event-beside, insert_authorization-beside, claim_authorization-beside,
  update_attempt-beside,
}
use ep_governance.Repositories.Branches.{
  branch_key, at_version, set_head, update_head, insert_node, mark_superseded, insert_edge,
}
use ep_governance.Service.{Service}
use ep_governance.Table.{find, update_rows}
use ep_governance.Table.Lookup.{find-update_rows, changed}
use ep_governance.Tx.{◌>>=◌}
use ep_governance.Tx.Along.{Along, Preorder, Along-mono}
use ep_governance.Walk.{Statements, every}
use ep_governance.Walk.Run.{Run, Run-along}

abbrev pub version_of : Option Branch → ℕ
version_of none = 0
version_of (some b) = b.version

-- The version of a branch; 0 where it is not there.
abbrev pub version_at : String → Db → ℕ
version_at b db = version_of (find branch_key b db.branches)

abbrev pub Rises : Db → Db → Type 0
Rises db db' = (b : String) → version_at b db ≤ version_at b db'

Rises-preorder : Preorder Rises
Rises-preorder = record {
  reflexive = λ db b. omega arith;
  transitive = λ x y z f g b. omega (arith, f b, g b);
}

Rises-of_same : (db db' : Db) → SameBranches db db' → Rises db db'
Rises-of_same db db' same b =
    subst (λ rows. version_at b db ≤ version_of (find branch_key b rows)) (sym same) (omega arith)

version-changed :
    (same : Bool) (v : ℕ) (node : String) (o : Option Branch)
    → version_of o
      ≤ version_of (if same then changed branch_key (at_version v) (set_head node) o else o)
version-changed same v node none = ground arith
version-changed same v node (some b) = ground arith

update_head-Rises : (k node : String) (v : ℕ) → Along Rises (update_head k node v)
unfolding update_head ◌>>=◌
update_head-Rises k node v = record {
  at = λ db a db' ran b.
      let rows : db'.branches
          ≡ update_rows branch_key (at_version v) (set_head node) k db.branches =
        ground arith in
      subst (λ o. version_at b db ≤ version_of o)
        (sym (
          ap (find branch_key b) rows
          ∙ find-update_rows branch_key (at_version v) (set_head node) k b db.branches (λ r. refl)))
        (version-changed (str_eq k b) v node (find branch_key b db.branches));
}

insert_node-branches : (n : Node) → Along SameBranches (insert_node n)
unfolding insert_node ◌>>=◌
insert_node-branches n = record { at = λ db a db' ran. ground arith }

mark_superseded-branches : (n : String) → Along SameBranches (mark_superseded n)
unfolding mark_superseded ◌>>=◌
mark_superseded-branches n = record { at = λ db a db' ran. ground arith }

insert_edge-branches : (e : Edge) → Along SameBranches (insert_edge e)
unfolding insert_edge ◌>>=◌
insert_edge-branches e = record { at = λ db a db' ran. ground arith }

Rises-Statements : (svc : Service) → Statements svc every Rises
Rises-Statements svc = record {
  preorder = Rises-preorder;
  inserts = λ t _. Along-mono _ (λ db db' h. Rises-of_same db db' h.2) (insert_transition-beside t);
  advances = λ k to now _.
      Along-mono _ (λ db db' h. Rises-of_same db db' h.2) (advance_stage-beside k to now);
  guarded = λ k s to now _ _.
      Along-mono _ (λ db db' h. Rises-of_same db db' h.2) (update_stage-beside k to (some s) now);
  results = λ k status summary n now.
      Along-mono _ (λ db db' h. Rises-of_same db db' h.2)
        (update_result-beside k status summary n now);
  flags = λ k value now.
      Along-mono _ (λ db db' h. Rises-of_same db db' h.2) (set_flag-beside k value now);
  requests = λ id now t by j p.
      Along-mono _ (λ db db' h. Rises-of_same db db' h.1.2) (create_request-beside id now t by j p);
  decides = λ id by decision reason now.
      Along-mono _ (λ db db' h. Rises-of_same db db' h.1.2)
        (decide-beside id by decision reason now);
  associates =
      λ id ids. Along-mono _ (λ db db' h. Rises-of_same db db' h.1.2) (add_policies-beside id ids);
  heads = update_head-Rises;
  nodes = λ n. Along-mono _ Rises-of_same (insert_node-branches n);
  supersedes = λ n. Along-mono _ Rises-of_same (mark_superseded-branches n);
  edges = λ e. Along-mono _ Rises-of_same (insert_edge-branches e);
  writes = λ id now l type body actor caller.
      Along-mono _ (λ db db' h. Rises-of_same db db' h.2)
        (write_event-beside svc id now l type body actor caller);
  issues =
      λ a _. Along-mono _ (λ db db' h. Rises-of_same db db' h.2) (insert_authorization-beside a);
  claims = λ id proxy h now.
      Along-mono _ (λ db db' h. Rises-of_same db db' h.2)
        (claim_authorization-beside id proxy h now);
  attempts = λ id attempt.
      Along-mono _ (λ db db' h. Rises-of_same db db' h.2) (update_attempt-beside id attempt);
}

-- No run lowers the version of a branch.
pub Run-Rises :
    (svc : Service) {db db' : Db} (b : String) → Run svc db db' → version_at b db ≤ version_at b db'
Run-Rises svc b run = Run-along (Rises-Statements svc) run b
