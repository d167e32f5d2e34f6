-- ===== src/Repositories/Branches.antt =====
-- `BranchRepository` and `NodeRepository` of repositories.py, and the INSERT into ep_edges of
-- src/ep_governance/branches.py.
use ep_governance.Prelude.{
  ℕ, ◌+◌, String, Bool, true, false, Option, none, some, ◌==◌, str_eq, if◌then◌else◌,
}
use ep_governance.Db.{Db, Branch, Lattice, Node, committed, superseded, Edge}
use ep_governance.Errors.{integrity_error}
use ep_governance.Table.{find, insert_row, affects, update_rows}
use ep_governance.Tx.{Tx, pure, lift, raise, gets, ◌>>=◌}

abbrev pub branch_key : Branch → String
branch_key b = b.id

abbrev pub node_key : Node → String
node_key n = n.id

abbrev edge_key : Edge → String
edge_key e = e.id

abbrev lattice_key : Lattice → String
lattice_key l = l.id

unfoldable pub get_branch : String → Db → Option Branch
get_branch branch_id db = find branch_key branch_id db.branches

-- The project of a branch, by the join with ep_lattices.
unfoldable pub project_of_branch : String → Db → Option String
unfolding get_branch
project_of_branch branch_id db = elim (get_branch branch_id db) [
  | none ↦ none
  | some b ↦ elim (find lattice_key b.lattice_id db.lattices) [
    | none ↦ none
    | some l ↦ some l.project_id
  ]
]

-- (None, 0) for a branch that is not there.
unfoldable pub get_head : String → Db → Option String × ℕ
unfolding get_branch
get_head branch_id db = elim (get_branch branch_id db) [
  | none ↦ (none, 0)
  | some b ↦ (b.head_node_id, b.version)
]

abbrev pub at_version : ℕ → Branch → Bool
at_version v b = b.version == v

abbrev pub set_head : String → Branch → Branch
set_head node b = record b { head_node_id = some node; version = b.version + 1 }

-- The update is guarded by the version: `false` where it is stale.
unfoldable pub update_head : String → String → ℕ → Tx Bool
update_head branch_id head_node_id expected_version = do
  updated ← gets (λ db. affects branch_key (at_version expected_version) branch_id db.branches)
  λ db. pure updated (record db {
    branches =
        update_rows branch_key (at_version expected_version) (set_head head_node_id) branch_id
          db.branches;
  })

unfoldable pub insert_node : Node → Tx (Unit {0})
insert_node node = do
  rows ← gets (λ db. db.nodes)
  nodes ← lift (insert_row node_key node rows)
  λ db. pure tt (record db { nodes = nodes })

abbrev is_committed : Node → Bool
is_committed n = elim n.status [ committed ↦ true | _ ↦ false ]

abbrev pub supersede : Node → Node
supersede n = record n { status = superseded }

unfoldable pub mark_superseded : String → Tx Bool
mark_superseded node_id = do
  updated ← gets (λ db. affects node_key is_committed node_id db.nodes)
  λ db.
      pure updated
        (record db { nodes = update_rows node_key is_committed supersede node_id db.nodes })

-- The CHECK of ep_edges refuses an edge from a node to itself.
unfoldable pub insert_edge : Edge → Tx (Unit {0})
insert_edge edge =
    if str_eq edge.upstream_node_id edge.downstream_node_id then raise integrity_error else do
      rows ← gets (λ db. db.edges)
      edges ← lift (insert_row edge_key edge rows)
      λ db. pure tt (record db { edges = edges })
