-- ===== src/Walk.antt =====
-- From the statements to the operations: if every statement of the repositories takes the database
-- along a preorder, so does every operation of the engines. `Statements` is what a preorder has to
-- show; `Walk/Operations` draws the conclusion for each operation.
pub mod Operations
pub mod Tokens
pub mod Execution
pub mod Run
pub mod Lifecycle
pub mod Entry
pub mod Log
pub mod SingleUse
pub mod Versions
use ep_governance.Prelude.{ℕ, String, ◌≡◌, refl, Bool, true, false, Option, some, List}
use ep_governance.Audit.{write_event_in_transaction}
use ep_governance.Db.{
  Db, Transition, Stage, proposed, pending_approval, authorized, succeeded, failed,
  execution_uncertain, cancelled, denied, Node, Edge, Authorization,
}
use ep_governance.Repositories.Approvals.{create_request, decide, add_policies}
use ep_governance.Repositories.Authorizations.{
  insert_authorization, claim_authorization, update_execution_attempt_id,
}
use ep_governance.Repositories.Branches.{update_head, insert_node, mark_superseded, insert_edge}
use ep_governance.Repositories.Transitions.{
  insert_transition, update_stage, update_result, set_requires_manual_reconciliation,
}
use ep_governance.Service.{Service}
use ep_governance.Stages.{is_legal_transition}
use ep_governance.Transitions.Stepping.{advance_stage}
use ep_governance.Tx.Along.{Along, Preorder}
use ep_governance.Value.{Value}

-- The stages that `record_result`, `commit` and `reconcile` lead to are allowed.
pub record Outcomes (allowed : Stage → Bool) : Type 0 where
  pub succeeds : allowed succeeded ≡ true
  pub fails : allowed failed ≡ true
  pub doubts : allowed execution_uncertain ≡ true

-- The stages that a proposal, an approval, a denial and a cancellation lead to are allowed.
pub record Decisions (allowed : Stage → Bool) : Type 0 where
  pub authorizes : allowed authorized ≡ true
  pub denies : allowed denied ≡ true
  pub defers : allowed pending_approval ≡ true
  pub cancels : allowed cancelled ≡ true

-- Every stage, with what that allows.
abbrev pub every : Stage → Bool
every _ = true

pub every_outcome : Outcomes every
every_outcome = record { succeeds = refl; fails = refl; doubts = refl }

pub every_decision : Decisions every
every_decision = record { authorizes = refl; denies = refl; defers = refl; cancels = refl }

-- The moves between stages have to go to a stage that is allowed.
pub record Statements (svc : Service) (allowed : Stage → Bool) (R : Db → Db → Type 0) : Type 0 where
  pub preorder : Preorder R
  pub inserts : (t : Transition) → t.stage ≡ proposed → Along R (insert_transition t)
  pub advances :
      (k : String) (to : Stage) (now : String)
      → allowed to ≡ true
      → Along R (advance_stage k to now)
  pub guarded :
      (k : String) (s to : Stage) (now : String)
      → is_legal_transition s to ≡ true
      → allowed to ≡ true
      → Along R (update_stage k to (some s) now)
  pub results :
      (k status summary : String) (n : Option String) (now : String)
      → Along R (update_result k status summary n now)
  pub flags :
      (k : String) (value : Bool) (now : String)
      → Along R (set_requires_manual_reconciliation k value now)
  pub requests :
      (id now t by j : String) (p : Option String) → Along R (create_request id now t by j p)
  pub decides : (id by decision reason now : String) → Along R (decide id by decision reason now)
  pub associates : (id : String) (ids : List String) → Along R (add_policies id ids)
  pub heads : (b n : String) (v : ℕ) → Along R (update_head b n v)
  pub nodes : (n : Node) → Along R (insert_node n)
  pub supersedes : (n : String) → Along R (mark_superseded n)
  pub edges : (e : Edge) → Along R (insert_edge e)
  pub writes :
      (id now l type : String) (body : Value) (actor caller : String)
      → Along R (write_event_in_transaction svc id now l type body actor caller)
  pub issues : (a : Authorization) → a.used ≡ false → Along R (insert_authorization a)
  pub claims :
      (id proxy : String) (h : Option String) (now : String)
      → Along R (claim_authorization id proxy h now)
  pub attempts : (id attempt : String) → Along R (update_execution_attempt_id id attempt)
