-- ===== src/Walk/Lifecycle.antt =====
-- What every run does to the stages.
use ep_governance.Prelude.{String, ◌≡◌, subst, Bool, true, some}
use ep_governance.Db.{Db, Stage, proposed}
use ep_governance.Frames.{
  create_request-beside, decide-beside, add_policies-beside, update_head-beside, insert_node-beside,
  mark_superseded-beside, insert_edge-beside, write_event-beside, SameTransitions,
  insert_authorization-beside, claim_authorization-beside, update_attempt-beside,
}
use ep_governance.History.{
  stage_at, Evolves, Evolves-preorder, Evolves-of_SameStages, Evolves-of_Moved, SameStages,
  SameStages-of_SameTransitions, Moved, insert_transition-Moved, update_stage-Moved,
  advance_stage-Moved, update_result-SameStages, set_flag-SameStages,
}
use ep_governance.Service.{Service}
use ep_governance.Stages.{is_in, terminal_stages}
use ep_governance.Stages.Lifecycle.{Moves, Moves-terminal}
use ep_governance.Tx.{Tx}
use ep_governance.Tx.Along.{Along, Along-mono, Preorder}
use ep_governance.Walk.{Statements, every}
use ep_governance.Walk.Run.{Run, Run-along}

-- The statements that leave the transitions as they are leave their stages, and the others move
-- one of them: a preorder that has the former and the latter has the statements.
module _ (svc : Service) (allowed : Stage → Bool) (R : Db → Db → Type 0) (P : Preorder R)
    (same : (db db' : Db) → SameStages db db' → R db db')
    (proposes : (db db' : Db) → Moved proposed db db' → R db db')
    (moved : (to : Stage) → allowed to ≡ true → (db db' : Db) → Moved to db db' → R db db') where
  beside : {A : Type 0} (m : Tx A) → Along SameTransitions m → Along R m
  beside m km = Along-mono m (λ db db' h. same db db' (SameStages-of_SameTransitions db db' h)) km

  pub stage_statements : Statements svc allowed R
  stage_statements = record {
    preorder = P;
    inserts = λ t h. Along-mono _ proposes (insert_transition-Moved t h);
    advances = λ k to now h. Along-mono _ (moved to h) (advance_stage-Moved k to now);
    guarded = λ k s to now legal h. Along-mono _ (moved to h) (update_stage-Moved k s to now legal);
    results = λ k status summary n now.
        Along-mono _ same (update_result-SameStages k status summary n now);
    flags = λ k value now. Along-mono _ same (set_flag-SameStages k value now);
    requests = λ id now t by j p.
        beside _ (Along-mono _ (λ db db' h. h.0) (create_request-beside id now t by j p));
    decides = λ id by decision reason now.
        beside _ (Along-mono _ (λ db db' h. h.0) (decide-beside id by decision reason now));
    associates = λ id ids. beside _ (Along-mono _ (λ db db' h. h.0) (add_policies-beside id ids));
    heads = λ b n v. beside _ (Along-mono _ (λ db db' h. h.0) (update_head-beside b n v));
    nodes = λ n. beside _ (Along-mono _ (λ db db' h. h.0) (insert_node-beside n));
    supersedes = λ n. beside _ (Along-mono _ (λ db db' h. h.0) (mark_superseded-beside n));
    edges = λ e. beside _ (Along-mono _ (λ db db' h. h.0) (insert_edge-beside e));
    writes = λ id now l type body actor caller.
        beside _
          (Along-mono _ (λ db db' h. h.0) (write_event-beside svc id now l type body actor caller));
    issues = λ a _. beside _ (Along-mono _ (λ db db' h. h.0) (insert_authorization-beside a));
    claims = λ id proxy h now.
        beside _ (Along-mono _ (λ db db' h. h.0) (claim_authorization-beside id proxy h now));
    attempts =
        λ id attempt. beside _ (Along-mono _ (λ db db' h. h.0) (update_attempt-beside id attempt));
  }

Evolves-Statements : (svc : Service) → Statements svc every Evolves
Evolves-Statements svc =
    stage_statements svc every Evolves Evolves-preorder Evolves-of_SameStages
      (Evolves-of_Moved proposed) (λ to _. Evolves-of_Moved to)

-- In every run, each transition's stage goes by a history of legal moves, which a new row starts
-- at proposed.
pub Run-Moves :
    (svc : Service) {db db' : Db} (id : String)
    → Run svc db db'
    → Moves (stage_at id db) (stage_at id db')
Run-Moves svc id run = Run-along (Evolves-Statements svc) run id

-- A transition in a terminal stage is in that stage after every run.
pub Run-terminal :
    (svc : Service) {db db' : Db} (id : String) (s : Stage)
    → stage_at id db ≡ some s
    → is_in s terminal_stages ≡ true
    → Run svc db db'
    → stage_at id db' ≡ some s
Run-terminal svc {db} {db'} id s at_s final run =
    Moves-terminal s (subst (λ o. Moves o (stage_at id db')) at_s (Run-Moves svc id run)) final
