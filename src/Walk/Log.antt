-- ===== src/Walk/Log.antt =====
-- What every run does to the audit log.
use ep_governance.Prelude.{String, ◌≡◌, sym, ap, ◌∙◌, subst, true, some, List, [], ◌∷◌, ◌++◌, arith}
use mathlib.Core.List.{append_assoc, append-nil}
use ep_governance.Audit.{head_key, verify, lattice_rows, write_event_in_transaction}
use ep_governance.Audit.Chain.{
  IsChained, KeepsChain, KeepsChain-preorder, write_event-KeepsChain, verify_of_IsChained,
}
use ep_governance.Db.{Db, AuditHead, AuditEvent}
use ep_governance.Frames.{
  SameLog, insert_transition-beside, update_stage-beside, advance_stage-beside,
  update_result-beside, set_flag-beside, create_request-beside, decide-beside, add_policies-beside,
  update_head-beside, insert_node-beside, mark_superseded-beside, insert_edge-beside,
  insert_authorization-beside, claim_authorization-beside, update_attempt-beside,
}
use ep_governance.Service.{Service}
use ep_governance.Table.{find}
use ep_governance.Tx.{◌>>=◌}
use ep_governance.Value.{Value}
use ep_governance.Tx.Along.{Along, Preorder, Along-mono}
use ep_governance.Walk.{Statements, every}
use ep_governance.Walk.Run.{Run, Run-along}

-- Only the writer of events has to be looked at: all other statements leave the log as it is.
module _ (svc : Service) (R : Db → Db → Type 0) (P : Preorder R)
    (same : (db db' : Db) → SameLog db db' → R db db')
    (writes : (id now l type : String) (body : Value) (actor caller : String)
      → Along R (write_event_in_transaction svc id now l type body actor caller)) where
  log_statements : Statements svc every R
  log_statements = record {
    preorder = P;
    inserts = λ t _. Along-mono _ (λ db db' h. same db db' h.1) (insert_transition-beside t);
    advances =
        λ k to now _. Along-mono _ (λ db db' h. same db db' h.1) (advance_stage-beside k to now);
    guarded = λ k s to now _ _.
        Along-mono _ (λ db db' h. same db db' h.1) (update_stage-beside k to (some s) now);
    results = λ k status summary n now.
        Along-mono _ (λ db db' h. same db db' h.1) (update_result-beside k status summary n now);
    flags = λ k value now. Along-mono _ (λ db db' h. same db db' h.1) (set_flag-beside k value now);
    requests = λ id now t by j p.
        Along-mono _ (λ db db' h. same db db' h.1.1) (create_request-beside id now t by j p);
    decides = λ id by decision reason now.
        Along-mono _ (λ db db' h. same db db' h.1.1) (decide-beside id by decision reason now);
    associates =
        λ id ids. Along-mono _ (λ db db' h. same db db' h.1.1) (add_policies-beside id ids);
    heads = λ b n v. Along-mono _ (λ db db' h. same db db' h.2) (update_head-beside b n v);
    nodes = λ n. Along-mono _ (λ db db' h. same db db' h.2) (insert_node-beside n);
    supersedes = λ n. Along-mono _ (λ db db' h. same db db' h.2) (mark_superseded-beside n);
    edges = λ e. Along-mono _ (λ db db' h. same db db' h.2) (insert_edge-beside e);
    writes = writes;
    issues = λ a _. Along-mono _ (λ db db' h. same db db' h.1) (insert_authorization-beside a);
    claims = λ id proxy h now.
        Along-mono _ (λ db db' h. same db db' h.1) (claim_authorization-beside id proxy h now);
    attempts =
        λ id attempt. Along-mono _ (λ db db' h. same db db' h.1) (update_attempt-beside id attempt);
  }

SameLog-KeepsChain : (svc : Service) (db db' : Db) → SameLog db db' → KeepsChain svc db db'
SameLog-KeepsChain svc db db' (events, heads) chained = record {
  chain = λ l h found.
      unfold lattice_rows in
      rw events (chained.chain l h (subst (λ hs. find head_key l hs ≡ some h) heads found));
}

-- After every run from a database whose audit log is chained, the verifier accepts every lattice
-- that has a head.
pub Run-verify :
    (svc : Service) {db db' : Db} (l : String) (h : AuditHead)
    → IsChained svc db
    → Run svc db db'
    → find head_key l db'.audit_heads ≡ some h
    → verify svc l db' ≡ true
Run-verify svc {db} {db'} l h chained run found =
    verify_of_IsChained svc db' l h
      (Run-along
        (log_statements svc (KeepsChain svc) (KeepsChain-preorder svc) (SameLog-KeepsChain svc)
          (write_event-KeepsChain svc))
        run chained)
      found

-- The first log is an initial part of the second.
abbrev pub Extends : Db → Db → Type 0
Extends db db' = (rest : List AuditEvent) × (db'.events ≡ db.events ++ rest)

Extends-preorder : Preorder Extends
Extends-preorder = record {
  reflexive = λ db. ([], sym (append-nil db.events));
  transitive =
      λ a b c (r, e) (s, f). (r ++ s, f ∙ ap (λ es. es ++ s) e ∙ append_assoc a.events r s);
}

write_event-Extends :
    (svc : Service) (id now l type : String) (body : Value) (actor caller : String)
    → Along Extends (write_event_in_transaction svc id now l type body actor caller)
unfolding write_event_in_transaction ◌>>=◌
write_event-Extends svc id now l type body actor caller = record {
  at = λ db e db' ran. (e ∷ [], ground (arith, ran));
}

-- The audit log is append-only: after every run, the events that were written before it are still
-- there, unchanged and in their order, before all events that the run wrote.
pub Run-Extends : (svc : Service) {db db' : Db} → Run svc db db' → Extends db db'
Run-Extends svc run =
    Run-along
      (log_statements svc Extends Extends-preorder
        (λ db db' h. ([], h.0 ∙ sym (append-nil db.events))) (write_event-Extends svc))
      run
