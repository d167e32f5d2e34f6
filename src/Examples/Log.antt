-- ===== src/Examples/Log.antt =====
-- Witnesses for the theorems on whole runs and on the audit log.
use ep_governance.Prelude.{
  ℕ, ◌+◌, ◌≤◌, String, ◌≡◌, ◌≢◌, refl, Bool, true, Option, none, some, List, [], ◌∷◌, str_eq, ◌⊎◌,
  codes, arith, Option-cases, str_eq_iff,
}
use ep_governance.Audit.{head_key, verify, lattice_rows}
use ep_governance.Audit.Chain.{IsChained}
use ep_governance.Authorizations.Claim.{verify_and_claim}
use ep_governance.Branches.{commit}
use ep_governance.Db.{Db, authorized, executing, succeeded, AuditHead}
use ep_governance.Examples.{
  svc, env1, env2, env4, env5, db0, at, classify, proposal, keys, request, authorization,
}
use ep_governance.History.{stage_at}
use ep_governance.Repositories.Approvals.{find_pending_by_transition}
use ep_governance.Repositories.Authorizations.{authorization_key}
use ep_governance.Repositories.Branches.{get_head}
use ep_governance.Repositories.Transitions.{get_transition, get_by_idempotency_key}
use ep_governance.Stages.{is_in}
use ep_governance.Table.{find}
use ep_governance.Transitions.Decision.{approve, cancel}
use ep_governance.Transitions.Proposal.{propose, assess, Assessment, classification, PolicyEngine}
use ep_governance.Tx.{transaction}
use ep_governance.Walk.Lifecycle.{Run-terminal}
use ep_governance.Walk.Log.{Run-verify, Run-Extends, Extends}
use ep_governance.Walk.Run.{Run, start, next, proposes, cancels, claims, commits}
use ep_governance.Walk.SingleUse.{Run-Preserves, Keeps}
use ep_governance.Walk.Versions.{Run-Rises, version_at}

proposing : Run svc db0 (transaction (propose svc env1 classify none proposal) db0).1
proposing = next start (proposes env1 classify none proposal)

Run-terminal_example :
    stage_at "t1" (transaction (cancel svc env2 "t1" "ann") (at succeeded)).1 ≡ some succeeded
unfolding find str_eq is_in ep_governance.Prelude.any
Run-terminal_example =
    Run-terminal svc "t1" succeeded refl refl (next start (cancels env2 "t1" "ann"))

Run-Extends_example : Extends db0 (transaction (propose svc env1 classify none proposal) db0).1
Run-Extends_example = Run-Extends svc proposing

Run-Rises_example :
    version_at "main" (at executing)
    ≤ version_at "main" (transaction (commit svc env5 request) (at executing)).1
Run-Rises_example = Run-Rises svc "main" (next start (commits env5 request))

Run-Preserves_example : Keeps (find authorization_key "a1" (at authorized).authorizations) (
    find authorization_key "a1"
      (verify_and_claim svc keys env4 "a1" "token" "h" "px" (at authorized)).1.authorizations)
Run-Preserves_example = Run-Preserves svc "a1" (next start (claims keys env4 "a1" "token" "h" "px"))

db0-IsChained : IsChained svc db0
unfolding find lattice_rows str_eq ep_governance.Prelude.filter
db0-IsChained = record { chain = λ l h found. (ground (arith, found), ground (arith, found)) }

-- The audit head after the proposal.
head_now :
    (h : AuditHead) × (find head_key "l"
        (transaction (propose svc env1 classify none proposal) db0).1.audit_heads
      ≡ some h)
unfolding transaction propose get_by_idempotency_key ep_governance.Transitions.Proposal.reusable
    ep_governance.Transitions.Proposal.or_new ep_governance.Transitions.Proposal.propose_new assess
    ep_governance.Repositories.Transitions.insert_transition ep_governance.Table.insert_row
    ep_governance.Transitions.Proposal.proposal_row ep_governance.Transitions.Proposal.conclude
    ep_governance.Repositories.Approvals.create_request
    ep_governance.Repositories.Approvals.add_policies str_eq ep_governance.Tx.◌>>=◌
    ep_governance.Repositories.Transitions.get_transition ep_governance.Table.find
    ep_governance.Repositories.Approvals.find_pending_by_transition ep_governance.Table.latest
    ep_governance.Repositories.Approvals.decide ep_governance.Table.affects
    ep_governance.Table.update_rows ep_governance.Transitions.Stepping.advance_stage
    ep_governance.Stages.is_legal_transition ep_governance.Prelude.any
    ep_governance.Repositories.Transitions.update_stage
    ep_governance.Transitions.Stepping.write_audit_event
    ep_governance.Audit.write_event_in_transaction ep_governance.Repositories.Branches.get_branch
head_now = (_, refl)

Run-verify_example :
    verify svc "l" (transaction (propose svc env1 classify none proposal) db0).1 ≡ true
Run-verify_example = Run-verify svc "l" head_now.0 db0-IsChained proposing head_now.1

-- Before its proposal, with the authorization that will be claimed.
abbrev before : Db
before = record db0 { authorizations = authorization ∷ [] }

abbrev proposed_db : Db
proposed_db = (transaction (propose svc env1 classify none proposal) before).1

abbrev approved_db : Db
approved_db = (transaction (approve svc env2 "t1" "boss" "human" "fine") proposed_db).1

abbrev claimed_db : Db
claimed_db = (verify_and_claim svc keys env4 "a1" "token" "h" "px" approved_db).1
