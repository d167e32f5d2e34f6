-- ===== src/Examples/Proposals.antt =====
-- Witnesses for the theorems on proposals.
use ep_governance.Prelude.{
  ℕ, ◌+◌, ◌≤◌, String, ◌≡◌, ◌≢◌, refl, Bool, true, false, Option, none, some, List, [], ◌∷◌, str_eq,
  ◌⊎◌, codes, arith, Option-cases, str_eq_iff, ◌++◌, ◌↔◌, In, inl, inr, any, ap, not, sym, ◌∙◌,
  ◌==◌, ◌||◌, head?,
}
use ep_governance.Audit.{head_key, verify, lattice_rows, genesis_hash, verify_rows, to_envelope}
use ep_governance.Db.{Db, authorized, failed, Transition}
use ep_governance.Errors.{ok}
use ep_governance.Examples.{svc, env1, env5, db0, at, classify, proposal, transition_at}
use ep_governance.History.{stage_at}
use ep_governance.Repositories.Approvals.{find_pending_by_transition}
use ep_governance.Repositories.Branches.{get_head, project_of_branch}
use ep_governance.Repositories.Transitions.{get_transition, get_by_idempotency_key}
use ep_governance.Stages.{
  is_in, is_legal_transition, terminal_stages, idempotent_allow_new, idempotent_return_existing,
  idempotent_return_result,
}
use ep_governance.Table.{find, latest}
use ep_governance.Transitions.Admission.{propose-outcome, stage_for, propose-authorized, Permits}
use ep_governance.Transitions.Idempotency.{propose-refused}
use ep_governance.Transitions.Proposal.{
  propose, assess, Assessment, classification, PolicyEngine, reusable,
}
use ep_governance.Tx.{transaction}
use ep_governance.Policies.{is_in_force}
use ep_governance.PolicyEngine.Matching.{match_policies}
use ep_governance.PolicyEngine.Overrides.{compute_overrides}
use ep_governance.PolicyEngine.Resolution.{evaluate}
use ep_governance.Examples.Policy.{cel, allows, now}

was_proposed :
    (u : Transition) × (db' : Db) × (propose svc env1 classify none proposal db0 ≡ ok (u, db'))
unfolding propose get_by_idempotency_key ep_governance.Transitions.Proposal.reusable
    ep_governance.Transitions.Proposal.or_new ep_governance.Transitions.Proposal.propose_new assess
    ep_governance.Repositories.Transitions.insert_transition ep_governance.Table.insert_row
    ep_governance.Transitions.Proposal.proposal_row ep_governance.Transitions.Proposal.conclude
    ep_governance.Repositories.Approvals.create_request
    ep_governance.Repositories.Approvals.add_policies str_eq ep_governance.Tx.◌>>=◌
    ep_governance.Repositories.Transitions.get_transition ep_governance.Table.find
    ep_governance.Repositories.Approvals.find_pending_by_transition ep_governance.Table.latest
    ep_governance.Repositories.Approvals.decide ep_governance.Table.affects
    ep_governance.Table.update_rows ep_governance.Transitions.Stepping.advance_stage
    ep_governance.Stages.is_legal_transition ep_governance.Prelude.any
    ep_governance.Repositories.Transitions.update_stage
    ep_governance.Transitions.Stepping.write_audit_event
    ep_governance.Audit.write_event_in_transaction ep_governance.Repositories.Branches.get_branch
was_proposed = (_, _, refl)

no_earlier : ep_governance.Transitions.Proposal.reusable (get_by_idempotency_key "k1" db0) ≡ none
unfolding ep_governance.Transitions.Proposal.reusable get_by_idempotency_key
    ep_governance.Table.latest
no_earlier = refl

propose-outcome_example :
    (a : Assessment) × (assess svc none "2025-01-01T00:00:01Z" "ann" "main"
        (classification classify "postgres" proposal.arguments)
        db0
      ≡ ok (a, db0))
    × (stage_at "t1" was_proposed.1 ≡ some (stage_for a.verification_result))
    × (get_transition "t1" was_proposed.1 ≡ some was_proposed.0)
propose-outcome_example =
    propose-outcome svc env1 classify none proposal db0 was_proposed.0 was_proposed.1 no_earlier
      was_proposed.2

propose-refused_example :
    ¬ (propose svc env5 classify none proposal (at failed) ≡ ok (transition_at failed, db0))
unfolding get_by_idempotency_key ep_governance.Table.latest str_eq is_in ep_governance.Prelude.any
propose-refused_example =
    propose-refused svc env5 classify none proposal (at failed) (transition_at failed) refl refl
      (transition_at failed) db0

-- Without a policy engine nothing is authorized at once, so this one has an engine.
abbrev engine : PolicyEngine
engine = record { cel = cel; policies = allows ∷ [] }

was_authorized :
    (u : Transition) × (db' : Db) × (propose svc env1 classify (some engine) proposal db0
      ≡ ok (u, db'))
unfolding propose get_by_idempotency_key ep_governance.Transitions.Proposal.reusable
    ep_governance.Transitions.Proposal.or_new ep_governance.Transitions.Proposal.propose_new
    ep_governance.Transitions.Proposal.assess
    ep_governance.Repositories.Transitions.insert_transition ep_governance.Table.insert_row
    ep_governance.Transitions.Proposal.proposal_row ep_governance.Transitions.Proposal.conclude
    ep_governance.Transitions.Proposal.assessment_of
    ep_governance.Transitions.Proposal.verification_of str_eq ep_governance.Tx.◌>>=◌
    ep_governance.Repositories.Transitions.get_transition find latest ep_governance.Table.affects
    ep_governance.Table.update_rows ep_governance.Transitions.Stepping.advance_stage
    is_legal_transition any ep_governance.Repositories.Transitions.update_stage
    ep_governance.Transitions.Stepping.write_audit_event
    ep_governance.Audit.write_event_in_transaction ep_governance.Repositories.Branches.get_branch
    evaluate match_policies project_of_branch ep_governance.Transitions.Proposal.classification
    compute_overrides is_in_force ep_governance.Prelude.filter ep_governance.Fnmatch.fnmatchcase
was_authorized = (_, _, refl)

at_once : stage_at "t1" was_authorized.1 ≡ some authorized
unfolding find str_eq was_authorized
at_once = refl

propose-authorized_example :
    (e : PolicyEngine) × (project : String) × (◌≡◌ {A = Option PolicyEngine} (some engine) (some e))
    × (project_of_branch "main" db0 ≡ some project)
    × Permits e now "ann" project "main" (classification classify "postgres" proposal.arguments)
propose-authorized_example =
    propose-authorized svc env1 classify (some engine) proposal db0 was_authorized.0
      was_authorized.1 no_earlier was_authorized.2 at_once
