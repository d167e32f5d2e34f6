-- ===== src/Examples/Runs.antt =====
-- Witnesses for the theorems on the operations.
use ep_governance.Prelude.{
  ℕ, ◌+◌, ◌≤◌, String, ◌≡◌, ◌≢◌, refl, Bool, true, false, Option, none, some, List, [], ◌∷◌, str_eq,
  ◌⊎◌, codes, arith, Option-cases, str_eq_iff,
}
use ep_governance.Audit.{head_key, verify, lattice_rows}
use ep_governance.Authorizations.Claim.{
  verify_and_claim, verify_and_claim_in_transaction, ClaimResult, token_accepted,
}
use ep_governance.Authorizations.Claimed.{Claimed}
use ep_governance.Authorizations.Issue.{issue_authorization, AuthorizationToken, to_signed_token}
use ep_governance.Authorizations.Issued.{Entitles, issue_authorization-Entitles}
use ep_governance.Authorizations.Liveness.{claim-succeeds}
use ep_governance.Authorizations.Once.{verify_and_claim-Claimed, claimed-once}
use ep_governance.Branches.{commit, committable, head_matches}
use ep_governance.Branches.Optimistic.{commit-advances, commit-once}
use ep_governance.Db.{Db, authorized, executing, succeeded, cancelled, Transition, Authorization}
use ep_governance.Errors.{ok}
use ep_governance.Examples.{
  svc, env2, env3, env4, env5, db0, at, keys, clock, capability, no_policies, request,
  authorization,
}
use ep_governance.History.{stage_at}
use ep_governance.Order.{text_ltb}
use ep_governance.Repositories.Approvals.{find_pending_by_transition}
use ep_governance.Repositories.Authorizations.{authorization_key}
use ep_governance.Repositories.Branches.{get_head}
use ep_governance.Repositories.Transitions.{get_transition, get_by_idempotency_key}
use ep_governance.Stages.{is_in}
use ep_governance.Table.{find}
use ep_governance.Transitions.Authority.{cancel-authority}
use ep_governance.Transitions.Decision.{cancel, cancellable_stages, is_admin}
use ep_governance.Tx.{transaction}
use ep_governance.Walk.Run.{start}
use ep_governance.Walk.Versions.{version_at}

claimed :
    (r : ClaimResult) × (db' : Db) × (verify_and_claim svc keys env4 "a1" "token" "h" "px"
        (at authorized)
      ≡ (ok (some r), db'))
unfolding verify_and_claim str_eq transaction verify_and_claim_in_transaction
    ep_governance.Value.get_field ep_governance.Value.value_eq ep_governance.Tx.◌>>=◌
    ep_governance.Repositories.Authorizations.get_authorization ep_governance.Table.find
    ep_governance.Repositories.Authorizations.claim_authorization ep_governance.Table.affects
    ep_governance.Repositories.Authorizations.claimable ep_governance.Order.text_ltb
    ep_governance.Table.update_rows
    ep_governance.Repositories.Authorizations.update_execution_attempt_id
    ep_governance.Repositories.Transitions.update_stage
claimed = (_, _, refl)

was_cancelled :
    (u : Transition) × (db' : Db) × (cancel svc env2 "t1" "boss" (at authorized) ≡ ok (u, db'))
unfolding cancel is_admin is_in str_eq ep_governance.Tx.◌>>=◌
    ep_governance.Repositories.Transitions.get_transition ep_governance.Table.find
    ep_governance.Repositories.Approvals.find_pending_by_transition ep_governance.Table.latest
    ep_governance.Repositories.Approvals.decide ep_governance.Table.affects
    ep_governance.Table.update_rows ep_governance.Transitions.Stepping.advance_stage
    ep_governance.Stages.is_legal_transition ep_governance.Prelude.any
    ep_governance.Repositories.Transitions.update_stage
    ep_governance.Transitions.Stepping.write_audit_event
    ep_governance.Audit.write_event_in_transaction ep_governance.Repositories.Branches.get_branch
was_cancelled = (_, _, refl)

committed :
    (n : String) × (v : ℕ) × (db' : Db) × (commit svc env5 request (at executing)
      ≡ ok ((n, v), db'))
unfolding commit is_in ep_governance.Repositories.Branches.get_head ep_governance.Branches.realise
    ep_governance.Repositories.Branches.insert_node ep_governance.Table.insert_row
    ep_governance.Repositories.Branches.update_head ep_governance.Branches.finish_commit
    ep_governance.Repositories.Transitions.update_result
    ep_governance.Repositories.Transitions.exit_status_allowed str_eq ep_governance.Tx.◌>>=◌
    ep_governance.Repositories.Transitions.get_transition ep_governance.Table.find
    ep_governance.Repositories.Approvals.find_pending_by_transition ep_governance.Table.latest
    ep_governance.Repositories.Approvals.decide ep_governance.Table.affects
    ep_governance.Table.update_rows ep_governance.Transitions.Stepping.advance_stage
    ep_governance.Stages.is_legal_transition ep_governance.Prelude.any
    ep_governance.Repositories.Transitions.update_stage
    ep_governance.Transitions.Stepping.write_audit_event
    ep_governance.Audit.write_event_in_transaction ep_governance.Repositories.Branches.get_branch
committed = (_, _, _, refl)

was_issued :
    (t : AuthorizationToken) × (db' : Db) × (issue_authorization svc keys clock 300 true env3 5
        "nonce" "t1" "ann" "p" "main" "pg" "postgres" "h" no_policies capability db0
      ≡ ok (t, db'))
unfolding issue_authorization str_eq ep_governance.Tx.◌>>=◌ ep_governance.Table.find
    ep_governance.Table.insert_row ep_governance.Repositories.Authorizations.insert_authorization
    ep_governance.Authorizations.Issue.capability_allows
    ep_governance.Authorizations.Issue.new_token
    ep_governance.Authorizations.Issue.authorization_row ep_governance.Prelude.any
was_issued = (_, _, refl)

claimed-once_example :
    ¬ (verify_and_claim svc keys env4 "a1" "token" "h" "px" claimed.1 ≡ (ok (some claimed.0), db0))
claimed-once_example =
    claimed-once svc keys env4 "a1" "token" "h" "px" (at authorized) claimed.0 claimed.1 claimed.1
      claimed.2 start keys env4 "token" "h" "px" claimed.0 db0

verify_and_claim-Claimed_example :
    (token_accepted keys "a1" "h" (keys.json_loads "token") ≡ ok true)
    × Claimed svc env4 "a1" "token" (at authorized) claimed.0 claimed.1
verify_and_claim-Claimed_example =
    verify_and_claim-Claimed svc keys env4 "a1" "token" "h" "px" (at authorized) claimed.0 claimed.1
      claimed.2

token_fits_example : token_accepted keys "a1" "h" (keys.json_loads "token") ≡ ok true
unfolding token_accepted ep_governance.Value.get_field ep_governance.Value.value_eq str_eq
token_fits_example = refl

stored_example : find authorization_key "a1" (at authorized).authorizations ≡ some authorization
unfolding find str_eq
stored_example = refl

claim-succeeds_example :
    (r : ClaimResult) × (db' : Db) × (verify_and_claim svc keys env4 "a1" "token" "h" "px"
        (at authorized)
      ≡ (ok (some r), db'))
unfolding str_eq find text_ltb ep_governance.Table.affects
    ep_governance.Repositories.Authorizations.claimable
claim-succeeds_example =
    claim-succeeds svc keys env4 "a1" "token" "h" "px" (at authorized) authorization
      token_fits_example stored_example refl refl refl refl

issue_authorization-Entitles_example :
    Entitles capability true "ann" "pg" "postgres"
    × (a : Authorization) × (find authorization_key was_issued.0.authorization_id
          was_issued.1.authorizations
        ≡ some a)
    × (a.used ≡ false)
    × (a.agent_id ≡ "ann")
    × (a.transition_id ≡ "t1")
    × (a.payload_hash ≡ "h")
    × (a.token_hash ≡ svc.sha256 (to_signed_token keys was_issued.0))
issue_authorization-Entitles_example =
    issue_authorization-Entitles svc keys clock 300 true env3 5 "nonce" "t1" "ann" "p" "main" "pg"
      "postgres" "h" no_policies capability db0 was_issued.0 was_issued.1 was_issued.2

cancel-authority_example :
    (t : Transition) × (get_transition "t1" (at authorized) ≡ some t)
    × (is_in t.stage cancellable_stages ≡ true)
    × (("boss" ≡ t.agent_id) ⊎ (is_admin "boss" (at authorized) ≡ true))
    × (stage_at "t1" was_cancelled.1 ≡ some cancelled)
    × (get_transition "t1" was_cancelled.1 ≡ some was_cancelled.0)
cancel-authority_example =
    cancel-authority svc env2 "t1" "boss" (at authorized) was_cancelled.0 was_cancelled.1
      was_cancelled.2

commit-advances_example :
    (t : Transition) × (get_transition "t1" (at executing) ≡ some t)
    × (is_in t.stage committable ≡ true)
    × (head_matches none (get_head "main" (at executing)).0 ≡ true)
    × (version_at "main" (at executing) ≡ 0)
    × (committed.1 ≡ 1)
    × (get_head "main" committed.2 ≡ (some committed.0, committed.1))
    × (stage_at "t1" committed.2 ≡ some succeeded)
commit-advances_example =
    commit-advances svc env5 request (at executing) committed.0 committed.1 committed.2 committed.3

commit-once_example : ¬ (commit svc env5 request committed.2 ≡ ok ((committed.0, committed.1), db0))
commit-once_example =
    commit-once svc env5 request (at executing) committed.0 committed.1 committed.2 committed.2
      committed.3 start env5 request committed.0 committed.1 db0 refl refl
