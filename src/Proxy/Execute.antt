-- ===== src/Proxy/Execute.antt =====
-- `GovernedProxy.execute` itself: the claim, the adapter, and what is recorded.
use Prim.Native.String.{◌++◌ as append}
use ep_governance.Prelude.{ℕ, String, Bool, false, Option, none, some, str_eq, if◌then◌else◌}
use ep_governance.Authorizations.{Signing}
use ep_governance.Authorizations.Claim.{ClaimResult, verify_and_claim_in_transaction}
use ep_governance.Authorizations.Verify.{VerifiedToken, verify_token}
use ep_governance.Branches.{commit}
use ep_governance.Db.{Db, Transition}
use ep_governance.Deployment.{Clock, EnforcementCapability, require_binding_enforcement}
use ep_governance.Errors.{Error, Result, ok, err, illegal_transition, ep_error}
use ep_governance.Proxy.{
  Proxy, ProxyEnv, ExecutionResult, Attempt, returned, timed_out, raised, Execution, refused,
  executed, uncommitted, Refusal, capability_inactive, token_unverified, serialization_conflict,
  not_claimed, as_text, actual_payload_hash, first_refusal, last_refusal,
}
use ep_governance.Repositories.Transitions.{get_transition}
use ep_governance.Service.{Service}
use ep_governance.Transitions.Outcome.{Commitment, commit_request, record_result}
use ep_governance.Tx.{Tx, pure, lift, transaction, ◌>>=◌}
use ep_governance.Value.{Value, null, integer, object, end}

-- What the serializable transaction gives.
pub data Claiming : Type 0 where
  refuses : Refusal → Claiming
  holds : ClaimResult → Claiming

unfoldable pub claiming : Option ClaimResult → Claiming
claiming none = refuses not_claimed
claiming (some r) = holds r

-- Step 6, by the hash of the payload that came.
unfoldable pub claim_token :
    Service → Signing → Proxy → ProxyEnv → String → VerifiedToken → Value → Tx Claiming
unfolding claiming as_text
claim_token svc keys p env signed_token t payload = do
  id ← lift (as_text t.authorization_id)
  claimed ←
      verify_and_claim_in_transaction svc keys env.claim id signed_token
        (actual_payload_hash svc payload) p.config.ep_service_principal_id
  pure (claiming claimed)

unfoldable pub unless_refused : Option Refusal → Tx Claiming → Tx Claiming
unless_refused (some r) m = pure (refuses r)
unless_refused none m = m

-- Steps 5 to 6, in one transaction.
unfoldable pub revalidate_and_claim :
    Service → Signing → Proxy → ProxyEnv → String → VerifiedToken → Value → Tx Claiming
unfolding claim_token unless_refused
revalidate_and_claim svc keys p env signed_token t payload =
    unless_refused (last_refusal svc p env.policy_now t payload)
      (claim_token svc keys p env signed_token t payload)

-- `… (reference: <attempt>)`
referring : String → ProxyEnv → String
referring message env = append (append message env.attempt_id) ")"

-- A result of the proxy's own.
unfoldable pub own_result : ProxyEnv → String → String → ExecutionResult
own_result env exit_status result_summary = record {
  success = false;
  exit_status = exit_status;
  result_summary = result_summary;
  rows_affected = 0;
  output = null;
  execution_attempt_id = env.attempt_id;
  started_at = env.started_at;
  completed_at = env.completed_at;
  redacted = false;
}

-- Step 7.
unfoldable pub attempt_result : ProxyEnv → Attempt → ExecutionResult
unfolding own_result referring
attempt_result env (returned r) = record r {
  execution_attempt_id = env.attempt_id;
  started_at = env.started_at;
  completed_at = env.completed_at;
}
attempt_result env timed_out = own_result env "uncertain" "Execution timed out — outcome uncertain"
attempt_result env raised = own_result env "failure" (referring "Execution error (reference: " env)

-- Step 8, for an action that succeeded: the expectations that the transition stored, else the branch
-- as it is. The planning budget is zero.
abbrev pub proxy_commitment : Commitment
proxy_commitment = record {
  description = none;
  bt_planning_budget = integer 0;
  metadata = some (object end);
  expected_head_id = none;
  expected_version = none;
  lattice_id = none;
}

unfoldable pub commit_found :
    Service → ProxyEnv → String → Option Transition → Db → Result (String × ℕ) × Db
commit_found svc env summary none db = (err illegal_transition, db)
commit_found svc env summary (some t) db =
    transaction (commit svc env.commit (commit_request proxy_commitment t summary db)) db

unfoldable pub commit_execution :
    Service → ProxyEnv → String → String → Db → Result (String × ℕ) × Db
unfolding commit_found
commit_execution svc env transition_id summary db =
    commit_found svc env summary (get_transition transition_id db) db

unfoldable pub commit_lost : ProxyEnv → Execution
unfolding own_result referring
commit_lost env = uncommitted (
    own_result env "uncertain" (
      referring
        "Execution succeeded but governance commit failed — manual reconciliation required (reference: "
        env))

-- Where the commitment failed, the transition becomes uncertain, if that can be recorded.
unfoldable pub after_commitment :
    {A : Type 0}
    → Service
    → ProxyEnv
    → String
    → ExecutionResult
    → Result A × Db
    → Result Execution × Db
unfolding commit_lost referring
after_commitment svc env transition_id result (ok _, db) = (ok (executed result), db)
after_commitment svc env transition_id result (err _, db) = (
  ok (commit_lost env),
  (transaction
      (record_result svc env.record_env transition_id "timeout"
        (referring "Governance commitment failed — manual reconciliation required (reference: " env)
        none)
      db).1,
)

-- An exception of `record_result` leaves `execute`.
unfoldable pub after_record : {A : Type 0} → ExecutionResult → Result A × Db → Result Execution × Db
after_record result (ok _, db) = (ok (executed result), db)
after_record result (err e, db) = (err e, db)

-- Step 8, for the transition that the token names.
unfoldable pub record_execution :
    Service → Proxy → ProxyEnv → ExecutionResult → String → Db → Result Execution × Db
unfolding commit_execution after_commitment after_record
record_execution svc p env result transition_id db =
    if str_eq result.exit_status "success"
    then (if p.has_branch_committer
        then after_commitment svc env transition_id result
            (commit_execution svc env transition_id result.result_summary db)
        else (err ep_error, db))
    else after_record result (
        transaction
          (record_result svc env.record_env transition_id
            (if str_eq result.exit_status "failure" then "failure" else "timeout")
            result.result_summary none)
          db)

-- An identifier that is no text is refused by every statement: it loses a commitment, and is an
-- exception elsewhere.
unfoldable pub record_unnamed : Proxy → ProxyEnv → ExecutionResult → Error → Result Execution
unfolding commit_lost
record_unnamed p env result e =
    if str_eq result.exit_status "success"
    then (if p.has_branch_committer then ok (commit_lost env) else err ep_error)
    else err e

unfoldable pub record_named :
    Service → Proxy → ProxyEnv → ExecutionResult → Result String → Db → Result Execution × Db
unfolding record_execution record_unnamed
record_named svc p env result (err e) db = (record_unnamed p env result e, db)
record_named svc p env result (ok transition_id) db =
    record_execution svc p env result transition_id db

-- Steps 7 and 8, after the claim.
unfoldable pub perform :
    Service → Proxy → ProxyEnv → VerifiedToken → Value → Db → Result Execution × Db
unfolding attempt_result record_named
perform svc p env t payload db =
    let result = attempt_result env (p.adapter.run payload t env.attempt_id) in
    if p.has_transition_engine
    then record_named svc p env result (as_text t.transition_id) db
    else (ok (executed result), db)

unfoldable pub after_claim :
    Service
    → Proxy
    → ProxyEnv
    → VerifiedToken
    → Value
    → Result Claiming × Db
    → Result Execution × Db
unfolding perform
after_claim svc p env t payload (err e, db) = (err e, db)
after_claim svc p env t payload (ok (refuses r), db) = (ok (refused r), db)
after_claim svc p env t payload (ok (holds _), db) = perform svc p env t payload db

-- Steps 5 to 8. A conflict undoes the transaction.
unfoldable pub execute_checked :
    Service
    → Signing
    → Proxy
    → ProxyEnv
    → String
    → VerifiedToken
    → Value
    → Db
    → Result Execution × Db
unfolding after_claim revalidate_and_claim
execute_checked svc keys p env signed_token t payload db =
    if env.conflict
    then (ok (refused serialization_conflict), db)
    else after_claim svc p env t payload
        (transaction (revalidate_and_claim svc keys p env signed_token t payload) db)

unfoldable pub after_checks :
    Result (Option Refusal) → Db → Result Execution × Db → Result Execution × Db
after_checks (err e) db rest = (err e, db)
after_checks (ok (some r)) db rest = (ok (refused r), db)
after_checks (ok none) db rest = rest

unfoldable pub execute_verified :
    Service
    → Signing
    → Proxy
    → ProxyEnv
    → String
    → EnforcementCapability
    → Value
    → Result (Option VerifiedToken)
    → Db
    → Result Execution × Db
unfolding after_checks execute_checked
execute_verified svc keys p env signed_token c payload (err e) db = (err e, db)
execute_verified svc keys p env signed_token c payload (ok none) db =
    (ok (refused token_unverified), db)
execute_verified svc keys p env signed_token c payload (ok (some t)) db =
    after_checks (first_refusal svc p c t payload db) db
      (execute_checked svc keys p env signed_token t payload db)

unfoldable pub after_capability :
    Result (Unit {0}) → Db → Result Execution × Db → Result Execution × Db
after_capability (err _) db rest = (ok (refused capability_inactive), db)
after_capability (ok tt) db rest = rest

-- `strptime` reads a token's time of expiry, in microseconds.
unfoldable pub execute :
    Service
    → Signing
    → Clock
    → (String → Option ℕ)
    → Bool
    → Proxy
    → ProxyEnv
    → String
    → Value
    → EnforcementCapability
    → Db
    → Result Execution × Db
unfolding after_capability execute_verified
execute svc keys clock strptime production p env signed_token payload c db =
    after_capability (require_binding_enforcement clock env.microseconds production c) db (
      execute_verified svc keys p env signed_token c payload
        (verify_token keys strptime env.microseconds (keys.json_loads signed_token)) db)
