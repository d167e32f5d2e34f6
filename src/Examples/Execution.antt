-- ===== src/Examples/Execution.antt =====
-- Witnesses for the theorems on executions of the proxy: the authorized transition of the example is
-- executed by a proxy for "pg".
use ep_governance.Prelude.{
  ℕ, String, ◌≡◌, refl, Bool, true, false, Option, none, some, List, [], ◌∷◌, codes,
}
use ep_governance.Authorizations.{Signing}
use ep_governance.Authorizations.Claim.{ClaimResult, verify_and_claim}
use ep_governance.Authorizations.Verify.{VerifiedToken, verify_token}
use ep_governance.Db.{Db, authorized}
use ep_governance.Examples.{svc, env2, env4, env5, at, clock, capability}
use ep_governance.Proxy.{
  Proxy, ProxyEnv, ExecutionResult, Adapter, returned, Execution, refused, executed,
  audience_mismatch, actual_payload_hash, transition_not_authorized,
}
use ep_governance.Errors.{ok}
use ep_governance.Proxy.Execute.{execute}
use ep_governance.Proxy.Reached.{ran}
use ep_governance.Proxy.Governed.{Governed, execute-Governed}
use ep_governance.Proxy.Outcome.{Noted, execute-outcome}
use ep_governance.Proxy.Refused.{execute-refused}
use ep_governance.Proxy.Single.{execute-once}
use ep_governance.Value.{Value, text, integer, null, object, field, end}
use ep_governance.Walk.Run.{start}

abbrev token_fields : Value
token_fields = object (
    field "authorization_id" (text "a1") (
      field "transition_id" (text "t1") (
        field "agent_id" (text "ann") (
          field "project_id" (text "p") (
            field "branch_id" (text "main") (
              field "proxy_audience" (text "pg") (
                field "tool" (text "postgres") (
                  field "payload_hash" (text "sha256:h") (
                    field "policy_set_hash" (text "") (
                      field "issued_at" (text "i") (
                        field "expires_at" (text "e")
                          (field "nonce" (text "n") (field "signature" (text "sig") end)))))))))))))

abbrev keys : Signing
keys = record { sign = λ _. "sig"; verify = λ _ _. true; json_loads = λ _. some token_fields }

abbrev strptime : String → Option ℕ
strptime _ = some 9

abbrev done : ExecutionResult
done = record {
  success = true;
  exit_status = "success";
  result_summary = "done";
  rows_affected = 1;
  output = null;
  execution_attempt_id = "attempt";
  started_at = "s";
  completed_at = "c";
  redacted = false;
}

abbrev proxy : Proxy
proxy = record {
  config = record { proxy_audience = "pg"; ep_service_principal_id = "px" };
  adapter = record { validate = λ _ _. none; run = λ _ _ _. returned done };
  get_classifier = λ _. none;
  policy_engine = none;
  has_transition_engine = true;
  has_branch_committer = true;
}

abbrev env : ProxyEnv
env = record {
  attempt_id = "attempt";
  started_at = "s";
  completed_at = "c";
  microseconds = 5;
  policy_now = "2025-01-01T00:00:04Z";
  conflict = false;
  claim = env4;
  commit = env5;
  record_env = env2;
}

abbrev payload : Value
payload = object end

abbrev after : Db
after =
    (execute svc keys clock strptime true proxy env "token" payload capability (at authorized)).1

runs :
    execute svc keys clock strptime true proxy env "token" payload capability (at authorized)
    ≡ (ok (executed done), after)
unfolding execute ep_governance.Deployment.require_binding_enforcement ep_governance.Prelude.str_eq
    verify_token ep_governance.Value.get_field ep_governance.Proxy.first_refusal
    ep_governance.Value.value_eq ep_governance.Prelude.any
    ep_governance.Repositories.Transitions.get_transition ep_governance.Table.find
    ep_governance.Tx.transaction ep_governance.Proxy.last_refusal ep_governance.Tx.◌>>=◌
    ep_governance.Authorizations.Claim.verify_and_claim_in_transaction
    ep_governance.Repositories.Authorizations.get_authorization
    ep_governance.Repositories.Authorizations.claim_authorization ep_governance.Table.affects
    ep_governance.Repositories.Authorizations.claimable ep_governance.Order.text_ltb
    ep_governance.Table.update_rows
    ep_governance.Repositories.Authorizations.update_execution_attempt_id
    ep_governance.Repositories.Transitions.update_stage ep_governance.Branches.commit
    ep_governance.Transitions.Outcome.commit_request ep_governance.Stages.is_in
    ep_governance.Repositories.Branches.get_head ep_governance.Repositories.Branches.insert_node
    ep_governance.Table.insert_row ep_governance.Repositories.Branches.update_head
    ep_governance.Repositories.Transitions.update_result
    ep_governance.Repositories.Transitions.exit_status_allowed
    ep_governance.Audit.write_event_in_transaction
runs = refl

execute-Governed_example :
    Governed svc keys strptime true proxy env "token" payload capability (at authorized)
execute-Governed_example =
    execute-Governed svc keys clock strptime true proxy env "token" payload capability
      (at authorized) (executed done) after runs (unfold ran in refl)

runs_again :
    execute svc keys clock strptime true proxy env "token" payload capability after
    ≡ (ok (refused transition_not_authorized), after)
unfolding execute ep_governance.Deployment.require_binding_enforcement ep_governance.Prelude.str_eq
    verify_token ep_governance.Value.get_field ep_governance.Proxy.first_refusal
    ep_governance.Value.value_eq ep_governance.Prelude.any
    ep_governance.Repositories.Transitions.get_transition ep_governance.Table.find
    ep_governance.Tx.transaction ep_governance.Proxy.last_refusal ep_governance.Tx.◌>>=◌
    ep_governance.Authorizations.Claim.verify_and_claim_in_transaction
    ep_governance.Repositories.Authorizations.get_authorization
    ep_governance.Repositories.Authorizations.claim_authorization ep_governance.Table.affects
    ep_governance.Repositories.Authorizations.claimable ep_governance.Order.text_ltb
    ep_governance.Table.update_rows
    ep_governance.Repositories.Authorizations.update_execution_attempt_id
    ep_governance.Repositories.Transitions.update_stage ep_governance.Branches.commit
    ep_governance.Transitions.Outcome.commit_request ep_governance.Stages.is_in
    ep_governance.Repositories.Branches.get_head ep_governance.Repositories.Branches.insert_node
    ep_governance.Table.insert_row ep_governance.Repositories.Branches.update_head
    ep_governance.Repositories.Transitions.update_result
    ep_governance.Repositories.Transitions.exit_status_allowed
    ep_governance.Audit.write_event_in_transaction
runs_again = refl

execute-once_example : ran (refused transition_not_authorized) ≡ false
execute-once_example =
    execute-once svc keys clock strptime true proxy env "token" payload capability (at authorized)
      (executed done) after after runs (unfold ran in refl) start clock strptime true proxy env
      payload capability (refused transition_not_authorized) after runs_again

execute-outcome_example :
    (t : VerifiedToken) × (id : String) × (verify_token keys strptime env.microseconds
        (keys.json_loads "token")
      ≡ ok (some t))
    × (t.transition_id ≡ text id)
    × (authorization_id : String) × (claim : ClaimResult) × (mid : Db) × (verify_and_claim svc keys
          env.claim authorization_id "token"
          (actual_payload_hash svc payload)
          "px"
          (at authorized)
        ≡ (ok (some claim), mid))
    × Noted svc env id done mid after
execute-outcome_example =
    execute-outcome svc keys clock strptime true proxy env "token" payload capability
      (at authorized) done after refl runs

abbrev elsewhere : Proxy
elsewhere = record proxy {
  config = record { proxy_audience = "files"; ep_service_principal_id = "px" };
}

abbrev untouched : Db
untouched =
    (execute svc keys clock strptime true elsewhere env "token" payload capability
      (at authorized)).1

misses :
    execute svc keys clock strptime true elsewhere env "token" payload capability (at authorized)
    ≡ (ok (refused audience_mismatch), untouched)
unfolding execute ep_governance.Deployment.require_binding_enforcement ep_governance.Prelude.str_eq
    verify_token ep_governance.Value.get_field ep_governance.Proxy.first_refusal
    ep_governance.Value.value_eq ep_governance.Prelude.any
    ep_governance.Repositories.Authorizations.claimable
misses = refl

execute-refused_example : untouched ≡ at authorized
execute-refused_example =
    execute-refused svc keys clock strptime true elsewhere env "token" payload capability
      (at authorized) audience_mismatch untouched misses
