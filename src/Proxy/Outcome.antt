-- ===== src/Proxy/Outcome.antt =====
-- What an execution that ran the adapter leaves behind.
use ep_governance.Prelude.{
  ℕ, ◌+◌, ◌⊎◌, String, ◌≡◌, refl, ap, ◌∙◌, subst, Bool, true, false, Option, none, some, arith,
  Bool-cases, inl, inr, if◌then◌else◌, str_eq,
}
use ep_governance.Authorizations.{Signing}
use ep_governance.Authorizations.Claim.{ClaimResult, verify_and_claim}
use ep_governance.Authorizations.Verify.{VerifiedToken, verify_token}
use ep_governance.Branches.{commit}
use ep_governance.Branches.Optimistic.{commit-advances}
use ep_governance.Db.{Db, Transition, executing, succeeded}
use ep_governance.Deployment.{Clock, EnforcementCapability}
use ep_governance.Errors.{Result, ok, err}
use ep_governance.History.{stage_at}
use ep_governance.Proxy.{
  Proxy, ProxyEnv, Execution, ExecutionResult, executed, as_text, actual_payload_hash,
}
use ep_governance.Proxy.Execute.{
  perform, execute, record_named, record_unnamed, record_execution, after_commitment, after_record,
  commit_lost, attempt_result, commit_found, commit_execution, proxy_commitment,
}
use ep_governance.Proxy.Reached.{ran, execute-Reached, as_text-ok}
use ep_governance.Repositories.Branches.{get_head}
use ep_governance.Repositories.Transitions.{get_transition, transition_key}
use ep_governance.Table.Lookup.{find-key}
use ep_governance.Service.{Service}
use ep_governance.Transitions.Outcome.{commit_request}
use ep_governance.Transitions.Result.{outcome_stage, record_result-outcome}
use ep_governance.Tx.Inversion.{transaction-ok}
use ep_governance.Value.{Value, text}

after_commitment-executed :
    {A : Type 0} (svc : Service) (env : ProxyEnv) (id : String) (result : ExecutionResult)
    (r : Result A × Db) (x : ExecutionResult) (db' : Db)
    → after_commitment svc env id result r ≡ (ok (executed x), db')
    → (result ≡ x) × (a : A) × (r ≡ (ok a, db'))
unfolding after_commitment commit_lost
after_commitment-executed svc env id result (ok a, db) x db' h =
    (cc h, a, ap (λ d. (ok a, d)) (ap (λ z. z.1) h))
after_commitment-executed svc env id result (err e, db) x db' h = absurd (cc h)

after_record-executed :
    {A : Type 0} (result : ExecutionResult) (r : Result A × Db) (x : ExecutionResult) (db' : Db)
    → after_record result r ≡ (ok (executed x), db')
    → (result ≡ x) × (a : A) × (r ≡ (ok a, db'))
unfolding after_record
after_record-executed result (ok a, db) x db' h = (cc h, a, ap (λ d. (ok a, d)) (ap (λ z. z.1) h))
after_record-executed result (err e, db) x db' h = absurd (cc h)

-- The commitment of a success: `commit` ran in the database `db` for the transition as it is there,
-- and left a new node as the head of its branch and the transition succeeded.
pub record Committed (svc : Service) (env : ProxyEnv) (id summary : String) (db db' : Db)
    : Type 0 where
  pub row : Transition
  pub stored : get_transition id db ≡ some row
  pub node : String
  pub version : ℕ
  pub by_commit :
      commit svc env.commit (commit_request proxy_commitment row summary db) db
      ≡ ok ((node, version), db')
  pub advanced : version ≡ (commit_request proxy_commitment row summary db).expected_version + 1
  pub new_head : get_head row.branch_id db' ≡ (some node, version)
  pub has_succeeded : stage_at id db' ≡ some succeeded

-- The record of a result that is no success: the transition was executing, and is in the stage of the
-- result.
pub record Recorded (id status : String) (db db' : Db) : Type 0 where
  pub unsuccessful : str_eq status "success" ≡ false
  pub was_executing : stage_at id db ≡ some executing
  pub reached : stage_at id db' ≡ some (outcome_stage status)

-- What was done about a result, by its status.
abbrev pub Noted : Service → ProxyEnv → String → ExecutionResult → Db → Db → Type 0
Noted svc env id x db db' =
    ((str_eq x.exit_status "success" ≡ true) × Committed svc env id x.result_summary db db')
    ⊎ Recorded id x.exit_status db db'

commit_found-succeeded :
    (svc : Service) (env : ProxyEnv) (id summary : String) (o : Option Transition) (db : Db)
    (a : String × ℕ) (db' : Db)
    → get_transition id db ≡ o
    → commit_found svc env summary o db ≡ (ok a, db')
    → Committed svc env id summary db db'
unfolding commit_found get_transition
commit_found-succeeded svc env id summary none db a db' e h = absurd (cc h)
commit_found-succeeded svc env id summary (some t) db (n, v) db' e h =
    let ran = transaction-ok _ db (n, v) db' h in
    let (_, _, _, _, _, risen, head, done) =
      commit-advances svc env.commit (commit_request proxy_commitment t summary db) db n v db'
        ran in
    record {
      row = t;
      stored = e;
      node = n;
      version = v;
      by_commit = ran;
      advanced = risen;
      new_head = unfold commit_request in head;
      has_succeeded =
          subst (λ k. stage_at k db' ≡ some succeeded)
            (find-key transition_key id t db.transitions e) (unfold commit_request in done);
    }

-- The status that is recorded leads to the stage of the result's own.
recorded_stage :
    (s : String)
    → str_eq s "success" ≡ false
    → outcome_stage (if str_eq s "failure" then "failure" else "timeout") ≡ outcome_stage s
unfolding str_eq
recorded_stage s h = elim (Bool-cases (str_eq s "failure")) [
  | inl e ↦ rw (e, h) refl
  | inr e ↦ rw (e, h) refl
]

record_named-outcome :
    (svc : Service) (p : Proxy) (env : ProxyEnv) (result : ExecutionResult) (o : Result String)
    (db : Db) (x : ExecutionResult) (db' : Db)
    → record_named svc p env result o db ≡ (ok (executed x), db')
    → (id : String) × (o ≡ ok id) × (result ≡ x) × Noted svc env id result db db'
unfolding record_named record_execution record_unnamed commit_lost commit_execution
record_named-outcome svc p env result (err e) db x db' h = absurd (ground (arith, h))
record_named-outcome svc p env result (ok id) db x db' h =
    elim (Bool-cases (str_eq result.exit_status "success")) [
      | inr e ↦
          let (same, u, went) = after_record-executed result _ x db' (rw e at h) in
          let (before, at, _) =
            record_result-outcome svc env.record_env id _ _ none db u db'
              (transaction-ok _ db u db' went) in
          (
            id,
            refl,
            same,
            inr (record {
              unsuccessful = e;
              was_executing = before;
              reached = at ∙ ap some (recorded_stage result.exit_status e);
            }),
          )
      | inl e ↦ elim (Bool-cases p.has_branch_committer) [
        | inr f ↦ (let h' = rw (e, f) at h in absurd (ground (arith, h')))
        | inl f ↦
            let (same, a, went) =
              after_commitment-executed svc env id result _ x db' (rw (e, f) at h) in
            (id, refl, same, inl (e, commit_found-succeeded svc env id _ _ db a db' refl went))
      ]
    ]

if-executed :
    (b : Bool) (r s : Result Execution × Db) (z : Result Execution × Db)
    → b ≡ true
    → (if b then r else s) ≡ z
    → r ≡ z
if-executed true r s z e h = h
if-executed false r s z e h = absurd (cc)

-- Where an execution of a proxy with a transition engine reports the adapter's result, there is the
-- database after the claim in which the result was noted for the transition that the token names. A
-- success was noted by `commit`: the head of the transition's branch is a new node, with the next
-- version, and the transition has succeeded. Any other result was recorded for the transition, which
-- was executing: it is failed for a failure, and execution_uncertain for anything else.
pub execute-outcome :
    (svc : Service) (keys : Signing) (clock : Clock) (strptime : String → Option ℕ)
    (production : Bool) (p : Proxy) (env : ProxyEnv) (token : String) (payload : Value)
    (c : EnforcementCapability) (db : Db) (x : ExecutionResult) (db' : Db)
    → p.has_transition_engine ≡ true
    → execute svc keys clock strptime production p env token payload c db ≡ (ok (executed x), db')
    → (t : VerifiedToken) × (id : String) × (verify_token keys strptime env.microseconds
          (keys.json_loads token)
        ≡ ok (some t))
      × (t.transition_id ≡ text id)
      × (authorization_id : String) × (claim : ClaimResult) × (mid : Db) × (verify_and_claim svc
            keys env.claim authorization_id token
            (actual_payload_hash svc payload)
            p.config.ep_service_principal_id
            db
          ≡ (ok (some claim), mid))
      × Noted svc env id x mid db'
unfolding ran perform
execute-outcome svc keys clock strptime production p env token payload c db x db' has done =
    let reached =
      execute-Reached svc keys clock strptime production p env token payload c db (executed x) db'
        done refl in
    let t = reached.token_of in
    let result = attempt_result env (p.adapter.run payload t env.attempt_id) in
    let (id, named, same, at) =
      record_named-outcome svc p env result (as_text t.transition_id) reached.mid x db'
        (if-executed p.has_transition_engine _ _ _ has reached.performed) in
    (
      t,
      id,
      reached.verified,
      as_text-ok t.transition_id id named,
      reached.authorization_id,
      reached.claim,
      reached.mid,
      reached.claimed,
      subst (λ r. Noted svc env id r reached.mid db') same at,
    )
