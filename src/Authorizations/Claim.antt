-- ===== src/Authorizations/Claim.antt =====
-- `AuthorizationEngine.verify_and_claim`: a token is checked, claimed once, and its transition moves
-- to executing.
use ep_governance.Prelude.{
  String, Bool, true, false, not, Option, none, some, str_eq, codes, ◌==◌, if◌then◌else◌,
}
use ep_governance.Authorizations.{Signing, without}
use ep_governance.Db.{Db, Authorization, authorized, executing}
use ep_governance.Errors.{Result, ok, err, attribute_error}
use ep_governance.Repositories.Authorizations.{
  get_authorization, claim_authorization, update_execution_attempt_id,
}
use ep_governance.Repositories.Transitions.{update_stage}
use ep_governance.Service.{Service, Env}
use ep_governance.Tx.{Tx, pure, raise, gets, transaction, ◌>>=◌, ◌>>◌}
use ep_governance.Value.{
  Value, Fields, null, boolean, integer, text, array, object, nil, cons, end, field, get_field,
  value_eq,
}
use ep_governance.Value.Canonical.{canonical_json}

-- `bool(v)`
unfoldable pub truthy : Value → Bool
truthy null = false
truthy (boolean b) = b
truthy (integer n) = not (n == 0)
truthy (text s) = not (str_eq s "")
truthy (array nil) = false
truthy (array (cons _ _)) = true
truthy (object end) = false
truthy (object (field _ _ _)) = true

-- `d.get(key, default)`
unfoldable pub get_or : String → Value → Fields → Value
get_or key default fields = elim (get_field key fields) [ none ↦ default | some v ↦ v ]

-- Steps 2 to 4, for the token's fields.
unfoldable pub token_fits : Signing → String → String → Fields → Bool
unfolding truthy get_or
token_fits keys authorization_id payload_hash token =
    if not (truthy (get_or "signature" (text "") token))
    then false
    else if not (
        keys.verify (canonical_json (object (without "signature" token)))
          (get_or "signature" (text "") token))
    then false
    else if not (value_eq (text payload_hash) (get_or "payload_hash" (text "") token))
    then false
    else value_eq (get_or "authorization_id" null token) (text authorization_id)

-- Steps 1 to 4: a token that does not parse or fit is no token, and a JSON value that is no object
-- has no `get`.
unfoldable pub token_accepted : Signing → String → String → Option Value → Result Bool
unfolding token_fits
token_accepted keys authorization_id payload_hash none = ok false
token_accepted keys authorization_id payload_hash (some (object token)) =
    ok (token_fits keys authorization_id payload_hash token)
token_accepted keys authorization_id payload_hash (some _) = err attribute_error

-- A SAVEPOINT that is rolled back where its code returns `none` or raises.
abbrev pub kept : {A : Type 0} → Db → Result (Option A × Db) → Result (Option A × Db)
kept before (ok (none, _)) = ok (none, before)
kept before (ok (some a, after)) = ok (some a, after)
kept before (err e) = err e

unfoldable pub savepoint : {A : Type 0} → Tx (Option A) → Tx (Option A)
savepoint m db = kept db (m db)

-- After the claim: the attempt is stored and the transition advances.
unfoldable pub begin_execution : Env → String → Option Authorization → Tx (Option Authorization)
begin_execution env authorization_id none = pure none
begin_execution env authorization_id (some claimed) = do
  update_execution_attempt_id authorization_id (env.xid 0)
  if str_eq claimed.transition_id "" then pure none else do
    updated ← update_stage claimed.transition_id executing (some authorized) (env.now 1)
    if updated then pure (some claimed) else pure none

unfoldable pub claim_and_advance : Env → String → String → String → Tx (Option Authorization)
unfolding begin_execution
claim_and_advance env authorization_id proxy_principal_id token_hash = do
  claimed ← claim_authorization authorization_id proxy_principal_id (some token_hash) (env.now 0)
  begin_execution env authorization_id claimed

pub record ClaimResult : Type 0 where
  pub authorization_id : String
  pub transition_id : String
  pub execution_attempt_id : String
  pub payload_hash : String
  pub policy_set_hash : String
  pub proxy_principal_id : String

unfoldable pub claim_result : Env → String → String → Option Authorization → Option ClaimResult
claim_result env authorization_id proxy_principal_id none = none
claim_result env authorization_id proxy_principal_id (some claimed) = some (record {
  authorization_id = authorization_id;
  transition_id = claimed.transition_id;
  execution_attempt_id = env.xid 0;
  payload_hash = claimed.payload_hash;
  policy_set_hash = claimed.policy_set_hash;
  proxy_principal_id = proxy_principal_id;
})

-- Whether the stored row is for this token.
unfoldable pub hash_matches : String → Option Authorization → Bool
hash_matches token_hash none = false
hash_matches token_hash (some stored) =
    if str_eq stored.token_hash "" then false else str_eq token_hash stored.token_hash

-- Steps 7 and 8.
unfoldable pub claim_matched : Env → String → String → String → Tx (Option ClaimResult)
unfolding claim_and_advance claim_result savepoint
claim_matched env authorization_id token_hash proxy_principal_id = do
  claimed ← savepoint (claim_and_advance env authorization_id proxy_principal_id token_hash)
  pure (claim_result env authorization_id proxy_principal_id claimed)

-- Steps 5 to 8.
unfoldable pub claim_accepted : Service → Env → String → String → String → Tx (Option ClaimResult)
unfolding hash_matches claim_matched
claim_accepted svc env authorization_id signed_token proxy_principal_id = do
  let token_hash = svc.sha256 (codes signed_token)
  stored ← gets (get_authorization authorization_id)
  if hash_matches token_hash stored
      then claim_matched env authorization_id token_hash proxy_principal_id
      else pure none

unfoldable pub verify_and_claim_in_transaction :
    Service → Signing → Env → String → String → String → String → Tx (Option ClaimResult)
unfolding token_accepted claim_accepted
verify_and_claim_in_transaction svc keys env authorization_id signed_token payload_hash
      proxy_principal_id =
    elim (token_accepted keys authorization_id payload_hash (keys.json_loads signed_token)) [
      | err e ↦ raise e
      | ok false ↦ pure none
      | ok true ↦ claim_accepted svc env authorization_id signed_token proxy_principal_id
    ]

unfoldable pub verify_and_claim :
    Service
    → Signing
    → Env
    → String
    → String
    → String
    → String
    → Db
    → Result (Option ClaimResult) × Db
verify_and_claim svc keys env authorization_id signed_token payload_hash proxy_principal_id db =
    transaction
      (verify_and_claim_in_transaction svc keys env authorization_id signed_token payload_hash
        proxy_principal_id)
      db

-- `check_stale_authorization`: an authorization that is not there is stale.
unfoldable pub check_stale_authorization : String → String → Db → Bool
check_stale_authorization authorization_id current_policy_set_hash db =
    elim (get_authorization authorization_id db) [
      | none ↦ true
      | some a ↦
          if str_eq a.policy_set_hash ""
          then not (str_eq current_policy_set_hash "")
          else not (str_eq a.policy_set_hash current_policy_set_hash)
    ]
