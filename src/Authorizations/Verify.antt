-- ===== src/Authorizations/Verify.antt =====
-- `AuthorizationEngine.verify_token`: a token that is checked and not claimed.
use ep_governance.Prelude.{ℕ, String, Bool, false, not, Option, none, some, ltb, if◌then◌else◌}
use ep_governance.Authorizations.{Signing, without}
use ep_governance.Authorizations.Claim.{truthy, get_or}
use ep_governance.Errors.{Result, ok, err, attribute_error, type_error}
use ep_governance.Value.{Value, Fields, text, object, end, get_field}
use ep_governance.Value.Canonical.{canonical_json}

-- The token's fields, as JSON has them: nothing says that they are texts.
pub record VerifiedToken : Type 0 where
  pub authorization_id : Value
  pub transition_id : Value
  pub agent_id : Value
  pub project_id : Value
  pub branch_id : Value
  pub proxy_audience : Value
  pub tool : Value
  pub payload_hash : Value
  pub policy_set_hash : Value
  pub matched_policy_versions : Value
  pub issued_at : Value
  pub expires_at : Value
  pub nonce : Value
  pub signature : Value

-- What may end with an exception, with `None`, or with a value.
infixl 5 ◌then◌
abbrev ◌then◌ : {A B : Type 0} → Option A → (A → Option B) → Option B
none then f = none
(some a) then f = f a

-- Versions that are given as a text are JSON again.
policy_versions : Signing → Value → Value
policy_versions keys (text s) = elim (keys.json_loads s) [ none ↦ object end | some v ↦ v ]
policy_versions keys v = v

-- Step 4: a missing key is no token.
unfoldable pub rebuild : Signing → Fields → Option VerifiedToken
unfolding policy_versions get_or
rebuild keys d = get_field "authorization_id" d then λ authorization_id.
    get_field "transition_id" d then λ transition_id. get_field "agent_id" d then λ agent_id.
    get_field "project_id" d then λ project_id. get_field "branch_id" d then λ branch_id.
    get_field "proxy_audience" d then λ proxy_audience. get_field "tool" d then λ tool.
    get_field "payload_hash" d then λ payload_hash.
    get_field "policy_set_hash" d then λ policy_set_hash. get_field "issued_at" d then λ issued_at.
    get_field "expires_at" d then λ expires_at. get_field "nonce" d then λ nonce. some (record {
      authorization_id = authorization_id;
      transition_id = transition_id;
      agent_id = agent_id;
      project_id = project_id;
      branch_id = branch_id;
      proxy_audience = proxy_audience;
      tool = tool;
      payload_hash = payload_hash;
      policy_set_hash = policy_set_hash;
      matched_policy_versions =
          policy_versions keys (get_or "matched_policy_versions" (object end) d);
      issued_at = issued_at;
      expires_at = expires_at;
      nonce = nonce;
      signature = get_or "signature" (text "") d;
    })

-- Step 3, with the instant that `strptime` reads; `none` is its `ValueError`.
unfoldable pub unexpired : ℕ → Option ℕ → Bool
unexpired now none = false
unexpired now (some expires) = not (ltb expires now)

-- Steps 2 to 4. A time that is no text is a `TypeError` of `strptime`.
unfoldable pub verified :
    Signing → (String → Option ℕ) → ℕ → Fields → Value → Result (Option VerifiedToken)
unfolding rebuild unexpired
verified keys strptime now d (text s) =
    if unexpired now (strptime s) then ok (rebuild keys d) else ok none
verified keys strptime now d _ = err type_error

-- Step 2.
unfoldable pub is_signed : Signing → Fields → Bool
unfolding truthy get_or
is_signed keys d =
    if truthy (get_or "signature" (text "") d)
    then keys.verify (canonical_json (object (without "signature" d)))
        (get_or "signature" (text "") d)
    else false

unfoldable pub verify_fields :
    Signing → (String → Option ℕ) → ℕ → Fields → Result (Option VerifiedToken)
unfolding verified is_signed
verify_fields keys strptime now d =
    let expires = get_or "expires_at" (text "") d in
    let rest = verified keys strptime now d expires in
    if is_signed keys d then (if truthy expires then rest else ok none) else ok none

-- `now` and `strptime` are in microseconds.
unfoldable pub verify_token :
    Signing → (String → Option ℕ) → ℕ → Option Value → Result (Option VerifiedToken)
unfolding verify_fields
verify_token keys strptime now none = ok none
verify_token keys strptime now (some (object d)) = verify_fields keys strptime now d
verify_token keys strptime now (some _) = err attribute_error
