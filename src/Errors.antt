-- ===== src/Errors.antt =====
-- The exceptions of src/ep_governance/errors.py that the modelled code raises, those of the
-- database, and the result of code that may raise.
use ep_governance.Prelude.{◌≡◌, refl, Bool, true, false, Option, none, some}

pub data Error : Type 0 where
  config_error authorization_error missing_policy_context separation_of_duties : Error
  illegal_transition approval_already_decided stale_head : Error
  token_invalid audit_write_error enforcement_unavailable : Error
  -- pydantic's `ValueError`, a constraint of the schema, and any exception of the CEL library
  validation_error integrity_error cel_error : Error
  -- Python's own `TypeError` and `AttributeError`
  type_error attribute_error : Error
  -- `XIDError`, and `OverflowError` of `int.to_bytes`
  xid_error overflow_error : Error
  -- `EPError` itself, and `PolicyIntegrityError`
  ep_error policy_integrity_error : Error

-- What code that may raise gives.
pub data Result {ℓ} (Value : Type ℓ) : Type ℓ where
  err : Error → Result Value
  ok : Value → Result Value

-- `if x is None: raise e`
abbrev pub require {ℓ} : {A : Type ℓ} → Option A → Error → Result A
require (some a) _ = ok a
require none e = err e

-- `if not b: raise e`
abbrev pub guard : Bool → Error → Result (Unit {0})
guard false e = err e
guard true _ = ok tt

infixl 5 ◌>>=◌ ◌>>◌
-- An exception ends the block.
abbrev pub ◌>>=◌ {κ ℓ} : {X : Type κ} {Y : Type ℓ} → Result X → (X → Result Y) → Result Y
err e >>= _ = err e
ok x >>= next = next x

abbrev pub ◌>>◌ {ℓ} : {Y : Type ℓ} → Result (Unit {0}) → Result Y → Result Y
check >> rest = check >>= λ _. rest

-- What a step gave, where the whole succeeded.
pub >>=-ok {κ ℓ} :
    {X : Type κ} {Y : Type ℓ} (step : Result X) (next : X → Result Y) {y : Y}
    → (step >>= next) ≡ ok y
    → (x : X) × (step ≡ ok x) × (next x ≡ ok y)
>>=-ok (err e) next succeeded = cc
>>=-ok (ok x) next succeeded = (x, refl, succeeded)
