-- ===== src/Authorizations.antt =====
-- src/ep_governance/authorizations.py: the tokens of `AuthorizationEngine`, issued and claimed.
pub mod Issue
pub mod Issued
pub mod Claim
pub mod Claimed
pub mod Once
pub mod Liveness
pub mod Verify
use ep_governance.Prelude.{String, Bool, true, false, not, Option, none, some, List, str_eq}
use ep_governance.Value.{Value, Fields, end, field}
use ep_governance.Prelude.{ℕ, if◌then◌else◌}

-- PyNaCl and the json module: the hexadecimal Ed25519 signature of a message, whether a public key
-- accepts a signature (a signature that is no hexadecimal text is not accepted), and `json.loads`,
-- `none` where it raises. Messages are given by their code points.
pub record Signing : Type 0 where
  pub sign : List ℕ → String
  pub verify : List ℕ → Value → Bool
  pub json_loads : String → Option Value

-- `{k: v for k, v in d.items() if k != key}`
unfoldable pub without : String → Fields → Fields
without key end = end
without key (field k v fs) = if str_eq k key then without key fs else field k v (without key fs)
