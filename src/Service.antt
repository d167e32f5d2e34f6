-- ===== src/Service.antt =====
-- What the engines are given from outside.
use ep_governance.Prelude.{ℕ, String, List}

-- The service's own principal, and `hashlib.sha256(text.encode("utf-8")).hexdigest()` as a
-- function of the text's code points.
pub record Service : Type 0 where
  pub sha256 : List ℕ → String
  pub ep_service_principal_id : String

-- What one operation reads from the world: the identifiers that its calls of `XID.new()` return and
-- the texts that its readings of the clock return, each with an index of its own.
pub record Env : Type 0 where
  pub xid : ℕ → String
  pub now : ℕ → String
