-- ===== src/Examples/Tampering.antt =====
-- Witnesses for the theorems on tampering with the log.
use ep_governance.Prelude.{ℕ, String, ◌≡◌, refl, true, [], ◌∷◌, str_eq}
use ep_governance.Audit.{genesis_hash, verify_rows, to_envelope}
use ep_governance.Audit.Tampering.{verify_rows-removed}
use ep_governance.Db.{AuditEvent}
use ep_governance.Examples.{svc}
use ep_governance.Value.{null}
use ep_governance.Value.Canonical.{canonical_json}
use ep_governance.Examples.Policy.{now}

-- Events, under a digest that is always the same.
abbrev event_of : String → ℕ → String → AuditEvent
event_of type n previous = record {
  id = "e";
  lattice_id = "l";
  sequence = n;
  event_type = type;
  event_data = null;
  previous_hash = previous;
  event_hash = "h";
  actor_principal_id = "ann";
  authenticated_caller_id = "ann";
  event_writer_id = "ep";
  created_at = now;
}

-- Three rows, the second of which names its own hash.
three_rows :
    verify_rows svc genesis_hash
      (event_of "a" 1 genesis_hash ∷ event_of "b" 2 "h" ∷ event_of "c" 3 "h" ∷ [])
    ≡ true
unfolding verify_rows str_eq ep_governance.Audit.recompute_hash
three_rows = refl

two_rows :
    verify_rows svc genesis_hash (event_of "a" 1 genesis_hash ∷ event_of "c" 3 "h" ∷ []) ≡ true
unfolding verify_rows str_eq ep_governance.Audit.recompute_hash
two_rows = refl

verify_rows-removed_example : svc.sha256 (canonical_json (to_envelope (event_of "b" 2 "h"))) ≡ "h"
verify_rows-removed_example =
    verify_rows-removed svc genesis_hash (event_of "a" 1 genesis_hash ∷ []) (event_of "b" 2 "h")
      (event_of "c" 3 "h") [] three_rows two_rows
