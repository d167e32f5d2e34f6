-- ===== src/Audit/Tampering.antt =====
-- What the verifier of the audit log detects.
use ep_governance.Prelude.{String, ◌≡◌, sym, ◌∙◌, true, List, [], ◌∷◌, ◌++◌, arith, str_eq_iff}
use ep_governance.Db.{AuditEvent}
use ep_governance.Service.{Service}
use ep_governance.Audit.{recompute_hash, to_envelope, verify_rows}
use ep_governance.Value.Canonical.{canonical_json}

verify_rows-parts :
    (svc : Service) (p : String) (e : AuditEvent) (rows : List AuditEvent)
    → verify_rows svc p (e ∷ rows) ≡ true
    → (recompute_hash svc e ≡ e.event_hash)
      × (e.previous_hash ≡ p)
      × (verify_rows svc e.event_hash rows ≡ true)
unfolding verify_rows
verify_rows-parts svc p e rows h =
    ground (arith, str_eq_iff (recompute_hash svc e) e.event_hash, str_eq_iff e.previous_hash p)

-- If the verifier accepts a chain, and also the chain without one of its rows other than the last,
-- then the digest of that row's canonical envelope is the hash that the envelope itself names as the
-- previous one.
pub verify_rows-removed :
    (svc : Service) (p : String) (before : List AuditEvent) (e next : AuditEvent)
    (after : List AuditEvent)
    → verify_rows svc p (before ++ e ∷ next ∷ after) ≡ true
    → verify_rows svc p (before ++ next ∷ after) ≡ true
    → svc.sha256 (canonical_json (to_envelope e)) ≡ e.previous_hash
verify_rows-removed svc p [] e next after h h' =
    let (sealed, named, rest) = verify_rows-parts svc p e (next ∷ after) h in
    let (_, linked, _) = verify_rows-parts svc e.event_hash next after rest in
    let (_, linked', _) = verify_rows-parts svc p next after h' in
    unfold recompute_hash in sealed ∙ sym linked ∙ linked' ∙ sym named
verify_rows-removed svc p (x ∷ before) e next after h h' =
    verify_rows-removed svc x.event_hash before e next after
      (verify_rows-parts svc p x (before ++ e ∷ next ∷ after) h).2
      (verify_rows-parts svc p x (before ++ next ∷ after) h').2
