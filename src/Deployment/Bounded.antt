-- ===== src/Deployment/Bounded.antt =====
-- How long the capability of an accepted attestation can be used.
use ep_governance.Prelude.{ℕ, ◌+◌, ◌≤◌, ◌<◌, ◌≡◌, String, Bool, arith, str_eq_iff}
use ep_governance.Authorizations.{Signing}
use ep_governance.Deployment.{
  aware, Clock, EnforcementCapability, require_binding_enforcement, require_proxy_scoped,
}
use ep_governance.Deployment.Attestation.{
  Expected, from_signed_attestation, allowed_clock_skew, max_signed_attestation_lifetime,
}
use ep_governance.Errors.{ok, err, enforcement_unavailable}
use ep_governance.Service.{Service}
use ep_governance.Value.{Fields}
use ep_governance.Deployment.Attested.{from_signed_attestation-Attested}
use ep_governance.Deployment.Fields.{IsProxy}

binding-active :
    (svc : Service) (attestation : String) (d : Fields) (clock : Clock) (now : ℕ)
    (production : Bool) (c : EnforcementCapability) (expires : ℕ)
    → IsProxy svc attestation d c
    → clock.fromisoformat c.expires_at ≡ aware expires
    → now ≤ expires
    → require_binding_enforcement clock now production c ≡ ok tt
unfolding require_binding_enforcement
binding-active svc attestation d clock now production c expires is e le = ground (
  arith,
  is.active,
  is.trusted,
  is.expiring,
  e,
  le,
  str_eq_iff c.trust_level "signed_attestation",
)

binding-expired :
    (svc : Service) (attestation : String) (d : Fields) (clock : Clock) (now : ℕ)
    (production : Bool) (c : EnforcementCapability) (expires : ℕ)
    → IsProxy svc attestation d c
    → clock.fromisoformat c.expires_at ≡ aware expires
    → expires < now
    → require_binding_enforcement clock now production c ≡ err enforcement_unavailable
unfolding require_binding_enforcement
binding-expired svc attestation d clock now production c expires is e lt =
    ground (arith, is.active, is.expiring, e, lt)

proxy-scoped :
    (svc : Service) (attestation : String) (d : Fields) (c : EnforcementCapability)
    → IsProxy svc attestation d c
    → require_proxy_scoped c ≡ ok tt
unfolding require_proxy_scoped
proxy-scoped svc attestation d c is = ground (arith, is.scoped, is.named, is.heard)

-- The capability of an accepted attestation can be used at once, in production too, wherever binding
-- enforcement or a proxy's scope is required, and is refused from five minutes and an hour later on,
-- whatever time of expiry it names.
pub from_signed_attestation-bounded :
    (svc : Service) (keys : Signing) (clock : Clock) (now : ℕ) (expected : Expected)
    (attestation : String) (c : EnforcementCapability) (production : Bool) (later : ℕ)
    → from_signed_attestation svc keys clock now expected attestation ≡ ok c
    → now + allowed_clock_skew + max_signed_attestation_lifetime < later
    → (require_binding_enforcement clock now production c ≡ ok tt)
      × (require_proxy_scoped c ≡ ok tt)
      × (require_binding_enforcement clock later production c ≡ err enforcement_unavailable)
from_signed_attestation-bounded svc keys clock now expected attestation c production later h lt =
    let all = from_signed_attestation-Attested svc keys clock now expected attestation c h in
    let times = all.times in
    (
      binding-active svc attestation all.fields clock now production c times.expires all.proxy
          times.reads_expires (omega (arith, times.unexpired)),
      proxy-scoped svc attestation all.fields c all.proxy,
      binding-expired svc attestation all.fields clock later production c times.expires all.proxy
          times.reads_expires (omega (arith, times.short, times.not_ahead, lt)),
    )
