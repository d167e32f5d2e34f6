-- ===== src/Deployment/Attested.antt =====
-- What an accepted attestation gives.
use ep_governance.Prelude.{
  ℕ, ◌+◌, ◌≤◌, ◌<◌, ◌≡◌, refl, ap, subst, String, true, false, Option, none, some, arith, str_eq,
  str_eq_iff,
}
use ep_governance.Authorizations.{Signing}
use ep_governance.Authorizations.Verify.{is_signed}
use ep_governance.Deployment.{ParsedTime, invalid, naive, aware, Clock, EnforcementCapability}
use ep_governance.Deployment.Attestation.{
  attestation_time, check_semantics, check_times, Expected, check_expected, check_capability,
  attested_fields, attest, from_signed_attestation, allowed_clock_skew,
  max_signed_attestation_lifetime,
}
use ep_governance.Deployment.Fields.{IsProxy, attested_fields-IsProxy, check_semantics-Semantics}
use ep_governance.Errors.{Result, ok, guard, ◌>>◌, >>=-ok, enforcement_unavailable}
use ep_governance.Service.{Service}
use ep_governance.Value.{Value, Fields, null, boolean, integer, text, array, object}

-- Two times that passed.
pub record InTime (clock : Clock) (now : ℕ) (c : EnforcementCapability) : Type 0 where
  pub expires : ℕ
  pub issued : ℕ
  pub reads_expires : clock.fromisoformat c.expires_at ≡ aware expires
  pub reads_issued : clock.fromisoformat c.issued_at ≡ aware issued
  pub unexpired : now < expires
  pub not_ahead : issued ≤ now + allowed_clock_skew
  pub short : expires ≤ issued + max_signed_attestation_lifetime

time-ok : (p : ParsedTime) (t : ℕ) → attestation_time p ≡ ok t → p ≡ aware t
unfolding attestation_time
time-ok (aware s) t h = ap aware (ground (arith, h))
time-ok (naive s) t h = absurd (cc)
time-ok invalid t h = absurd (cc)

check_times-ok :
    (now expires issued : ℕ)
    → check_times now expires issued ≡ ok tt
    → (now < expires)
      × (issued ≤ now + allowed_clock_skew)
      × (expires ≤ issued + max_signed_attestation_lifetime)
unfolding check_times
check_times-ok now expires issued h = (ground (arith, h), ground (arith, h), ground (arith, h))

unit-ok : (r : Result (Unit {0})) (u : Unit {0}) → r ≡ ok u → r ≡ ok tt
unit-ok r tt h = h

-- What the verifier expected is there.
abbrev pub Meets : Option String → String → Type 0
Meets expected found = (e : String) → expected ≡ some e → str_eq e "" ≡ false → found ≡ e

check_expected-Meets :
    (expected : Option String) (found : String)
    → check_expected expected found ≡ ok tt
    → Meets expected found
unfolding check_expected
check_expected-Meets none found h e q n = absurd (cc q)
check_expected-Meets (some x) found h e q n =
    let same : x ≡ e = ground (arith, q) in ground (arith, h, same, n, str_eq_iff found x)

pub record Expectations (expected : Expected) (c : EnforcementCapability) : Type 0 where
  pub principal : Meets expected.proxy_principal_id c.proxy_principal_id
  pub audience : Meets expected.proxy_audience c.proxy_audience
  pub deployment : Meets expected.deployment_id c.deployment_id
  pub target : Meets expected.target_id c.target_id

check_capability-ok :
    (clock : Clock) (now : ℕ) (expected : Expected) (c c' : EnforcementCapability)
    → check_capability clock now expected c ≡ ok c'
    → (c ≡ c') × InTime clock now c × Expectations expected c
unfolding check_capability
check_capability-ok clock now expected c c' h =
    let (expires, e, h1) = >>=-ok (attestation_time (clock.fromisoformat c.expires_at)) _ h in
    let (issued, i, h2) = >>=-ok (attestation_time (clock.fromisoformat c.issued_at)) _ h1 in
    let (u4, t4, h3) = >>=-ok _ _ h2 in
    let (u3, t3, k3) = >>=-ok _ _ t4 in
    let (u2, t2, k2) = >>=-ok _ _ t3 in
    let (u1, t1, k1) = >>=-ok _ _ t2 in
    let (u0, t0, k0) = >>=-ok _ _ t1 in
    let (lt, ahead, short) = check_times-ok now expires issued (unit-ok _ u0 t0) in
    (
      ground (arith, h3),
      record {
        expires = expires;
        issued = issued;
        reads_expires = time-ok _ expires e;
        reads_issued = time-ok _ issued i;
        unexpired = lt;
        not_ahead = ahead;
        short = short;
      },
      record {
        principal = check_expected-Meets expected.proxy_principal_id _ (unit-ok _ u1 k0);
        audience = check_expected-Meets expected.proxy_audience _ (unit-ok _ u2 k1);
        deployment = check_expected-Meets expected.deployment_id _ (unit-ok _ u3 k2);
        target = check_expected-Meets expected.target_id _ (unit-ok _ u4 k3);
      },
    )

-- What the verifier knows of a capability that it accepted.
pub record Attested (svc : Service) (keys : Signing) (clock : Clock) (now : ℕ) (expected : Expected)
    (attestation : String) (c : EnforcementCapability) : Type 0 where
  pub fields : Fields
  pub is_document : keys.json_loads attestation ≡ some (object fields)
  pub signed : is_signed keys fields ≡ true
  pub proxy : IsProxy svc attestation fields c
  pub times : InTime clock now c
  pub expectations : Expectations expected c

attest-Attested :
    (svc : Service) (keys : Signing) (clock : Clock) (now : ℕ) (expected : Expected)
    (attestation : String) (o : Option Value) (c : EnforcementCapability)
    → keys.json_loads attestation ≡ o
    → attest svc keys clock now expected attestation o ≡ ok c
    → Attested svc keys clock now expected attestation c
unfolding attest
attest-Attested svc keys clock now expected attestation none c e h = absurd (cc h)
attest-Attested svc keys clock now expected attestation (some (object d)) c e h =
    let (c', made, h1) =
      >>=-ok
        (guard (is_signed keys d) enforcement_unavailable
          >> check_semantics d
          >> attested_fields svc attestation d)
        _ h in
    let (u, sound, fields) =
      >>=-ok (guard (is_signed keys d) enforcement_unavailable >> check_semantics d) _ made in
    let (u', passed, semantics) =
      >>=-ok (guard (is_signed keys d) enforcement_unavailable) _ sound in
    let (same, times, expectations) = check_capability-ok clock now expected c' c h1 in
    record {
      fields = d;
      is_document = e;
      signed = ground (arith, passed);
      proxy = subst (IsProxy svc attestation d) same (
          attested_fields-IsProxy svc attestation d c'
            (check_semantics-Semantics d (unit-ok _ u semantics)) fields);
      times = subst (InTime clock now) same times;
      expectations = subst (Expectations expected) same expectations;
    }
attest-Attested svc keys clock now expected attestation (some null) c e h = absurd (cc h)
attest-Attested svc keys clock now expected attestation (some (boolean b)) c e h = absurd (cc h)
attest-Attested svc keys clock now expected attestation (some (integer n)) c e h = absurd (cc h)
attest-Attested svc keys clock now expected attestation (some (text s)) c e h = absurd (cc h)
attest-Attested svc keys clock now expected attestation (some (array xs)) c e h = absurd (cc h)

pub from_signed_attestation-Attested :
    (svc : Service) (keys : Signing) (clock : Clock) (now : ℕ) (expected : Expected)
    (attestation : String) (c : EnforcementCapability)
    → from_signed_attestation svc keys clock now expected attestation ≡ ok c
    → Attested svc keys clock now expected attestation c
unfolding from_signed_attestation
from_signed_attestation-Attested svc keys clock now expected attestation c h =
    attest-Attested svc keys clock now expected attestation _ c refl h
