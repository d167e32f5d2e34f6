-- ===== src/Deployment/Fields.antt =====
-- The fields of an attestation, and the capability that is made from them.
use ep_governance.Prelude.{
  ◌≡◌, refl, ap, subst, String, true, false, not, List, [], ◌∷◌, ◌∙◌, arith, str_eq, codes,
  is_empty,
}
use ep_governance.Authorizations.Claim.{get_or}
use ep_governance.Value.Equality.{value_text}
use ep_governance.Deployment.{EnforcementCapability}
use ep_governance.Deployment.Attestation.{
  item, nonempty_text, nonempty_texts, distinct, action_types, check_semantics, is_true, text_of,
  attested, attested_fields,
}
use ep_governance.Errors.{ok, guard, >>=-ok, enforcement_unavailable}
use ep_governance.Service.{Service}
use ep_governance.Value.{
  Value, Items, Fields, null, boolean, integer, text, array, object, nil, cons, value_eq,
}

ok-inj : {A : Type 0} {a b : A} → ok a ≡ ok b → a ≡ b
ok-inj h = cc

-- A list of texts as the elements of a JSON array.
pub items_of : List String → Items
items_of [] = nil
items_of (s ∷ rest) = cons (text s) (items_of rest)

-- The fields of the document, and the capability that was made from them: one for a proxy, with
-- enforcement active, that is named.
pub record IsProxy (svc : Service) (attestation : String) (d : Fields) (c : EnforcementCapability)
    : Type 0 where
  pub version : value_eq (get_or "schema_version" (integer 1) d) (integer 1) ≡ true
  pub enforces : item "effective_mode" d ≡ text "enforced"
  pub says_active : item "binding_enforcement_active" d ≡ boolean true
  pub says_scoped : item "proxy_scoped" d ≡ boolean true
  pub says_proxy : item "agent_principal_id" d ≡ text "proxy"
  pub says_principal : item "proxy_principal_id" d ≡ text c.proxy_principal_id
  pub says_audience : item "proxy_audience" d ≡ text c.proxy_audience
  pub says_deployment : item "deployment_id" d ≡ text c.deployment_id
  pub says_target : item "target_id" d ≡ text c.target_id
  pub says_issued : item "issued_at" d ≡ text c.issued_at
  pub says_expires : item "expires_at" d ≡ text c.expires_at
  pub says_types : item "supported_action_types" d ≡ array (items_of c.supported_action_types)
  pub mode : c.effective_mode ≡ "enforced"
  pub active : c.binding_enforcement_active ≡ true
  pub scoped : c.proxy_scoped ≡ true
  pub for_proxy : c.agent_principal_id ≡ "proxy"
  pub trusted : c.trust_level ≡ "signed_attestation"
  pub digest : c.attestation_digest ≡ svc.sha256 (codes attestation)
  pub expiring : str_eq c.expires_at "" ≡ false
  pub named : str_eq c.proxy_principal_id "" ≡ false
  pub heard : str_eq c.proxy_audience "" ≡ false
  pub limited : is_empty c.supported_action_types ≡ false
  pub unrepeated : distinct c.supported_action_types ≡ true

is_true-boolean : (v : Value) → is_true v ≡ true → v ≡ boolean true
unfolding is_true
is_true-boolean (boolean b) h = ap boolean h
is_true-boolean null h = absurd (cc h)
is_true-boolean (integer n) h = absurd (cc h)
is_true-boolean (text s) h = absurd (cc h)
is_true-boolean (array xs) h = absurd (cc h)
is_true-boolean (object fs) h = absurd (cc h)

-- What the checks of the mode have shown.
pub record Semantics (d : Fields) : Type 0 where
  pub versioned : value_eq (get_or "schema_version" (integer 1) d) (integer 1) ≡ true
  pub enforced : item "effective_mode" d ≡ text "enforced"
  pub is_active : item "binding_enforcement_active" d ≡ boolean true
  pub is_scoped : item "proxy_scoped" d ≡ boolean true
  pub is_proxy : item "agent_principal_id" d ≡ text "proxy"

pub check_semantics-Semantics : (d : Fields) → check_semantics d ≡ ok tt → Semantics d
unfolding check_semantics
check_semantics-Semantics d h = record {
  versioned = ground (arith, h);
  enforced = value_text "enforced" _ (ground (arith, h));
  is_active = is_true-boolean _ (ground (arith, h));
  is_scoped = is_true-boolean _ (ground (arith, h));
  is_proxy = value_text "proxy" _ (ground (arith, h));
}

nonempty_text-ok :
    (v : Value) (s : String) → nonempty_text v ≡ ok s → (v ≡ text s) × (str_eq s "" ≡ false)
unfolding nonempty_text
nonempty_text-ok (text r) s h =
    let (u, passed, same) = >>=-ok (guard (not (str_eq r "")) enforcement_unavailable) _ h in
    let e : r ≡ s = ground (arith, same) in
    (ap text e, subst (λ x. str_eq x "" ≡ false) e (ground (arith, passed)))
nonempty_text-ok null s h = absurd (cc)
nonempty_text-ok (boolean b) s h = absurd (cc)
nonempty_text-ok (integer n) s h = absurd (cc)
nonempty_text-ok (array xs) s h = absurd (cc)
nonempty_text-ok (object fs) s h = absurd (cc)

nonempty_texts-ok :
    (vs : Items) (types : List String) → nonempty_texts vs ≡ ok types → vs ≡ items_of types
unfolding nonempty_texts items_of
nonempty_texts-ok nil types h = ap items_of (ok-inj h)
nonempty_texts-ok (cons v vs) types h =
    let (s, first, h1) = >>=-ok (nonempty_text v) _ h in
    let (rest, others, h2) = >>=-ok (nonempty_texts vs) _ h1 in
    ap (λ x. cons x vs) (nonempty_text-ok v s first).0
    ∙ ap (cons (text s)) (nonempty_texts-ok vs rest others)
    ∙ ap items_of (ok-inj h2)

items_of-cons :
    (v : Value) (vs : Items) (types : List String)
    → cons v vs ≡ items_of types
    → is_empty types ≡ false
unfolding items_of
items_of-cons v vs [] h = absurd (cc h)
items_of-cons v vs (s ∷ rest) h = refl

action_types-ok :
    (v : Value) (types : List String)
    → action_types v ≡ ok types
    → (v ≡ array (items_of types)) × (is_empty types ≡ false) × (distinct types ≡ true)
unfolding action_types
action_types-ok (array nil) types h = absurd (cc)
action_types-ok (array (cons v vs)) types h =
    let (found, got, h1) = >>=-ok (nonempty_texts (cons v vs)) _ h in
    let (u, unlike, h2) = >>=-ok (guard (distinct found) enforcement_unavailable) _ h1 in
    let same : found ≡ types = ok-inj h2 in
    let e : cons v vs ≡ items_of types =
      nonempty_texts-ok (cons v vs) found got ∙ ap items_of same in
    let d : distinct found ≡ true = ground (arith, unlike) in
    (ap array e, items_of-cons v vs types e, subst (λ ts. distinct ts ≡ true) same d)
action_types-ok null types h = absurd (cc)
action_types-ok (boolean b) types h = absurd (cc)
action_types-ok (integer n) types h = absurd (cc)
action_types-ok (text s) types h = absurd (cc)
action_types-ok (object fs) types h = absurd (cc)

pub attested_fields-IsProxy :
    (svc : Service) (attestation : String) (d : Fields) (c : EnforcementCapability)
    → Semantics d
    → attested_fields svc attestation d ≡ ok c
    → IsProxy svc attestation d c
unfolding attested_fields
attested_fields-IsProxy svc attestation d c sem h =
    let (principal, p, h1) = >>=-ok (nonempty_text (item "proxy_principal_id" d)) _ h in
    let (audience, a, h2) = >>=-ok (nonempty_text (item "proxy_audience" d)) _ h1 in
    let (deployment, n, h3) = >>=-ok (nonempty_text (item "deployment_id" d)) _ h2 in
    let (target, t, h4) = >>=-ok (nonempty_text (item "target_id" d)) _ h3 in
    let (issued, i, h5) = >>=-ok (nonempty_text (item "issued_at" d)) _ h4 in
    let (expires, x, h6) = >>=-ok (nonempty_text (item "expires_at" d)) _ h5 in
    let (types, y, h7) = >>=-ok (action_types (item "supported_action_types" d)) _ h6 in
    let same : attested svc attestation d issued expires principal audience deployment target types
        ≡ c =
      ok-inj h7 in
    let (listed, limited, unrepeated) = action_types-ok _ types y in
    subst (IsProxy svc attestation d) same (
      unfold attested in
      record {
        version = sem.versioned;
        enforces = sem.enforced;
        says_active = sem.is_active;
        says_scoped = sem.is_scoped;
        says_proxy = sem.is_proxy;
        says_principal = (nonempty_text-ok _ principal p).0;
        says_audience = (nonempty_text-ok _ audience a).0;
        says_deployment = (nonempty_text-ok _ deployment n).0;
        says_target = (nonempty_text-ok _ target t).0;
        says_issued = (nonempty_text-ok _ issued i).0;
        says_expires = (nonempty_text-ok _ expires x).0;
        says_types = listed;
        mode = unfold text_of in ap text_of sem.enforced;
        active = unfold is_true in ap is_true sem.is_active;
        scoped = unfold is_true in ap is_true sem.is_scoped;
        for_proxy = unfold text_of in ap text_of sem.is_proxy;
        trusted = refl;
        digest = refl;
        expiring = (nonempty_text-ok _ expires x).1;
        named = (nonempty_text-ok _ principal p).1;
        heard = (nonempty_text-ok _ audience a).1;
        limited = limited;
        unrepeated = unrepeated;
      })
