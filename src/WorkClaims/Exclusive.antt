-- ===== src/WorkClaims/Exclusive.antt =====
-- A region has one active claim at most, and what becomes of it when it is released.
use ep_governance.Prelude.{
  String, ◌≡◌, refl, sym, ap, ◌∙◌, Bool, true, false, ◌&&◌, ◌||◌, Option, none, some, List, [], ◌∷◌,
  ◌++◌, any, arith, str_eq, str_eq_iff, str_eq_refl, if◌then◌else◌, Bool-cases, inl, inr,
}
use ep_governance.Errors.{Result, ok}
use ep_governance.Table.{update_rows}
use ep_governance.WorkClaims.{
  Dialect, sqlite, postgres, WorkClaim, claim_key, is_active, same_region, conflicts, new_claim,
  taken, claim, set_released, release, Claims, begin, claims, releases,
}

-- A claim that excludes others.
unfoldable pub holds : String → String → WorkClaim → Bool
unfolding same_region is_active
holds branch_id region c = same_region branch_id region c && is_active c

-- No two rows hold the region.
unfoldable pub exclusive : String → String → List WorkClaim → Bool
unfolding holds
exclusive b r [] = true
exclusive b r (c ∷ rest) =
    let later = exclusive b r rest in
    if holds b r c then (if any (holds b r) rest then false else later) else later

abbrev pub IsExclusive : List WorkClaim → Type 0
IsExclusive rows = (b r : String) → exclusive b r rows ≡ true

any-append :
    (p : WorkClaim → Bool) (xs : List WorkClaim) (c : WorkClaim)
    → any p (xs ++ c ∷ []) ≡ (any p xs || p c)
unfolding any
any-append p [] c = ground arith
any-append p (x ∷ xs) c = ground (arith, any-append p xs c)

exclusive-append :
    (b r : String) (rows : List WorkClaim) (c : WorkClaim)
    → exclusive b r rows ≡ true
    → (holds b r c ≡ true → any (holds b r) rows ≡ false)
    → exclusive b r (rows ++ c ∷ []) ≡ true
unfolding exclusive any
exclusive-append b r [] c h free = ground arith
exclusive-append b r (x ∷ rows) c h free =
    ground (arith, exclusive-append b r rows c, any-append (holds b r) rows c)

any-weaken :
    (p q : WorkClaim → Bool) (xs : List WorkClaim)
    → ((x : WorkClaim) → p x ≡ true → q x ≡ true)
    → any q xs ≡ false
    → any p xs ≡ false
unfolding any
any-weaken p q [] h none_of = refl
any-weaken p q (x ∷ xs) h none_of = ground (arith, h x, any-weaken p q xs h)

-- Both indexes set every active claim of the region against a new one.
holds-conflicts :
    (dialect : Dialect) (b r : String) (c : WorkClaim)
    → holds b r c ≡ true
    → conflicts dialect b r c ≡ true
unfolding holds conflicts
holds-conflicts sqlite b r c h = ground arith
holds-conflicts postgres b r c h = ground arith

holds-new :
    (b r id now agent_id b' r' : String)
    → holds b r (new_claim id now agent_id b' r') ≡ true
    → (b' ≡ b) × (r' ≡ r)
unfolding holds new_claim
holds-new b r id now agent_id b' r' h =
    (ground (arith, str_eq_iff b' b), ground (arith, str_eq_iff r' r))

claim-IsExclusive :
    (dialect : Dialect) (id now agent_id b' r' : String) (rows : List WorkClaim)
    → IsExclusive rows
    → IsExclusive (claim dialect id now agent_id b' r' rows).1
unfolding claim
claim-IsExclusive dialect id now agent_id b' r' rows h b r =
    elim (Bool-cases (any (conflicts dialect b' r') rows)) [
      | inl e ↦ rw e (h b r)
      | inr e ↦ elim (Bool-cases (any (λ c. str_eq c.id id) rows)) [
        | inl f ↦ rw (e, f) (h b r)
        | inr f ↦
            rw (e, f)
              (exclusive-append b r rows (new_claim id now agent_id b' r') (h b r) λ held.
                let (eb, er) = holds-new b r id now agent_id b' r' held in
                any-weaken (holds b r) (conflicts dialect b' r') rows
                  (λ x k.
                    holds-conflicts dialect b' r' x
                      (ap (λ z. holds z r' x) eb ∙ ap (λ z. holds b z x) er ∙ k))
                  e)
      ]
    ]

-- A release makes no row hold a region.
any-released :
    (b r id now : String) (rows : List WorkClaim)
    → any (holds b r) (update_rows claim_key is_active (set_released now) id rows) ≡ true
    → any (holds b r) rows ≡ true
unfolding any update_rows holds set_released
any-released b r id now [] h = h
any-released b r id now (c ∷ rows) h = ground (arith, any-released b r id now rows)

release-exclusive :
    (b r id now : String) (rows : List WorkClaim)
    → exclusive b r rows ≡ true
    → exclusive b r (update_rows claim_key is_active (set_released now) id rows) ≡ true
unfolding update_rows exclusive holds set_released
release-exclusive b r id now [] h = h
release-exclusive b r id now (c ∷ rows) h =
    ground (arith, release-exclusive b r id now rows, any-released b r id now rows)

-- In every run of claims and releases from an empty table, whatever the database, no two active
-- claims are for the same region of the same branch.
pub Claims-IsExclusive :
    (dialect : Dialect) {rows : List WorkClaim} → Claims dialect [] rows → IsExclusive rows
unfolding release
Claims-IsExclusive dialect begin = λ b r. unfold exclusive in refl
Claims-IsExclusive dialect (claims id now agent_id b' r' run) =
    claim-IsExclusive dialect id now agent_id b' r' _ (Claims-IsExclusive dialect run)
Claims-IsExclusive dialect (releases id now run) =
    λ b r. release-exclusive b r id now _ (Claims-IsExclusive dialect run b r)

any-update :
    (b r id now : String) (rows : List WorkClaim)
    → any (same_region b r) (update_rows claim_key is_active (set_released now) id rows)
      ≡ any (same_region b r) rows
unfolding any update_rows set_released same_region
any-update b r id now [] = refl
any-update b r id now (c ∷ rows) = ground (arith, any-update b r id now rows)

-- A row of the region stays one.
claim-keeps :
    (id now agent_id b' r' b r : String) (rows : List WorkClaim)
    → any (same_region b r) rows ≡ true
    → any (same_region b r) (claim sqlite id now agent_id b' r' rows).1 ≡ true
unfolding claim
claim-keeps id now agent_id b' r' b r rows h =
    elim (Bool-cases (any (conflicts sqlite b' r') rows)) [
      | inl e ↦ rw e h
      | inr e ↦ elim (Bool-cases (any (λ c. str_eq c.id id) rows)) [
        | inl f ↦ rw (e, f) h
        | inr f ↦
            rw (e, f)
              (ground
                (arith, h, any-append (same_region b r) rows (new_claim id now agent_id b' r')))
      ]
    ]

Claims-keep :
    (b r : String) {rows later : List WorkClaim}
    → any (same_region b r) rows ≡ true
    → Claims sqlite rows later
    → any (same_region b r) later ≡ true
unfolding release
Claims-keep b r h begin = h
Claims-keep b r h (claims id now agent_id b' r' run) =
    claim-keeps id now agent_id b' r' b r _ (Claims-keep b r h run)
Claims-keep b r h (releases {mid} id now run) = any-update b r id now mid ∙ Claims-keep b r h run

refused-if : {A : Type 0} (t : Bool) (x y : A) → t ≡ true → (if t then x else y) ≡ x
refused-if true x y e = refl
refused-if false x y e = absurd (cc)

-- A claim that gave a row added it.
added :
    (t u : Bool) (d c : WorkClaim) (rows rows' : List WorkClaim)
    → ◌≡◌ {A = Result (Option WorkClaim) × List WorkClaim}
        (if t
          then (ok none, rows)
          else if u
          then (ok none, rows)
          else (ok (some d), rows ++ d ∷ []))
        (ok (some c), rows')
    → rows ++ d ∷ [] ≡ rows'
added true u d c rows rows' h = absurd (cc (ap (λ z. z.0) h))
added false true d c rows rows' h = absurd (cc (ap (λ z. z.0) h))
added false false d c rows rows' h = ap (λ z. z.1) h

same_region-new :
    (id now agent_id b r : String) → same_region b r (new_claim id now agent_id b r) ≡ true
unfolding same_region new_claim
same_region-new id now agent_id b r = ground (arith, str_eq_refl b, str_eq_refl r)

claimed-region :
    (id now agent_id b r : String) (rows : List WorkClaim) (c : WorkClaim) (rows' : List WorkClaim)
    → claim sqlite id now agent_id b r rows ≡ (ok (some c), rows')
    → any (same_region b r) rows' ≡ true
unfolding claim taken
claimed-region id now agent_id b r rows c rows' h =
    let d : WorkClaim = new_claim id now agent_id b r in
    ap (any (same_region b r)) (
      sym
        (added (any (conflicts sqlite b r) rows) (any (λ x. str_eq x.id id) rows) d c rows rows' h))
    ∙ ground (arith, any-append (same_region b r) rows d, same_region-new id now agent_id b r)

-- On SQLite a region that was claimed once is never claimed again, though it is released.
pub claim-sqlite_once :
    (id now agent_id b r : String) (rows : List WorkClaim) (c : WorkClaim)
    (rows' later : List WorkClaim)
    → claim sqlite id now agent_id b r rows ≡ (ok (some c), rows')
    → Claims sqlite rows' later
    → (id' now' agent_id' : String) → claim sqlite id' now' agent_id' b r later ≡ (ok none, later)
unfolding claim
claim-sqlite_once id now agent_id b r rows c rows' later h run id' now' agent_id' =
    refused-if (any (conflicts sqlite b r) later) _ _
      (unfold conflicts in Claims-keep b r (claimed-region id now agent_id b r rows c rows' h) run)
