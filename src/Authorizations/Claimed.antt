-- ===== src/Authorizations/Claimed.antt =====
-- What a claim that succeeds has checked and done.
use ep_governance.Prelude.{
  String, ◌≡◌, refl, sym, ap, ◌∙◌, subst, true, false, Option, none, some, List, arith, str_eq_iff,
  str_eq_refl, codes, Option-cases, inl, inr,
}
use ep_governance.Authorizations.Claim.{
  claim_accepted, claim_and_advance, begin_execution, savepoint, kept, hash_matches, claim_matched,
  ClaimResult, claim_result,
}
use ep_governance.Db.{Db, Authorization, Transition, authorized, executing}
use ep_governance.Errors.{Result, ok, err}
use ep_governance.History.{stage_at, stage_of, same_stage-eq}
use ep_governance.Order.{text_ltb}
use ep_governance.Repositories.Authorizations.{
  authorization_key, get_authorization, claim_authorization, claimable, set_used, set_attempt,
  update_execution_attempt_id, any_row,
}
use ep_governance.Repositories.Transitions.{update_stage, transition_key, at_stage, set_stage}
use ep_governance.Service.{Service, Env}
use ep_governance.Table.{find, update_rows, affects}
use ep_governance.Table.Lookup.{find-update_rows}
use ep_governance.Stages.{same_stage}
use ep_governance.Tx.Inversion.{bind-ok, gets-ok, if-ok, pure-ok}
use ep_governance.Tx.{Tx, pure, ◌>>=◌}

-- The row that a successful UPDATE claimed, before and after it.
claim_parts :
    (id proxy h now : String) (db : Db) (c : Authorization) (mid : Db)
    → claim_authorization id proxy (some h) now db ≡ ok (some c, mid)
    → (a : Authorization) × (find authorization_key id db.authorizations ≡ some a)
      × (claimable (some h) now a ≡ true)
      × (c ≡ set_used now a)
      × (mid.transitions ≡ db.transitions)
      × (find authorization_key id mid.authorizations ≡ some (set_used now a))
unfolding claim_authorization ◌>>=◌ affects
claim_parts id proxy h now db c mid ran =
    elim (Option-cases (find authorization_key id db.authorizations)) [
      | inl e ↦ absurd (ground (arith, e))
      | inr (a, e) ↦
          let t : claimable (some h) now a ≡ true = ground (arith, e) in
          let later : find authorization_key id mid.authorizations ≡ some (set_used now a) =
            ground (
              arith,
              e,
              t,
              str_eq_refl id,
              find-update_rows authorization_key (claimable (some h) now) (set_used now) id id
                  db.authorizations (λ r. refl),
            ) in
          (a, e, t, ground (arith, e, t, later), ground (arith, e, t), later)
    ]

-- What follows a claim.
begin_parts :
    (env : Env) (id : String) (claimed : Option Authorization) (mid : Db) (c : Authorization)
    (db' : Db)
    → begin_execution env id claimed mid ≡ ok (some c, db')
    → (claimed ≡ some c)
      × (affects transition_key (at_stage (some authorized)) c.transition_id mid.transitions ≡ true)
      × (db'.transitions
          ≡ update_rows transition_key
              (at_stage (some authorized))
              (set_stage executing (env.now 1))
              c.transition_id
              mid.transitions)
      × (db'.authorizations
          ≡ update_rows authorization_key any_row (set_attempt (env.xid 0)) id mid.authorizations)
unfolding begin_execution update_execution_attempt_id update_stage ◌>>=◌
begin_parts env id none mid c db' ran = absurd (ground arith)
begin_parts env id (some claimed) mid c db' ran =
    (ground arith, ground arith, ground arith, ground arith)

advance_parts :
    (env : Env) (id proxy h : String) (db : Db) (c : Authorization) (db' : Db)
    → claim_and_advance env id proxy h db ≡ ok (some c, db')
    → (mid : Db) × (claim_authorization id proxy (some h) (env.now 0) db ≡ ok (some c, mid))
      × (begin_execution env id (some c) mid ≡ ok (some c, db'))
unfolding claim_and_advance
advance_parts env id proxy h db c db' ran =
    let (claimed, mid, e, began) = bind-ok _ _ db (some c) db' ran in
    let same = (begin_parts env id claimed mid c db' began).0 in
    (mid, e ∙ ap (λ o. ok (o, mid)) same, ap (λ o. begin_execution env id o mid) (sym same) ∙ began)

-- A savepoint that keeps a result kept its code's writes.
savepoint-some :
    {A : Type 0} (m : Tx (Option A)) (db : Db) (a : A) (db' : Db)
    → savepoint m db ≡ ok (some a, db')
    → m db ≡ ok (some a, db')
unfolding savepoint
savepoint-some {A} m db a db' ran = go (m db) refl ran
  where
    go :
        (r : Result (Option A × Db))
        → m db ≡ r
        → kept db r ≡ ok (some a, db')
        → m db ≡ ok (some a, db')
    go (ok (none, mid)) e h = absurd (cc)
    go (ok (some x, mid)) e h = e ∙ h
    go (err x) e h = absurd (cc)

-- The result names the authorization, its transition, its payload and the attempt.
abbrev pub Reports : Env → String → Authorization → ClaimResult → Type 0
Reports env id a r =
    (r.authorization_id ≡ id)
    × (r.transition_id ≡ a.transition_id)
    × (r.execution_attempt_id ≡ env.xid 0)
    × (r.payload_hash ≡ a.payload_hash)

claim_result-some :
    (env : Env) (id proxy : String) (o : Option Authorization) (r : ClaimResult)
    → claim_result env id proxy o ≡ some r
    → (c : Authorization) × (o ≡ some c) × Reports env id c r
unfolding claim_result
claim_result-some env id proxy none r h = absurd (cc)
claim_result-some env id proxy (some c) r h =
    (c, refl, (ground arith, ground arith, ground arith, ground arith))

matched_parts :
    (env : Env) (id h proxy : String) (db : Db) (r : ClaimResult) (db' : Db)
    → claim_matched env id h proxy db ≡ ok (some r, db')
    → (c : Authorization) × (claim_and_advance env id proxy h db ≡ ok (some c, db'))
      × Reports env id c r
unfolding claim_matched
matched_parts env id h proxy db r db' ran =
    let (claimed, mid, kept_it, done) = bind-ok _ _ db (some r) db' ran in
    let (e, same) = pure-ok _ mid (some r) db' done in
    let (c, e', rest) = claim_result-some env id proxy claimed r e in
    (
      c,
      savepoint-some (claim_and_advance env id proxy h) db c db'
          (kept_it ∙ ap (λ o. ok (o, mid)) e' ∙ ap (λ x. ok (some c, x)) same),
      rest,
    )

accepted_parts :
    (svc : Service) (env : Env) (id token proxy : String) (db : Db) (r : ClaimResult) (db' : Db)
    → claim_accepted svc env id token proxy db ≡ ok (some r, db')
    → (hash_matches (svc.sha256 (codes token)) (get_authorization id db) ≡ true)
      × (c : Authorization) × (claim_and_advance env id proxy (svc.sha256 (codes token)) db
          ≡ ok (some c, db'))
      × Reports env id c r
unfolding claim_accepted
accepted_parts svc env id token proxy db r db' ran =
    let h = svc.sha256 (codes token) in
    elim (if-ok (hash_matches h (get_authorization id db)) (claim_matched env id h proxy)
      (pure none) db (some r) db' (gets-ok (get_authorization id) _ db (some r) db' ran)) [
        | inl (matches, ran') ↦
            let (c, advanced, reports) = matched_parts env id h proxy db r db' ran' in
            (matches, c, advanced, reports)
        | inr (fails, ran') ↦ absurd (unfold pure in cc ran')
      ]

-- What holds of a claim that gave `r` and took the database from `db` to `db'`.
pub record Claimed (svc : Service) (env : Env) (id token : String) (db : Db) (r : ClaimResult)
    (db' : Db) : Type 0 where
  pub stored : Authorization
  pub was_stored : find authorization_key id db.authorizations ≡ some stored
  pub was_unused : stored.used ≡ false
  pub was_unexpired : text_ltb (codes (env.now 0)) (codes stored.expires_at) ≡ true
  pub was_bound : stored.token_hash ≡ svc.sha256 (codes token)
  pub was_authorized : stage_at stored.transition_id db ≡ some authorized
  pub is_executing : stage_at stored.transition_id db' ≡ some executing
  pub is_used :
      find authorization_key id db'.authorizations
      ≡ some (set_attempt (env.xid 0) (set_used (env.now 0) stored))
  pub reports : Reports env id stored r

claimable-parts :
    (h now : String) (a : Authorization)
    → claimable (some h) now a ≡ true
    → (a.used ≡ false) × (text_ltb (codes now) (codes a.expires_at) ≡ true) × (a.token_hash ≡ h)
unfolding claimable
claimable-parts h now a t = (ground arith, ground arith, ground (arith, str_eq_iff a.token_hash h))

stage-advanced :
    (k now : String) (rows rows' : List Transition)
    → affects transition_key (at_stage (some authorized)) k rows ≡ true
    → rows'
      ≡ update_rows transition_key (at_stage (some authorized)) (set_stage executing now) k rows
    → (stage_of (find transition_key k rows) ≡ some authorized)
      × (stage_of (find transition_key k rows') ≡ some executing)
unfolding affects
stage-advanced k now rows rows' hit e = elim (Option-cases (find transition_key k rows)) [
  | inl q ↦ absurd (ground (arith, q))
  | inr (t, q) ↦
      let at : same_stage t.stage authorized ≡ true = ground (arith, q) in
      (
        ap stage_of q ∙ ap some (same_stage-eq t.stage authorized at),
        ap (λ rs. stage_of (find transition_key k rs)) e
            ∙ ground (
              arith,
              q,
              at,
              str_eq_refl k,
              find-update_rows transition_key (at_stage (some authorized)) (set_stage executing now)
                  k k rows (λ r. refl),
            ),
      )
]

attempted :
    (id attempt : String) (a : Authorization) (rows : List Authorization)
    → find authorization_key id rows ≡ some a
    → find authorization_key id
        (update_rows authorization_key any_row (set_attempt attempt) id rows)
      ≡ some (set_attempt attempt a)
attempted id attempt a rows found = ground (
  arith,
  found,
  str_eq_refl id,
  find-update_rows authorization_key any_row (set_attempt attempt) id id rows (λ r. refl),
)

pub claim_accepted-Claimed :
    (svc : Service) (env : Env) (id token proxy : String) (db : Db) (r : ClaimResult) (db' : Db)
    → claim_accepted svc env id token proxy db ≡ ok (some r, db')
    → Claimed svc env id token db r db'
claim_accepted-Claimed svc env id token proxy db r db' ran =
    let h = svc.sha256 (codes token) in
    let (matches, c, advanced, reports) = accepted_parts svc env id token proxy db r db' ran in
    let (mid, claimed, began) = advance_parts env id proxy h db c db' advanced in
    let (a, found, fits, row, same, used) = claim_parts id proxy h (env.now 0) db c mid claimed in
    let (_, hit, moved, stored) = begin_parts env id (some c) mid c db' began in
    let (unused, unexpired, bound) = claimable-parts h (env.now 0) a fits in
    let same_id : c.transition_id ≡ a.transition_id = ap (λ x. x.transition_id) row in
    let (before, after) =
      stage-advanced c.transition_id (env.now 1) mid.transitions db'.transitions hit moved in
    record {
      stored = a;
      was_stored = found;
      was_unused = unused;
      was_unexpired = unexpired;
      was_bound = bound;
      was_authorized =
          ap (λ k. stage_at k db) (sym same_id)
          ∙ ap (λ rows. stage_of (find transition_key c.transition_id rows)) (sym same)
          ∙ before;
      is_executing = ap (λ k. stage_at k db') (sym same_id) ∙ after;
      is_used =
          ap (find authorization_key id) stored
          ∙ attempted id (env.xid 0) (set_used (env.now 0) a) mid.authorizations used;
      reports = subst (λ x. Reports env id x r) row reports;
    }
