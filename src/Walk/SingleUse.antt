-- ===== src/Walk/SingleUse.antt =====
-- What every run does to the authorizations.
use ep_governance.Prelude.{
  String, ◌≡◌, refl, sym, ◌∙◌, subst, Bool, true, false, Option, none, some, List, arith, str_eq,
  str_eq_iff, if◌then◌else◌, Bool-cases, inl, inr,
}
use ep_governance.Db.{Db, Authorization}
use ep_governance.Errors.{ok}
use ep_governance.Frames.{
  SameAuthorizations, insert_transition-beside, update_stage-beside, advance_stage-beside,
  update_result-beside, set_flag-beside, create_request-beside, decide-beside, add_policies-beside,
  update_head-beside, insert_node-beside, mark_superseded-beside, insert_edge-beside,
  write_event-beside,
}
use ep_governance.Repositories.Authorizations.{
  authorization_key, insert_authorization, claim_authorization, claimable, set_used, set_attempt,
  update_execution_attempt_id, any_row,
}
use ep_governance.Service.{Service}
use ep_governance.Table.{find, insert_row, update_rows, affects}
use ep_governance.Table.Lookup.{find-update_rows, find-insert_row, insert_row-fresh, changed}
use ep_governance.Tx.{◌>>=◌}
use ep_governance.Tx.Along.{Along, Preorder, Along-mono}
use ep_governance.Walk.{Statements, every}
use ep_governance.Walk.Run.{Run, Run-along}

-- What an authorization binds: all of it but its use.
abbrev pub terms : Authorization → Authorization
terms a = record a { used = false; used_at = none; execution_attempt_id = none }

-- The second row is the first one, perhaps used since.
abbrev pub Keeps : Option Authorization → Option Authorization → Type 0
Keeps none after = Unit
Keeps (some a) none = ⊥
Keeps (some a) (some b) = (terms b ≡ terms a) × (a.used ≡ true → b.used ≡ true)

abbrev pub Preserves : Db → Db → Type 0
Preserves db db' =
    (id : String)
    → Keeps (find authorization_key id db.authorizations)
        (find authorization_key id db'.authorizations)

Keeps-refl : (o : Option Authorization) → Keeps o o
Keeps-refl none = tt
Keeps-refl (some a) = (refl, λ h. h)

pub Keeps-trans : (a b c : Option Authorization) → Keeps a b → Keeps b c → Keeps a c
Keeps-trans none b c f g = tt
Keeps-trans (some x) none c f g = elim f [ ]
Keeps-trans (some x) (some y) none f g = elim g [ ]
Keeps-trans (some x) (some y) (some z) (e, f) (d, g) = (d ∙ e, λ h. g (f h))

Preserves-preorder : Preorder Preserves
Preserves-preorder = record {
  reflexive = λ db id. Keeps-refl (find authorization_key id db.authorizations);
  transitive = λ a b c f g id. Keeps-trans _ _ _ (f id) (g id);
}

Preserves-of_same : (db db' : Db) → SameAuthorizations db db' → Preserves db db'
Preserves-of_same db db' same id =
    subst
      (λ rows. Keeps (find authorization_key id db.authorizations) (find authorization_key id rows))
      (sym same) (Keeps-refl (find authorization_key id db.authorizations))

Keeps-changed :
    (b : Bool) (test : Authorization → Bool) (f : Authorization → Authorization)
    (o : Option Authorization)
    → ((a : Authorization) → (terms (f a) ≡ terms a) × (a.used ≡ true → (f a).used ≡ true))
    → Keeps o (if b then changed authorization_key test f o else o)
Keeps-changed b test f none keeps = tt
Keeps-changed false test f (some a) keeps = (refl, λ h. h)
Keeps-changed true test f (some a) keeps = elim (Bool-cases (test a)) [
  | inl e ↦ rw e (keeps a)
  | inr e ↦ rw e (refl, λ h. h)
]

Keeps-update_rows :
    (test : Authorization → Bool) (f : Authorization → Authorization) (k id : String)
    (rows : List Authorization)
    → ((a : Authorization) → (f a).id ≡ a.id)
    → ((a : Authorization) → (terms (f a) ≡ terms a) × (a.used ≡ true → (f a).used ≡ true))
    → Keeps
        (find authorization_key id rows)
        (find authorization_key id (update_rows authorization_key test f k rows))
Keeps-update_rows test f k id rows same_id keeps =
    rw (find-update_rows authorization_key test f k id rows same_id)
      (Keeps-changed (str_eq k id) test f (find authorization_key id rows) keeps)

-- A database whose rows are those of an update that keeps every row.
Preserves-of_updated :
    (test : Authorization → Bool) (f : Authorization → Authorization) (k : String) (db db' : Db)
    → ((a : Authorization) → (f a).id ≡ a.id)
    → ((a : Authorization) → (terms (f a) ≡ terms a) × (a.used ≡ true → (f a).used ≡ true))
    → db'.authorizations ≡ update_rows authorization_key test f k db.authorizations
    → Preserves db db'
Preserves-of_updated test f k db db' same_id keeps updated id =
    subst
      (λ rows. Keeps (find authorization_key id db.authorizations) (find authorization_key id rows))
      (sym updated) (Keeps-update_rows test f k id db.authorizations same_id keeps)

update_attempt-Preserves :
    (k attempt : String) → Along Preserves (update_execution_attempt_id k attempt)
unfolding update_execution_attempt_id ◌>>=◌
update_attempt-Preserves k attempt = record {
  at = λ db a db' ran.
      Preserves-of_updated any_row (set_attempt attempt) k db db' (λ a. refl) (λ a. (refl, λ h. h))
        (ground arith);
}

claim-Preserves :
    (k proxy : String) (h : Option String) (now : String)
    → Along Preserves (claim_authorization k proxy h now)
unfolding claim_authorization ◌>>=◌
claim-Preserves k proxy h now = record {
  at = λ db a db' ran.
      elim (Bool-cases (affects authorization_key (claimable h now) k db.authorizations)) [
        | inl e ↦
            Preserves-of_updated (claimable h now) (set_used now) k db db' (λ a. refl)
              (λ a. (refl, λ _. refl)) (ground (arith, e))
        | inr e ↦ Preserves-of_same db db' (ground (arith, e))
      ];
}

insert-inserted :
    (a : Authorization) (db : Db) (u : Unit {0}) (db' : Db)
    → insert_authorization a db ≡ ok (u, db')
    → insert_row authorization_key a db.authorizations ≡ ok db'.authorizations
unfolding insert_authorization ◌>>=◌
insert-inserted a db u db' ran = ground arith

Keeps-inserted :
    (b : Bool) (a : Authorization) (o : Option Authorization)
    → (b ≡ true → o ≡ none)
    → Keeps o (if b then some a else o)
Keeps-inserted true a o fresh = rw (fresh refl) tt
Keeps-inserted false a o fresh = Keeps-refl o

insert-Preserves : (a : Authorization) → Along Preserves (insert_authorization a)
insert-Preserves a = record {
  at = λ db u db' ran id.
      let inserted = insert-inserted a db u db' ran in
      let fresh =
        insert_row-fresh authorization_key a db.authorizations db'.authorizations inserted in
      subst (Keeps (find authorization_key id db.authorizations))
        (sym (find-insert_row authorization_key a db.authorizations db'.authorizations id inserted))
        (Keeps-inserted (str_eq a.id id) a (find authorization_key id db.authorizations) λ e.
          subst (λ i. find authorization_key i db.authorizations ≡ none) ((str_eq_iff a.id id).0 e)
            fresh);
}

pub Preserves-Statements : (svc : Service) → Statements svc every Preserves
Preserves-Statements svc = record {
  preorder = Preserves-preorder;
  inserts =
      λ t _. Along-mono _ (λ db db' h. Preserves-of_same db db' h.0) (insert_transition-beside t);
  advances = λ k to now _.
      Along-mono _ (λ db db' h. Preserves-of_same db db' h.0) (advance_stage-beside k to now);
  guarded = λ k s to now _ _.
      Along-mono _ (λ db db' h. Preserves-of_same db db' h.0)
        (update_stage-beside k to (some s) now);
  results = λ k status summary n now.
      Along-mono _ (λ db db' h. Preserves-of_same db db' h.0)
        (update_result-beside k status summary n now);
  flags = λ k value now.
      Along-mono _ (λ db db' h. Preserves-of_same db db' h.0) (set_flag-beside k value now);
  requests = λ id now t by j p.
      Along-mono _ (λ db db' h. Preserves-of_same db db' h.1.0)
        (create_request-beside id now t by j p);
  decides = λ id by decision reason now.
      Along-mono _ (λ db db' h. Preserves-of_same db db' h.1.0)
        (decide-beside id by decision reason now);
  associates = λ id ids.
      Along-mono _ (λ db db' h. Preserves-of_same db db' h.1.0) (add_policies-beside id ids);
  heads =
      λ b n v. Along-mono _ (λ db db' h. Preserves-of_same db db' h.1) (update_head-beside b n v);
  nodes = λ n. Along-mono _ (λ db db' h. Preserves-of_same db db' h.1) (insert_node-beside n);
  supersedes =
      λ n. Along-mono _ (λ db db' h. Preserves-of_same db db' h.1) (mark_superseded-beside n);
  edges = λ e. Along-mono _ (λ db db' h. Preserves-of_same db db' h.1) (insert_edge-beside e);
  writes = λ id now l type body actor caller.
      Along-mono _ (λ db db' h. Preserves-of_same db db' h.1)
        (write_event-beside svc id now l type body actor caller);
  issues = λ a _. insert-Preserves a;
  claims = claim-Preserves;
  attempts = update_attempt-Preserves;
}

-- Through every run an authorization stays, with the terms it was issued for, and once used it stays
-- used.
pub Run-Preserves :
    (svc : Service) {db db' : Db} (id : String)
    → Run svc db db'
    → Keeps
        (find authorization_key id db.authorizations)
        (find authorization_key id db'.authorizations)
Run-Preserves svc id run = Run-along (Preserves-Statements svc) run id
