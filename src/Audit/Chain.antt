-- ===== src/Audit/Chain.antt =====
-- The invariant of the audit log: every lattice's rows are an unbroken chain that ends in its head.
use ep_governance.Prelude.{
  ℕ, ◌+◌, ◌≤◌, String, ◌≡◌, refl, sym, ap, ◌∙◌, ◌≢◌, subst, true, false, none, some, List, [], ◌∷◌,
  ◌++◌, arith, filter, str_eq, str_eq_iff, leb, if◌then◌else◌, Bool-cases, Option-cases, inl, inr,
  All,
}
use ep_governance.Db.{Db, AuditHead, AuditEvent}
use ep_governance.Errors.{ok}
use ep_governance.Service.{Service}
use ep_governance.Table.{find, update_rows}
use ep_governance.Table.Lookup.{find-update_rows, find-key}
use ep_governance.Tx.{◌>>=◌}
use ep_governance.Tx.Along.{Along, Preorder}
use ep_governance.Value.{Value}
use ep_governance.Audit.{
  genesis_hash, recompute_hash, head_key, any_head, advance_head, next_event,
  write_event_in_transaction, verify_rows, of_lattice, insert_row_by_sequence, by_sequence,
  lattice_rows, verify, to_envelope,
}

-- From the hash `p` and the sequence `n`, the rows lead to the hash `q` and the sequence `m`.
abbrev pub Chain : Service → String → ℕ → List AuditEvent → String → ℕ → Type 0
Chain svc p n [] q m = (p ≡ q) × (n ≡ m)
Chain svc p n (e ∷ rows) q m =
    (recompute_hash svc e ≡ e.event_hash)
    × (e.previous_hash ≡ p)
    × (e.sequence ≡ n + 1)
    × Chain svc e.event_hash (n + 1) rows q m

-- Every head ends the chain of its lattice's rows, which starts at the genesis hash.
pub record IsChained (svc : Service) (db : Db) : Type 0 where
  pub chain :
      (l : String) (h : AuditHead)
      → find head_key l db.audit_heads ≡ some h
      → Chain svc genesis_hash 0 (lattice_rows l db) h.last_hash h.last_sequence

Chain-verify :
    (svc : Service) (p : String) (n : ℕ) (rows : List AuditEvent) (q : String) (m : ℕ)
    → Chain svc p n rows q m
    → verify_rows svc p rows ≡ true
unfolding verify_rows
Chain-verify svc p n [] q m c = refl
Chain-verify svc p n (e ∷ rows) q m (sealed, linked, numbered, rest) =
    rw
      (
        (str_eq_iff (recompute_hash svc e) e.event_hash).1 sealed,
        (str_eq_iff e.previous_hash p).1 linked,
      )
      (Chain-verify svc e.event_hash (n + 1) rows q m rest)

Chain-snoc :
    (svc : Service) (p : String) (n : ℕ) (rows : List AuditEvent) (q : String) (m : ℕ)
    (e : AuditEvent)
    → Chain svc p n rows q m
    → recompute_hash svc e ≡ e.event_hash
    → e.previous_hash ≡ q
    → e.sequence ≡ m + 1
    → Chain svc p n (rows ++ e ∷ []) e.event_hash e.sequence
Chain-snoc svc p n [] q m e (a, b) sealed linked numbered =
    (sealed, linked ∙ sym a, omega (arith, b), (refl, omega (arith, b)))
Chain-snoc svc p n (x ∷ rows) q m e (a, b, c, rest) sealed linked numbered =
    (a, b, c, Chain-snoc svc x.event_hash (n + 1) rows q m e rest sealed linked numbered)

-- The rows of a chain are numbered up to its end.
Chain-bounded :
    (svc : Service) (p : String) (n : ℕ) (rows : List AuditEvent) (q : String) (m : ℕ)
    → Chain svc p n rows q m
    → (n ≤ m) × All (λ e. e.sequence ≤ m) rows
Chain-bounded svc p n [] q m (a, b) = (omega arith, tt)
Chain-bounded svc p n (x ∷ rows) q m (a, b, c, rest) =
    let (le, all) = Chain-bounded svc x.event_hash (n + 1) rows q m rest in
    (omega arith, (omega arith, all))

All-insert :
    (m : ℕ) (e : AuditEvent) (rows : List AuditEvent)
    → All (λ f. f.sequence ≤ m) (insert_row_by_sequence e rows)
    → (e.sequence ≤ m) × All (λ f. f.sequence ≤ m) rows
unfolding insert_row_by_sequence
All-insert m e [] h = h
All-insert m e (f ∷ rows) h = elim (Bool-cases (leb e.sequence f.sequence)) [
  | inl t ↦ rw t at h
  | inr t ↦ let (a, b) = rw t at h in let (c, d) = All-insert m e rows b in (c, (a, d))
]

All-by_sequence :
    (m : ℕ) (rows : List AuditEvent)
    → All (λ f. f.sequence ≤ m) (by_sequence rows)
    → All (λ f. f.sequence ≤ m) rows
unfolding by_sequence
All-by_sequence m [] h = tt
All-by_sequence m (e ∷ rows) h =
    let (a, b) = All-insert m e (by_sequence rows) h in (a, All-by_sequence m rows b)

insert-append :
    (e f : AuditEvent) (rows : List AuditEvent)
    → e.sequence ≤ f.sequence
    → insert_row_by_sequence e (rows ++ f ∷ []) ≡ insert_row_by_sequence e rows ++ f ∷ []
unfolding insert_row_by_sequence
insert-append e f [] h = ground arith
insert-append e f (g ∷ rows) h = ground (arith, insert-append e f rows h)

-- A row numbered past all others goes to the end.
by_sequence-append :
    (rows : List AuditEvent) (e : AuditEvent) (m : ℕ)
    → All (λ f. f.sequence ≤ m) rows
    → m ≤ e.sequence
    → by_sequence (rows ++ e ∷ []) ≡ by_sequence rows ++ e ∷ []
unfolding by_sequence
by_sequence-append [] e m h le = refl
by_sequence-append (x ∷ rows) e m (h, hs) le =
    rw (by_sequence-append rows e m hs le) (insert-append x e (by_sequence rows) (omega arith))

filter-append :
    (l : String) (rows : List AuditEvent) (e : AuditEvent)
    → filter (of_lattice l) (rows ++ e ∷ []) ≡ (
        if of_lattice l e then filter (of_lattice l) rows ++ e ∷ [] else filter (of_lattice l) rows)
unfolding filter
filter-append l [] e = ground arith
filter-append l (x ∷ rows) e = ground (arith, filter-append l rows e)

-- The database after the two statements of `append_event`.
abbrev appended : AuditEvent → Db → Db
appended e db = record db {
  events = db.events ++ e ∷ [];
  audit_heads =
      update_rows head_key any_head (advance_head e.sequence e.event_hash) e.lattice_id
        db.audit_heads;
}

module _ (svc : Service) (db : Db) (l : String) (h : AuditHead) (e : AuditEvent)
    (chained : IsChained svc db) (found : find head_key l db.audit_heads ≡ some h)
    (owner : e.lattice_id ≡ l) (sealed : recompute_hash svc e ≡ e.event_hash)
    (linked : e.previous_hash ≡ h.last_hash) (numbered : e.sequence ≡ h.last_sequence + 1) where
  rows_self : lattice_rows l (appended e db) ≡ lattice_rows l db ++ e ∷ []
  unfolding lattice_rows
  rows_self =
      rw (filter-append l db.events e, (str_eq_iff e.lattice_id l).1 owner)
        (by_sequence-append (filter (of_lattice l) db.events) e h.last_sequence
          (All-by_sequence h.last_sequence (filter (of_lattice l) db.events)
            (Chain-bounded svc genesis_hash 0 _ h.last_hash h.last_sequence
              (chained.chain l h found)).1)
          (omega arith))

  rows_ne : (j : String) → str_eq l j ≡ false → lattice_rows j (appended e db) ≡ lattice_rows j db
  unfolding lattice_rows
  rows_ne j ne = rw (filter-append j db.events e, ap (λ i. str_eq i j) owner ∙ ne)

  head_self :
      (k : AuditHead)
      → find head_key l (appended e db).audit_heads ≡ some k
      → k ≡ advance_head e.sequence e.event_hash h
  head_self k q = ground (
    arith,
    find-update_rows head_key any_head (advance_head e.sequence e.event_hash) e.lattice_id l
        db.audit_heads (λ r. refl),
    str_eq_iff e.lattice_id l,
  )

  head_ne :
      (j : String) (k : AuditHead)
      → str_eq l j ≡ false
      → find head_key j (appended e db).audit_heads ≡ some k
      → find head_key j db.audit_heads ≡ some k
  head_ne j k ne q = ground (
    arith,
    find-update_rows head_key any_head (advance_head e.sequence e.event_hash) e.lattice_id j
        db.audit_heads (λ r. refl),
    ap (λ i. str_eq i j) owner,
  )

  appended-IsChained : IsChained svc (appended e db)
  appended-IsChained = record {
    chain = λ j k q. elim (Bool-cases (str_eq l j)) [
      | inl same ↦
          subst
            (λ i.
              Chain svc genesis_hash 0 (lattice_rows i (appended e db)) k.last_hash k.last_sequence)
            ((str_eq_iff l j).0 same)
            (rw
              (
                rows_self,
                head_self k (
                    subst (λ i. find head_key i (appended e db).audit_heads ≡ some k)
                      (sym ((str_eq_iff l j).0 same)) q),
              )
              (Chain-snoc svc genesis_hash 0 (lattice_rows l db) h.last_hash h.last_sequence e
                (chained.chain l h found) sealed linked numbered))
      | inr ne ↦ rw (rows_ne j ne) (chained.chain j k (head_ne j k ne q))
    ];
  }

-- A database change keeps the audit log chained.
abbrev pub KeepsChain : Service → Db → Db → Type 0
KeepsChain svc db db' = IsChained svc db → IsChained svc db'

pub KeepsChain-preorder : (svc : Service) → Preorder (KeepsChain svc)
KeepsChain-preorder svc = record { reflexive = λ db h. h; transitive = λ a b c f g h. g (f h) }

-- The next event is sealed, continues the head, and belongs to its lattice.
next_event_parts :
    (svc : Service) (id now : String) (h : AuditHead) (type : String) (body : Value)
    (actor caller : String)
    → let e = next_event svc id now h type body actor caller in
      (e.lattice_id ≡ h.lattice_id)
      × (recompute_hash svc e ≡ e.event_hash)
      × (e.previous_hash ≡ h.last_hash)
      × (e.sequence ≡ h.last_sequence + 1)
unfolding next_event recompute_hash to_envelope
next_event_parts svc id now h type body actor caller = (refl, refl, refl, refl)

write_event-appended :
    (svc : Service) (id now l type : String) (body : Value) (actor caller : String) (db : Db)
    (a : AuditEvent) (db' : Db) (h : AuditHead)
    → write_event_in_transaction svc id now l type body actor caller db ≡ ok (a, db')
    → find head_key l db.audit_heads ≡ some h
    → db' ≡ appended (next_event svc id now h type body actor caller) db
unfolding write_event_in_transaction ◌>>=◌
write_event-appended svc id now l type body actor caller db a db' h ran e = ground arith

write_event-head :
    (svc : Service) (id now l type : String) (body : Value) (actor caller : String) (db : Db)
    (a : AuditEvent) (db' : Db)
    → write_event_in_transaction svc id now l type body actor caller db ≡ ok (a, db')
    → find head_key l db.audit_heads ≢ none
unfolding write_event_in_transaction ◌>>=◌
write_event-head svc id now l type body actor caller db a db' ran e = ground arith

-- Writing an event keeps the log chained, whatever the event.
pub write_event-KeepsChain :
    (svc : Service) (id now l type : String) (body : Value) (actor caller : String)
    → Along (KeepsChain svc) (write_event_in_transaction svc id now l type body actor caller)
write_event-KeepsChain svc id now l type body actor caller = record {
  at = λ db a db' ran chained. elim (Option-cases (find head_key l db.audit_heads)) [
    | inl e ↦ absurd (write_event-head svc id now l type body actor caller db a db' ran e)
    | inr (h, e) ↦
        let (owner, sealed, linked, numbered) =
          next_event_parts svc id now h type body actor caller in
        subst (IsChained svc)
          (sym (write_event-appended svc id now l type body actor caller db a db' h ran e))
          (appended-IsChained svc db l h (next_event svc id now h type body actor caller) chained e
            (owner ∙ find-key head_key l h db.audit_heads e) sealed linked numbered)
  ];
}

-- In a database whose log is chained, the verifier accepts every lattice that has a head.
pub verify_of_IsChained :
    (svc : Service) (db : Db) (l : String) (h : AuditHead)
    → IsChained svc db
    → find head_key l db.audit_heads ≡ some h
    → verify svc l db ≡ true
unfolding verify
verify_of_IsChained svc db l h chained found =
    Chain-verify svc genesis_hash 0 (lattice_rows l db) h.last_hash h.last_sequence
      (chained.chain l h found)
