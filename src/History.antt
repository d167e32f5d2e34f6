-- ===== src/History.antt =====
-- How the engines change the stage of every transition: by legal moves only.
use ep_governance.Prelude.{
  String, ◌≡◌, refl, sym, subst, ap, Bool, true, false, Option, none, some, List, arith, str_eq,
  str_eq_iff, if◌then◌else◌, Bool-cases, Option-cases, inl, inr, ◌⊎◌, ◌∙◌,
}
use ep_governance.Db.{Db, Transition, Stage, proposed}
use ep_governance.Errors.{ok}
use ep_governance.Frames.{SameTransitions}
use ep_governance.Repositories.Transitions.{
  transition_key, get_transition, insert_transition, at_stage, set_stage, update_stage,
  update_result, set_requires_manual_reconciliation, set_result, set_flag, always,
}
use ep_governance.Stages.{is_legal_transition, same_stage}
use ep_governance.Stages.Lifecycle.{Move, birth, legal, Moves, stay, after, Moves-trans}
use ep_governance.Table.{find, update_rows, insert_row, affects}
use ep_governance.Table.Lookup.{find-update_rows, find-insert_row, insert_row-fresh, changed}
use ep_governance.Transitions.Stepping.{advance_stage}
use ep_governance.Tx.{◌>>=◌}
use ep_governance.Tx.Along.{Along, Preorder}

abbrev pub stage_of : Option Transition → Option Stage
stage_of none = none
stage_of (some t) = some t.stage

-- The stage of the transition, `none` where there is no such row.
abbrev pub stage_at : String → Db → Option Stage
stage_at id db = stage_of (find transition_key id db.transitions)

-- Every transition's stage goes by a history of legal moves.
abbrev pub Evolves : Db → Db → Type 0
Evolves db db' = (id : String) → Moves (stage_at id db) (stage_at id db')

pub Evolves-preorder : Preorder Evolves
Evolves-preorder = record {
  reflexive = λ db id. stay;
  transitive = λ a b c f g id. Moves-trans (f id) (g id);
}

-- No stage changes.
abbrev pub SameStages : Db → Db → Type 0
SameStages db db' = (id : String) → stage_at id db' ≡ stage_at id db

pub SameStages-of_SameTransitions : (db db' : Db) → SameTransitions db db' → SameStages db db'
SameStages-of_SameTransitions db db' same id = ap (λ ts. stage_of (find transition_key id ts)) same

-- A stage stays, or goes to `to` by a legal move.
abbrev pub OneMove : Stage → Option Stage → Option Stage → Type 0
OneMove to a b = (b ≡ a) ⊎ (Move a (some to) × (b ≡ some to))

abbrev pub Moved : Stage → Db → Db → Type 0
Moved to db db' = (id : String) → OneMove to (stage_at id db) (stage_at id db')

-- The same, where the stage after the move is an equal one.
OneMove-to : (to : Stage) (a b c : Option Stage) → c ≡ b → OneMove to a b → OneMove to a c
OneMove-to to a b c e m = subst (OneMove to a) (sym e) m

pub Evolves-of_SameStages : (db db' : Db) → SameStages db db' → Evolves db db'
Evolves-of_SameStages db db' same id = subst (Moves (stage_at id db)) (sym (same id)) stay

pub Evolves-of_Moved : (to : Stage) (db db' : Db) → Moved to db db' → Evolves db db'
Evolves-of_Moved to db db' moved id = elim (moved id) [
  | inl e ↦ subst (Moves (stage_at id db)) (sym e) stay
  | inr (m, e) ↦ subst (Moves (stage_at id db)) (sym e) (after stay m)
]

stage_of-changed :
    (test : Transition → Bool) (f : Transition → Transition) (o : Option Transition)
    → ((t : Transition) → (f t).stage ≡ t.stage)
    → stage_of (changed transition_key test f o) ≡ stage_of o
stage_of-changed test f none same = refl
stage_of-changed test f (some t) same = ground (arith, same t)

stage_at-update_rows :
    (test : Transition → Bool) (f : Transition → Transition) (k : String) (rows : List Transition)
    (id : String)
    → ((t : Transition) → (f t).id ≡ t.id)
    → ((t : Transition) → (f t).stage ≡ t.stage)
    → stage_of (find transition_key id (update_rows transition_key test f k rows))
      ≡ stage_of (find transition_key id rows)
stage_at-update_rows test f k rows id same_id same_stage =
    rw (find-update_rows transition_key test f k id rows same_id)
      (ground (arith, stage_of-changed test f (find transition_key id rows) same_stage))

pub update_result-SameStages :
    (id status summary : String) (n : Option String) (now : String)
    → Along SameStages (update_result id status summary n now)
unfolding update_result ◌>>=◌
update_result-SameStages k status summary n now = record {
  at = λ db a db' ran id. ground (
    arith,
    stage_at-update_rows always (set_result status summary n now) k db.transitions id (λ t. refl)
        (λ t. refl),
  );
}

pub set_flag-SameStages :
    (id : String) (value : Bool) (now : String)
    → Along SameStages (set_requires_manual_reconciliation id value now)
unfolding set_requires_manual_reconciliation ◌>>=◌
set_flag-SameStages k value now = record {
  at = λ db a db' ran id. ground (
    arith,
    stage_at-update_rows always (set_flag value now) k db.transitions id (λ t. refl) (λ t. refl),
  );
}

insert_transition-inserted :
    (t : Transition) (db : Db) (a : Transition) (db' : Db)
    → insert_transition t db ≡ ok (a, db')
    → insert_row transition_key t db.transitions ≡ ok db'.transitions
unfolding insert_transition ◌>>=◌
insert_transition-inserted t db a db' ran = ground arith

-- A new row is at `proposed`.
pub insert_transition-Moved :
    (t : Transition) → t.stage ≡ proposed → Along (Moved proposed) (insert_transition t)
insert_transition-Moved t new = record {
  at = λ db a db' ran id.
      let inserted = insert_transition-inserted t db a db' ran in
      let found = find-insert_row transition_key t db.transitions db'.transitions id inserted in
      let fresh = insert_row-fresh transition_key t db.transitions db'.transitions inserted in
      elim (Bool-cases (str_eq t.id id)) [
        | inl e ↦ inr (
          subst (λ i. Move (stage_at i db) (some proposed)) ((str_eq_iff t.id id).0 e)
              (subst (λ o. Move (stage_of o) (some proposed)) (sym fresh) birth),
          ap stage_of
                (found ∙ ap (λ b. if b then some t else find transition_key id db.transitions) e)
              ∙ ap some new,
        )
        | inr e ↦ inl (
            ap stage_of
              (found ∙ ap (λ b. if b then some t else find transition_key id db.transitions) e))
      ];
}

pub same_stage-eq : (a b : Stage) → same_stage a b ≡ true → a ≡ b
same_stage-eq a b h = ground arith

one_move : (s to : Stage) → is_legal_transition s to ≡ true → OneMove to (some s) (some to)
one_move s to h = inr (legal s to h, refl)

guarded_move :
    (s to : Stage) (now : String) (o : Option Transition)
    → is_legal_transition s to ≡ true
    → OneMove to
        (stage_of o)
        (stage_of (changed transition_key (at_stage (some s)) (set_stage to now) o))
guarded_move s to now none h = inl refl
guarded_move s to now (some t) h = elim (Bool-cases (same_stage t.stage s)) [
  | inl e ↦ rw e (
      subst (λ x. OneMove to (some x) (some to)) (sym (same_stage-eq t.stage s e))
        (one_move s to h))
  | inr e ↦ rw e (inl refl)
]

if_move :
    (b : Bool) (s to : Stage) (now : String) (o : Option Transition)
    → is_legal_transition s to ≡ true
    → OneMove to (stage_of o) (
        stage_of (if b then changed transition_key (at_stage (some s)) (set_stage to now) o else o))
if_move true s to now o h = guarded_move s to now o h
if_move false s to now o h = inl refl

pub stage_at-update_stage :
    (k : String) (to : Stage) (e : Option Stage) (now : String) (db : Db) (a : Bool) (db' : Db)
    (id : String)
    → update_stage k to e now db ≡ ok (a, db')
    → stage_at id db'
      ≡ stage_of (
          if str_eq k id
          then changed transition_key
              (at_stage e)
              (set_stage to now)
              (find transition_key id db.transitions)
          else find transition_key id db.transitions)
unfolding update_stage ◌>>=◌
stage_at-update_stage k to e now db a db' id ran = ground (
  arith,
  find-update_rows transition_key (at_stage e) (set_stage to now) k id db.transitions (λ t. refl),
)

-- An update that is guarded by a stage moves along an edge if the move from that stage is legal.
pub update_stage-Moved :
    (k : String) (s to : Stage) (now : String)
    → is_legal_transition s to ≡ true
    → Along (Moved to) (update_stage k to (some s) now)
update_stage-Moved k s to now h = record {
  at = λ db a db' ran id.
      OneMove-to to _ _ _ (stage_at-update_stage k to (some s) now db a db' id ran)
        (if_move (str_eq k id) s to now (find transition_key id db.transitions) h);
}

-- What a successful advance read and wrote.
pub advance_stage-parts :
    (k : String) (to : Stage) (now : String) (db : Db) (a : Transition) (db' : Db)
    → advance_stage k to now db ≡ ok (a, db')
    → (t : Transition) × (get_transition k db ≡ some t)
      × (is_legal_transition t.stage to ≡ true)
      × (update_stage k to none now db
          ≡ ok (affects transition_key (at_stage none) k db.transitions, db'))
      × (get_transition k db' ≡ some a)
unfolding advance_stage update_stage ◌>>=◌
advance_stage-parts k to now db a db' ran = elim (Option-cases (get_transition k db)) [
  | inl e ↦ absurd (ground (arith, e))
  | inr (t, e) ↦ (t, e, ground (arith, e), ground (arith, e), ground (arith, e))
]

legal_move :
    (same : Bool) (to : Stage) (now : String) (t : Transition) (o : Option Transition)
    → (same ≡ true → o ≡ some t)
    → is_legal_transition t.stage to ≡ true
    → OneMove to
        (stage_of o)
        (stage_of (if same then changed transition_key (at_stage none) (set_stage to now) o else o))
legal_move true to now t o same h = rw (same refl) (one_move t.stage to h)
legal_move false to now t o same h = inl refl

-- `advance_stage` moves its transition along a legal edge, and no other.
pub advance_stage-Moved :
    (k : String) (to : Stage) (now : String) → Along (Moved to) (advance_stage k to now)
advance_stage-Moved k to now = record {
  at = λ db a db' ran id.
      let (t, found, ok_move, updated, _) = advance_stage-parts k to now db a db' ran in
      OneMove-to to _ _ _ (stage_at-update_stage k to none now db _ db' id updated) (
        legal_move (str_eq k id) to now t (find transition_key id db.transitions)
          (λ e.
            subst (λ i. find transition_key i db.transitions ≡ some t) ((str_eq_iff k id).0 e)
              (unfold get_transition in found))
          ok_move);
}
