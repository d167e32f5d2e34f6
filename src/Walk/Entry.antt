-- ===== src/Walk/Entry.antt =====
-- How a transition comes to be executed: from authorized, by the claim of an authorization.
use ep_governance.Prelude.{
  String, ◌≡◌, refl, Bool, true, false, not, ◌||◌, Option, none, some, arith, any, inl, inr, ◌⊎◌,
  ap, sym, ◌∙◌,
}
use ep_governance.Db.{Db, Stage, proposed, authorized, executing}
use ep_governance.History.{stage_at, SameStages, Moved, OneMove}
use ep_governance.Service.{Service}
use ep_governance.Stages.{is_in, same_stage}
use ep_governance.Stages.Lifecycle.{Move, birth, legal, after_authorization, into_execution}
use ep_governance.Tx.Along.{Preorder}
use ep_governance.Walk.{Statements}
use ep_governance.Walk.Lifecycle.{stage_statements}
use ep_governance.Walk.Run.{Step, Run, is_claim}

abbrev pub is_late : Option Stage → Bool
is_late none = false
is_late (some s) = is_in s after_authorization

abbrev is_authorized : Option Stage → Bool
is_authorized none = false
is_authorized (some s) = same_stage s authorized

abbrev not_executing : Stage → Bool
not_executing s = not (same_stage s executing)

abbrev not_authorized : Stage → Bool
not_authorized s = not (same_stage s authorized)

-- No transition enters its execution.
abbrev NoEntry : Db → Db → Type 0
NoEntry db db' = (id : String) → is_late (stage_at id db') ≡ true → is_late (stage_at id db) ≡ true

-- None is authorized, and those that enter their execution were.
abbrev NoGrant : Db → Db → Type 0
NoGrant db db' =
    (id : String)
    → (is_late (stage_at id db') ≡ true
        → (is_late (stage_at id db) || is_authorized (stage_at id db)) ≡ true)
      × (is_authorized (stage_at id db') ≡ true → is_authorized (stage_at id db) ≡ true)

late_from :
    {a b : Option Stage}
    → Move a b
    → is_late b ≡ true
    → (is_late a ≡ true) ⊎ ((a ≡ some authorized) × (b ≡ some executing))
late_from birth h = absurd (unfold is_in any in cc h)
late_from (legal s t m) h = elim (into_execution s t m h) [
  | inl e ↦ inl e
  | inr (e, f) ↦ inr (ap some e, ap some f)
]

late_before :
    (to : Stage) (a b : Option Stage)
    → OneMove to a b
    → is_late b ≡ true
    → (is_late a ≡ true) ⊎ ((a ≡ some authorized) × (to ≡ executing))
late_before to a b (inl e) h = inl (ap is_late (sym e) ∙ h)
late_before to a b (inr (m, e)) h = elim (late_from m (ap is_late (sym e) ∙ h)) [
  | inl l ↦ inl l
  | inr (at, f) ↦ inr (at, cc f)
]

authorized_before :
    (to : Stage) (a b : Option Stage)
    → OneMove to a b
    → not_authorized to ≡ true
    → is_authorized b ≡ true
    → is_authorized a ≡ true
authorized_before to a b (inl e) n h = ap is_authorized (sym e) ∙ h
authorized_before to a b (inr (m, e)) n h = absurd (
    let at : same_stage to authorized ≡ true = sym (ap is_authorized e) ∙ h in
    ground (arith, n, at))

Moved-NoGrant :
    (to : Stage) → not_authorized to ≡ true → (db db' : Db) → Moved to db db' → NoGrant db db'
Moved-NoGrant to n db db' moved id = (
  λ h. elim (late_before to _ _ (moved id) h) [
    | inl e ↦ rw e refl
    | inr (e, _) ↦ let at = ap is_authorized e in ground (arith, at)
  ],
  authorized_before to _ _ (moved id) n,
)

SameStages-NoGrant : (db db' : Db) → SameStages db db' → NoGrant db db'
SameStages-NoGrant db db' same id = (
  λ h. let late = ap is_late (sym (same id)) ∙ h in rw late refl,
  λ h. ap is_authorized (sym (same id)) ∙ h,
)

either_late :
    (a b c d e : Bool)
    → (e ≡ true → (c || d) ≡ true)
    → (c ≡ true → (a || b) ≡ true)
    → (d ≡ true → b ≡ true)
    → e ≡ true
    → (a || b) ≡ true
either_late a b c d e h k l p = ground (arith, h p, k, l)

NoGrant-preorder : Preorder NoGrant
NoGrant-preorder = record {
  reflexive = λ db id. (λ h. rw h refl, λ h. h);
  transitive = λ a b c f g id.
      (λ h. either_late _ _ _ _ _ (g id).0 (f id).0 (f id).1 h, λ h. (f id).1 ((g id).1 h));
}

claiming : (svc : Service) → Statements svc not_authorized NoGrant
claiming svc =
    stage_statements svc not_authorized NoGrant NoGrant-preorder SameStages-NoGrant
      (Moved-NoGrant proposed refl) Moved-NoGrant

-- The claim by which a transition came to be executed, in the run from `db` to `db'`.
pub record Entered (svc : Service) (db db' : Db) (id : String) : Type 0 where
  pub before : Db
  pub after : Db
  pub first : Run svc db before
  pub authorized_then : stage_at id before ≡ some authorized
  pub step : Step svc before after
  pub by_claim : is_claim step ≡ true
  pub rest : Run svc after db'
