-- ===== src/Stages/Lifecycle.antt =====
-- The lifecycle as a relation, and what the table of legal moves makes of it.
use ep_governance.Prelude.{
  ◌≡◌, refl, true, false, not, ◌||◌, List, [], ◌∷◌, ◌⊎◌, inl, inr, ◌↔◌, Option, none, some, arith,
  any,
}
use ep_governance.Db.{
  Stage, proposed, pending_approval, authorized, executing, succeeded, failed, execution_uncertain,
  denied,
}
use ep_governance.Stages.{
  is_in, is_legal_transition, terminal_stages, idempotent_return_existing, idempotent_return_result,
  idempotent_allow_new,
}

-- One legal move; a new row starts at `proposed`.
pub data Move : Option Stage → Option Stage → Type 0 where
  birth : Move none (some proposed)
  legal : (s t : Stage) → is_legal_transition s t ≡ true → Move (some s) (some t)

-- A history of moves.
pub data Moves (a : Option Stage) : Option Stage → Type 0 where
  stay : Moves a a
  after : {b c : Option Stage} → Moves a b → Move b c → Moves a c

pub Moves-trans : {a b c : Option Stage} → Moves a b → Moves b c → Moves a c
Moves-trans h stay = h
Moves-trans h (after k m) = after (Moves-trans h k) m

-- Exactly the terminal stages have no legal move out of them.
pub terminal_iff :
    (s : Stage) → (is_in s terminal_stages ≡ true) ↔ ((t : Stage) → is_legal_transition s t ≡ false)
unfolding is_in is_legal_transition any
terminal_iff proposed = (λ h t. cc, λ h. cc (h denied))
terminal_iff pending_approval = (λ h t. cc, λ h. cc (h denied))
terminal_iff authorized = (λ h t. cc, λ h. cc (h executing))
terminal_iff executing = (λ h t. cc, λ h. cc (h failed))
terminal_iff execution_uncertain = (λ h t. cc, λ h. cc (h failed))
terminal_iff _ = (λ h t. refl, λ h. refl)

-- Whatever moves follow, a terminal stage stays.
pub Moves-terminal :
    (s : Stage) {b : Option Stage} → Moves (some s) b → is_in s terminal_stages ≡ true → b ≡ some s
Moves-terminal s stay h = refl
Moves-terminal s (after k birth) h = absurd (none_not_some (Moves-terminal s k h))
  where
    none_not_some : ◌≡◌ {A = Option Stage} none (some s) → ⊥
    none_not_some e = cc
Moves-terminal s (after k (legal t u m)) h =
    let e : t ≡ s = cc (Moves-terminal s k h) in absurd (cc (m, (terminal_iff s).0 h u, e))

-- The stages that follow an authorization.
abbrev pub after_authorization : List Stage
after_authorization = executing ∷ execution_uncertain ∷ succeeded ∷ failed ∷ []

-- Only `authorized` leads to them from outside, and only by `executing`.
pub into_execution :
    (s t : Stage)
    → is_legal_transition s t ≡ true
    → is_in t after_authorization ≡ true
    → (is_in s after_authorization ≡ true) ⊎ ((s ≡ authorized) × (t ≡ executing))
unfolding is_legal_transition is_in any
into_execution authorized executing m h = inr (refl, refl)
into_execution authorized _ m h = absurd (ground arith)
into_execution executing t m h = inl refl
into_execution execution_uncertain t m h = inl refl
into_execution _ t m h = absurd (ground arith)

-- The idempotency classes cover the stages, and no stage is in two of them.
pub idempotency_classes :
    (s : Stage)
    → is_in s idempotent_allow_new
      ≡ not (is_in s idempotent_return_existing || is_in s idempotent_return_result)
unfolding is_in any
idempotency_classes s = ground arith
