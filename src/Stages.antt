-- ===== src/Stages.antt =====
-- The stages of a transition, of src/ep_governance/transitions.py: the legal moves, the terminal
-- stages and the idempotency classes.
pub mod Lifecycle
use ep_governance.Prelude.{Bool, true, false, ◌&&◌, List, [], ◌∷◌, any}
use ep_governance.Db.{
  Stage, proposed, pending_approval, authorized, executing, succeeded, failed, execution_uncertain,
  cancelled, expired, denied,
}

abbrev pub same_stage : Stage → Stage → Bool
same_stage proposed proposed = true
same_stage pending_approval pending_approval = true
same_stage authorized authorized = true
same_stage executing executing = true
same_stage succeeded succeeded = true
same_stage failed failed = true
same_stage execution_uncertain execution_uncertain = true
same_stage cancelled cancelled = true
same_stage expired expired = true
same_stage denied denied = true
same_stage _ _ = false

-- `stage in stages`
unfoldable pub is_in : Stage → List Stage → Bool
is_in s stages = any (same_stage s) stages

legal_transitions : List (Stage × Stage)
legal_transitions =
    (proposed, denied)
    ∷ (proposed, pending_approval)
    ∷ (proposed, authorized)
    ∷ (proposed, cancelled)
    ∷ (pending_approval, authorized)
    ∷ (pending_approval, denied)
    ∷ (pending_approval, expired)
    ∷ (pending_approval, cancelled)
    ∷ (authorized, executing)
    ∷ (authorized, expired)
    ∷ (authorized, cancelled)
    ∷ (executing, succeeded)
    ∷ (executing, failed)
    ∷ (executing, execution_uncertain)
    ∷ (execution_uncertain, succeeded)
    ∷ (execution_uncertain, failed)
    ∷ []

unfoldable pub is_legal_transition : Stage → Stage → Bool
unfolding legal_transitions
is_legal_transition from_stage to_stage =
    any (λ p. same_stage from_stage p.0 && same_stage to_stage p.1) legal_transitions

abbrev pub terminal_stages : List Stage
terminal_stages = succeeded ∷ failed ∷ cancelled ∷ expired ∷ denied ∷ []

abbrev pub idempotent_return_existing : List Stage
idempotent_return_existing = proposed ∷ authorized ∷ pending_approval ∷ []

abbrev pub idempotent_return_result : List Stage
idempotent_return_result = executing ∷ succeeded ∷ []

abbrev pub idempotent_allow_new : List Stage
idempotent_allow_new = failed ∷ cancelled ∷ expired ∷ denied ∷ execution_uncertain ∷ []
