-- ===== src/Transitions.antt =====
-- src/ep_governance/transitions.py: `TransitionEngine`, operation by operation, and what holds of
-- all of them.
pub mod Authority
pub mod Admission
pub mod Idempotency
pub mod Result
pub mod Stepping
pub mod Proposal
pub mod Decision
pub mod Outcome
