-- ===== src/PolicyEngine.antt =====
-- src/ep_governance/policy_engine.py: which policies match an action (`Matching`), which deny
-- policies are overridden (`Overrides`), and the governing effect (`Resolution`).
pub mod Matching
pub mod Overrides
pub mod Resolution
