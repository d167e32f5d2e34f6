-- ===== src/Repositories.antt =====
-- src/ep_governance/db/repositories.py: the statements that the engines run, table by table. Each
-- takes the identifier and the time that the source draws inside it.
pub mod Transitions
pub mod Branches
pub mod Approvals
pub mod Authorizations
pub mod Policies
