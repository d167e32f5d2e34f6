-- ===== src/Lib.antt =====
-- ep-governance: a service that decides whether an agent's action may run, has it approved where the
-- policies want that, hands out a token that is good for one execution, and records the outcome in a
-- graph of nodes and in a chained audit log.
--
-- The parts and their files. Paths are from the repository's root.
--   Policies, PolicyEngine  src/ep_governance/policies.py and policy_engine.py: the policy model, and
--     `PolicyEngine.evaluate` as matching (Matching), exceptions (Overrides) and resolution
--     (Resolution). Fnmatch writes out fnmatchcase, which match_glob of resources.py calls.
--   Value, Order            the JSON values that the program stores, src/ep_governance/canonical.py,
--     and the order of texts by code points, by which the program compares times.
--   Db, Table, Repositories the tables of migrations/sqlite/001_init.sql, and the SQL statements of
--     src/ep_governance/db/repositories.py as functions on lists of rows. A primary key, the unique
--     index on idempotency keys and a CHECK that fails are an integrity error.
--   Tx, Service, Errors     code in one transaction, from a database to a result and a database: an
--     error undoes all writes (src/ep_governance/db/transactions.py). An operation's identifiers and
--     times come from its `Env`, where each reading has an index of its own.
--   Stages, Transitions     src/ep_governance/transitions.py: the table of legal moves, and propose,
--     approve, deny_approval, cancel, record_result and reconcile of `TransitionEngine`. reconcile
--     is several transactions, and a failed commit does not undo the ones before it.
--   Branches                src/ep_governance/branches.py: `BranchCommitter.commit`.
--   Authorizations, Deployment  src/ep_governance/authorizations.py: issue_authorization,
--     verify_token, verify_and_claim and check_stale_authorization of `AuthorizationEngine`, and
--     `EnforcementCapability` of src/ep_governance/deployment.py, with its checks, and the signed
--     document that one is made from (Deployment/Attestation).
--   Proxy                   src/ep_governance/proxy/base.py: `GovernedProxy.execute`, from the signed
--     token to the record of the outcome. Proxy has the checks, Proxy/Execute the transactions.
--   McpServer               src/ep_governance/mcp_server.py: `_ep_check` and `_ep_execute`, which build
--     a policy engine from the rows of Repositories/Policies, propose, and issue a token.
--     McpServer/Roles is `_check_role` and the gate of `_handle_tool_call`, with the roles that
--     src/ep_governance/tool_catalog.py requires; below it are `_ep_approve` and `_ep_deny`.
--   WorkClaims              `WorkClaimRepository`, on SQLite and on PostgreSQL.
--   Xid                     src/ep_governance/xid.py: the generator of identifiers, their text and its
--     parser.
--   Config                  src/ep_governance/config.py: `load_config`.
--   Audit                   src/ep_governance/audit.py: the writer, the hash and the verifier.
--   Walk, Frames, History   runs of the service: `Run` is any sequence of operations with any
--     arguments, failures included. A claim about all runs is shown for each SQL statement (the
--     record `Statements`); Walk/Operations, Walk/Tokens and Walk/Execution carry it to the operations,
--     Walk/Run to the runs. A preorder may leave out moves to some stages: Walk/Entry has one for the
--     operations that claim an authorization, and one for all others. Tx/Along has the rules,
--     Tx/Inversion what a success says of a transaction's parts.
--   Examples                a small service for the tests.
--
-- Fuel: the decimal printer of Value/Canonical has `n + 1` rounds for the number `n`, which has at
-- most `n + 1` digits; the pattern reader of Fnmatch has a round for each character of the pattern,
-- and reads at least one in each; the loop of Xid that gives out bits has a round for each bit that
-- is held, and each round gives out at least one. All other loops are on lists.
--
-- Parameters, for code that is not in the repository: SHA-256 (`Service`), Ed25519 and json.loads
-- (`Signing`), the datetime module (`Clock`, and `strptime` as a function) and the CEL library (`Cel`);
-- str.lower, int and the variables of a process (`Environment`). The classifiers of
-- src/ep_governance/classification.py are the parameter `Classifier`, and what a proxy does to the
-- world is the parameter `Adapter`.
--
-- Not modelled: floats and datetimes in canonical JSON; foreign keys; queries that fail for want of a
-- connection; the isolation of concurrent transactions, which the database gives, so that they are
-- taken one after another; the adapters of the proxies and the HTTP service around them; the texts of
-- refusals; the risk ledger, sessions, transfer, the permissions of identity.py; the canonicalizers of
-- resources; the checks of a running deployment; the command line and the other tools of the server.
pub mod Prelude
pub mod Fnmatch
pub mod Order
pub mod Value
pub mod Errors
pub mod Policies
pub mod PolicyEngine
pub mod Table
pub mod Db
pub mod Tx
pub mod Service
pub mod Stages
pub mod Repositories
pub mod Audit
pub mod Frames
pub mod Branches
pub mod Transitions
pub mod Deployment
pub mod Authorizations
pub mod History
pub mod Proxy
pub mod McpServer
pub mod WorkClaims
pub mod Config
pub mod Walk
pub mod Xid
pub mod Examples
