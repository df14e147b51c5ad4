-- ===== src/Lib.antt =====
-- Linux Host Firewall Manager: a model of the manager, the agent and the worker, with the theorems
-- that make them correct.
--
-- The program. A manager (crates/fw-web) keeps firewall rules in groups, groups in policy sets, and
-- assigns sets to hosts. An agent (crates/fw-agent) on each host polls the manager: it reports a hash
-- of the rules that it last applied, gets the rules of its set with defaults, configuration and queued
-- actions, and applies them through UFW or firewalld. Both sides share crates/fw-core (rules, policy
-- gates, drift hash, audit chain) and users are let in by crates/fw-auth. A host joins by enrollment:
-- it presents a token, an administrator approves it, and crates/fw-ca signs its certificate. A worker
-- (crates/fw-worker) marks hosts whose agent has gone quiet.
--
-- The files.
--   Prelude     shared names, lists, texts and two's complement integers.
--   Crates      third-party code as records of functions: networks, addresses, hashing, URLs, word
--               splitting (`Crates`), JSON (`SerdeJson`), password hashes (`Argon2`), certificates
--               (`Rcgen`). PostgreSQL's rules on types and names
--               (`Postgres`). `NetLaws`, `PostgresLaws` and `Argon2Laws` state what they document.
--   Models      crates/fw-core/src/models.rs: enums with their texts, FirewallRule, compute_rules_hash.
--   Policy      crates/fw-core/src/policy.rs: check_rule, rules_for_policy_set, the flagged rules.
--   Audit       crates/fw-core/src/audit.rs: log_event and verify_integrity; the log is oldest first.
--               Anchor is crates/fw-worker/src/audit_anchor.rs.
--   Auth        crates/fw-auth/src: Rbac (rbac.rs: require_auth, resolve_client_ip, can_access_host)
--               and Password (password.rs).
--   Ca          crates/fw-ca/src/ca.rs: sign_csr, Issuing (with_issuing_ca), Crl (generate_crls).
--   Agent       crates/fw-agent/src: Protected (protected_cidrs.rs), Backend, Ufw, Firewalld and Detect
--               (backend/mod.rs), State (config.rs and the files of the agent), SafeMode (safe_mode.rs,
--               drift.rs), Replay (replay_cache.rs), Wire (pull_client.rs), Apply and Cycle
--               (pull_loop.rs).
--   Manager     Db and Tables (the tables), Handler (the errors and the audit record of a user's
--               action), Messages and CheckIn (crates/fw-web/src/routes/agent_api.rs), Assign
--               (deployment.rs), Preview (deployment.rs, policy_sets.rs), Stale
--               (crates/fw-worker/src/stale_agent_detector.rs); and of crates/fw-web/src/routes
--               Enrollment with Enrollment/Approve (enrollment.rs), Login (auth.rs), Rules (rules.rs),
--               RuleGroups (rule_groups.rs), PolicySets (policy_sets.rs), Hosts (hosts.rs, groups.rs),
--               Users (users.rs, certificates.rs), Settings (settings.rs). Trail relates the handlers to
--               the audit log; Trail/Run has the sequences of requests and worker rounds.
--   Tests       concrete data, and each theorem at it.
--
-- State. The agent is a record of its files, configuration, timers and the history of what it did
-- on the host (`Agent.State`); an operation takes it and returns a result with the next one. What
-- the outside answers (`Agent.Os.Env`) is any function of that history, so a theorem covers every
-- sequence of command results, clock readings and failing writes, which may leave
-- a file cut short. The manager is a record of tables
-- (`Manager.Db`); a handler takes it with the clock's reading and returns its answer with the
-- tables after it; a random value that the code draws, such as a uuid, a salt or a token, is an
-- argument. The cache of approved certificates and the live whitelist stand beside the tables. A
-- uuid is its value as a number, a time is nanoseconds since the epoch, a port is a signed 32-bit
-- integer, an unsigned 32-bit interval keeps its wrap-around.
--
-- Bounds. Loops are structural recursion on their lists. The retries of `ufw reset` count down from
-- the source's bound of eight. The pull loop runs over the list of managers that its rounds meet.
--
-- Not modelled. HTTP, TLS and the event stream (a wait is its longest duration); failures of the
-- manager's SQL statements, whether they abort a handler or are ignored by it (such as a failing
-- update of a token's `used_at`), apart from the constraints that a handler's answer shows and
-- from statements that PostgreSQL always refuses for their types or names, which fail in the
-- model too (that an audit record's user still exists is looked at in the deletion of a user
-- only; the overflow of an INTEGER only in the position of a new rule, and of a rule group in a
-- policy set); conversions between column types and texts; the file formats of the agent, which
-- are taken as lossless; the listings and detail views of the routes; the second-factor handlers,
-- which are stubs; drift.rs, ca.rs, pki.rs and health.rs; the creation of the root and server
-- certificates; tokens and the sealing of secrets, which are calls into libraries; the agent's
-- side of enrollment; the front end.
pub mod Prelude
pub mod Crates
pub mod Models
pub mod Policy
pub mod Agent
pub mod Audit
pub mod Auth
pub mod Ca
pub mod Manager
pub mod Tests
