-- ===== src/Lib.antt =====
-- Verification of the core of AICybersec, an AI agent that drives security scanners within an
-- authorized scope. A planner proposes steps; every step passes a safety validator before a tool runs;
-- the back end stores scans and moves them through a fixed life cycle.
--
-- The parts, and the files that model them:
--   Scan, Scan/State: the scan row and its transitions (backend/db/models.py, class Scan;
--   backend/services/scan_state.py, `apply_transition`). Scan/Lifecycle has the laws.
--   Safety/Url: the host of a URL as Python's urllib.parse gives it. Safety/Policy: the allowlist and
--   the danger cap (agent_core/safety/policy.py). Safety/Tools, Params, Results: danger levels, tools,
--   decisions and results (agent_core/schemas, agent_core/tools/base.py). Safety/Registry: the
--   whitelist of tools (agent_core/tools/registry.py). Safety/Validator: the two-stage gate
--   (agent_core/safety/validator.py, `SafetyValidator.validate`).
--   Runtime: the loop of agent_core/runtime/agent.py. Data has the state, Loop the code from `_emit` to
--   `execute`; a run carries its events, saves, trajectory and tool calls as lists.
--   Eligibility: the gate that lets promoted hosts pass for HTTPX only
--   (backend/services/httpx_eligibility.py).
--   Manager: one scan under its worker, requests and restarts (backend/services/scan_manager.py and
--   backend/services/scan_service.py). Worker has the sessions of `_execute`, `_finish_scan`,
--   `_mark_failed` and `recover`, Service the requests, Steps the relation of their sequences. A
--   session is one step, although the code reads and commits without a lock: what holds of the steps
--   holds where no session starts between another's read and its commit. Two sessions that overlap, as
--   a request to cancel and the end of the worker, can overwrite each other's status.
--   Scope: host names, descendants of a domain and what a snapshot covers
--   (backend/services/scope_service.py, subdomain_policy.py and scope_resolution.py, beside it).
--   Names, Snapshot and Validation have the code, Descendants, Coverage, Pattern and Accepted
--   the laws.
--   Planner: the fixed pipeline of nmap, httpx and nuclei (backend/services/pipeline_planner.py).
--   Targets has the target lists, Decide the planner, Stages and Bounds the laws.
--   Live: live authorizations (backend/services/live_authorization_service.py, live_probe_budgets.py).
--   Live/Origin parses origins, Record holds the authorization with its creation, suspension and
--   revocation, Snapshot its immutable copy, Profile the execution profile, Creation the live scans.
--   SHA-256 of canonical JSON is a function of the payload, a hypothesis says where it is used that
--   such a digest is 64 hexadecimal digits. Live/Canonical proves what a parsed origin is, Issue what
--   is granted, LifeCycle how requests move it, Usable when it may be used, Binding, RoundTrip,
--   Inverted and Verified what the verification means.
--   Discovery: the subdomain discovery before a scan (backend/services/discovery_service.py). Names
--   has the parents, the validated names and the records, Calls one validated call, Stages the loops
--   over parents and batches, Finish the promotion. The tools, the database and the cancel event are
--   functions of a clock that each read and call moves. Below and Checked are the invariants of the two
--   stages.
--   Persistence: the assets and findings of a scan (backend/services/result_persistence.py). Enrich has
--   apply_dns_enrichment and apply_dnsx_enrichment; Observed, Builders and Derive make assets of
--   observations, Store has persist_assets_from_observations; Json has sanitize_event_data; Findings,
--   Matching and Insert have link_findings_to_assets and persist_finding, and Decode how a finding's
--   dict is read. The table of assets is a list of rows. The other modules have the laws: DataOnly,
--   Stored, Adds, Links and Rerun, the gate in Gate, Gated and Authorized, Cleaned and Sanitized,
--   Hits, Hosts, Resolved and Linked.
--   Sink: the events of a run (backend/services/db_sink.py, DatabaseEventSink), written to lists of
--   rows: Write has the methods, Runs, Laws, Consistent, Closing and Proposals have the laws. A session
--   is one step, whose commit succeeds or not; a rollback takes back all of it.
--   Parsers: agent_core/tools/subfinder_parser.py and dnsx_parser.py, whose loop over the lines is one
--   definition; json.loads is a parameter.
--   Common: Boolean tests, lists, results with exceptions, and Python texts as lists of code points.
--
-- Conventions. Exceptions are values of `Result`. The planner, the tools, the clock and the cancel event
-- are functions that the definitions take. `execute` runs on fuel, and `max_steps + 1` rounds are
-- enough, since every round that goes on adds one to the step. Lower case and white space are those of
-- ASCII. Message texts are the constructors of a type for each kind of message.
--
-- Not modelled: HTTP routes, settings, the database driver, the language-model providers, the processes
-- of the scanners, and the front end.
pub mod Common
pub mod Scan
pub mod Safety
pub mod Eligibility
pub mod Runtime
pub mod Manager
pub mod Scope
pub mod Planner
pub mod Live
pub mod Discovery
pub mod Persistence
pub mod Sink
pub mod Parsers
