-- ===== src/Lib.antt =====
-- Switchboard: the core of the agent platform, modelled from its Python source.
--
-- Parts and files. A part keeps its rows as lists in a record (the session's view of the tables),
-- and each method is a function from the state to a result beside the new state, so what was
-- written before a raise is still there (Base/Actions: `Result`, `Exec`, do blocks).
--
-- * Memory/ is src/switchboard/memory/store.py (MemoryStore) with the drafts and rows of interfaces.py
--   and db/models.py. Types: EntryDraft, MemoryEntry, the default TTLs of config.py. Store: write,
--   write_many, supersede, expire_stale, query, latest. Snapshots: supersede_duplicates.
--   Provenance, Newest, Duplicates, Sweep and Answer: proofs.
-- * Governor/ is src/switchboard/governor/governor.py and caps_config.py. Caps: SpendCaps. CapsConfig,
--   over Floats: the override saved by the operator. Policy: check_action. Budget: the ledger, the caps in
--   force, check_budget and charge. Overlay, Gate, Verdict, Charge: proofs. The governor writes its
--   flags through Memory's `write`.
-- * Orchestrator/ is src/switchboard/orchestrator/plans.py (Plans) and dispatch.py (Dispatch). Dispatch
--   asks the governor, runs an agent, writes its entries to the memory and charges its cost.
--   Approval, Isolation, Summary, Spend: proofs.
-- * Trends/ is src/switchboard/trends/lifecycle.py (Lifecycle) and repo.py: Rows has the tables,
--   TrendRepo the trends, PipelineRepo, Rollup and JobRepo the content pipelines and their jobs.
--   Reach, Lawful, PipelineLawful, JobLawful, ReviewLawful and History: statuses under any sequence
--   of calls. Claims, Sightings, Atomicity and Rollup/Stuck: what single methods do.
-- * Engine/ is src/switchboard/trends/pipeline.py over these. Session is what the transaction of a
--   RunContext holds and how it ends; World what the engine meets outside it; Start, Worker and
--   Publish are the functions approve_and_start, run_job_sweep and publish_job with what they call;
--   Pay and CostRollup the cost rows; Personas is trends/personas.py; Routes the six editorial
--   requests of api/routes.py. Lawful, StartLawful, WorkerRules, HandOff, PublishLawful and
--   History: the statuses under any sequence of transactions. Waiting, Returns, RolledUp, Sweep,
--   Crash: the sweep. KillSwitch, PublishGates, TwoGates, Rbac, CostTable: the gates and the cost table.
-- * Scout/ is src/switchboard/trends/scout.py from the scored clusters on (Scan), monitor.py
--   (Monitor), the clustering of detector.py (Clusters) and the weights of the score (Weights:
--   trends/weights.py with its tables in detector.py). Cap, Made, Proposals, Fading, Grouping,
--   Tuning and Reset: proofs.
-- * Planner/ is src/switchboard/orchestrator/planner.py with flag_text.py (Wording: the texts,
--   Candidates: what the memory proposes, Making: the plan) and cycle.py (Making). Ranking and
--   Drafts: proofs.
-- * Costs/ is src/switchboard/costs.py and pricing.py (Pricing) and the client of the language model in
--   adapters/clients/llm.py (Llm), which asks the governor and charges it. Charged: proofs.
-- * Secrets/ is src/switchboard/credentials.py (Vault: the resolver, with register_secret of
--   logging_.py; Accessors: the accessors that read more than one key). Registered, HandedOut and
--   Again: proofs.
-- * Users/ is src/switchboard/rbac.py (Rbac), users.py (Repo) and api/auth.py (SignIn, with the test
--   of config.py who may sign in). Provision, Allowed and Entry: proofs.
-- * Base/ has what all share: lists, integers, tests, tables with a numeric key, text as code
--   points, actions and relations that actions keep.
--
-- Conventions. Times are whole seconds and days are numbers; scores and confidences are whole
-- numbers of their smallest unit; amounts that may be negative are ℤ over the native ℕ. Numbers of
-- the caps form are floats at their exact values (Governor/Floats), without overflow; the prices of
-- Costs/ are exact, rounded once. Every loop is over a list; only the digits of a number take fuel,
-- one step more than the number, which has no more digits than that, and the rounding of a float,
-- 1100 halvings or doublings, more than the 1074 that a binary exponent allows. The clock, the settings, the rows that other
-- workers hold locked, what an agent does with a view, whether Slack takes a message, and the
-- database's containment of JSON and text of a payload's kind are parameters. Rows of equal sort
-- keys come in the order of the table, which is one of the orders that the database may choose.
--
-- A transaction of the engine is one step: what another process writes while a generator runs is
-- not seen. The transports by which the engine drafts, the Emaki service, the artifact store and
-- the reading of a preview's JSON are parameters.
--
-- Not modelled: log_tool_call of the memory store and the redaction of its texts; listings for pages; the scoring of
-- clusters, prices in dollars for pages, plagiarism scans; the adapters, transports, agents and the rest of the web
-- layer, which are prompts, requests and rendering.
pub mod Base
pub mod Memory
pub mod Governor
pub mod Orchestrator
pub mod Trends
pub mod Engine
pub mod Scout
pub mod Planner
pub mod Costs
pub mod Users
pub mod Secrets
