-- ===== src/Lib.antt =====
-- A verification library of the backend's core: the workflow that carries a task through its steps,
-- and what decides about it.
--
-- The parts and how they interact. A task of an issue is made from a template (Workflow/Templates,
-- Workflow/Resolver) and is a list of steps. The engine (Workflow/Engine) creates it, starts its
-- current step as a run, and goes back to an earlier step. The end of a run is reported to
-- Workflow/Progress, which closes the step and opens the next one. Workflow/AutoAdvance starts the
-- next step where no human is needed. Pm/NextAction says what is to be done about an issue,
-- Pm/Policy keeps the policy of a project, Approvals asks for approvals of controlled actions, Scm
-- follows the pull request of a run, Sandbox chooses how a workspace is made, and Auth keeps the
-- sessions of refresh tokens. Workflow/Dispatch hands a run to one of the Executors; the system's
-- executor opens pull requests and publishes artifacts, and waits for an approval where the policy
-- or a sensitive path (Pm/SensitivePaths) asks for one. Pm/AutoAdvance does the same for runs without
-- a task. Acp keeps the tunnel to the agents: it opens sandboxes, waits for the answers of proxies,
-- stores what an agent says and ends its run. Proxy unpacks archives in a sandbox and serves the
-- requests of an agent there (Facade).
--
-- The files and the code:
--   Db/Types, Db/Tables: the enums, the rows and the client's calls of backend/prisma/schema.prisma
--   Db/Exec: code that reads and writes the database and may throw, keeping what it wrote
--   Json: the values of JSON columns
--   Workflow/Templates: taskTemplates.ts; Workflow/Resolver: taskTemplateResolver.ts
--   Workflow/Engine: taskEngine.ts (createTaskFromTemplate, startStep, rollbackTaskToStep)
--   Workflow/Progress: taskProgress.ts (advanceTaskFromRunTerminal, setTaskBlockedFromRun)
--   Workflow/AutoAdvance: taskAutoAdvance.ts (autoAdvanceTaskOnce)
--   Workflow/Pipeline: a driver of a whole task over the engine and the progress
--     (all of these are in backend/src/modules/workflow)
--   Runs/AgentOutput: backend/src/modules/runs/agentOutput.ts
--   Approvals: backend/src/modules/approvals/approvalRequests.ts
--   Pm/Policy: backend/src/modules/pm/pmPolicy.ts and
--     backend/src/modules/workflow/taskTemplatePolicy.ts
--   Pm/NextAction: backend/src/modules/pm/pmNextAction.ts
--   Workflow/Dispatch: backend/src/modules/workflow/executionDispatch.ts
--   Executors: backend/src/executors (humanExecutor.ts, ciExecutor.ts), Executors/System:
--     systemExecutor.ts; Executors/Waiting and Executors/Done have the proofs
--   Pm/SensitivePaths: backend/src/modules/pm/pmSensitivePaths.ts, with its proofs in Matching, Globs
--     and Hits
--   Pm/AutoAdvance: backend/src/modules/pm/pmAutoAdvance.ts
--   Acp: backend/src/modules/acp/acpTunnel.ts. Chunks: the joining of chunks; Sessions: the states of
--     runs and the promises that wait for a proxy; Updates: what an update says of its session;
--     Prompts: the opening of a sandbox and the end of a prompt; Finalize: the end of a run
--   Proxy/Zip: acp-proxy/src/skills/zipSafeExtract.ts
--   Proxy/Facade: acp-proxy/src/acpClientFacade.ts (the output of terminals, the paths, the permissions)
--   Proxy/Inputs: acp-proxy/src/runs/agentInputs.ts and, from applyAgentInputs.ts, the paths of targets
--   Proxy/Runs: acp-proxy/src/runs/runManager.ts, acp-proxy/src/utils/validate.ts and the beginning of
--     ensureRuntime in acp-proxy/src/runs/runRuntime.ts
--   Runs/EnvText: backend/src/utils/envText.ts and normalizeRoleEnv of backend/src/modules/runs/runRecovery.ts
--   Scm: backend/src/modules/scm/runScmState.ts
--   Sandbox: backend/src/utils/workspacePolicy.ts and sandboxCaps.ts
--   Auth: backend/src/modules/auth/refreshSessions.ts
--   Demo and the Tests modules: concrete rows, and the theorems at them
--
-- State and operations. The database is a record of tables, a table a list of rows. A function of
-- the source is the definition of the same name in snake case. An update whose error is ignored
-- rewrites the rows that fit, and one whose error is not ignored fails on a row that is not there.
-- Generated ids, the time, `JSON.parse`, the zod schemas, `toISOString`, the admin token, the hash of a
-- token, the calls of the repository hosts, the agents' executor and the disk are arguments. A text
-- is compared by its code points after `trim` and `toLowerCase`, as the source does. The terminals'
-- output is cut between UTF-16 code units, and is a list of these.
--
-- Bounds and fuel. Loops are structural on lists, and need no fuel. The bisection of a terminal's
-- output takes one more round of fuel than the text has units, which is enough since its interval
-- shrinks in every round. The driver of a task takes one request for each step that is left.
--
-- Not modelled: the routes and gateways, the messages of the tunnel to agents and clients, the
-- integrations with GitHub and GitLab, the agents' executor, the load of an agent, the sandbox
-- providers, the frontend, and the queues of promises, which run the jobs of an issue or of a run one
-- after the other.
mod Prelude
pub mod Json
pub mod Db
pub mod Runs
pub mod Workflow
pub mod Approvals
pub mod Executors
pub mod Pm
mod Demo
pub mod Scm
pub mod Sandbox
pub mod Auth
pub mod Acp
pub mod Proxy
