-- ===== src/Lib.antt =====
-- Applivery SOAR: the core of the backend (backend/src), which runs workflows on managed devices,
-- keeps cases, and decides who may do what.
--
-- The parts and how they meet:
-- - Workflow, for backend/src/modules/workflows/durableEngine.ts. `Store` holds the tables
--   WorkflowRun, WorkflowRunResult and WorkflowPendingStep with upsertRunResult,
--   finalizeRunIfDone, runView and listOpenRuns; `Steps` the configuration of a workflow; `Chain`
--   runDeviceStepChain; `Resume` resumeDueWorkflowSteps and resumeWorkflowPendingStepByToken;
--   `Run` executeWorkflowRunDurable. A chain either ends or parks itself in a pending step, which
--   the timer or the report of a script takes up again.
-- - Cases, for backend/src/modules/cases. `Table` holds cases, timeline, and the events to the
--   integrations; `Update` is updateCase in stages; `Violation` upsertCaseForViolation and
--   markCaseRecovered, which the compliance evaluation calls; `Sla` the clocks and
--   runCaseSlaMonitorTick (caseJobs.ts); `AutoRun` tryCaseAutorun (caseAutoRun.service.ts), which
--   launches workflows, and the admin's operations on its rules; `Create` createCase,
--   openCaseForTrigger and bulkUpdateCases.
-- - Access, for backend/src/modules/auth/rbac.service.ts and
--   backend/src/middleware/rbac.middleware.ts. `Collaborator` is findSelfCollaborator, `Resolve`
--   resolveSoarAccess, whose result goes into the cache of `Guard`, which requirePermission reads
--   on every request.
-- - Triggers, for backend/src/modules/workflows/triggers.service.ts: `Table` for the admin's
--   operations, `Fire` for fireTrigger and resolveTrigger, which launch workflows and open cases.
-- - Limits, for backend/src/middleware/rateLimiter.middleware.ts (`Window`),
--   backend/src/utils/tokenBucket.ts (`Bucket`), backend/src/services/liveCache.ts (`Cache`) and
--   backend/src/services/appliveryPaginate.ts (`Pages`).
-- - Compliance, for backend/src/modules/compliance/compliance.service.ts. `Pass` is
--   runComplianceEvaluation: `Pass/Table` its rows, `Pass/Breaker` autorunCircuitBreakerCheck and
--   the cap, `Pass/Plan` the variables of the pass and the choice for a new violation,
--   `Pass/Settle` the branches of that choice, `Pass/Visit` the inner loop, which opens and
--   recovers cases by the operations of Cases, `Pass/Run` the outer loop, and `Pass/Evaluation`
--   the whole. `Alert` is firePolicyViolationAlert, `Review` approveViolationCore and
--   dismissViolationCore with their bulk forms, `Payload` and `Manage` the create, update and
--   delete of policies, `Forced` forceEvaluateNow, `Markers` the writes of tags and smart
--   attributes, and `Scheduler` the tick of backend/src/modules/compliance/complianceJobs.ts with
--   the guard of backend/src/jobs/jobReentrancyGuard.ts. `Versions` and `Policy` are
--   compareVersionTuples and policyViolated of complianceEvaluate.ts, and `Scope` is
--   geofenceScopedDeviceIds of backend/src/modules/geofencing/geofence.service.ts.
-- - Common: tests, lists, texts and maps that the parts share.
--
-- Conventions. A time is a number of milliseconds. A database table is a list of rows, its calls
-- are taken to succeed, and `await` points do not interleave within one operation. What is asked of
-- other services (step executors, Applivery's API, the launch of a run, random tokens) comes from
-- outside as an argument, and so does what a single condition says of a device. A map is a list of
-- its entries. Texts of log entries that a template makes are values of a type with one constructor
-- for each template.
--
-- Fuel. The loop of a chain counts its rounds up to 50 in the source (`guard < 50`), so its fuel
-- of 51 is enough from any log. The search for a collaborator has no bound of its own: its theorem
-- asks for more fuel than there are pages. The polls of waitForToken need ten rounds a token and
-- one more. The other loops are structural.
--
-- Not modelled: evaluateCondition, the geometry of zones, the audit log, exports, the settings,
-- catalogs and reports, device certificates, and the frontend.
pub mod Common
pub mod Workflow
pub mod Cases
pub mod Access
pub mod Limits
pub mod Triggers
pub mod Compliance
