-- ===== src/Workflow/Run.antt =====
-- A whole run: `executeWorkflowRunDurable` of durableEngine.ts. Its workers take the devices off a
-- shared cursor; the list holds the chains in the order in which they end, which may be any. The
-- cache of the devices that the last line drops is not modelled.
pub mod Completion
use applivery_soar.Common.{ℕ, String, none, List, [], ◌∷◌}
use applivery_soar.Workflow.Store.{Store, finalize_run_if_done}
use applivery_soar.Workflow.Steps.{Context}
use applivery_soar.Workflow.Chain.{run_device_step_chain}

unfoldable pub run_chains : List Context → Store → Store
run_chains [] s = s
run_chains (c ∷ cs) s = run_chains cs (run_device_step_chain c none [] s).0

-- `executeWorkflowRunDurable`
unfoldable pub execute_workflow_run_durable : ℕ → String → List Context → Store → Store
unfolding run_chains
execute_workflow_run_durable now run_id chains s =
    finalize_run_if_done now run_id (run_chains chains s)
