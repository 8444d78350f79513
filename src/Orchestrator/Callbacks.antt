-- ===== src/Orchestrator/Callbacks.antt =====
-- The callbacks of `_execute_task` of orchestrator.py after a lost lease.
use loony_dev.Prelude.{Bool, false, ◌≡◌, refl, inl, inr}
use loony_dev.Github.Client.{Result, ok, raise, Exception, lease_fenced_error}
use loony_dev.Tasks.Host.{TaskResult}
use loony_dev.Orchestrator.Worker.{
  Run, fence_holds, on_exception, raised, agent_returned, prepared, execute_task,
}
use loony_dev.Orchestrator.Fencing.{
  Without, Without-append, for_pipeline-quiet, is_callback, raised-cases, fenced-quiet,
}

module _ (r : Run) (lost : fence_holds r r.after_error ≡ false) where
  raised-calls : (reported : Bool) (e : Exception) → Without is_callback (raised r reported e)
  unfolding on_exception is_callback
  raised-calls reported e = elim (raised-cases is_callback (λ a b c d. refl) r reported e) [
    | inl same ↦ rw same (fenced-quiet is_callback (λ a b c d. refl) r)
    | inr same ↦ rw (same, on_exception, lost) (fenced-quiet is_callback (λ a b c d. refl) r)
  ]

  agent_returned-calls :
      (result : Result TaskResult)
      → fence_holds r r.after_agent ≡ false
      → Without is_callback (agent_returned r result)
  unfolding agent_returned
  agent_returned-calls (raise e) gone = raised-calls false e
  agent_returned-calls (ok result) gone =
      rw (agent_returned, gone) (raised-calls false lease_fenced_error)

  prepared-calls :
      (answer : Result (Unit {0}))
      → fence_holds r r.after_agent ≡ false
      → Without is_callback (prepared r answer)
  unfolding prepared is_callback
  prepared-calls (raise e) gone = raised-calls false e
  prepared-calls (ok done) gone =
      Without-append is_callback _ _ (for_pipeline-quiet is_callback r _ refl)
        (agent_returned-calls r.agent_result gone)

-- A worker that has lost its lease when the agent returns or raises calls neither `on_complete`
-- nor `on_failure`.
pub execute_task-is_callback :
    (r : Run)
    → fence_holds r r.after_agent ≡ false
    → fence_holds r r.after_error ≡ false
    → Without is_callback (execute_task r)
unfolding execute_task is_callback
execute_task-is_callback r gone lost =
    Without-append is_callback _ _ (for_pipeline-quiet is_callback r _ refl) (
      Without-append is_callback _ _ (for_pipeline-quiet is_callback r _ refl)
        (prepared-calls r lost r.prepare gone))
