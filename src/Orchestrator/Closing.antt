-- ===== src/Orchestrator/Closing.antt =====
-- The end of `_execute_task` of orchestrator.py for a worker that keeps its lease.
use loony_dev.Github.Client.{
  called_process_error, comment_fetch_error, value_error, rate_limited_error, runtime_error,
}
use loony_dev.Prelude.{
  arith, Bool, true, false, List, [], ◌∷◌, ◌++◌, some, if◌then◌else◌, Text, codes, ◌≡◌, refl, ap,
}
use loony_dev.Lease.Staleness.{holder_bot}
use loony_dev.Github.Client.{Result, ok, raise, Exception, lease_fenced_error}
use loony_dev.Tasks.Kinds.{worktree_key}
use loony_dev.Tasks.Host.{TaskResult}
use loony_dev.Orchestrator.Worker.{
  Run, Effect, complete, fail, finalize_snapshot, release_lease, fence_token, fence_holds,
  for_pipeline, finally, on_exception, raised, after_callback, reported_failure, handle_result,
  agent_returned, prepared, execute_task, release,
}

unfoldable pub not_fenced : Exception → Bool
not_fenced lease_fenced_error = false
not_fenced _ = true

-- A step that did not raise `LeaseFencedError`.
unfoldable pub is_unfenced {ℓ} : {A : Type ℓ} → Result A → Bool
unfolding not_fenced
is_unfenced (ok a) = true
is_unfenced (raise e) = not_fenced e

-- The effects end with the snapshot of an outcome and the release of the lease.
pub record Closes (r : Run) (k : Text) (xs : List Effect) : Type 0 where
  pub front : List Effect
  pub outcome : Text
  pub ends :
      xs ≡ front ++ finalize_snapshot outcome ∷ release_lease k holder_bot (fence_token r) ∷ []

module _ (r : Run) (k : Text) where
  Closes-append : (xs ys : List Effect) → Closes r k ys → Closes r k (xs ++ ys)
  Closes-append [] ys c = c
  Closes-append (x ∷ xs) ys c =
      let rest = Closes-append xs ys c in
      record { front = x ∷ rest.front; outcome = rest.outcome; ends = ap (λ zs. x ∷ zs) rest.ends }

  Closes-choice :
      (b : Bool) (xs ys : List Effect)
      → Closes r k xs
      → Closes r k ys
      → Closes r k (if b then xs else ys)
  Closes-choice true xs ys hx hy = hx
  Closes-choice false xs ys hx hy = hy

module _ (r : Run) (k : Text) (key : worktree_key r.task ≡ some k)
    (at_error : fence_holds r r.after_error ≡ true) (at_end : fence_holds r r.at_end ≡ true) where
  finally-Closes : (outcome : Text) → Closes r k (finally r outcome false)
  unfolding finally for_pipeline release
  finally-Closes outcome =
      rw (finally, at_end, for_pipeline, release, key)
        (record { front = _ ∷ []; outcome = outcome; ends = refl })

  on_exception-Closes : (reported : Bool) (e : Exception) → Closes r k (on_exception r reported e)
  unfolding on_exception
  on_exception-Closes reported e =
      rw (on_exception, at_error)
        (Closes-append r k _ _ (
          Closes-append r k (if reported then [] else fail e ∷ []) _
            (finally-Closes (codes "failed"))))

  raised-Closes :
      (reported : Bool) (e : Exception) → not_fenced e ≡ true → Closes r k (raised r reported e)
  unfolding not_fenced raised
  raised-Closes reported lease_fenced_error unfenced = ground arith
  raised-Closes reported called_process_error unfenced =
      on_exception-Closes reported called_process_error
  raised-Closes reported comment_fetch_error unfenced =
      on_exception-Closes reported comment_fetch_error
  raised-Closes reported value_error unfenced = on_exception-Closes reported value_error
  raised-Closes reported (rate_limited_error summary) unfenced =
      on_exception-Closes reported (rate_limited_error summary)
  raised-Closes reported (runtime_error message) unfenced =
      on_exception-Closes reported (runtime_error message)

  after_callback-Closes :
      (reported : Bool) (outcome : Text) (answer : Result (Unit {0}))
      → is_unfenced answer ≡ true
      → Closes r k (after_callback r reported outcome answer)
  unfolding after_callback is_unfenced
  after_callback-Closes reported outcome (ok done) unfenced = finally-Closes outcome
  after_callback-Closes reported outcome (raise e) unfenced = raised-Closes reported e unfenced

module _ (r : Run) (k : Text) (key : worktree_key r.task ≡ some k)
    (after_agent : fence_holds r r.after_agent ≡ true)
    (at_error : fence_holds r r.after_error ≡ true) (at_end : fence_holds r r.at_end ≡ true)
    (completes : (result : TaskResult) → is_unfenced (r.on_complete_result result) ≡ true)
    (fails : (e : Exception) → is_unfenced (r.on_failure_result e) ≡ true) where
  reported_failure-Closes : (what : Text) (e : Exception) → Closes r k (reported_failure r what e)
  unfolding reported_failure
  reported_failure-Closes what e = Closes-append r k _ _ (
      Closes-append r k (fail e ∷ []) _ (
        after_callback-Closes r k key at_error at_end true (codes "failed") (r.on_failure_result e)
          (fails e)))

  handle_result-Closes : (result : TaskResult) → Closes r k (handle_result r result)
  unfolding handle_result
  handle_result-Closes result =
      Closes-choice r k result.success _ _
        (Closes-append r k (complete result ∷ []) _ (
          after_callback-Closes r k key at_error at_end false (codes "idle")
            (r.on_complete_result result) (completes result)))
        (Closes-choice r k result.rate_limited _ _ (reported_failure-Closes _ _)
          (reported_failure-Closes _ _))

  agent_returned-Closes :
      (result : Result TaskResult)
      → is_unfenced result ≡ true
      → Closes r k (agent_returned r result)
  unfolding agent_returned is_unfenced
  agent_returned-Closes (raise e) unfenced = raised-Closes r k key at_error at_end false e unfenced
  agent_returned-Closes (ok result) unfenced =
      rw (agent_returned, after_agent) (handle_result-Closes result)

  prepared-Closes :
      (answer : Result (Unit {0}))
      → is_unfenced answer ≡ true
      → is_unfenced r.agent_result ≡ true
      → Closes r k (prepared r answer)
  unfolding prepared is_unfenced
  prepared-Closes (raise e) unfenced agent = raised-Closes r k key at_error at_end false e unfenced
  prepared-Closes (ok done) unfenced agent =
      Closes-append r k _ _ (agent_returned-Closes r.agent_result agent)

  -- A worker that holds its lease at each fence check, and whose steps do not raise
  -- `LeaseFencedError`, ends with the final snapshot and the release of its own lease, whether its
  -- steps returned or raised.
  pub execute_task-Closes :
      is_unfenced r.prepare ≡ true → is_unfenced r.agent_result ≡ true → Closes r k (execute_task r)
  unfolding execute_task
  execute_task-Closes prepare agent =
      Closes-append r k _ _ (Closes-append r k _ _ (prepared-Closes r.prepare prepare agent))
