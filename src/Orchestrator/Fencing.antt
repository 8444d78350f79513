-- ===== src/Orchestrator/Fencing.antt =====
-- The fenced end of `_execute_task` of orchestrator.py.
use loony_dev.Prelude.{
  if◌then◌else◌, Bool, true, false, List, [], ◌∷◌, ◌++◌, any_of, Text, codes, ◌≡◌, refl, ◌⊎◌, inl,
  inr, arith, Bool-cases, Option-cases,
}
use loony_dev.Github.Client.{
  Result, ok, raise, Exception, lease_fenced_error, rate_limited_error, runtime_error,
  called_process_error, comment_fetch_error, value_error,
}
use loony_dev.Tasks.Kinds.{worktree_key}
use loony_dev.Tasks.Host.{TaskResult}
use loony_dev.Orchestrator.Worker.{
  Run, Effect, emit, complete, fail, finalize_snapshot, release_lease, fence_holds, for_pipeline,
  stand_down, error_event, finally, on_exception, raised, after_callback, reported_failure,
  handle_result, agent_returned, prepared, execute_task,
}

-- A callback of the task, which changes GitHub.
unfoldable pub is_callback : Effect → Bool
is_callback (complete result) = true
is_callback (fail e) = true
is_callback _ = false

-- A write that belongs to the holder of the lease.
unfoldable pub is_terminal : Effect → Bool
is_terminal (finalize_snapshot outcome) = true
is_terminal (release_lease key holder token) = true
is_terminal _ = false

-- No effect of a list is of a kind.
unfoldable pub Without : (Effect → Bool) → List Effect → Type 0
Without kind xs = any_of kind xs ≡ false

pub Without-append :
    (test : Effect → Bool) (xs ys : List Effect)
    → Without test xs
    → Without test ys
    → Without test (xs ++ ys)
unfolding Without
Without-append test [] ys hx hy = hy
Without-append test (x ∷ xs) ys hx hy = ground (arith, Without-append test xs ys)

Without-nil : (test : Effect → Bool) → Without test []
unfolding Without
Without-nil test = refl

Without-cons :
    (test : Effect → Bool) (e : Effect) (xs : List Effect)
    → test e ≡ false
    → Without test xs
    → Without test (e ∷ xs)
unfolding Without
Without-cons test e xs quiet rest = ground arith

Without-choice :
    (test : Effect → Bool) (b : Bool) (xs ys : List Effect)
    → Without test xs
    → Without test ys
    → Without test (if b then xs else ys)
Without-choice test true xs ys hx hy = hx
Without-choice test false xs ys hx hy = hy

pub for_pipeline-quiet :
    (test : Effect → Bool) (r : Run) (e : Effect) → test e ≡ false → Without test (for_pipeline r e)
unfolding for_pipeline
for_pipeline-quiet test r e quiet = elim (Option-cases (worktree_key r.task)) [
  | inl none_e ↦ rw (for_pipeline, none_e) (Without-nil test)
  | inr (k, some_e) ↦ rw (for_pipeline, some_e) (Without-cons test e [] quiet (Without-nil test))
]

-- Without the lease at the error, the worker stands down in place of its failure callback.
module _ (test : Effect → Bool) (quiet : (a b c d : Text) → test (emit a b c d) ≡ false)
    (r : Run) where
  stand_down-quiet : Without test (stand_down r)
  unfolding stand_down
  stand_down-quiet = for_pipeline-quiet test r _ (quiet _ _ _ _)

  error_event-quiet : (what : Text) → Without test (error_event r what)
  unfolding error_event
  error_event-quiet what = for_pipeline-quiet test r _ (quiet _ _ _ _)

  -- With the lease lost at the end, the `finally` block only stands down.
  finally-lost :
      (outcome : Text) (fenced : Bool)
      → fence_holds r r.at_end ≡ false
      → Without test (finally r outcome fenced)
  unfolding finally
  finally-lost outcome true lost = Without-nil test
  finally-lost outcome false lost = rw lost stand_down-quiet

  pub raised-cases :
      (reported : Bool) (e : Exception)
      → (raised r reported e ≡ stand_down r ++ finally r (codes "failed") true)
        ⊎ (raised r reported e ≡ on_exception r reported e)
  unfolding raised
  raised-cases reported lease_fenced_error = inl refl
  raised-cases reported called_process_error = inr refl
  raised-cases reported comment_fetch_error = inr refl
  raised-cases reported value_error = inr refl
  raised-cases reported (rate_limited_error summary) = inr refl
  raised-cases reported (runtime_error message) = inr refl

  pub fenced-quiet : Without test (stand_down r ++ finally r (codes "failed") true)
  unfolding finally
  fenced-quiet = Without-append test (stand_down r) [] stand_down-quiet (Without-nil test)

module _ (r : Run) (lost : fence_holds r r.at_end ≡ false) where
  ends : (outcome : Text) (fenced : Bool) → Without is_terminal (finally r outcome fenced)
  unfolding is_terminal
  ends outcome fenced = finally-lost is_terminal (λ a b c d. refl) r outcome fenced lost

  on_exception-ends :
      (reported : Bool) (e : Exception) → Without is_terminal (on_exception r reported e)
  unfolding on_exception is_terminal
  on_exception-ends reported e = elim (Bool-cases (fence_holds r r.after_error)) [
    | inl holds ↦ rw holds (
        Without-append is_terminal _ _ (error_event-quiet is_terminal (λ a b c d. refl) r _)
          (reports reported))
    | inr gone ↦ rw gone (fenced-quiet is_terminal (λ a b c d. refl) r)
  ]
    where
      reports :
          (reported : Bool)
          → Without is_terminal
              ((if reported then [] else fail e ∷ []) ++ finally r (codes "failed") false)
      reports true = ends (codes "failed") false
      reports false = Without-cons is_terminal (fail e) _ refl (ends (codes "failed") false)

  raised-ends : (reported : Bool) (e : Exception) → Without is_terminal (raised r reported e)
  unfolding is_terminal
  raised-ends reported e = elim (raised-cases is_terminal (λ a b c d. refl) r reported e) [
    | inl same ↦ rw same (fenced-quiet is_terminal (λ a b c d. refl) r)
    | inr same ↦ rw same (on_exception-ends reported e)
  ]

  after_callback-ends :
      (reported : Bool) (outcome : Text) (answer : Result (Unit {0}))
      → Without is_terminal (after_callback r reported outcome answer)
  unfolding after_callback
  after_callback-ends reported outcome (ok done) = ends outcome false
  after_callback-ends reported outcome (raise e) = raised-ends reported e

  reported_failure-ends :
      (what : Text) (e : Exception) → Without is_terminal (reported_failure r what e)
  unfolding reported_failure is_terminal
  reported_failure-ends what e =
      Without-append is_terminal _ _ (error_event-quiet is_terminal (λ a b c d. refl) r what) (
        Without-cons is_terminal (fail e) _ refl
          (after_callback-ends true (codes "failed") (r.on_failure_result e)))

  handle_result-ends : (result : TaskResult) → Without is_terminal (handle_result r result)
  unfolding handle_result is_terminal
  handle_result-ends result =
      Without-choice is_terminal result.success _ _
        (Without-cons is_terminal (complete result) _ refl
          (after_callback-ends false (codes "idle") (r.on_complete_result result)))
        (Without-choice is_terminal result.rate_limited _ _ (reported_failure-ends _ _)
          (reported_failure-ends _ _))

  agent_returned-ends : (result : Result TaskResult) → Without is_terminal (agent_returned r result)
  unfolding agent_returned
  agent_returned-ends (raise e) = raised-ends false e
  agent_returned-ends (ok result) = elim (Bool-cases (fence_holds r r.after_agent)) [
    | inl holds ↦ rw holds (handle_result-ends result)
    | inr gone ↦ rw gone (raised-ends false lease_fenced_error)
  ]

  prepared-ends : (answer : Result (Unit {0})) → Without is_terminal (prepared r answer)
  unfolding prepared is_terminal
  prepared-ends (raise e) = raised-ends false e
  prepared-ends (ok done) =
      Without-append is_terminal _ _ (for_pipeline-quiet is_terminal r _ refl)
        (agent_returned-ends r.agent_result)

-- A worker whose lease is gone at its last fence check neither finalizes the snapshot nor
-- releases the lease, however its steps ended.
pub execute_task-is_terminal :
    (r : Run) → fence_holds r r.at_end ≡ false → Without is_terminal (execute_task r)
unfolding execute_task is_terminal
execute_task-is_terminal r lost =
    Without-append is_terminal _ _ (for_pipeline-quiet is_terminal r _ refl) (
      Without-append is_terminal _ _ (for_pipeline-quiet is_terminal r _ refl)
        (prepared-ends r lost r.prepare))
