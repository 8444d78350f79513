-- ===== src/Orchestrator/Scheduler.antt =====
-- `_task_identity`, `_free_slots`, `_claimed_keys`, `_gather_candidates` and `_find_work`.
use loony_dev.Prelude.{
  ℕ, ◌-◌, ◌+◌, Bool, List, [], ◌∷◌, ◌++◌, Option, none, some, if◌then◌else◌, leb, ltb, length, Text,
  codes, mem_text, print_ℕ,
}
use loony_dev.Prelude.Sorting.{sort_by}
use loony_dev.Github.Client.{Result, ok}
use loony_dev.Tasks.Kinds.{Task, priority, worktree_key, target_branch}
use loony_dev.Tasks.Due.{Repo, ◌>>=◌}
use loony_dev.Pipeline.Ladder.{Pipeline, next_task}

pub record Agent : Type 0 where
  pub name : Text
  pub can_handle : Task → Bool

-- A task with the number that `id(task)` gives it.
abbrev pub Candidate : Type 0
Candidate = Task × ℕ

-- `value or fallback`
abbrev pub or_text : Option Text → Text → Text
or_text none fallback = fallback
or_text (some []) fallback = fallback
or_text (some (c ∷ s)) fallback = c ∷ s

unfoldable pub task_identity : Candidate → Text
task_identity (t, id) =
    or_text (worktree_key t) (or_text (target_branch t) (codes "task-" ++ print_ℕ id))

-- One task per pipeline, numbered from n; a rung that raises ends the gather.
unfoldable pub gather_candidates : Repo → ℕ → List Pipeline → Result (List Candidate)
gather_candidates repo n [] = ok []
gather_candidates repo n (p ∷ ps) = next_task repo p >>= λ answer. elim answer [
  | none ↦ gather_candidates repo n ps
  | some t ↦ gather_candidates repo (n + 1) ps >>= λ rest. ok ((t, n) ∷ rest)
]

-- The first agent that can handle a task.
unfoldable pub agent_for : List Agent → Task → Option Agent
agent_for [] t = none
agent_for (a ∷ agents) t = if a.can_handle t then some a else agent_for agents t

-- The pairs that the loop appends to a list of `count` results.
unfoldable pub pick : List Agent → ℕ → ℕ → List Text → List Candidate → List (Candidate × Agent)
pick agents limit count seen [] = []
pick agents limit count seen (c ∷ cs) =
    let skipped = pick agents limit count seen cs in
    let taken = pick agents limit (count + 1) (task_identity c ∷ seen) cs in
    if mem_text (task_identity c) seen then skipped else elim (agent_for agents c.0) [
      | some a ↦ (c, a) ∷ (if leb limit (count + 1) then [] else taken)
      | none ↦ if leb limit count then [] else skipped
    ]

abbrev pub more_urgent : Candidate → Candidate → Bool
more_urgent a b = ltb (priority a.0) (priority b.0)

unfoldable pub find_work : List Agent → ℕ → List Text → List Candidate → List (Candidate × Agent)
unfolding pick
find_work agents limit claimed candidates =
    pick agents limit 0 claimed (sort_by more_urgent candidates)

-- The identities of the tasks in flight, and the pipelines that a drive holds.
unfoldable pub claimed_keys : List (Candidate × Agent) → List Text → List Text
claimed_keys [] driven = driven
claimed_keys ((c, a) ∷ inflight) driven = task_identity c ∷ claimed_keys inflight driven

-- `max_concurrent - len(inflight)`, where the caller goes on only for a positive number.
unfoldable pub free_slots : ℕ → List (Candidate × Agent) → ℕ
free_slots max_concurrent inflight = max_concurrent - length inflight
