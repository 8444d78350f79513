-- ===== src/Orchestrator/FindWork.antt =====
-- The batches of `_find_work` of orchestrator.py.
use loony_dev.Prelude.{
  ℕ, ◌+◌, ◌≤◌, ◌<◌, false, List, [], ◌∷◌, leb, length, Text, mem_text, ◌≡◌, inl, inr, arith,
  Bool-cases, Option-cases,
}
use loony_dev.Prelude.Sorting.{sort_by}
use loony_dev.Orchestrator.Scheduler.{
  Agent, Candidate, task_identity, agent_for, pick, find_work, more_urgent,
}

-- No identity of a batch is in a list, and no two are equal.
abbrev pub DistinctFrom : List Text → List (Candidate × Agent) → Type 0
DistinctFrom seen [] = Unit {0}
DistinctFrom seen ((c, a) ∷ rest) =
    (mem_text (task_identity c) seen ≡ false) × DistinctFrom (task_identity c ∷ seen) rest

module _ (agents : List Agent) (limit : ℕ) where
  pick-DistinctFrom :
      (count : ℕ) (seen : List Text) (cs : List Candidate)
      → DistinctFrom seen (pick agents limit count seen cs)
  unfolding pick
  pick-DistinctFrom count seen [] = tt
  pick-DistinctFrom count seen (c ∷ cs) =
      let skipped = pick-DistinctFrom count seen cs in
      let taken = pick-DistinctFrom (count + 1) (task_identity c ∷ seen) cs in
      elim (Bool-cases (mem_text (task_identity c) seen)) [
        | inl e ↦ rw e skipped
        | inr e ↦ elim (Option-cases (agent_for agents c.0)) [
          | inl none_can ↦ elim (Bool-cases (leb limit count)) [
            | inl l ↦ rw (e, none_can, l) tt
            | inr l ↦ rw (e, none_can, l) skipped
          ]
          | inr (a, is) ↦ elim (Bool-cases (leb limit (count + 1))) [
            | inl l ↦ rw (e, is, l) (e, tt)
            | inr l ↦ rw (e, is, l) (e, taken)
          ]
        ]
      ]

  pick-length :
      (count : ℕ) (seen : List Text) (cs : List Candidate)
      → count < limit
      → count + length (pick agents limit count seen cs) ≤ limit
  unfolding pick
  pick-length count seen [] h = omega arith
  pick-length count seen (c ∷ cs) h =
      ground (arith, pick-length count seen cs, pick-length (count + 1) (task_identity c ∷ seen) cs)

-- With a positive limit, the batch is no longer than the limit, and no identity in it is claimed
-- already or occurs twice.
pub find_work-DistinctFrom :
    (agents : List Agent) (limit : ℕ) (claimed : List Text) (candidates : List Candidate)
    → 0 < limit
    → DistinctFrom claimed (find_work agents limit claimed candidates)
      × (length (find_work agents limit claimed candidates) ≤ limit)
unfolding find_work
find_work-DistinctFrom agents limit claimed candidates h =
    let short = pick-length agents limit 0 claimed (sort_by more_urgent candidates) h in
    (pick-DistinctFrom agents limit 0 claimed (sort_by more_urgent candidates), omega arith)
