-- ===== src/Orchestrator/Rollback.antt =====
-- What a shutdown does to the leases.
use loony_dev.Prelude.{
  Bool, true, false, List, [], ◌∷◌, ◌++◌, Option, none, some, Text, ◌≡◌, refl, ◌∙◌, ◌⊎◌, inl, inr,
  arith, Bool-cases, text_eq, text_eq_iff, All,
}
use loony_dev.Prelude.Dictionary.{Dict, lookup, lookup-remove, lookup-remove_self}
use loony_dev.Prelude.Values.{Python}
use loony_dev.Slug.{task_slug}
use loony_dev.Lease.Staleness.{PipelineLease, is_text, holder_bot}
use loony_dev.Lease.Acquire.{release_pipeline_lease, release_allowed, read_pipeline_lease}
use loony_dev.Tasks.Kinds.{worktree_key}
use loony_dev.Orchestrator.Scheduler.{Agent, Candidate}
use loony_dev.Orchestrator.Reclaim.{release_all_pipeline_worktrees}
use loony_dev.Orchestrator.Shutdown.{
  Flags, Site, Stage, release_dangling, roll_back, cancel_all, on_shutdown,
}

-- A release leaves the other leases alone.
release_dangling-other :
    (py : Python) (key slug : Text) (leases : Dict Text)
    → text_eq (task_slug py key) slug ≡ false
    → lookup slug (release_dangling py (some key) leases) ≡ lookup slug leases
unfolding release_dangling release_pipeline_lease
release_dangling-other py key slug leases h =
    ground (arith, lookup-remove (task_slug py key) slug leases)

-- The lease file is there as it was, or gone.
release_dangling-keeps :
    (py : Python) (key : Option Text) (slug : Text) (leases : Dict Text)
    → (lookup slug (release_dangling py key leases) ≡ none)
      ⊎ (lookup slug (release_dangling py key leases) ≡ lookup slug leases)
unfolding release_dangling release_pipeline_lease
release_dangling-keeps py none slug leases = inr refl
release_dangling-keeps py (some key) slug leases =
    ground (arith, lookup-remove (task_slug py key) slug leases)

-- A lease that the bot holds goes.
release_dangling-held :
    (py : Python) (key : Text) (leases : Dict Text) (lease : PipelineLease)
    → read_pipeline_lease py leases key ≡ some lease
    → is_text lease.holder holder_bot ≡ true
    → lookup (task_slug py key) (release_dangling py (some key) leases) ≡ none
unfolding release_dangling release_pipeline_lease read_pipeline_lease release_allowed
release_dangling-held py key leases lease found held =
    ground (arith, found, held, lookup-remove_self (task_slug py key) leases)

cancel_all-keeps :
    (stage : Stage) (xs : List (Candidate × Agent)) (site : Site) (slug : Text)
    → (lookup slug (cancel_all stage xs site).leases ≡ none)
      ⊎ (lookup slug (cancel_all stage xs site).leases ≡ lookup slug site.leases)
unfolding cancel_all roll_back
cancel_all-keeps stage [] site slug = inr refl
cancel_all-keeps stage ((c, a) ∷ xs) site slug =
    let key = worktree_key c.0 in
    ground (
      arith,
      release_dangling-keeps stage.py key slug site.leases,
      cancel_all-keeps stage xs (roll_back stage (c, a) site) slug,
      cancel_all-keeps stage xs (record site { terminated = site.terminated ++ (c, a) ∷ [] }) slug,
    )

-- A queued task, whose pipeline has the key.
pub data Queued (stage : Stage) (key : Text) : List (Candidate × Agent) → Type 0 where
  here :
      {c : Candidate} {a : Agent} {xs : List (Candidate × Agent)}
      → stage.cancels (c, a) ≡ true
      → worktree_key c.0 ≡ some key
      → Queued stage key ((c, a) ∷ xs)
  there :
      {x : Candidate × Agent} {xs : List (Candidate × Agent)}
      → Queued stage key xs
      → Queued stage key (x ∷ xs)

cancel_all-none :
    (stage : Stage) (xs : List (Candidate × Agent)) (site : Site) (slug : Text)
    → lookup slug site.leases ≡ none
    → lookup slug (cancel_all stage xs site).leases ≡ none
cancel_all-none stage xs site slug h = elim (cancel_all-keeps stage xs site slug) [
  | inl e ↦ e
  | inr e ↦ e ∙ h
]

-- The lease that is on disk is this one, or none.
Left : Python → Text → PipelineLease → Dict Text → Type 0
Left py key lease leases =
    (lookup (task_slug py key) leases ≡ none) ⊎ (read_pipeline_lease py leases key ≡ some lease)

Left-release_dangling :
    (py : Python) (key : Text) (lease : PipelineLease) (other : Option Text) (leases : Dict Text)
    → Left py key lease leases
    → Left py key lease (release_dangling py other leases)
unfolding Left read_pipeline_lease
Left-release_dangling py key lease other leases h =
    elim (release_dangling-keeps py other (task_slug py key) leases) [
      | inl gone ↦ inl gone
      | inr same ↦ rw same h
    ]

release_dangling-Left :
    (py : Python) (key : Text) (lease : PipelineLease) (leases : Dict Text)
    → is_text lease.holder holder_bot ≡ true
    → Left py key lease leases
    → lookup (task_slug py key) (release_dangling py (some key) leases) ≡ none
unfolding Left
release_dangling-Left py key lease leases held (inl gone) =
    elim (release_dangling-keeps py (some key) (task_slug py key) leases) [
      | inl e ↦ e
      | inr e ↦ e ∙ gone
    ]
release_dangling-Left py key lease leases held (inr found) =
    release_dangling-held py key leases lease found held

-- The lease file of a queued task that is the bot's, or gone already, is gone at the end.
cancel_all-Queued :
    (stage : Stage) (key : Text) (lease : PipelineLease) (xs : List (Candidate × Agent))
    (site : Site)
    → All (λ x. stage.terminates x ≡ true) xs
    → Queued stage key xs
    → is_text lease.holder holder_bot ≡ true
    → Left stage.py key lease site.leases
    → lookup (task_slug stage.py key) (cancel_all stage xs site).leases ≡ none
unfolding cancel_all roll_back
cancel_all-Queued stage key lease [] site ends q held h = elim q [ ]
cancel_all-Queued stage key lease ((c, a) ∷ xs) site (ends, rest) (here stopped at) held h =
    rw (cancel_all, stopped)
      (cancel_all-none stage xs (roll_back stage (c, a) site) (task_slug stage.py key)
        (rw (roll_back, at) (release_dangling-Left stage.py key lease site.leases held h)))
cancel_all-Queued stage key lease ((c, a) ∷ xs) site (ends, rest) (there q) held h =
    let told = record site { terminated = site.terminated ++ (c, a) ∷ [] } in
    elim (Bool-cases (stage.cancels (c, a))) [
      | inl stopped ↦
          rw (cancel_all, stopped)
            (cancel_all-Queued stage key lease xs (roll_back stage (c, a) site) rest q held
              (Left-release_dangling stage.py key lease (worktree_key c.0) site.leases h))
      | inr running ↦
          rw (cancel_all, running, ends) (cancel_all-Queued stage key lease xs told rest q held h)
    ]

-- A lease file that changed is that of a queued task.
Changed : Stage → List (Candidate × Agent) → Text → Dict Text → Dict Text → Type 0
Changed stage xs slug before after =
    (lookup slug after ≡ lookup slug before)
    ⊎ ((key : Text) × (task_slug stage.py key ≡ slug) × Queued stage key xs)

unchanged :
    (stage : Stage) (xs : List (Candidate × Agent)) (slug : Text) (d : Dict Text)
    → Changed stage xs slug d d
unfolding Changed
unchanged stage xs slug d = inl refl

Changed-there :
    (stage : Stage) (x : Candidate × Agent) (xs : List (Candidate × Agent)) (slug : Text)
    (before after : Dict Text)
    → Changed stage xs slug before after
    → Changed stage (x ∷ xs) slug before after
unfolding Changed
Changed-there stage x xs slug before after (inl same) = inl same
Changed-there stage x xs slug before after (inr (key, e, q)) = inr (key, e, there q)

Changed-trans :
    (stage : Stage) (xs : List (Candidate × Agent)) (slug : Text) (a b c : Dict Text)
    → Changed stage xs slug a b
    → Changed stage xs slug b c
    → Changed stage xs slug a c
unfolding Changed
Changed-trans stage xs slug a b c (inr k) h = inr k
Changed-trans stage xs slug a b c (inl same) (inr k) = inr k
Changed-trans stage xs slug a b c (inl same) (inl e) = inl (e ∙ same)

Changed-release_dangling :
    (stage : Stage) (c : Candidate) (a : Agent) (xs : List (Candidate × Agent)) (slug : Text)
    (leases : Dict Text) (key : Option Text)
    → stage.cancels (c, a) ≡ true
    → worktree_key c.0 ≡ key
    → Changed stage ((c, a) ∷ xs) slug leases (release_dangling stage.py key leases)
unfolding Changed release_dangling
Changed-release_dangling stage c a xs slug leases none stopped at = inl refl
Changed-release_dangling stage c a xs slug leases (some key) stopped at =
    elim (Bool-cases (text_eq (task_slug stage.py key) slug)) [
      | inl e ↦ inr (key, (text_eq_iff (task_slug stage.py key) slug).0 e, here stopped at)
      | inr e ↦ inl (release_dangling-other stage.py key slug leases e)
    ]

cancel_all-Changed :
    (stage : Stage) (xs : List (Candidate × Agent)) (site : Site) (slug : Text)
    → Changed stage xs slug site.leases (cancel_all stage xs site).leases
unfolding cancel_all roll_back
cancel_all-Changed stage [] site slug = unchanged stage [] slug site.leases
cancel_all-Changed stage ((c, a) ∷ xs) site slug =
    let told = record site { terminated = site.terminated ++ (c, a) ∷ [] } in
    let rolled = roll_back stage (c, a) site in
    elim (Bool-cases (stage.cancels (c, a))) [
      | inl stopped ↦
          rw (cancel_all, stopped)
            (Changed-trans stage ((c, a) ∷ xs) slug site.leases rolled.leases
              (cancel_all stage xs rolled).leases
              (Changed-release_dangling stage c a xs slug site.leases (worktree_key c.0) stopped
                refl)
              (Changed-there stage (c, a) xs slug rolled.leases (cancel_all stage xs rolled).leases
                (cancel_all-Changed stage xs rolled slug)))
      | inr running ↦ elim (Bool-cases (stage.terminates (c, a))) [
        | inl ends ↦
            rw (cancel_all, running, ends)
              (Changed-there stage (c, a) xs slug told.leases (cancel_all stage xs told).leases
                (cancel_all-Changed stage xs told slug))
        | inr raises ↦
            rw (cancel_all, running, raises) (unchanged stage ((c, a) ∷ xs) slug site.leases)
      ]
    ]

with_flag :
    (stage : Stage) (xs : List (Candidate × Agent)) (slug : Text) (before after : Dict Text)
    (graceful : Bool)
    → graceful ≡ false
    → Changed stage xs slug before after
    → (lookup slug after ≡ lookup slug before)
      ⊎ ((key : Text) × (graceful ≡ false) × (task_slug stage.py key ≡ slug) × Queued stage key xs)
unfolding Changed
with_flag stage xs slug before after graceful g (inl same) = inl same
with_flag stage xs slug before after graceful g (inr (key, e, q)) = inr (key, g, e, q)

-- Whatever it meets, a shutdown leaves no retained session; and a lease file that it changes is
-- that of a task that was queued and got cancelled, in a shutdown that is not graceful. Where no
-- terminate raises, the lease of each such task goes, if the bot holds it.
pub on_shutdown-leases :
    (stage : Stage) (flags : Flags) (inflight : List (Candidate × Agent)) (site : Site)
    → ((on_shutdown stage flags inflight site).sessions ≡ [])
      × ((slug : Text)
          → (lookup slug (on_shutdown stage flags inflight site).leases ≡ lookup slug site.leases)
            ⊎ ((key : Text) × (flags.graceful_shutdown ≡ false)
                × (task_slug stage.py key ≡ slug)
                × Queued stage key inflight))
      × ((key : Text) (lease : PipelineLease)
          → flags.graceful_shutdown ≡ false
          → All (λ x. stage.terminates x ≡ true) inflight
          → Queued stage key inflight
          → read_pipeline_lease stage.py site.leases key ≡ some lease
          → is_text lease.holder holder_bot ≡ true
          → lookup (task_slug stage.py key) (on_shutdown stage flags inflight site).leases ≡ none)
unfolding on_shutdown release_all_pipeline_worktrees Left
on_shutdown-leases stage flags inflight site = (
  refl,
  λ slug. elim (Bool-cases flags.graceful_shutdown) [
    | inl g ↦ inl (rw g refl)
    | inr g ↦ rw g (
        with_flag stage inflight slug site.leases (cancel_all stage inflight site).leases false refl
          (cancel_all-Changed stage inflight site slug))
  ],
  λ key lease g ends q found held.
      rw g (cancel_all-Queued stage key lease inflight site ends q held (inr found)),
)
