-- ===== src/Orchestrator/Crashed.antt =====
-- What the reconciliation at the start does to the snapshots.
use loony_dev.Prelude.{
  Bool-cases, ◌⊎◌, text_eq_iff, ◌∙◌, sym, ap, inr, inl, Option-cases, arith, ◌≡◌, ◌≢◌, ℤ, Bool,
  true, false, List, [], ◌∷◌, Option, none, some, Text, codes, text_eq,
}
use mathlib.Core.Option.{some-injective, none-ne-some}
use std.Path.{subst}
use loony_dev.ExecutionState.Schema.{◌>>=◌, state_to_dict}
use loony_dev.Prelude.Values.{obj}
use loony_dev.Prelude.Dictionary.{lookup-insert_ne}
use loony_dev.Prelude.Dictionary.{lookup}
use loony_dev.Slug.{task_slug}
use loony_dev.Prelude.Values.{Python}
use loony_dev.ExecutionState.Schema.{LiveState}
use loony_dev.ExecutionState.Store.{read_snapshot, PipelinesDir, Logs, bump_snapshot, list_active}
use loony_dev.Lease.Staleness.{PipelineLease, Kill, pid_alive}
use loony_dev.Lease.Acquire.{read_pipeline_lease}
use mathlib.Core.List.{Memᴰ}
use loony_dev.Prelude.{refl, inl, inr, ◌⊎◌, Bool-cases, ◌∷◌, [], List}
use loony_dev.ExecutionState.Store.{list_active, Logs}
use loony_dev.Orchestrator.Snapshots.{
  Leases, lease_of, lease_alive, is_crashed, reconcile, reconcile_crashed_snapshots,
}

-- What the last step of a chain yields.
bound {ℓ} :
    {A : Type 0} {B : Type 0} (P : B → Type ℓ) (o : Option A) (f : A → B) (b : B)
    → (o >>= λ a. some (f a)) ≡ some b
    → ((a : A) → P (f a))
    → P b
bound P none f b e h = absurd (none-ne-some _ e)
bound P (some a) f b e h = subst P (some-injective _ _ e) (h a)

bump_snapshot-other :
    (py : Python) (now key slug state : Text) (live : Bool) (dir after : PipelinesDir)
    → bump_snapshot py now dir key (some state) (some live) ≡ some after
    → task_slug py key ≢ slug
    → lookup slug after.snapshots ≡ lookup slug dir.snapshots
unfolding bump_snapshot
bump_snapshot-other py now key slug state live dir after e other =
    elim (Option-cases (read_snapshot py now dir key)) [
      | inl absent ↦
          let same : some dir ≡ some after = rw (bump_snapshot, absent) at e in
          ap (λ (d : PipelinesDir). lookup slug d.snapshots) (sym (some-injective _ _ same))
      | inr (current, found) ↦
          bound (λ (d : PipelinesDir). lookup slug d.snapshots ≡ lookup slug dir.snapshots) _ _
            after (rw (bump_snapshot, found) at e)
            (λ updated.
              lookup-insert_ne (task_slug py key) slug
                (py.dumps_indented (obj (state_to_dict updated))) dir.snapshots other)
    ]

-- A running snapshot of the repository for which no live lease was read: its file cannot be read,
-- holds no lease or is missing, or names a process that is gone.
pub record IsDead (py : Python) (leases : Leases) (repo : Text) (s : LiveState) : Type 0 where
  pub ours : s.repo ≡ repo
  pub running : s.state ≡ codes "running"
  pub returns : leases.raises s.pipeline_key ≡ false
  pub no_lease :
      (leases.unreadable s.pipeline_key ≡ true)
      ⊎ (read_pipeline_lease py leases.files s.pipeline_key ≡ none)
      ⊎ ((lease : PipelineLease) × (read_pipeline_lease py leases.files s.pipeline_key ≡ some lease)
          × (pid_alive leases.kill lease.pid ≡ false))

lease_alive_lem :
    (kill : ℤ → Kill) (o : Option PipelineLease)
    → lease_alive kill o ≡ false
    → (o ≡ none) ⊎ ((lease : PipelineLease) × (o ≡ some lease) × (pid_alive kill lease.pid ≡ false))
lease_alive_lem kill none h = inl refl
lease_alive_lem kill (some lease) h = inr (lease, refl, h)

no_lease_lem :
    (py : Python) (leases : Leases) (key : Text)
    → lease_alive leases.kill (lease_of py leases key) ≡ false
    → (leases.unreadable key ≡ true)
      ⊎ (read_pipeline_lease py leases.files key ≡ none)
      ⊎ ((lease : PipelineLease) × (read_pipeline_lease py leases.files key ≡ some lease)
          × (pid_alive leases.kill lease.pid ≡ false))
unfolding lease_of
no_lease_lem py leases key h = elim (Bool-cases (leases.unreadable key)) [
  | inl e ↦ inl e
  | inr e ↦ inr (
      lease_alive_lem leases.kill (read_pipeline_lease py leases.files key) (rw (lease_of, e) at h))
]

is_crashed_lem :
    (py : Python) (leases : Leases) (repo : Text) (s : LiveState)
    → is_crashed py leases repo s ≡ true
    → IsDead py leases repo s
unfolding is_crashed
is_crashed_lem py leases repo s h =
    let dead : lease_alive leases.kill (lease_of py leases s.pipeline_key) ≡ false = ground arith in
    record {
      ours = (text_eq_iff s.repo repo).0 (ground arith);
      running = (text_eq_iff s.state (codes "running")).0 (ground arith);
      returns = ground arith;
      no_lease = no_lease_lem py leases s.pipeline_key dead;
    }

-- A file that changed is that of a dead one among the states.
Flipped : Python → Leases → Text → List LiveState → Text → PipelinesDir → PipelinesDir → Type 0
Flipped py leases repo states slug before after =
    (lookup slug after.snapshots ≡ lookup slug before.snapshots)
    ⊎ ((s : LiveState) × Memᴰ s states
        × (task_slug py s.pipeline_key ≡ slug)
        × IsDead py leases repo s)

Flipped-there :
    (py : Python) (leases : Leases) (repo : Text) (s : LiveState) (states : List LiveState)
    (slug : Text) (before after : PipelinesDir)
    → Flipped py leases repo states slug before after
    → Flipped py leases repo (s ∷ states) slug before after
unfolding Flipped
Flipped-there py leases repo s states slug before after (inl same) = inl same
Flipped-there py leases repo s states slug before after (inr (d, m, e, dead)) =
    inr (d, Memᴰ.tail m, e, dead)

Flipped-after :
    (py : Python) (leases : Leases) (repo : Text) (s : LiveState) (states : List LiveState)
    (slug : Text) (before middle : PipelinesDir)
    → lookup slug middle.snapshots ≡ lookup slug before.snapshots
    → (after : PipelinesDir) → Flipped py leases repo states slug middle after
    → Flipped py leases repo (s ∷ states) slug before after
unfolding Flipped
Flipped-after py leases repo s states slug before middle same after (inl h) = inl (h ∙ same)
Flipped-after py leases repo s states slug before middle same after (inr (d, m, e, dead)) =
    inr (d, Memᴰ.tail m, e, dead)

reconcile-Flipped :
    (py : Python) (now repo : Text) (leases : Leases) (slug : Text) (states : List LiveState)
    (dir : PipelinesDir)
    → Flipped py leases repo states slug dir (reconcile py now repo leases states dir)
unfolding reconcile Flipped
reconcile-Flipped py now repo leases slug [] dir = inl refl
reconcile-Flipped py now repo leases slug (s ∷ states) dir =
    let key = s.pipeline_key in
    let crashed = bump_snapshot py now dir key (some (codes "crashed")) (some false) in
    elim (Bool-cases (is_crashed py leases repo s)) [
      | inr alive ↦
          rw (reconcile, alive)
            (Flipped-there py leases repo s states slug dir
              (reconcile py now repo leases states dir)
              (reconcile-Flipped py now repo leases slug states dir))
      | inl dead ↦ elim (Bool-cases (text_eq (task_slug py key) slug)) [
        | inl e ↦ inr (
          s,
          Memᴰ.head refl,
          (text_eq_iff (task_slug py key) slug).0 e,
          is_crashed_lem py leases repo s dead,
        )
        | inr e ↦ elim (Option-cases crashed) [
          | inl failed ↦ rw (reconcile, dead, failed) (inl refl)
          | inr (after, flipped) ↦
              rw (reconcile, dead, flipped)
                (Flipped-after py leases repo s states slug dir after
                  (bump_snapshot-other py now key slug (codes "crashed") false dir after flipped
                    (ground (arith, text_eq_iff (task_slug py key) slug)))
                  (reconcile py now repo leases states after)
                  (reconcile-Flipped py now repo leases slug states after))
        ]
      ]
    ]

-- The reconciliation at the start changes no snapshot file but that of an active snapshot of this
-- repository which says running, for which the read of the lease raised no error, and whose lease
-- file cannot be read, holds no lease or is missing, or names a dead process. What a live process
-- works on stays as it is, as long as its lease file can be read.
pub reconcile_crashed_snapshots-IsDead :
    (py : Python) (now repo : Text) (leases : Leases) (logs : Logs) (dir : PipelinesDir)
    (slug : Text)
    → (lookup slug (reconcile_crashed_snapshots py now repo leases logs dir).snapshots
        ≡ lookup slug dir.snapshots)
      ⊎ ((s : LiveState) × Memᴰ s (list_active py now logs)
          × (task_slug py s.pipeline_key ≡ slug)
          × IsDead py leases repo s)
unfolding reconcile_crashed_snapshots Flipped
reconcile_crashed_snapshots-IsDead py now repo leases logs dir slug =
    reconcile-Flipped py now repo leases slug (list_active py now logs) dir
