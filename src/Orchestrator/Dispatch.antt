-- ===== src/Orchestrator/Dispatch.antt =====
-- `_dispatch_tick`: the lease before GitHub, and GitHub before the pool.
use loony_dev.Prelude.{
  ℕ, ℤ, Bool, true, false, List, [], ◌∷◌, ◌++◌, Option, none, some, if◌then◌else◌, ltb, Text, ◌≡◌,
  refl, ◌⊎◌, inl, inr,
}
use loony_dev.Prelude.Dictionary.{Dict}
use loony_dev.Lease.Staleness.{Scene, PipelineLease, holder_bot, default_stale_after}
use loony_dev.Lease.Acquire.{acquire_pipeline_lease, release_pipeline_lease, read_pipeline_lease}
use loony_dev.Lease.Exclusion.{
  CodecReads, IsLive, written, acquire_pipeline_lease-own, acquire_pipeline_lease-IsLive,
}
use loony_dev.Github.Client.{Result, ok, raise, History}
use loony_dev.Tasks.Kinds.{worktree_key}
use loony_dev.Tasks.Host.{Host}
use loony_dev.Tasks.Handlers.{on_start}
use loony_dev.Orchestrator.Scheduler.{Agent, Candidate, find_work, free_slots}

-- What a dispatch changes: the leases, GitHub, and the futures of the pool.
pub record Board : Type 0 where
  pub leases : Dict Text
  pub history : History
  pub inflight : List (Candidate × Agent)

-- What it reads: GitHub, the processes and the clock, and the worker's own process.
pub record Desk : Type 0 where
  pub host : Host
  pub scene : Scene
  pub window : ℤ
  pub pid : ℤ

-- `on_start`, then the pool; where `on_start` raises, the lease is given back.
unfoldable pub submitted :
    Desk → Option Text → Candidate × Agent → Board → Result (Unit {0}) × History → Board
submitted desk pkey x b (ok done, h) = record b { history = h; inflight = b.inflight ++ x ∷ [] }
submitted desk none x b (raise e, h) = record b { history = h }
submitted desk (some k) x b (raise e, h) = record b {
  leases = (release_pipeline_lease desk.scene.py k (some holder_bot) none b.leases).0;
  history = h;
}

unfoldable pub start : Desk → Option Text → Candidate × Agent → Board → Board
unfolding submitted
start desk pkey (c, a) b = submitted desk pkey (c, a) b (on_start desk.host c.0 b.history)

unfoldable pub acquired : Desk → Text → Candidate × Agent → Board → Dict Text × Bool → Board
unfolding start
acquired desk k x b (leases, false) = record b { leases = leases }
acquired desk k x b (leases, true) = start desk (some k) x (record b { leases = leases })

unfoldable pub dispatch_one : Desk → Board → Candidate × Agent → Board
unfolding acquired start
dispatch_one desk b (c, a) = elim (worktree_key c.0) [
  | none ↦ start desk none (c, a) b
  | some k ↦
      acquired desk k (c, a) b
        (acquire_pipeline_lease desk.scene default_stale_after (some desk.window) k holder_bot
          desk.pid b.leases)
]

unfoldable pub dispatch_all : Desk → Board → List (Candidate × Agent) → Board
unfolding dispatch_one
dispatch_all desk b [] = b
dispatch_all desk b (x ∷ xs) = dispatch_all desk (dispatch_one desk b x) xs

unfoldable pub dispatch_tick : Desk → List Agent → ℕ → List Text → List Candidate → Board → Board
unfolding dispatch_all
dispatch_tick desk agents max_concurrent claimed candidates b =
    let slots = free_slots max_concurrent b.inflight in
    if ltb 0 slots then dispatch_all desk b (find_work agents slots claimed candidates) else b

-- A pipeline that another live holder has leased is passed over: GitHub, the pool and the leases
-- stay as they are.
pub dispatch_one-IsLive :
    (desk : Desk) (b : Board) (c : Candidate) (a : Agent) (k : Text) (lease : PipelineLease)
    → worktree_key c.0 ≡ some k
    → read_pipeline_lease desk.scene.py b.leases k ≡ some lease
    → IsLive desk.scene default_stale_after (some desk.window) lease
    → dispatch_one desk b (c, a) ≡ b
unfolding dispatch_one acquired
dispatch_one-IsLive desk b c a k lease key found live =
    rw
      (
        dispatch_one,
        key,
        acquire_pipeline_lease-IsLive desk.scene default_stale_after (some desk.window) k holder_bot
            desk.pid b.leases lease found live,
      )
      refl

-- A dispatch that changed the pool has the lease.
Owned : Desk → Text → Candidate × Agent → Board → Board → Type 0
Owned desk k x b after =
    (after.inflight ≡ b.inflight)
    ⊎ ((after.inflight ≡ b.inflight ++ x ∷ [])
        × (read_pipeline_lease desk.scene.py after.leases k
            ≡ some (written holder_bot desk.pid k desk.scene.now)))

submitted-Owned :
    (desk : Desk) (k : Text) (x : Candidate × Agent) (b : Board)
    (answer : Result (Unit {0}) × History)
    → read_pipeline_lease desk.scene.py b.leases k
      ≡ some (written holder_bot desk.pid k desk.scene.now)
    → Owned desk k x b (submitted desk (some k) x b answer)
unfolding submitted Owned
submitted-Owned desk k x b (ok done, h) own = inr (refl, own)
submitted-Owned desk k x b (raise e, h) own = inl refl

acquired-Owned :
    (desk : Desk) (k : Text) (x : Candidate × Agent) (b : Board) (result : Dict Text × Bool)
    → (result.1 ≡ true
        → read_pipeline_lease desk.scene.py result.0 k
          ≡ some (written holder_bot desk.pid k desk.scene.now))
    → Owned desk k x b (acquired desk k x b result)
unfolding acquired start Owned
acquired-Owned desk k x b (leases, false) own = inl refl
acquired-Owned desk k (c, a) b (leases, true) own =
    submitted-Owned desk k (c, a) (record b { leases = leases }) (on_start desk.host c.0 b.history)
      (own refl)

-- If JSON reads back the bot's lease, a dispatch of a pipeline task either adds nothing to the
-- pool, or adds the task and leaves the bot's own lease on disk.
pub dispatch_one-own :
    (desk : Desk) (b : Board) (c : Candidate) (a : Agent) (k : Text)
    → CodecReads desk.scene.py holder_bot desk.pid k desk.scene.now
    → worktree_key c.0 ≡ some k
    → ((dispatch_one desk b (c, a)).inflight ≡ b.inflight)
      ⊎ (((dispatch_one desk b (c, a)).inflight ≡ b.inflight ++ (c, a) ∷ [])
          × (read_pipeline_lease desk.scene.py (dispatch_one desk b (c, a)).leases k
              ≡ some (written holder_bot desk.pid k desk.scene.now)))
unfolding dispatch_one Owned
dispatch_one-own desk b c a k codec key =
    let result =
      acquire_pipeline_lease desk.scene default_stale_after (some desk.window) k holder_bot desk.pid
        b.leases in
    rw (dispatch_one, key)
      (acquired-Owned desk k (c, a) b result
        (acquire_pipeline_lease-own desk.scene default_stale_after (some desk.window) k holder_bot
          desk.pid b.leases codec))
