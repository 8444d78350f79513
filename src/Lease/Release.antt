-- ===== src/Lease/Release.antt =====
-- Fencing and release: a reclaimed worker finds out, and nobody removes another's lease.
use loony_dev.Prelude.{
  Option-cases, text_eq_refl, Bool, true, false, Option, none, some, Text, ℤ, ◌≡◌, ◌≢◌, refl, arith,
  eqb_ℤ_iff, inl, inr, ◌⊎◌,
}
use loony_dev.Prelude.Dictionary.{lookup-remove_self, Dict, lookup}
use loony_dev.Prelude.Values.{Python}
use loony_dev.Slug.{task_slug}
use loony_dev.Lease.Staleness.{PipelineLease, Scene, parse_lease, is_text}
use loony_dev.Lease.Acquire.{
  acquire_pipeline_lease, read_pipeline_lease, release_allowed, release_pipeline_lease, check_fence,
  still_ours, time_eq,
}
use loony_dev.Lease.Exclusion.{written, CodecReads, acquire_pipeline_lease-own, parse_lease_absent}

time_eq-some : (o : Option ℤ) (b : ℤ) → time_eq o (some b) ≡ true → o ≡ some b
unfolding time_eq
time_eq-some none b h = cc
time_eq-some (some a) b h = ground (arith, eqb_ℤ_iff a b)

still_ours_lease :
    (pid token : ℤ) (found : Option PipelineLease)
    → still_ours pid token found ≡ true
    → (lease : PipelineLease) × (found ≡ some lease)
      × (lease.pid ≡ some pid)
      × (lease.started_at ≡ some token)
unfolding still_ours
still_ours_lease pid token none h = cc
still_ours_lease pid token (some lease) h = (
  lease,
  refl,
  ground (arith, time_eq-some lease.pid pid),
  ground (arith, time_eq-some lease.started_at token),
)

-- A fence check with a token passes only if the lease on disk has this pid and this token.
check_fence_lease :
    (py : Python) (pid token : ℤ) (dir : Dict Text) (key : Text)
    → check_fence py pid (some token) dir key ≡ true
    → (lease : PipelineLease) × (read_pipeline_lease py dir key ≡ some lease)
      × (lease.pid ≡ some pid)
      × (lease.started_at ≡ some token)
unfolding check_fence
check_fence_lease py pid token dir key h =
    still_ours_lease pid token (read_pipeline_lease py dir key) h

-- On any one directory, two workers with tokens both pass the fence check of a pipeline only if
-- they have the same process and the same token.
pub check_fence_exclusive :
    (py : Python) (pid token pid' token' : ℤ) (dir : Dict Text) (key : Text)
    → check_fence py pid (some token) dir key ≡ true
    → check_fence py pid' (some token') dir key ≡ true
    → (pid ≡ pid') × (token ≡ token')
check_fence_exclusive py pid token pid' token' dir key h h' =
    let (lease, found, p, t) = check_fence_lease py pid token dir key h in
    let (lease', found', p', t') = check_fence_lease py pid' token' dir key h' in
    (cc (found, found', p, p'), cc (found, found', t, t'))

-- A worker whose lease another acquirer took over, in another process or at another time, does
-- not pass its next fence check.
pub check_fence-acquire_pipeline_lease :
    (sc : Scene) (stale_after : ℤ) (window : Option ℤ) (key holder : Text) (pid old_pid token : ℤ)
    (dir : Dict Text)
    → CodecReads sc.py holder pid key sc.now
    → (acquire_pipeline_lease sc stale_after window key holder pid dir).1 ≡ true
    → (pid ≢ old_pid) ⊎ (sc.now ≢ token)
    → check_fence sc.py old_pid
        (some token)
        (acquire_pipeline_lease sc stale_after window key holder pid dir).0
        key
      ≡ false
check_fence-acquire_pipeline_lease sc stale_after window key holder pid old_pid token dir codec won
      other =
    refuted (check_fence sc.py old_pid (some token) after key) λ passed.
      let (lease, found, p, t) = check_fence_lease sc.py old_pid token after key passed in
      let own = acquire_pipeline_lease-own sc stale_after window key holder pid dir codec won in
      clash pid old_pid sc.now token other (cc (found, own, p)) (cc (found, own, t))
  where
    after : Dict Text
    after = (acquire_pipeline_lease sc stale_after window key holder pid dir).0

    refuted : (b : Bool) → (b ≡ true → ⊥) → b ≡ false
    refuted true h = absurd (h refl)
    refuted false h = refl

    clash : (a a' b b' : ℤ) → (a ≢ a') ⊎ (b ≢ b') → a ≡ a' → b ≡ b' → ⊥
    clash a a' b b' (inl n) e f = n e
    clash a a' b b' (inr n) e f = n f

release_allowed_guarded :
    (holder : Text) (token : ℤ) (existing : Option PipelineLease)
    → release_allowed (some holder) (some token) existing ≡ true
    → (lease : PipelineLease) × (existing ≡ some lease)
      × (is_text lease.holder holder ≡ true)
      × (lease.started_at ≡ some token)
unfolding release_allowed
release_allowed_guarded holder token none h = cc
release_allowed_guarded holder token (some lease) h =
    (lease, refl, ground arith, ground (arith, time_eq-some lease.started_at token))

-- A release with a holder and a token removes no lease but that holder's lease of that
-- acquisition: against any other content of the directory it changes nothing and returns False.
pub release_pipeline_lease_foreign :
    (py : Python) (key holder : Text) (token : ℤ) (dir : Dict Text)
    → ((lease : PipelineLease)
        → read_pipeline_lease py dir key ≡ some lease
        → (is_text lease.holder holder ≡ false) ⊎ (lease.started_at ≢ some token))
    → release_pipeline_lease py key (some holder) (some token) dir ≡ (dir, false)
unfolding release_pipeline_lease read_pipeline_lease
release_pipeline_lease_foreign py key holder token dir foreign = rw (
    refused (release_allowed (some holder) (some token) existing) λ allowed.
      let (lease, found, held, at_token) = release_allowed_guarded holder token existing allowed in
      clash (is_text lease.holder holder) (lease.started_at ≡ some token) (foreign lease found) held
        at_token)
  where
    existing : Option PipelineLease
    existing = parse_lease py (lookup (task_slug py key) dir)

    refused : (b : Bool) → (b ≡ true → ⊥) → b ≡ false
    refused true h = absurd (h refl)
    refused false h = refl

    clash : (b : Bool) (P : Type 0) → (b ≡ false) ⊎ (¬ P) → b ≡ true → P → ⊥
    clash b P (inl e) h p = cc
    clash b P (inr n) h p = n p

allowed_held :
    (holder : Text) (token : ℤ) (lease : PipelineLease)
    → is_text lease.holder holder ≡ true
    → lease.started_at ≡ some token
    → release_allowed (some holder) (some token) (some lease) ≡ true
unfolding release_allowed time_eq
allowed_held holder token lease held at_token =
    rw (held, at_token) (ground (arith, eqb_ℤ_iff token token))

release_held :
    (py : Python) (key holder : Text) (token : ℤ) (dir : Dict Text) (lease : PipelineLease)
    → read_pipeline_lease py dir key ≡ some lease
    → is_text lease.holder holder ≡ true
    → lease.started_at ≡ some token
    → let released = release_pipeline_lease py key (some holder) (some token) dir in
      (released.1 ≡ true) × (lookup (task_slug py key) released.0 ≡ none)
unfolding release_pipeline_lease read_pipeline_lease
release_held py key holder token dir lease found held at_token =
    let slug = task_slug py key in
    rw (found, allowed_held holder token lease held at_token)
      (elim (Option-cases (lookup slug dir)) [
        | inl e ↦ absurd (cc (rw e at found, parse_lease_absent py))
        | inr (content, e) ↦ rw e (refl, lookup-remove_self slug dir)
      ])

-- The release of an acquisition's own lease, by its holder and its token, returns True and leaves
-- the pipeline free.
pub release_pipeline_lease-own :
    (sc : Scene) (stale_after : ℤ) (window : Option ℤ) (key holder : Text) (pid : ℤ)
    (dir : Dict Text)
    → CodecReads sc.py holder pid key sc.now
    → (acquire_pipeline_lease sc stale_after window key holder pid dir).1 ≡ true
    → let after = (acquire_pipeline_lease sc stale_after window key holder pid dir).0 in
      let released = release_pipeline_lease sc.py key (some holder) (some sc.now) after in
      (released.1 ≡ true) × (lookup (task_slug sc.py key) released.0 ≡ none)
unfolding is_text
release_pipeline_lease-own sc stale_after window key holder pid dir codec won =
    release_held sc.py key holder sc.now
      (acquire_pipeline_lease sc stale_after window key holder pid dir).0
      (written holder pid key sc.now)
      (acquire_pipeline_lease-own sc stale_after window key holder pid dir codec won)
      (text_eq_refl holder) refl
