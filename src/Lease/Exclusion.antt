-- ===== src/Lease/Exclusion.antt =====
-- Who may take a pipeline lease: mutual exclusion between live holders, and crash recovery.
use loony_dev.Prelude.{
  ℕ, zero, suc, true, false, Option, none, some, Text, ℤ, ◌≡◌, refl, arith, Bool-cases,
  Option-cases, inl, inr, leb_ℤ, ◌-ℤ◌, ◌⊎◌, text_eq,
}
use loony_dev.Prelude.Dictionary.{
  Dict, lookup, insert, remove, lookup-insert_self, lookup-remove_self,
}
use loony_dev.Prelude.Values.{Python, get, get_default, as_int, as_float, str}
use loony_dev.Slug.{task_slug}
use loony_dev.Lease.Staleness.{
  PipelineLease, Scene, pid_alive, parse_lease, is_stale, aged, middle_tier, is_text,
  heartbeat_stale, holder_bot,
}
use loony_dev.Lease.Acquire.{
  lease_object, reclaimable, attempts, acquire_pipeline_lease, read_pipeline_lease,
}

abbrev pub written : Text → ℤ → Text → ℤ → PipelineLease
written holder pid key now = record {
  pipeline_key = str key;
  holder = str holder;
  pid = some pid;
  started_at = some now;
}

-- `json.loads` reads back what `json.dumps` wrote of this lease.
abbrev pub CodecReads : Python → Text → ℤ → Text → ℤ → Type 0
CodecReads py holder pid key now =
    py.loads (py.dumps (lease_object holder pid key now)) ≡ some (lease_object holder pid key now)

pub parse_lease-written :
    (py : Python) (holder : Text) (pid : ℤ) (key : Text) (now : ℤ)
    → CodecReads py holder pid key now
    → parse_lease py (some (py.dumps (lease_object holder pid key now)))
      ≡ some (written holder pid key now)
unfolding parse_lease lease_object get get_default as_int as_float text_eq
parse_lease-written py holder pid key now codec = rw (codec, parse_lease)

module _ (sc : Scene) (stale_after : ℤ) (window : Option ℤ) (slug payload : Text) where
  -- A lease that may not be reclaimed is left as it is.
  pub attempts_refused :
      (left : ℕ) (dir : Dict Text) (content : Text)
      → lookup slug dir ≡ some content
      → reclaimable sc stale_after window (parse_lease sc.py (some content)) ≡ false
      → attempts sc stale_after window slug payload left dir ≡ (dir, false)
  unfolding attempts
  attempts_refused zero dir content e r = refl
  attempts_refused (suc left) dir content e r = rw (e, attempts) (rw r)

  pub attempts_reclaims :
      (dir : Dict Text) (content : Text)
      → lookup slug dir ≡ some content
      → reclaimable sc stale_after window (parse_lease sc.py (some content)) ≡ true
      → attempts sc stale_after window slug payload 2 dir
        ≡ (insert slug payload (remove slug dir), true)
  unfolding attempts
  attempts_reclaims dir content e r = rw (e, attempts) (rw r (rw (lookup-remove_self slug dir)))

  pub attempts_free :
      (dir : Dict Text)
      → lookup slug dir ≡ none
      → attempts sc stale_after window slug payload 2 dir ≡ (insert slug payload dir, true)
  unfolding attempts
  attempts_free dir e = rw (e, attempts)

  -- The three ways in which the two attempts end.
  attempts_outcome :
      (dir : Dict Text)
      → let result = attempts sc stale_after window slug payload 2 dir in
        (result ≡ (insert slug payload dir, true))
        ⊎ ((result ≡ (insert slug payload (remove slug dir), true)) ⊎ (result ≡ (dir, false)))
  attempts_outcome dir = elim (Option-cases (lookup slug dir)) [
    | inl e ↦ inl (attempts_free dir e)
    | inr (content, e) ↦
        elim (Bool-cases (reclaimable sc stale_after window (parse_lease sc.py (some content)))) [
          | inl r ↦ inr (inl (attempts_reclaims dir content e r))
          | inr r ↦ inr (inr (attempts_refused 2 dir content e r))
        ]
  ]

  attempts_stores :
      (dir : Dict Text)
      → (attempts sc stale_after window slug payload 2 dir).1 ≡ true
      → lookup slug (attempts sc stale_after window slug payload 2 dir).0 ≡ some payload
  attempts_stores dir h = elim (attempts_outcome dir) [
    | inl e ↦ rw e (lookup-insert_self slug payload dir)
    | inr (inl e) ↦ rw e (lookup-insert_self slug payload (remove slug dir))
    | inr (inr e) ↦ cc (rw e at h)
  ]

-- An acquisition that succeeds leaves a lease on disk that reads as the acquirer's own.
pub acquire_pipeline_lease-own :
    (sc : Scene) (stale_after : ℤ) (window : Option ℤ) (key holder : Text) (pid : ℤ)
    (dir : Dict Text)
    → CodecReads sc.py holder pid key sc.now
    → (acquire_pipeline_lease sc stale_after window key holder pid dir).1 ≡ true
    → read_pipeline_lease sc.py
        (acquire_pipeline_lease sc stale_after window key holder pid dir).0
        key
      ≡ some (written holder pid key sc.now)
unfolding acquire_pipeline_lease read_pipeline_lease
acquire_pipeline_lease-own sc stale_after window key holder pid dir codec h =
    let slug = task_slug sc.py key in
    let payload = sc.py.dumps (lease_object holder pid key sc.now) in
    rw (attempts_stores sc stale_after window slug payload dir h)
      (parse_lease-written sc.py holder pid key sc.now codec)

-- A lease is live for a rival's staleness test: its process is alive, it is younger than the
-- backstop, and the middle tier, where it is asked for, does not find its heartbeat stale.
pub record IsLive (sc : Scene) (stale_after : ℤ) (window : Option ℤ) (lease : PipelineLease)
    : Type 0 where
  pub alive : pid_alive sc.kill lease.pid ≡ true
  pub young :
      (started : ℤ)
      → lease.started_at ≡ some started
      → leb_ℤ stale_after (sc.now -ℤ started) ≡ false
  pub beating :
      (w : ℤ)
      → window ≡ some w
      → (is_text lease.holder holder_bot ≡ false)
        ⊎ (heartbeat_stale sc.py sc.clock sc.pipelines sc.now w lease ≡ false)

aged_young :
    (now stale_after : ℤ) (started_at : Option ℤ)
    → ((started : ℤ) → started_at ≡ some started → leb_ℤ stale_after (now -ℤ started) ≡ false)
    → aged now stale_after started_at ≡ false
unfolding aged
aged_young now stale_after none h = refl
aged_young now stale_after (some started) h = h started refl

middle_tier_beating :
    (sc : Scene) (lease : PipelineLease) (window : Option ℤ)
    → ((w : ℤ)
        → window ≡ some w
        → (is_text lease.holder holder_bot ≡ false)
          ⊎ (heartbeat_stale sc.py sc.clock sc.pipelines sc.now w lease ≡ false))
    → middle_tier sc lease window ≡ false
unfolding middle_tier
middle_tier_beating sc lease none h = refl
middle_tier_beating sc lease (some w) h = ground (arith, h w refl)

is_stale-IsLive :
    (sc : Scene) (stale_after : ℤ) (window : Option ℤ) (lease : PipelineLease)
    → IsLive sc stale_after window lease
    → is_stale sc stale_after window lease ≡ false
unfolding is_stale
is_stale-IsLive sc stale_after window lease live = rw (
  live.alive,
  aged_young sc.now stale_after lease.started_at live.young,
  middle_tier_beating sc lease window live.beating,
)

pub parse_lease_absent : (py : Python) → parse_lease py none ≡ none
unfolding parse_lease
parse_lease_absent py = refl

reclaimable_dead :
    (sc : Scene) (stale_after : ℤ) (window : Option ℤ) (existing : Option PipelineLease)
    → ((lease : PipelineLease) → existing ≡ some lease → pid_alive sc.kill lease.pid ≡ false)
    → reclaimable sc stale_after window existing ≡ true
unfolding reclaimable is_stale
reclaimable_dead sc stale_after window none h = refl
reclaimable_dead sc stale_after window (some lease) h = rw (h lease refl)

-- Mutual exclusion: while the lease on disk is a live one, no rival acquires the pipeline, and
-- the directory stays as it is.
pub acquire_pipeline_lease-IsLive :
    (sc : Scene) (stale_after : ℤ) (window : Option ℤ) (key holder : Text) (pid : ℤ)
    (dir : Dict Text) (lease : PipelineLease)
    → read_pipeline_lease sc.py dir key ≡ some lease
    → IsLive sc stale_after window lease
    → acquire_pipeline_lease sc stale_after window key holder pid dir ≡ (dir, false)
unfolding acquire_pipeline_lease read_pipeline_lease reclaimable
acquire_pipeline_lease-IsLive sc stale_after window key holder pid dir lease h live =
    let slug = task_slug sc.py key in
    let payload = sc.py.dumps (lease_object holder pid key sc.now) in
    elim (Option-cases (lookup slug dir)) [
      | inl e ↦ absurd (cc (rw e at h, parse_lease_absent sc.py))
      | inr (content, e) ↦
          let found : parse_lease sc.py (some content) ≡ some lease = rw e at h in
          attempts_refused sc stale_after window slug payload 2 dir content e
            (rw found (is_stale-IsLive sc stale_after window lease live))
    ]

-- Crash recovery: a lease whose process is dead, or that cannot be read, is taken over by the
-- first acquirer.
pub acquire_pipeline_lease_recovers :
    (sc : Scene) (stale_after : ℤ) (window : Option ℤ) (key holder : Text) (pid : ℤ)
    (dir : Dict Text)
    → ((lease : PipelineLease)
        → read_pipeline_lease sc.py dir key ≡ some lease
        → pid_alive sc.kill lease.pid ≡ false)
    → (acquire_pipeline_lease sc stale_after window key holder pid dir).1 ≡ true
unfolding acquire_pipeline_lease read_pipeline_lease
acquire_pipeline_lease_recovers sc stale_after window key holder pid dir h =
    let slug = task_slug sc.py key in
    let payload = sc.py.dumps (lease_object holder pid key sc.now) in
    elim (Option-cases (lookup slug dir)) [
      | inl e ↦ rw (attempts_free sc stale_after window slug payload dir e)
      | inr (content, e) ↦ rw (
          attempts_reclaims sc stale_after window slug payload dir content e (
            reclaimable_dead sc stale_after window (parse_lease sc.py (some content))
              (λ lease found. h lease (rw e found))))
    ]
