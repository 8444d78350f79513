-- ===== src/Lease/Acquire.antt =====
-- `acquire_pipeline_lease`, `release_pipeline_lease`, `check_fence`, `active_drive_pipeline_keys`.
use loony_dev.Prelude.{
  ℕ, zero, suc, Bool, true, false, not, ◌&&◌, List, [], ◌∷◌, Option, none, some, if◌then◌else◌,
  Text, codes, ℤ, eqb_ℤ,
}
use loony_dev.Prelude.Dictionary.{Dict, lookup, insert, remove}
use loony_dev.Prelude.Values.{Json, str, int, float, obj, field, end, Python}
use loony_dev.Slug.{task_slug}
use loony_dev.Lease.Staleness.{
  PipelineLease, Scene, parse_lease, is_stale, is_text, truthy_text, holder_drive,
}

-- What an acquirer writes: `{holder, pid, pipeline_key, started_at}`.
unfoldable pub lease_object : Text → ℤ → Text → ℤ → Json
lease_object holder pid key now = obj (
    field (codes "holder") (str holder) (
      field (codes "pid") (int pid)
        (field (codes "pipeline_key") (str key) (field (codes "started_at") (float now) end))))

-- `existing is None or _is_stale(existing, ...)`
unfoldable pub reclaimable : Scene → ℤ → Option ℤ → Option PipelineLease → Bool
reclaimable sc stale_after window none = true
reclaimable sc stale_after window (some lease) = is_stale sc stale_after window lease

module _ (sc : Scene) (stale_after : ℤ) (window : Option ℤ) (slug payload : Text) where
  -- The loop over the attempts, with as many left as the number says.
  unfoldable pub attempts : ℕ → Dict Text → Dict Text × Bool
  attempts zero dir = (dir, false)
  attempts (suc left) dir = elim (lookup slug dir) [
    | none ↦ (insert slug payload dir, true)
    | some content ↦ elim (reclaimable sc stale_after window (parse_lease sc.py (some content))) [
      | false ↦ (dir, false)
      | true ↦ elim left [ zero ↦ (dir, false) | suc _ ↦ attempts left (remove slug dir) ]
    ]
  ]

-- No other process runs between the calls of the file system; `Lease.Race` has the steps.
unfoldable pub acquire_pipeline_lease :
    Scene → ℤ → Option ℤ → Text → Text → ℤ → Dict Text → Dict Text × Bool
unfolding attempts
acquire_pipeline_lease sc stale_after window key holder pid dir =
    attempts sc stale_after window (task_slug sc.py key)
      (sc.py.dumps (lease_object holder pid key sc.now)) 2 dir

unfoldable pub read_pipeline_lease : Python → Dict Text → Text → Option PipelineLease
read_pipeline_lease py dir key = parse_lease py (lookup (task_slug py key) dir)

abbrev holder_matches : Option Text → Json → Bool
holder_matches none held = true
holder_matches (some holder) held = is_text held holder

unfoldable pub time_eq : Option ℤ → Option ℤ → Bool
time_eq none none = true
time_eq (some a) (some b) = eqb_ℤ a b
time_eq _ _ = false

abbrev token_matches : Option ℤ → Option ℤ → Bool
token_matches none started = true
token_matches (some token) started = time_eq started (some token)

-- Whether the guards let the release go on to the unlink.
unfoldable pub release_allowed : Option Text → Option ℤ → Option PipelineLease → Bool
release_allowed none none existing = true
release_allowed holder token none = false
release_allowed holder token (some lease) =
    holder_matches holder lease.holder && token_matches token lease.started_at

unfoldable pub release_pipeline_lease :
    Python → Text → Option Text → Option ℤ → Dict Text → Dict Text × Bool
release_pipeline_lease py key holder token dir =
    let slug = task_slug py key in
    if release_allowed holder token (parse_lease py (lookup slug dir))
    then elim (lookup slug dir) [ none ↦ (dir, false) | some _ ↦ (remove slug dir, true) ]
    else (dir, false)

-- `lease is None or lease.pid != os.getpid() or lease.started_at != token`, negated.
unfoldable pub still_ours : ℤ → ℤ → Option PipelineLease → Bool
still_ours pid token none = false
still_ours pid token (some lease) =
    time_eq lease.pid (some pid) && time_eq lease.started_at (some token)

-- `false` is `LeaseFencedError`.
unfoldable pub check_fence : Python → ℤ → Option ℤ → Dict Text → Text → Bool
check_fence py pid none dir key = true
check_fence py pid (some token) dir key = still_ours pid token (read_pipeline_lease py dir key)

-- The key of a lease that a live drive holds.
drive_key : Scene → ℤ → Option PipelineLease → Option Text
drive_key sc stale_after none = none
drive_key sc stale_after (some lease) =
    if is_text lease.holder holder_drive && not (is_stale sc stale_after none lease)
    then truthy_text lease.pipeline_key
    else none

abbrev add_key : Option Text → List Text → List Text
add_key none keys = keys
add_key (some k) keys = k ∷ keys

-- Over the `.json` files of the directory.
unfoldable pub active_drive_pipeline_keys : Scene → ℤ → Dict Text → List Text
unfolding drive_key
active_drive_pipeline_keys sc stale_after [] = []
active_drive_pipeline_keys sc stale_after ((slug, content) ∷ files) =
    add_key (drive_key sc stale_after (parse_lease sc.py (some content)))
      (active_drive_pipeline_keys sc stale_after files)
