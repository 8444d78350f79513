-- ===== src/Lease/Window.antt =====
-- `heartbeat_stale_after_seconds`, and what the heartbeat tier guarantees a fresh lease.
use loony_dev.Prelude.{
  text_eq_iff, [], text_eq, true, false, not, Option, none, some, Text, codes, ℤ, pos, ◌-ℤ◌,
  -ℤ_parts, leb_ℤ, ◌≡◌, refl, arith, ◌*◌, inl, inr, Option-cases,
}
use loony_dev.Prelude.Values.{
  Json, obj, str, int, float, bool, null, arr, Fields, get, get_default, Python, seconds,
}
use loony_dev.ExecutionState.Schema.{◌>>=◌, ◌>>◌, require, LiveState}
use loony_dev.ExecutionState.Store.{PipelinesDir, read_snapshot}
use loony_dev.Lease.Staleness.{
  PipelineLease, heartbeat_stale, snapshot_old, heartbeat_old, truthy_text,
}

nested : Text → Option Json → Option Json
nested key (some (obj section)) = get key section
nested key _ = none

or_flat : Text → Fields → Json → Option Json → Json
or_flat key settings default (some value) = value
or_flat key settings default none = get_default key settings default

-- The `[worker]` section first, then the flat key.
unfoldable pub worker_setting : Fields → Text → Json → Json
unfolding nested or_flat
worker_setting settings key default =
    or_flat key settings default (nested key (get (codes "worker") settings))

-- `float(x)`; `none` is `TypeError` or `ValueError`.
unfoldable pub to_float : Python → Json → Option ℤ
to_float py (float z) = some z
to_float py (int z) = some (seconds z)
to_float py (bool true) = some (seconds (pos 1))
to_float py (bool false) = some (pos 0)
to_float py (str t) = py.parse_float t
to_float py null = none
to_float py (arr xs) = none
to_float py (obj fs) = none

abbrev default_heartbeat_stale_after : Json
default_heartbeat_stale_after = int (pos (60 * 60))

abbrev default_turn_timeout : Json
default_turn_timeout = int (pos (30 * 60))

unfoldable pub turn_cap : Python → Fields → Option ℤ
turn_cap py settings =
    to_float py (worker_setting settings (codes "claude_turn_timeout_seconds") default_turn_timeout)

-- `none` is `ValueError`.
unfoldable pub heartbeat_stale_after_seconds : Python → Fields → Option ℤ
heartbeat_stale_after_seconds py settings = do
  value ←
      to_float py
        (worker_setting settings (codes "heartbeat_stale_after") default_heartbeat_stale_after)
  require (not (leb_ℤ value (pos 0)))
  cap ← turn_cap py settings
  require (not (leb_ℤ value cap))
  some value

checked :
    (value cap : Option ℤ) {r : ℤ}
    → (do v ← value; require (not (leb_ℤ v (pos 0))); c ← cap; require (not (leb_ℤ v c)); some v)
      ≡ some r
    → (c : ℤ) × (cap ≡ some c) × (leb_ℤ r c ≡ false) × (leb_ℤ r (pos 0) ≡ false)
checked none cap h = cc
checked (some v) none h = ground arith
checked (some v) (some c) h = (c, refl, ground arith, ground arith)

-- A window that the configuration yields is positive and strictly above the turn cap.
pub heartbeat_stale_after_seconds_bounds :
    (py : Python) (settings : Fields) (window : ℤ)
    → heartbeat_stale_after_seconds py settings ≡ some window
    → (cap : ℤ) × (turn_cap py settings ≡ some cap)
      × (leb_ℤ window cap ≡ false)
      × (leb_ℤ window (pos 0) ≡ false)
unfolding heartbeat_stale_after_seconds
heartbeat_stale_after_seconds_bounds py settings window h =
    checked
      (to_float py
        (worker_setting settings (codes "heartbeat_stale_after") default_heartbeat_stale_after))
      (turn_cap py settings) h

heartbeat_old_fresh :
    (now window started : ℤ) (heartbeat : Option ℤ)
    → leb_ℤ window (now -ℤ started) ≡ false
    → heartbeat_old now window (some started) heartbeat ≡ false
unfolding heartbeat_old
heartbeat_old_fresh now window started none h = refl
heartbeat_old_fresh now window started (some b) h =
    ground (arith, -ℤ_parts now b, -ℤ_parts now started)

snapshot_old_fresh :
    (py : Python) (now window started : ℤ) (snapshot : Option LiveState)
    → leb_ℤ window (now -ℤ started) ≡ false
    → snapshot_old py now window (some started) snapshot ≡ false
unfolding snapshot_old
snapshot_old_fresh py now window started none h = refl
snapshot_old_fresh py now window started (some s) h =
    ground (arith, heartbeat_old_fresh now window started (py.timestamp_of s.last_heartbeat) h)

-- A lease younger than the window is not stale by its heartbeat, whatever snapshot a previous
-- holder left behind.
pub heartbeat_stale_fresh :
    (py : Python) (clock : Text) (dir : PipelinesDir) (now window started : ℤ)
    (lease : PipelineLease)
    → lease.started_at ≡ some started
    → leb_ℤ window (now -ℤ started) ≡ false
    → heartbeat_stale py clock dir now window lease ≡ false
unfolding heartbeat_stale
heartbeat_stale_fresh py clock dir now window started lease e h =
    elim (Option-cases (truthy_text lease.pipeline_key)) [
      | inl k ↦ rw (k, heartbeat_stale)
      | inr (key, k) ↦
          rw (k, heartbeat_stale)
            (rw e (snapshot_old_fresh py now window started (read_snapshot py clock dir key) h))
    ]

-- A running snapshot whose heartbeat, and whose lease, are both a window old makes the lease
-- stale: a wedged turn is found.
pub heartbeat_stale_wedged :
    (py : Python) (clock key : Text) (dir : PipelinesDir) (now window started heartbeat : ℤ)
    (lease : PipelineLease) (snapshot : LiveState)
    → truthy_text lease.pipeline_key ≡ some key
    → lease.started_at ≡ some started
    → read_snapshot py clock dir key ≡ some snapshot
    → snapshot.state ≡ codes "running"
    → py.timestamp_of snapshot.last_heartbeat ≡ some heartbeat
    → text_eq snapshot.last_heartbeat [] ≡ false
    → leb_ℤ window (now -ℤ started) ≡ true
    → leb_ℤ window (now -ℤ heartbeat) ≡ true
    → heartbeat_stale py clock dir now window lease ≡ true
unfolding heartbeat_stale snapshot_old heartbeat_old
heartbeat_stale_wedged py clock key dir now window started heartbeat lease snapshot k e r running t
      given a b =
    rw (k, heartbeat_stale)
      (rw (r, snapshot_old)
        (rw (t, e) (ground (arith, text_eq_iff snapshot.state (codes "running")))))
