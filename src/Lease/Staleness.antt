-- ===== src/Lease/Staleness.antt =====
-- The parsed lease and the reclaim ladder: pid, age, heartbeat.
use loony_dev.Prelude.{
  Bool, true, false, not, ◌||◌, ◌&&◌, [], ◌∷◌, Option, none, some, if◌then◌else◌, Text, codes,
  text_eq, ℤ, pos, ◌-ℤ◌, leb_ℤ, max_ℤ, ◌*◌, is_some,
}
use loony_dev.Prelude.Values.{
  Json, null, str, obj, get, get_default, as_int, as_float, Python, ticks_per_second,
}
use loony_dev.ExecutionState.Schema.{LiveState}
use loony_dev.ExecutionState.Store.{PipelinesDir, read_snapshot}

abbrev pub holder_bot : Text
holder_bot = codes "bot"

abbrev pub holder_drive : Text
holder_drive = codes "drive"

abbrev pub default_stale_after : ℤ
default_stale_after = pos (12 * 60 * 60 * ticks_per_second)

pub record PipelineLease : Type 0 where
  pub pipeline_key : Json
  pub holder : Json
  pub pid : Option ℤ
  pub started_at : Option ℤ

-- The outcomes of `os.kill(pid, 0)`.
pub data Kill : Type 0 where
  delivered permission_error process_lookup_error os_error : Kill

abbrev kill_alive : Kill → Bool
kill_alive delivered = true
kill_alive permission_error = true
kill_alive process_lookup_error = false
kill_alive os_error = false

unfoldable pub pid_alive : (ℤ → Kill) → Option ℤ → Bool
pid_alive kill none = false
pid_alive kill (some pid) = if leb_ℤ pid (pos 0) then false else kill_alive (kill pid)

abbrev as_pid : Option Json → Option ℤ
as_pid none = none
as_pid (some j) = as_int j

abbrev as_time : Option Json → Option ℤ
as_time none = none
as_time (some j) = as_float j

lease_of : Json → Option PipelineLease
lease_of (obj fs) = some (record {
  pipeline_key = get_default (codes "pipeline_key") fs null;
  holder = get_default (codes "holder") fs null;
  pid = as_pid (get (codes "pid") fs);
  started_at = as_time (get (codes "started_at") fs);
})
lease_of _ = none

-- The content of a file, `none` where there is no file to read.
unfoldable pub parse_lease : Python → Option Text → Option PipelineLease
unfolding lease_of
parse_lease py none = none
parse_lease py (some content) = elim (py.loads content) [ none ↦ none | some j ↦ lease_of j ]

-- `j == t`
unfoldable pub is_text : Json → Text → Bool
is_text (str s) t = text_eq s t
is_text _ t = false

-- A text that is not empty; a key is never another truthy value.
unfoldable pub truthy_text : Json → Option Text
truthy_text (str []) = none
truthy_text (str (c ∷ s)) = some (c ∷ s)
truthy_text _ = none

abbrev clamp : ℤ → Option ℤ → ℤ
clamp heartbeat none = heartbeat
clamp heartbeat (some started) = max_ℤ heartbeat started

unfoldable pub heartbeat_old : ℤ → ℤ → Option ℤ → Option ℤ → Bool
heartbeat_old now window started none = false
heartbeat_old now window started (some heartbeat) = leb_ℤ window (now -ℤ clamp heartbeat started)

unfoldable pub snapshot_old : Python → ℤ → ℤ → Option ℤ → Option LiveState → Bool
unfolding heartbeat_old
snapshot_old py now window started none = false
snapshot_old py now window started (some s) =
    if not (text_eq s.state (codes "running")) || text_eq s.last_heartbeat []
    then false
    else heartbeat_old now window started (py.timestamp_of s.last_heartbeat)

unfoldable pub heartbeat_stale : Python → Text → PipelinesDir → ℤ → ℤ → PipelineLease → Bool
unfolding snapshot_old
heartbeat_stale py clock dir now window lease = elim (truthy_text lease.pipeline_key) [
  | none ↦ false
  | some key ↦ snapshot_old py now window lease.started_at (read_snapshot py clock dir key)
]

unfoldable pub aged : ℤ → ℤ → Option ℤ → Bool
aged now stale_after none = false
aged now stale_after (some started) = leb_ℤ stale_after (now -ℤ started)

-- What a staleness test sees: the runtime, the processes, the snapshots of the repository, and
-- the clock, as a text for the reader of snapshots and in ticks.
pub record Scene : Type 0 where
  pub py : Python
  pub kill : ℤ → Kill
  pub pipelines : PipelinesDir
  pub clock : Text
  pub now : ℤ

-- The window is `none` where the caller leaves the middle tier out.
unfoldable pub middle_tier : Scene → PipelineLease → Option ℤ → Bool
middle_tier sc lease none = false
middle_tier sc lease (some window) =
    if is_text lease.holder holder_bot && is_some (truthy_text lease.pipeline_key)
    then heartbeat_stale sc.py sc.clock sc.pipelines sc.now window lease
    else false

unfoldable pub is_stale : Scene → ℤ → Option ℤ → PipelineLease → Bool
unfolding aged
is_stale sc stale_after window lease =
    if not (pid_alive sc.kill lease.pid)
    then true
    else if aged sc.now stale_after lease.started_at
    then true
    else middle_tier sc lease window
