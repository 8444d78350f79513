-- ===== src/ExecutionState/Store.antt =====
-- The storage functions of loony_dev/execution_state.py over the files of a pipelines directory.
use mathlib.Core.List.{reverse}
use loony_dev.Prelude.{
  splitlines, ℕ, Bool, true, false, ◌||◌, ◌&&◌, List, [], ◌∷◌, ◌++◌, Option, none, some,
  if◌then◌else◌, ◌==◌, Text, codes, text_eq, strip, length, starts_with,
}
use loony_dev.Prelude.Dictionary.{Dict, lookup, insert}
use loony_dev.Prelude.Values.{Json, obj, Python}
use loony_dev.Slug.{task_slug}
use loony_dev.ExecutionState.Schema.{
  ExecutionEvent, LiveState, make_state, state_to_dict, state_from_dict, event_to_dict,
  event_from_dict, ◌>>=◌, ◌>>◌, require,
}

-- `.logs/<owner>/<repo>/pipelines/`: the files of each suffix, by slug.
pub record PipelinesDir : Type 0 where
  pub events : Dict Text
  pub snapshots : Dict Text
  pub sidecars : Dict Text

write_if_absent : Text → Text → Dict Text → Dict Text
write_if_absent slug key d = elim (lookup slug d) [ none ↦ insert slug key d | some _ ↦ d ]

unfoldable pub write_sidecar : Python → PipelinesDir → Text → PipelinesDir
unfolding write_if_absent
write_sidecar py dir key = record dir {
  sidecars = write_if_absent (task_slug py key) key dir.sidecars;
}

unfoldable pub append_event : Python → PipelinesDir → Text → ExecutionEvent → PipelinesDir
append_event py dir key event =
    let line = py.dumps (obj (event_to_dict event)) in
    let slug = task_slug py key in
    let d = write_sidecar py dir key in
    let old : Text = elim (lookup slug d.events) [ none ↦ [] | some t ↦ t ] in
    record d { events = insert slug (old ++ (line ++ codes "\n")) d.events }

-- `none` is the `ValueError` of a state whose identity is not the storage key's.
unfoldable pub write_snapshot :
    Python → PipelinesDir → Text → Text → LiveState → Option PipelinesDir
write_snapshot py dir repo key state = do
  require (text_eq state.repo repo && text_eq state.pipeline_key key)
  let payload = py.dumps_indented (obj (state_to_dict state))
  let d = write_sidecar py dir key
  some (record d { snapshots = insert (task_slug py key) payload d.snapshots })

abbrev object_of : Option Json → Option Json
object_of (some (obj fs)) = some (obj fs)
object_of _ = none

unfoldable pub state_of : Python → Text → Json → Option LiveState
state_of py now (obj fs) = state_from_dict py now fs
state_of py now _ = none

event_of : Python → Text → Json → Option ExecutionEvent
event_of py now (obj fs) = event_from_dict py now fs
event_of py now _ = none

unfoldable pub parse_snapshot : Python → Text → Text → Option LiveState
unfolding state_of
parse_snapshot py now content = do data_ ← py.loads content; state_of py now data_

unfoldable pub read_snapshot : Python → Text → PipelinesDir → Text → Option LiveState
read_snapshot py now dir key = do
  content ← lookup (task_slug py key) dir.snapshots
  parse_snapshot py now content

-- `.logs/`: the owners, and under each its repositories, in the order of their names.
abbrev pub Logs : Type 0
Logs = List (Text × List (Text × PipelinesDir))

unfoldable pub is_active : LiveState → Bool
is_active s = text_eq s.state (codes "running") || s.live

add_active : Option LiveState → List LiveState → List LiveState
add_active none rest = rest
add_active (some s) rest = if is_active s then s ∷ rest else rest

active_files : Python → Text → Dict Text → List LiveState
unfolding add_active
active_files py now [] = []
active_files py now ((slug, content) ∷ files) =
    add_active (parse_snapshot py now content) (active_files py now files)

active_repos : Python → Text → List (Text × PipelinesDir) → List LiveState
unfolding active_files
active_repos py now [] = []
active_repos py now ((name, dir) ∷ repos) =
    active_files py now dir.snapshots ++ active_repos py now repos

unfoldable pub list_active : Python → Text → Logs → List LiveState
unfolding active_repos
list_active py now [] = []
list_active py now ((owner, repos) ∷ owners) =
    let rest = list_active py now owners in
    if starts_with (codes ".") owner then rest else active_repos py now repos ++ rest

unfoldable pub parse_event_line : Python → Text → Text → Option ExecutionEvent
unfolding event_of
parse_event_line py now line = elim (strip line) [
  | [] ↦ none
  | c ∷ s ↦ do data_ ← py.loads (c ∷ s); event_of py now data_
]

-- The loop over the reversed lines, which stops at the n-th event.
unfoldable pub gather :
    (Text → Option ExecutionEvent) → ℕ → List ExecutionEvent → List Text → List ExecutionEvent
gather parse n events [] = events
gather parse n events (line ∷ lines) = elim (parse line) [
  | none ↦ gather parse n events lines
  | some e ↦ elim (length (events ++ e ∷ []) == n) [
    | true ↦ events ++ e ∷ []
    | false ↦ gather parse n (events ++ e ∷ []) lines
  ]
]

unfoldable pub tail_events : Python → Text → PipelinesDir → Text → ℕ → List ExecutionEvent
unfolding gather
tail_events py now dir key n = if n == 0 then [] else elim (lookup (task_slug py key) dir.events) [
  | none ↦ []
  | some text ↦ reverse (gather (parse_event_line py now) n [] (reverse (splitlines false [] text)))
]

-- `while "\n" in buffer`: the whole lines, and what is left in the buffer.
unfoldable pub drain_lines : Text → Text → List Text × Text
drain_lines cur [] = ([], cur)
drain_lines cur (c ∷ s) = elim (c == 10) [
  | true ↦ let (lines, rest) = drain_lines [] s in (cur ∷ lines, rest)
  | false ↦ drain_lines (cur ++ c ∷ []) s
]

unfoldable pub parsed : (Text → Option ExecutionEvent) → List Text → List ExecutionEvent
parsed parse [] = []
parsed parse (line ∷ lines) = elim (parse line) [
  | none ↦ parsed parse lines
  | some e ↦ e ∷ parsed parse lines
]

-- The polling loop over the chunks that successive reads return: what is yielded, and the buffer.
unfoldable pub stream_events : Python → Text → Text → List Text → List ExecutionEvent × Text
unfolding parsed
stream_events py now buffer [] = ([], buffer)
stream_events py now buffer (chunk ∷ chunks) =
    let (lines, rest) = drain_lines [] (buffer ++ chunk) in
    let (later, last) = stream_events py now rest chunks in
    (parsed (parse_event_line py now) lines ++ later, last)

override {ℓ} : {A : Type ℓ} → Option A → A → A
override none a = a
override (some b) a = b

-- The overrides that the callers pass are `state` and `live`; `none` is `ValueError`.
unfoldable pub bump_snapshot :
    Python → Text → PipelinesDir → Text → Option Text → Option Bool → Option PipelinesDir
unfolding override
bump_snapshot py now dir key state live = elim (read_snapshot py now dir key) [
  | none ↦ some dir
  | some current ↦ do
    updated ← make_state now (record current {
      last_heartbeat = now;
      updated_at = now;
      state = override state current.state;
      live = override live current.live;
    })
    some (record dir {
      snapshots =
          insert (task_slug py key) (py.dumps_indented (obj (state_to_dict updated))) dir.snapshots;
    })
]
