-- ===== src/Examples/States.antt =====
-- The theorems on the execution state, at concrete records.
use native.Mathlib.Omega.{arith}
use loony_dev.Slug.{collapse, strip_dash, rstrip_dash, lstrip_dash, or_task}
use loony_dev.ExecutionState.Store.{state_of}
use loony_dev.Prelude.{
  if◌then◌else◌, text_eq_refl, pos, true, false, List, [], ◌∷◌, none, some, Text, codes, text_eq,
  mem_text, last_n, splitlines, ◌≡◌, ◌≢◌, refl,
}
use loony_dev.Prelude.Dictionary.{lookup}
use loony_dev.Prelude.Values.{end, obj, Python}
use loony_dev.Slug.{task_slug}
use loony_dev.ExecutionState.Schema.{
  LiveState, ExecutionEvent, make_state, make_event, state_to_dict, derive_needs_you,
}
use loony_dev.ExecutionState.Store.{
  PipelinesDir, write_snapshot, read_snapshot, bump_snapshot, tail_events, parsed, parse_event_line,
  parse_snapshot,
}
use loony_dev.ExecutionState.RoundTrip.{state_from_dict-state_to_dict}
use loony_dev.ExecutionState.Snapshots.{read_snapshot-write_snapshot, bump_snapshot-bumped, bumped}
use loony_dev.ExecutionState.Tail.{tail_events-last_n}
use loony_dev.Examples.Samples.{python_with, empty_dir, apart}

abbrev clock : Text
clock = codes "2026"

abbrev running : LiveState
running = record {
  pipeline_key = codes "issue-1";
  repo = codes "o/r";
  stage = codes "Implementing";
  current_skill = none;
  state = codes "running";
  updated_at = clock;
  last_heartbeat = clock;
  needs_you = false;
  linked_pr = none;
  worktree_path = none;
  live = true;
  attempt = pos 1;
}

made : make_state clock running ≡ some running
unfolding make_state mem_text text_eq derive_needs_you
made = refl

abbrev event : ExecutionEvent
event = record {
  type_ = codes "dispatched";
  what = codes "Dispatched";
  actor = codes "capo";
  target = end;
  state_tone = codes "active";
  ts = clock;
}

made_event :
    make_event clock event.type_ event.what event.actor (obj end) event.state_tone event.ts
    ≡ some event
unfolding make_event mem_text text_eq
made_event = refl

abbrev python : Python
python = python_with (obj (state_to_dict running))

slugs : task_slug python (codes "issue-1") ≢ task_slug python (codes "issue-2")
unfolding task_slug collapse strip_dash rstrip_dash lstrip_dash or_task text_eq
slugs = apart _ _ refl

write_example :
    (after : PipelinesDir) × (write_snapshot python empty_dir
        (codes "o/r")
        (codes "issue-1")
        running
      ≡ some after)
    × (read_snapshot python clock after (codes "issue-1") ≡ some running)
    × (read_snapshot python clock after (codes "issue-2")
        ≡ read_snapshot python clock empty_dir (codes "issue-2"))
unfolding text_eq
write_example =
    read_snapshot-write_snapshot python clock clock (codes "o/r") (codes "issue-1")
      (codes "issue-2") running running empty_dir (apart clock [] refl) made refl refl refl slugs

-- A runtime that writes an idle snapshot as another text than the running one.
abbrev python_idle : Python
python_idle = record python {
  dumps_indented = λ value. codes "[]";
  loads = λ text.
      if text_eq text (codes "[]")
      then some (obj (state_to_dict (bumped clock (codes "idle") false running)))
      else some (obj (state_to_dict running));
}

-- The directory after the snapshot was written.
abbrev stored : PipelinesDir
stored = record empty_dir { snapshots = (task_slug python (codes "issue-1"), codes "{}") ∷ [] }

read_stored : read_snapshot python_idle clock stored (codes "issue-1") ≡ some running
unfolding read_snapshot lookup parse_snapshot state_of text_eq task_slug
read_stored = rw (text_eq_refl (task_slug python (codes "issue-1"))) (
    state_from_dict-state_to_dict python_idle clock clock running running (apart clock [] refl)
      made)

bump_example :
    (after : PipelinesDir) × (bump_snapshot python_idle clock stored
        (codes "issue-1")
        (some (codes "idle"))
        (some false)
      ≡ some after)
    × (read_snapshot python_idle clock after (codes "issue-1")
        ≡ some (bumped clock (codes "idle") false running))
    × (read_snapshot python_idle clock after (codes "issue-2")
        ≡ read_snapshot python_idle clock stored (codes "issue-2"))
unfolding text_eq mem_text task_slug
bump_example =
    bump_snapshot-bumped python_idle clock clock (codes "issue-1") (codes "issue-2") (codes "idle")
      false stored running (apart clock [] refl) refl read_stored refl slugs

abbrev logged : PipelinesDir
logged = record empty_dir { events = (task_slug python (codes "issue-1"), codes "{}\n") ∷ [] }

has_log : lookup (task_slug python (codes "issue-1")) logged.events ≡ some (codes "{}\n")
unfolding lookup
has_log = rw (text_eq_refl (task_slug python (codes "issue-1"))) refl

tail_example :
    tail_events python clock logged (codes "issue-1") 2
    ≡ last_n 2 (parsed (parse_event_line python clock) (splitlines false [] (codes "{}\n")))
tail_example =
    tail_events-last_n python clock logged (codes "issue-1") 2 (codes "{}\n") (omega arith) has_log

abbrev chunks : List Text
chunks = codes "{" ∷ codes "}\n{}" ∷ []
