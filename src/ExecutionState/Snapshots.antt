-- ===== src/ExecutionState/Snapshots.antt =====
-- Writing, bumping and reading snapshots.
use loony_dev.Prelude.{
  mem_text, Bool, true, [], ◌∷◌, some, Text, ◌≡◌, ◌≢◌, refl, ◌∙◌, arith, inl, inr, Option-cases,
  text_eq_iff,
}
use loony_dev.Prelude.Dictionary.{lookup, insert, lookup-insert_self, lookup-insert_ne}
use loony_dev.Prelude.Values.{Python, obj}
use loony_dev.Slug.{task_slug}
use loony_dev.ExecutionState.Schema.{
  LiveState, make_state, state_to_dict, state_from_dict, derive_needs_you, stages, states,
}
use loony_dev.ExecutionState.RoundTrip.{state_from_dict-state_to_dict}
use loony_dev.ExecutionState.Store.{
  PipelinesDir, write_sidecar, write_snapshot, parse_snapshot, read_snapshot, bump_snapshot,
}

module _ (py : Python) where
  -- The codec reads back this state's object.
  abbrev pub CodecReads : LiveState → Type 0
  CodecReads s = py.loads (py.dumps_indented (obj (state_to_dict s))) ≡ some (obj (state_to_dict s))

  parse_written :
      (now later : Text) (given s : LiveState)
      → now ≢ []
      → make_state now given ≡ some s
      → CodecReads s
      → parse_snapshot py later (py.dumps_indented (obj (state_to_dict s))) ≡ some s
  unfolding parse_snapshot
  parse_written now later given s n made codec =
      rw codec (state_from_dict-state_to_dict py now later given s n made)

  read_inserted :
      (later key content : Text) (dir : PipelinesDir)
      → read_snapshot py later
          (record dir { snapshots = insert (task_slug py key) content dir.snapshots })
          key
        ≡ parse_snapshot py later content
  unfolding read_snapshot
  read_inserted later key content dir =
      rw (lookup-insert_self (task_slug py key) content dir.snapshots)

  read_other :
      (later key other content : Text) (dir : PipelinesDir)
      → task_slug py key ≢ task_slug py other
      → read_snapshot py later
          (record dir { snapshots = insert (task_slug py key) content dir.snapshots })
          other
        ≡ read_snapshot py later dir other
  unfolding read_snapshot
  read_other later key other content dir apart =
      rw (lookup-insert_ne (task_slug py key) (task_slug py other) content dir.snapshots apart)

  read_sidecar :
      (later key other : Text) (dir : PipelinesDir)
      → read_snapshot py later (write_sidecar py dir key) other ≡ read_snapshot py later dir other
  unfolding read_snapshot write_sidecar
  read_sidecar later key other dir = refl

-- What is written under a state's own key is read back as it was, if JSON reads back what it wrote
-- and the state is one that the constructor accepted; another key of another slug reads as before.
pub read_snapshot-write_snapshot :
    (py : Python) (now later repo key other : Text) (given s : LiveState) (dir : PipelinesDir)
    → now ≢ []
    → make_state now given ≡ some s
    → s.repo ≡ repo
    → s.pipeline_key ≡ key
    → py.loads (py.dumps_indented (obj (state_to_dict s))) ≡ some (obj (state_to_dict s))
    → task_slug py key ≢ task_slug py other
    → (after : PipelinesDir) × (write_snapshot py dir repo key s ≡ some after)
      × (read_snapshot py later after key ≡ some s)
      × (read_snapshot py later after other ≡ read_snapshot py later dir other)
unfolding write_snapshot
read_snapshot-write_snapshot py now later repo key other given s dir n made r k codec apart =
    let content = py.dumps_indented (obj (state_to_dict s)) in
    let d = write_sidecar py dir key in
    (
      record d { snapshots = insert (task_slug py key) content d.snapshots },
      ground (arith, text_eq_iff s.repo repo, text_eq_iff s.pipeline_key key),
      read_inserted py later key content d ∙ parse_written py now later given s n made codec,
      read_other py later key other content d apart ∙ read_sidecar py later key other dir,
    )

make_state_valid :
    (now : Text) (given s : LiveState)
    → make_state now given ≡ some s
    → (mem_text s.stage stages ≡ true) × (mem_text s.state states ≡ true)
unfolding make_state
make_state_valid now given s h = ground arith

parsed_valid :
    (py : Python) (now content : Text) (s : LiveState)
    → parse_snapshot py now content ≡ some s
    → mem_text s.stage stages ≡ true
unfolding parse_snapshot state_from_dict make_state
parsed_valid py now content s h = ground arith

-- Every snapshot that a read returns has a stage of the closed vocabulary.
read_snapshot_valid :
    (py : Python) (now : Text) (dir : PipelinesDir) (key : Text) (s : LiveState)
    → read_snapshot py now dir key ≡ some s
    → mem_text s.stage stages ≡ true
unfolding read_snapshot
read_snapshot_valid py now dir key s h =
    elim (Option-cases (lookup (task_slug py key) dir.snapshots)) [
      | inl e ↦ absurd (cc (rw e at h))
      | inr (content, e) ↦ parsed_valid py now content s (rw e at h)
    ]

-- A snapshot after a bump.
abbrev pub bumped : Text → Text → Bool → LiveState → LiveState
bumped now state live s = record s {
  last_heartbeat = now;
  updated_at = now;
  state = state;
  live = live;
  needs_you = derive_needs_you state s.stage;
}

make_state-bumped :
    (now state : Text) (live : Bool) (current : LiveState)
    → now ≢ []
    → mem_text state states ≡ true
    → mem_text current.stage stages ≡ true
    → make_state now
        (record current { last_heartbeat = now; updated_at = now; state = state; live = live })
      ≡ some (bumped now state live current)
unfolding make_state
make_state-bumped [] state live current n known valid = absurd (n refl)
make_state-bumped (c ∷ now) state live current n known valid = rw (valid, known)

-- If JSON reads back what it wrote, a bump to a known state and of the live flag keeps every other
-- field of the snapshot that a read returns, sets both times to now, and derives `needs_you` anew;
-- the keys of other slugs read as before.
pub bump_snapshot-bumped :
    (py : Python) (now later key other state : Text) (live : Bool) (dir : PipelinesDir)
    (current : LiveState)
    → now ≢ []
    → mem_text state states ≡ true
    → read_snapshot py now dir key ≡ some current
    → CodecReads py (bumped now state live current)
    → task_slug py key ≢ task_slug py other
    → (after : PipelinesDir) × (bump_snapshot py now dir key (some state) (some live) ≡ some after)
      × (read_snapshot py later after key ≡ some (bumped now state live current))
      × (read_snapshot py later after other ≡ read_snapshot py later dir other)
unfolding bump_snapshot
bump_snapshot-bumped py now later key other state live dir current n known was codec apart =
    let next = bumped now state live current in
    let content = py.dumps_indented (obj (state_to_dict next)) in
    let given = record current {
      last_heartbeat = now;
      updated_at = now;
      state = state;
      live = live;
    } in
    let made =
      make_state-bumped now state live current n known
        (read_snapshot_valid py now dir key current was) in
    (
      record dir { snapshots = insert (task_slug py key) content dir.snapshots },
      rw (was, bump_snapshot) (rw made),
      read_inserted py later key content dir ∙ parse_written py now later given next n made codec,
      read_other py later key other content dir apart,
    )
