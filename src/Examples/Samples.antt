-- ===== src/Examples/Samples.antt =====
-- The inputs that the examples share.
use loony_dev.Tasks.Kinds.{issue_key}
use loony_dev.Prelude.{
  pos, false, [], ◌∷◌, Option, none, some, Text, codes, text_eq, text_eq_refl, ◌≡◌, ◌≢◌, sym, ap,
  ◌∙◌, arith,
}
use loony_dev.Prelude.Values.{Json, Python}
use loony_dev.ExecutionState.Store.{PipelinesDir}
use loony_dev.Lease.Staleness.{holder_drive, Scene, Kill, holder_bot}
use loony_dev.Lease.Acquire.{lease_object}

-- A file that is not empty reads as one value.
abbrev reads_as : Json → Text → Option Json
reads_as j [] = none
reads_as j (c ∷ s) = some j

-- A runtime whose files all hold one value.
abbrev pub python_with : Json → Python
python_with j = record {
  dumps = λ value. codes "{}";
  dumps_indented = λ value. codes "{}";
  loads = reads_as j;
  repr = λ value. codes "value";
  parse_float = λ text. none;
  timestamp_of = λ text. some (pos 0);
  digest = λ text. codes "0123456789";
  lower = λ text. text;
}

abbrev pub bot_lease : Json
bot_lease = lease_object holder_bot (pos 7) (issue_key 1) (pos 1000)

abbrev pub empty_dir : PipelinesDir
empty_dir = record { events = []; snapshots = []; sidecars = [] }

-- Process 7 lives, or not.
abbrev pub scene_with : Json → Kill → Scene
scene_with j kill = record {
  py = python_with j;
  kill = λ pid. kill;
  pipelines = empty_dir;
  clock = codes "2026-01-01T00:00:00+00:00";
  now = pos 1000;
}

abbrev pub drive_lease : Json
drive_lease = lease_object holder_drive (pos 7) (issue_key 1) (pos 1000)

pub apart : (a b : Text) → text_eq a b ≡ false → a ≢ b
apart a b other same = let equal = sym (ap (text_eq a) same) ∙ text_eq_refl a in ground arith
