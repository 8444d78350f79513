-- ===== src/Tasks/RevisionNote.antt =====
-- `_split_revision_note` of loony_dev/tasks/planning_task.py.
use mathlib.Core.List.{reverse}
use loony_dev.Prelude.{
  ◌+◌, Bool, true, [], ◌∷◌, Option, none, some, Text, codes, is_nonempty, starts_with, find, take,
  drop, length, strip, is_space, if◌then◌else◌, ◌==◌, ◌&&◌,
}

abbrev pub revision_note_delimiter : Text
revision_note_delimiter = codes "<!-- loony-revision-note -->"

abbrev note_heading : Text
note_heading = codes "**Revision note:**"

-- The last heading at the start of a line with text behind it: what stands before it, and that
-- text. This is the match of the fallback expression on a stripped text, but for the line end
-- before the heading, which `rstrip` takes off the plan.
last_note : Bool → Text → Option (Text × Text)
last_note line_start [] = none
last_note line_start (c ∷ s) =
    let later = last_note (c == b'\n') s in
    let note = drop 18 (c ∷ s) in
    elim later [
      | some (plan, text) ↦ some (c ∷ plan, text)
      | none ↦
          if line_start && starts_with note_heading (c ∷ s) && is_nonempty note
          then some ([], note)
          else none
    ]

-- `while plan.endswith("---"): plan = plan[:-3].rstrip()` behind `rstrip`, on the reversed text.
trim_rules : Text → Text
unfolding is_space
trim_rules [] = []
trim_rules (c ∷ []) = if is_space c then [] else c ∷ []
trim_rules (c ∷ d ∷ []) = if is_space c then (if is_space d then [] else d ∷ []) else c ∷ d ∷ []
trim_rules (c ∷ d ∷ e ∷ s) =
    let without_space = trim_rules (d ∷ e ∷ s) in
    let without_rule = trim_rules s in
    if is_space c
    then without_space
    else if c == b'-' && d == b'-' && e == b'-'
    then without_rule
    else c ∷ d ∷ e ∷ s

-- The plan and the note, from the two parts.
unfoldable pub tidied : Text → Text → Text × Text
unfolding trim_rules
tidied plan note = (strip (reverse (trim_rules (reverse plan))), strip note)

unfoldable pub split_revision_note : Text → Text × Text
unfolding tidied last_note
split_revision_note summary = elim (find revision_note_delimiter summary) [
  | some at ↦ tidied (take at summary) (drop (at + length revision_note_delimiter) summary)
  | none ↦ elim (last_note true (strip summary)) [
    | some (plan, note) ↦ tidied plan note
    | none ↦ (strip summary, [])
  ]
]

-- The raw summary stands in for a plan that is empty.
unfoldable pub plan_to_post : Text → Text
unfolding split_revision_note
plan_to_post summary =
    let plan = (split_revision_note summary).0 in
    if is_nonempty (strip plan) then plan else strip summary
