-- ===== src/ExecutionState/RoundTrip.antt =====
-- Reading back the JSON object of a constructed snapshot or event (`from_dict` of `to_dict`).
use loony_dev.Prelude.{
  ◌≡◌, refl, [], ◌∙◌, Text, Option, some, none, codes, print_ℕ, ℕ, pos, ◌++◌, arith, ◌≢◌, false, ℤ,
  int_of-print_ℕ, starts_with, text_eq,
}
use loony_dev.Prelude.Values.{
  Python, int, str, end, field, obj, get, get_default, as_int, as_bool, str_of, str_or_none,
  text_or_null, int_or_null, Fields,
}
use loony_dev.ExecutionState.Schema.{
  LiveState, ExecutionEvent, make_state, state_to_dict, state_from_dict, make_event, event_to_dict,
  event_from_dict, target_for,
}

str_or_none-text_or_null : (py : Python) (o : Option Text) → str_or_none py (text_or_null o) ≡ o
unfolding str_or_none text_or_null
str_or_none-text_or_null py none = refl
str_or_none-text_or_null py (some t) = refl

as_int-int_or_null : (o : Option ℤ) → as_int (int_or_null o) ≡ o
unfolding as_int int_or_null
as_int-int_or_null none = refl
as_int-int_or_null (some z) = refl

-- The reader passes on what the object holds.
state_from_dict_fields :
    (py : Python) (later : Text) (s : LiveState)
    → state_from_dict py later (state_to_dict s) ≡ make_state later (record s { needs_you = false })
unfolding state_from_dict state_to_dict get get_default str_of as_bool text_eq as_int
state_from_dict_fields py later s = rw (
  str_or_none-text_or_null py s.current_skill,
  str_or_none-text_or_null py s.worktree_path,
  as_int-int_or_null s.linked_pr,
)

make_state_twice :
    (now later : Text) (given s : LiveState)
    → now ≢ []
    → make_state now given ≡ some s
    → make_state later (record s { needs_you = false }) ≡ some s
unfolding make_state
make_state_twice now later given s n h = ground arith

event_from_dict_fields :
    (py : Python) (later : Text) (e : ExecutionEvent)
    → event_from_dict py later (event_to_dict e)
      ≡ make_event later e.type_ e.what e.actor (obj e.target) e.state_tone e.ts
unfolding event_from_dict event_to_dict get get_default str_of text_eq
event_from_dict_fields py later e = refl

-- A snapshot that the constructor accepted, at a clock whose text is not empty, is read back from
-- its JSON object exactly as it was, whatever the time of the reading.
pub state_from_dict-state_to_dict :
    (py : Python) (now later : Text) (given s : LiveState)
    → now ≢ []
    → make_state now given ≡ some s
    → state_from_dict py later (state_to_dict s) ≡ some s
state_from_dict-state_to_dict py now later given s n h =
    state_from_dict_fields py later s ∙ make_state_twice now later given s n h

make_event_twice :
    (now later type_ what actor tone ts : Text) (target : Fields) (e : ExecutionEvent)
    → now ≢ []
    → make_event now type_ what actor (obj target) tone ts ≡ some e
    → make_event later e.type_ e.what e.actor (obj e.target) e.state_tone e.ts ≡ some e
unfolding make_event
make_event_twice now later type_ what actor tone ts target e n h = ground arith

-- An event that the constructor accepted, at a clock whose text is not empty, is read back from
-- its JSON object exactly as it was, whatever the time of the reading.
pub event_from_dict-event_to_dict :
    (py : Python) (now later type_ what actor tone ts : Text) (target : Fields) (e : ExecutionEvent)
    → now ≢ []
    → make_event now type_ what actor (obj target) tone ts ≡ some e
    → event_from_dict py later (event_to_dict e) ≡ some e
event_from_dict-event_to_dict py now later type_ what actor tone ts target e n h =
    event_from_dict_fields py later e
    ∙ make_event_twice now later type_ what actor tone ts target e n h

-- The target of an event names the number of its pipeline: `issue-N` gives issue N, `pr-P` gives
-- pull request P.
pub target_for-keys :
    (repo : Text) (n : ℕ)
    → (target_for repo (codes "issue-" ++ print_ℕ n)
        ≡ field (codes "repo") (str repo) (field (codes "issue") (int (pos n)) end))
      × (target_for repo (codes "pr-" ++ print_ℕ n)
          ≡ field (codes "repo") (str repo) (field (codes "pr") (int (pos n)) end))
unfolding target_for starts_with
target_for-keys repo n = (rw int_of-print_ℕ, rw int_of-print_ℕ)
