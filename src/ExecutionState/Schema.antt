-- ===== src/ExecutionState/Schema.antt =====
-- The data shapes of loony_dev/execution_state.py: closed vocabularies, events and snapshots, and
-- their conversions to and from JSON objects.
use loony_dev.Prelude.{
  Bool, true, false, ◌||◌, List, [], ◌∷◌, Option, none, some, if◌then◌else◌, Text, codes, text_eq,
  mem_text, starts_with, drop, length, ℤ, pos, int_of,
}
use loony_dev.Prelude.Values.{
  Json, null, bool, int, str, obj, Fields, end, field, get, get_default, as_int, as_bool, Python,
  str_of, str_or_none, text_or_null, int_or_null,
}

abbrev pub event_types : List Text
event_types =
    codes "dispatched"
    ∷ codes "phase_enter"
    ∷ codes "turn_start"
    ∷ codes "turn_complete"
    ∷ codes "error"
    ∷ codes "terminal"
    ∷ []

abbrev pub state_tones : List Text
state_tones = codes "active" ∷ codes "review" ∷ codes "blocked" ∷ codes "none" ∷ []

abbrev pub stages : List Text
stages =
    codes "Inbox"
    ∷ codes "Planning"
    ∷ codes "Implementing"
    ∷ codes "PR Open"
    ∷ codes "In Review"
    ∷ codes "Conflicts"
    ∷ codes "Merged"
    ∷ []

abbrev pub states : List Text
states = codes "running" ∷ codes "failed" ∷ codes "crashed" ∷ codes "idle" ∷ []

infixl 5 ◌>>=◌ ◌>>◌
abbrev pub ◌>>=◌ {ℓ κ} : {A : Type ℓ} {B : Type κ} → Option A → (A → Option B) → Option B
none >>= f = none
some a >>= f = f a

abbrev pub ◌>>◌ {ℓ} : {B : Type ℓ} → Option (Unit {0}) → Option B → Option B
m >> k = m >>= λ _. k

-- `if not test: raise ValueError`
abbrev pub require : Bool → Option (Unit {0})
require true = some tt
require false = none

unfoldable pub skill_for_task_type : Text → Option Text
skill_for_task_type t =
    if text_eq t (codes "plan_issue")
    then some (codes "plan-issue")
    else if text_eq t (codes "implement_issue")
    then some (codes "implement-issue")
    else if text_eq t (codes "address_review")
    then some (codes "address-reviews")
    else if text_eq t (codes "resolve_conflicts")
    then some (codes "resolve-conflicts")
    else if text_eq t (codes "fix_ci")
    then some (codes "fix-ci")
    else none

unfoldable pub stage_for_task_type : Text → Option Text
stage_for_task_type t =
    if text_eq t (codes "plan_issue")
    then some (codes "Planning")
    else if text_eq t (codes "implement_issue")
    then some (codes "Implementing")
    else if text_eq t (codes "address_review")
    then some (codes "In Review")
    else if text_eq t (codes "resolve_conflicts")
    then some (codes "Conflicts")
    else if text_eq t (codes "fix_ci")
    then some (codes "PR Open")
    else none

-- `x or default` for a text
abbrev pub or_else : Text → Text → Text
or_else [] d = d
or_else (c ∷ s) d = c ∷ s

pub record ExecutionEvent : Type 0 where
  pub type_ : Text
  pub what : Text
  pub actor : Text
  pub target : Fields
  pub state_tone : Text
  pub ts : Text

-- The constructor with `__post_init__`; `now` is `_utc_now_iso()`, and `none` is `ValueError`.
unfoldable pub make_event : Text → Text → Text → Text → Json → Text → Text → Option ExecutionEvent
make_event now type_ what actor (obj target) state_tone ts = do
  require (mem_text type_ event_types)
  require (mem_text state_tone state_tones)
  some (record {
    type_ = type_;
    what = what;
    actor = actor;
    target = target;
    state_tone = state_tone;
    ts = or_else ts now;
  })
make_event now type_ what actor _ state_tone ts = none

unfoldable pub event_to_dict : ExecutionEvent → Fields
event_to_dict e = field (codes "ts") (str e.ts) (
    field (codes "actor") (str e.actor) (
      field (codes "type") (str e.type_) (
        field (codes "what") (str e.what) (
          field (codes "target") (obj e.target)
            (field (codes "state_tone") (str e.state_tone) end)))))

-- `target if isinstance(target, dict) else {}`
abbrev dict_or_empty : Option Json → Json
dict_or_empty (some (obj fs)) = obj fs
dict_or_empty _ = obj end

unfoldable pub event_from_dict : Python → Text → Fields → Option ExecutionEvent
unfolding make_event
event_from_dict py now d = do
  type_ ← get (codes "type") d
  make_event now (str_of py type_) (str_of py (get_default (codes "what") d (str [])))
      (str_of py (get_default (codes "actor") d (str (codes "system"))))
      (dict_or_empty (get (codes "target") d))
      (str_of py (get_default (codes "state_tone") d (str (codes "none"))))
      (str_of py (get_default (codes "ts") d (str [])))

pub record LiveState : Type 0 where
  pub pipeline_key : Text
  pub repo : Text
  pub stage : Text
  pub current_skill : Option Text
  pub state : Text
  pub updated_at : Text
  pub last_heartbeat : Text
  pub needs_you : Bool
  pub linked_pr : Option ℤ
  pub worktree_path : Option Text
  pub live : Bool
  pub attempt : ℤ

unfoldable pub derive_needs_you : Text → Text → Bool
derive_needs_you state stage =
    mem_text state (codes "failed" ∷ codes "crashed" ∷ [])
    || mem_text stage (codes "In Review" ∷ codes "Conflicts" ∷ [])

-- `__post_init__` on the fields as they were passed.
unfoldable pub make_state : Text → LiveState → Option LiveState
unfolding derive_needs_you
make_state now s = do
  require (mem_text s.stage stages)
  require (mem_text s.state states)
  let updated_at = or_else s.updated_at now
  some (record s {
    updated_at = updated_at;
    last_heartbeat = or_else s.last_heartbeat updated_at;
    needs_you = derive_needs_you s.state s.stage;
  })

unfoldable pub state_to_dict : LiveState → Fields
unfolding text_or_null int_or_null
state_to_dict s = field (codes "pipeline_key") (str s.pipeline_key) (
    field (codes "repo") (str s.repo) (
      field (codes "stage") (str s.stage) (
        field (codes "current_skill") (text_or_null s.current_skill) (
          field (codes "updated_at") (str s.updated_at) (
            field (codes "last_heartbeat") (str s.last_heartbeat) (
              field (codes "needs_you") (bool s.needs_you) (
                field (codes "linked_pr") (int_or_null s.linked_pr) (
                  field (codes "worktree_path") (text_or_null s.worktree_path) (
                    field (codes "live") (bool s.live) (
                      field (codes "attempt") (int s.attempt)
                        (field (codes "state") (str s.state) end)))))))))))

int_or_one : Option ℤ → ℤ
int_or_one (some z) = z
int_or_one none = pos 1

unfoldable pub state_from_dict : Python → Text → Fields → Option LiveState
unfolding make_state int_or_one
state_from_dict py now d = do
  pipeline_key ← get (codes "pipeline_key") d
  stage ← get (codes "stage") d
  state ← get (codes "state") d
  make_state now (record {
    pipeline_key = str_of py pipeline_key;
    repo = str_of py (get_default (codes "repo") d (str []));
    stage = str_of py stage;
    current_skill = str_or_none py (get_default (codes "current_skill") d null);
    state = str_of py state;
    updated_at = str_of py (get_default (codes "updated_at") d (str []));
    last_heartbeat = str_of py (get_default (codes "last_heartbeat") d (str []));
    needs_you = false;
    linked_pr = as_int (get_default (codes "linked_pr") d null);
    worktree_path = str_or_none py (get_default (codes "worktree_path") d null);
    live = as_bool (get_default (codes "live") d (bool false));
    attempt = int_or_one (as_int (get_default (codes "attempt") d (int (pos 1))));
  })

with_number : Text → Option ℤ → Fields → Fields
with_number name none fs = fs
with_number name (some n) fs = field name (int n) fs

-- A number that `int` refuses leaves just the repository.
unfoldable pub target_for : Text → Text → Fields
unfolding with_number
target_for repo key =
    let number = λ (prefix : Text). int_of (drop (length prefix) key) in
    field (codes "repo") (str repo) (
      if starts_with (codes "issue-") key
      then with_number (codes "issue") (number (codes "issue-")) end
      else if starts_with (codes "pr-") key
      then with_number (codes "pr") (number (codes "pr-")) end
      else end)
