-- ===== src/Agents/Quota.antt =====
-- loony_dev/agents/claude_quota.py: what counts as a usage-limit error, and how long the agent is
-- disabled then.
use loony_dev.Prelude.{
  ◌/◌, ℕ, ◌+◌, ◌*◌, ℤ, pos, ◌+ℤ◌, leb_ℤ, leb, Bool, true, false, not, ◌&&◌, ◌||◌, List, [], ◌∷◌,
  Option, none, some, if◌then◌else◌, Text, codes, text_eq, contains, any_of, strip, is_some,
}
use loony_dev.Prelude.Values.{ticks_per_second}

-- What the mixin takes of Python: the search with `_RESET_RE` (its two groups), `strptime` with a
-- format (hour and minute), `lower`, `upper`; the clock, in ticks of UTC, and as local ticks of a
-- zone that `ZoneInfo` knows; and `astimezone(utc)` of local ticks.
pub record Clock : Type 0 where
  pub search_reset : Text → Option (Text × Text)
  pub strptime : Text → Text → Option (ℕ × ℕ)
  pub lower : Text → Text
  pub upper : Text → Text
  pub now : ℤ
  pub local_now : Text → Option ℕ
  pub utc_of : Text → ℕ → ℤ

abbrev quota_patterns : List Text
quota_patterns =
    codes "usage limit reached"
    ∷ codes "hit your limit"
    ∷ codes "reached your usage limit"
    ∷ codes "approaching your usage limit"
    ∷ codes "claude usage limit"
    ∷ codes "usage limit will reset"
    ∷ []

abbrev session_not_found_patterns : List Text
session_not_found_patterns =
    codes "no session"
    ∷ codes "session not found"
    ∷ codes "could not find session"
    ∷ codes "invalid session"
    ∷ codes "does not exist"
    ∷ codes "no conversation found"
    ∷ []

-- `_TZ_ALIASES.get(tz_str, tz_str)`
unfoldable pub canonical_zone : Text → Text
canonical_zone tz =
    if text_eq tz (codes "Asia/Calcutta")
    then codes "Asia/Kolkata"
    else if text_eq tz (codes "Asia/Saigon")
    then codes "Asia/Ho_Chi_Minh"
    else if text_eq tz (codes "US/Eastern")
    then codes "America/New_York"
    else if text_eq tz (codes "US/Central")
    then codes "America/Chicago"
    else if text_eq tz (codes "US/Mountain")
    then codes "America/Denver"
    else if text_eq tz (codes "US/Pacific")
    then codes "America/Los_Angeles"
    else tz

abbrev pub minute : ℕ
minute = 60 * ticks_per_second

abbrev pub day : ℕ
day = 24 * 60 * minute

module _ (c : Clock) where
  unfoldable pub is_quota_error : Text → Bool
  unfolding contains
  is_quota_error output =
      any_of (λ p. contains p (c.lower output)) quota_patterns
      || (contains (codes "limit") (c.lower output) && is_some (c.search_reset output))

  unfoldable pub is_session_not_found : Text → Bool
  unfolding contains
  is_session_not_found output = any_of (λ p. contains p (c.lower output)) session_not_found_patterns

  -- The first of the formats that the time has.
  unfoldable pub first_format : Text → List Text → Option (ℕ × ℕ)
  first_format time [] = none
  first_format time (fmt ∷ fmts) = elim (c.strptime time fmt) [
    | some parsed ↦ some parsed
    | none ↦ first_format time fmts
  ]

  unfoldable pub parse_time : Text → Option (ℕ × ℕ)
  unfolding first_format
  parse_time time =
      first_format (c.upper time)
        (codes "%I%p" ∷ codes "%I:%M%p" ∷ codes "%I %p" ∷ codes "%I:%M %p" ∷ [])

  -- `now.replace(hour, minute)`, tomorrow if that is not after now.
  unfoldable pub next_at : ℕ → ℕ × ℕ → ℕ
  next_at local (h, m) =
      let midnight = (local / day) * day in
      let reset = midnight + (h * 60 + m) * minute in if leb reset local then reset + day else reset

  unfoldable pub reset_in : Text → Text → Option ℤ
  unfolding parse_time next_at canonical_zone
  reset_in time tz = elim (c.local_now (canonical_zone tz)) [
    | none ↦ none
    | some local ↦ elim (parse_time time) [
      | none ↦ none
      | some parsed ↦ some (c.utc_of (canonical_zone tz) (next_at local parsed))
    ]
  ]

  -- `_parse_reset_time`, in UTC
  unfoldable pub parse_reset_time : Text → Option ℤ
  unfolding reset_in strip
  parse_reset_time output = elim (c.search_reset output) [
    | none ↦ none
    | some groups ↦ reset_in (strip groups.0) (strip groups.1)
  ]

  -- `_handle_quota_error`: the new `_disabled_until`.
  unfoldable pub handle_quota_error : ℤ → Text → ℤ
  unfolding parse_reset_time
  handle_quota_error fallback output = elim (parse_reset_time output) [
    | some reset_at ↦ reset_at +ℤ pos (30 * ticks_per_second)
    | none ↦ c.now +ℤ fallback
  ]

-- `is_disabled`: the answer, and `_disabled_until` after it.
unfoldable pub is_disabled : ℤ → Option ℤ → Bool × Option ℤ
is_disabled now none = (false, none)
is_disabled now (some until) = if not (leb_ℤ until now) then (true, some until) else (false, none)

-- `can_handle`, with the subclass's test of the task.
unfoldable pub can_handle : ℤ → Option ℤ → Bool → Bool × Option ℤ
unfolding is_disabled
can_handle now disabled_until handles =
    let (disabled, until) = is_disabled now disabled_until in
    (if disabled then false else handles, until)
