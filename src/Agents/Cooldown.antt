-- ===== src/Agents/Cooldown.antt =====
-- How long a usage limit disables the agent.
use loony_dev.Prelude.{
  ℕ, ◌+◌, ◌-◌, ◌*◌, ◌≤◌, ◌<◌, ℤ, pos, ◌+ℤ◌, true, false, none, some, if◌then◌else◌, Text, strip,
  leb_ℤ, ◌≡◌, refl, ap, ◌∙◌, arith,
}
use loony_dev.Prelude.Values.{ticks_per_second}
use loony_dev.Agents.Quota.{
  Clock, canonical_zone, day, parse_time, next_at, reset_in, parse_reset_time, handle_quota_error,
  is_disabled,
}

-- The next time of day lies after now, and at most a day ahead.
next_at-Ahead :
    (c : Clock) (local h m : ℕ)
    → h < 24
    → m < 60
    → (local < next_at c local (h, m)) × (next_at c local (h, m) ≤ local + day)
unfolding next_at
next_at-Ahead c local h m hh mm = ground arith

-- What a message with a reset time says: the zone is known, the time is one of the day, and for a
-- day from now the zone does not change its offset.
pub record Announces (c : Clock) (output time tz : Text) (local h m : ℕ) : Type 0 where
  pub matched : c.search_reset output ≡ some (time, tz)
  pub zone_known : c.local_now (canonical_zone (strip tz)) ≡ some local
  pub time_parsed : parse_time c (strip time) ≡ some (h, m)
  pub hour_bound : h < 24
  pub minute_bound : m < 60
  pub steady : (d : ℕ) → d ≤ day → c.utc_of (canonical_zone (strip tz)) (local + d) ≡ c.now +ℤ pos d

module _ (c : Clock) where
  reset_in_lem :
      (time tz : Text) (local : ℕ) (at : ℕ × ℕ)
      → c.local_now (canonical_zone tz) ≡ some local
      → parse_time c time ≡ some at
      → reset_in c time tz ≡ some (c.utc_of (canonical_zone tz) (next_at c local at))
  unfolding reset_in
  reset_in_lem time tz local at zone parsed = rw (reset_in, zone, parsed) refl

  parse_reset_time_lem :
      (output time tz : Text) (reset_at : ℤ)
      → c.search_reset output ≡ some (time, tz)
      → reset_in c (strip time) (strip tz) ≡ some reset_at
      → parse_reset_time c output ≡ some reset_at
  unfolding parse_reset_time
  parse_reset_time_lem output time tz reset_at found reset = rw (parse_reset_time, found) reset

  handle_quota_error_lem :
      (fallback : ℤ) (output : Text) (reset_at : ℤ)
      → parse_reset_time c output ≡ some reset_at
      → handle_quota_error c fallback output ≡ reset_at +ℤ pos (30 * ticks_per_second)
  unfolding handle_quota_error
  handle_quota_error_lem fallback output reset_at e = rw (handle_quota_error, e) refl

-- After a message that announces a reset, in a known zone whose offset to UTC stays the same for the
-- day from now, the agent is disabled until thirty seconds past a time that is later than now and
-- at most a day ahead; it is disabled at every time before that, and
-- at the first question from then on it is enabled, and its cool-down is cleared.
pub handle_quota_error-Announces :
    (c : Clock) (fallback : ℤ) (output time tz : Text) (local h m : ℕ)
    → Announces c output time tz local h m
    → (d : ℕ) × (0 < d)
      × (d ≤ day)
      × (handle_quota_error c fallback output ≡ (c.now +ℤ pos d) +ℤ pos (30 * ticks_per_second))
      × ((t : ℤ)
          → is_disabled t (some (handle_quota_error c fallback output)) ≡ (
              if leb_ℤ (handle_quota_error c fallback output) t
              then (false, none)
              else (true, some (handle_quota_error c fallback output))))
unfolding is_disabled
handle_quota_error-Announces c fallback output time tz local h m a =
    let (above, below) = next_at-Ahead c local h m a.hour_bound a.minute_bound in
    let until = next_at c local (h, m) in
    let d = until - local in
    let reached : c.utc_of (canonical_zone (strip tz)) until ≡ c.now +ℤ pos d =
      ap (c.utc_of (canonical_zone (strip tz))) (omega arith) ∙ a.steady d (omega arith) in
    (
      d,
      omega arith,
      omega arith,
      handle_quota_error_lem c fallback output (c.utc_of (canonical_zone (strip tz)) until) (
            parse_reset_time_lem c output time tz _ a.matched
              (reset_in_lem c (strip time) (strip tz) local (h, m) a.zone_known a.time_parsed))
          ∙ ap (λ z. z +ℤ pos (30 * ticks_per_second)) reached,
      λ t. ground arith,
    )
