-- ===== src/Github/Retry.antt =====
-- loony_dev/github/client.py: the retries of `run_gh` and of `gh_api_patch`. The setting
-- max_retries is any integer; a back-off is a number of clock ticks that is not negative.
use loony_dev.Prelude.{
  ℕ, zero, suc, ◌+◌, ◌*◌, Bool, true, false, ◌&&◌, List, [], ◌∷◌, ◌++◌, Option, none, some,
  if◌then◌else◌, ℤ, pos, negsuc, not, leb_ℤ, Text, codes, contains, any_of, strip, is_nonempty,
}
use loony_dev.Prelude.Values.{Json, arr, nil, obj, end, Python}

abbrev gh_rate_limit_patterns : List Text
gh_rate_limit_patterns =
    codes "rate limit"
    ∷ codes "abuse detection"
    ∷ codes "secondary rate"
    ∷ codes "403"
    ∷ codes "429"
    ∷ []

abbrev gh_transient_patterns : List Text
gh_transient_patterns =
    codes "http 500"
    ∷ codes "http 502"
    ∷ codes "http 503"
    ∷ codes "http 504"
    ∷ codes "internal server error"
    ∷ codes "bad gateway"
    ∷ codes "service unavailable"
    ∷ codes "gateway timeout"
    ∷ codes "timeout"
    ∷ codes "timed out"
    ∷ codes "i/o timeout"
    ∷ codes "tls handshake"
    ∷ codes "connection reset"
    ∷ codes "connection refused"
    ∷ codes "could not resolve host"
    ∷ codes "no such host"
    ∷ codes "unexpected eof"
    ∷ []

-- `subprocess.CalledProcessError` with what the process wrote.
pub record CalledProcessError : Type 0 where
  pub stdout : Option Text
  pub stderr : Option Text

-- `value or ""`
abbrev or_empty : Option Text → Text
or_empty none = []
or_empty (some t) = t

unfoldable pub is_retryable_gh_error : Python → CalledProcessError → Bool
unfolding contains
is_retryable_gh_error py exc =
    any_of (λ p. contains p (py.lower (or_empty exc.stdout ++ or_empty exc.stderr)))
      (gh_rate_limit_patterns ++ gh_transient_patterns)

-- How one run of the command ends.
pub data Reply : Type 0 where
  returned : (stdout : Text) → Reply
  failed : CalledProcessError → Reply

-- How the loop ends, and the sleeps before that; `unreachable` is the error below the loop.
pub data Ending : Type 0 where
  answer : (stdout : Text) → Ending
  called_process_error : CalledProcessError → Ending
  unreachable : Ending

-- The length of `range(max_retries + 1)`
unfoldable pub rounds : ℤ → ℕ
rounds (pos n) = n + 1
rounds (negsuc n) = 0

module _ (py : Python) (replies : ℕ → Reply) (max_retries : ℤ) where
  -- `for attempt in range(max_retries + 1)`, with `left` rounds to go.
  unfoldable pub retries : ℕ → ℕ → ℕ → Ending × List ℕ
  unfolding is_retryable_gh_error
  retries zero attempt backoff = (unreachable, [])
  retries (suc left) attempt backoff = elim (replies attempt) [
    | returned stdout ↦ (answer stdout, [])
    | failed exc ↦ elim (not (leb_ℤ max_retries (pos attempt)) && is_retryable_gh_error py exc) [
      | true ↦
          let (ending, sleeps) = retries left (attempt + 1) (backoff * 2) in
          (ending, backoff ∷ sleeps)
      | false ↦ (called_process_error exc, [])
    ]
  ]

unfoldable pub stripped : Ending → Ending
stripped (answer stdout) = answer (strip stdout)
stripped (called_process_error exc) = called_process_error exc
stripped unreachable = unreachable

unfoldable pub run_gh : Python → ℤ → ℕ → (ℕ → Reply) → Ending × List ℕ
unfolding retries rounds stripped
run_gh py max_retries initial_backoff replies =
    let (ending, sleeps) = retries py replies max_retries (rounds max_retries) 0 initial_backoff in
    (stripped ending, sleeps)

-- `json.loads(result.stdout) if result.stdout.strip() else {}`; `none` is an error.
unfoldable pub patched : Python → Ending → Option Json
unfolding strip
patched py (answer stdout) = if is_nonempty (strip stdout) then py.loads stdout else some (obj end)
patched py (called_process_error exc) = none
patched py unreachable = none

unfoldable pub gh_api_patch : Python → ℤ → ℕ → (ℕ → Reply) → Option Json × List ℕ
unfolding retries rounds patched
gh_api_patch py max_retries initial_backoff replies =
    let (ending, sleeps) = retries py replies max_retries (rounds max_retries) 0 initial_backoff in
    (patched py ending, sleeps)

-- `gh_api` and `gh_json`: an empty output is `[]`, and `none` is `ValueError`.
unfoldable pub parse_output : Python → Text → Option Json
parse_output py [] = some (arr nil)
parse_output py (c ∷ s) = py.loads (c ∷ s)
