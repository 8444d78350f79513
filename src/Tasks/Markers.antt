-- ===== src/Tasks/Markers.antt =====
-- The marker comments of loony_dev/tasks/base.py and planning_task.py.
use loony_dev.Prelude.{
  ap, ℕ, ◌+◌, Bool, true, false, not, ◌&&◌, [], ◌∷◌, ◌++◌, Option, none, some, ◌==◌, Text, codes,
  starts_with, find, drop, length, strip, is_space, ◌≡◌, refl, All,
}

abbrev pub success_marker_prefix : Text
success_marker_prefix = codes "<!-- loony-success"

abbrev pub success_marker : Text
success_marker = codes "<!-- loony-success -->"

abbrev pub failure_marker : Text
failure_marker = codes "<!-- loony-failure -->"

abbrev pub plan_marker_prefix : Text
plan_marker_prefix = codes "<!-- loony-plan"

abbrev pub plan_marker : Text
plan_marker = codes "<!-- loony-plan -->"

unfoldable pub encode_marker : Text → Text → Text
encode_marker prefix last_seen = prefix ++ (codes " last-seen=" ++ (last_seen ++ codes " -->"))

-- A character of `[^\s>]`.
unfoldable pub is_token : ℕ → Bool
unfolding is_space
is_token c = not (is_space c) && not (c == b'>')

unfoldable pub token : Text → Text
unfolding is_token
token [] = []
token (c ∷ s) = elim (is_token c) [ true ↦ c ∷ token s | false ↦ [] ]

abbrev pub or_later : Text → Option Text → Option Text
or_later [] later = later
or_later (c ∷ s) later = some (c ∷ s)

-- `re.search("last-seen=([^\\s>]+)", body).group(1)`
unfoldable pub decode_last_seen : Text → Option Text
decode_last_seen [] = none
decode_last_seen (c ∷ s) =
    let later = decode_last_seen s in
    elim (starts_with (codes "last-seen=") (c ∷ s)) [
      | true ↦ or_later (token (drop 10 (c ∷ s))) later
      | false ↦ later
    ]

-- The text of a plan comment behind its marker.
unfoldable pub plan_text : Text → Text
plan_text body = elim (find (codes "-->") body) [
  | some end ↦ strip (drop (end + 3) body)
  | none ↦ strip (drop (length plan_marker) body)
]

token-append :
    (ts rest : Text) → All (λ c. is_token c ≡ true) ts → token ((ts ++ codes " -->") ++ rest) ≡ ts
unfolding token is_space
token-append [] rest h = refl
token-append (c ∷ ts) rest h = rw (h.0, token) (ap (λ t. c ∷ t) (token-append ts rest h.1))

-- A time that is not empty, and has no white space and no `>`, is read back from the marker that
-- encodes it, whatever stands behind the marker.
pub decode_last_seen-encode_marker :
    (ts rest : Text) (c : ℕ)
    → All (λ c. is_token c ≡ true) (c ∷ ts)
    → (decode_last_seen (encode_marker success_marker_prefix (c ∷ ts) ++ rest) ≡ some (c ∷ ts))
      × (decode_last_seen (encode_marker (codes "<!-- loony-failure") (c ∷ ts) ++ rest)
          ≡ some (c ∷ ts))
      × (decode_last_seen (encode_marker plan_marker_prefix (c ∷ ts) ++ rest) ≡ some (c ∷ ts))
unfolding decode_last_seen encode_marker starts_with
decode_last_seen-encode_marker ts rest c h =
    let read = token-append (c ∷ ts) rest h in (rw read, rw read, rw read)
