-- ===== src/ExecutionState/Tail.antt =====
-- What `tail_events` returns.
use mathlib.Core.List.{reverse, reverse-cons, append-nil, append_assoc}
use loony_dev.Prelude.{
  splitlines, ℕ, zero, suc, ◌-◌, ◌<◌, true, false, List, [], ◌∷◌, ◌++◌, Option, some, ◌==◌, Text,
  length, last_n, take, ◌≡◌, refl, sym, arith, length-append, reverse-take-reverse, Option-cases,
  inl, inr, Bool-cases,
}
use loony_dev.Prelude.Dictionary.{lookup}
use loony_dev.Prelude.Values.{Python}
use loony_dev.Slug.{task_slug}
use loony_dev.ExecutionState.Schema.{ExecutionEvent}
use loony_dev.ExecutionState.Store.{PipelinesDir, parse_event_line, gather, parsed, tail_events}

module _ (parse : Text → Option ExecutionEvent) where
  take_nil : (n : ℕ) → take {A = ExecutionEvent} n [] ≡ []
  take_nil zero = refl
  take_nil (suc n) = refl

  take_one_more :
      (n m : ℕ) (events : List ExecutionEvent) (a : ExecutionEvent) (rest : List ExecutionEvent)
      → n - length events ≡ suc m
      → events ++ take (n - length events) (a ∷ rest) ≡ (events ++ a ∷ []) ++ take m rest
  take_one_more n m events a rest e = rw (e, append_assoc)

  gather_found :
      (n : ℕ) (events : List ExecutionEvent) (a : ExecutionEvent) (lines : List Text)
      → length events < n
      → (length (events ++ a ∷ []) < n
          → gather parse n (events ++ a ∷ []) lines
            ≡ (events ++ a ∷ []) ++ take (n - length (events ++ a ∷ [])) (parsed parse lines))
      → (elim (length (events ++ a ∷ []) == n) as (λ _. List ExecutionEvent) [
        | true ↦ events ++ a ∷ []
        | false ↦ gather parse n (events ++ a ∷ []) lines
      ])
        ≡ events ++ take (n - length events) (a ∷ parsed parse lines)
  gather_found n events a lines h rec =
      let len = length-append events (a ∷ []) in
      rw
        (take_one_more n (n - length (events ++ a ∷ [])) events a (parsed parse lines)
          (omega (arith, len)))
        (elim (Bool-cases (length (events ++ a ∷ []) == n)) [
          | inl e ↦ rw e (ground (arith, len, append-nil (events ++ a ∷ [])))
          | inr e ↦ rw e (rec (ground (arith, len)))
        ])

  gather-parsed :
      (n : ℕ) (events : List ExecutionEvent) (lines : List Text)
      → length events < n
      → gather parse n events lines ≡ events ++ take (n - length events) (parsed parse lines)
  unfolding gather parsed
  gather-parsed n events [] h = ground (arith, take_nil (n - length events), append-nil events)
  gather-parsed n events (line ∷ lines) h = elim (Option-cases (parse line)) [
    | inl e ↦ rw (e, gather, parsed) (gather-parsed n events lines h)
    | inr (a, e) ↦
        rw (e, gather, parsed)
          (gather_found n events a lines h (gather-parsed n (events ++ a ∷ []) lines))
  ]

  pub parsed-append :
      (xs ys : List Text) → parsed parse (xs ++ ys) ≡ parsed parse xs ++ parsed parse ys
  unfolding parsed
  parsed-append [] ys = refl
  parsed-append (x ∷ xs) ys = ground (arith, parsed-append xs ys)

  parsed-reverse : (xs : List Text) → parsed parse (reverse xs) ≡ reverse (parsed parse xs)
  unfolding parsed
  parsed-reverse [] = refl
  parsed-reverse (x ∷ xs) =
      rw (reverse-cons x xs, parsed-append (reverse xs) (x ∷ []), parsed-reverse xs)
        (elim (Option-cases (parse x)) [
          | inl e ↦ rw (e, parsed) (append-nil (reverse (parsed parse xs)))
          | inr (a, e) ↦ rw (e, parsed) (sym (reverse-cons a (parsed parse xs)))
        ])

-- The tail of an event log that exists is exactly the last n of all the events that its lines
-- hold, in the order of the file: lines that hold no event never shorten it.
pub tail_events-last_n :
    (py : Python) (now : Text) (dir : PipelinesDir) (key : Text) (n : ℕ) (text : Text)
    → 0 < n
    → lookup (task_slug py key) dir.events ≡ some text
    → tail_events py now dir key n
      ≡ last_n n (parsed (parse_event_line py now) (splitlines false [] text))
unfolding tail_events
tail_events-last_n py now dir key zero text h e = absurd (omega arith)
tail_events-last_n py now dir key (suc n) text h e =
    let parse = parse_event_line py now in
    let lines = splitlines false [] text in
    let positive : (suc n == 0) ≡ false = ground arith in
    let all : suc n - 0 ≡ suc n = omega arith in
    rw (e, tail_events)
      (rw (gather-parsed parse (suc n) [] (reverse lines) h, parsed-reverse parse lines)
        (rw (positive, all) (reverse-take-reverse (suc n) (parsed parse lines))))
