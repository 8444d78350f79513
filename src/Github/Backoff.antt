-- ===== src/Github/Backoff.antt =====
-- How the retry loop of loony_dev/github/client.py ends, and how long it sleeps.
use loony_dev.Prelude.{
  zero, suc, refl, ap, ◌&&◌, ℤ, pos, negsuc, not, leb_ℤ, Bool-cases, inr, inl, arith, ℕ, ◌+◌, ◌*◌,
  ◌≤◌, ◌<◌, true, false, List, [], ◌∷◌, length, Text, ◌≡◌, ◌⊎◌,
}
use Prim.Native.Nat.{◌^◌}
use native.Mathlib.Nat.{mul_assoc, mul_comm, pow-suc}
use std.Path.{subst}
use native.Mathlib.Decide.{ℕ_discrete}
use loony_dev.Prelude.Values.{Python}
use loony_dev.Github.Retry.{
  stripped, run_gh, retries, CalledProcessError, is_retryable_gh_error, Reply, returned, failed,
  Ending, answer, called_process_error, unreachable,
}

pub total : List ℕ → ℕ
total [] = 0
total (x ∷ xs) = x + total xs

module _ (py : Python) (replies : ℕ → Reply) where
  -- A reply after which the loop goes on.
  pub data IsRetried : Reply → Type 0 where
    retried :
        (exc : CalledProcessError) → is_retryable_gh_error py exc ≡ true → IsRetried (failed exc)

  -- How the loop ends at an attempt.
  pub data EndsAt (max_retries attempt : ℕ) : Ending → Type 0 where
    by_answer :
        (stdout : Text)
        → replies attempt ≡ returned stdout
        → EndsAt max_retries attempt (answer stdout)
    by_error :
        (exc : CalledProcessError)
        → replies attempt ≡ failed exc
        → (attempt ≡ max_retries) ⊎ (is_retryable_gh_error py exc ≡ false)
        → EndsAt max_retries attempt (called_process_error exc)

  -- What the loop promises from an attempt on, with a back-off.
  pub record Ends (max_retries attempt backoff : ℕ) (result : Ending × List ℕ) : Type 0 where
    pub ends : EndsAt max_retries (attempt + length result.1) result.0
    pub bounded : attempt + length result.1 ≤ max_retries
    pub retries_before :
        (i : ℕ) → attempt ≤ i → i < attempt + length result.1 → IsRetried (replies i)
    pub slept : total result.1 + backoff ≡ backoff * 2 ^ length result.1

Reply-cases :
    (r : Reply)
    → ((stdout : Text) × (r ≡ returned stdout)) ⊎ ((exc : CalledProcessError) × (r ≡ failed exc))
Reply-cases (returned stdout) = inl (stdout, refl)
Reply-cases (failed exc) = inr (exc, refl)

doubled :
    (backoff slept n : ℕ)
    → slept + backoff * 2 ≡ backoff * 2 * 2 ^ n
    → backoff + slept + backoff ≡ backoff * 2 ^ suc n
doubled backoff slept n h = omega (
  arith,
  h,
  mul_assoc backoff 2 (2 ^ n),
  ap (λ x. backoff * x) (mul_comm 2 (2 ^ n)),
  ap (λ x. backoff * x) (pow-suc 2 n),
)

module _ (py : Python) (replies : ℕ → Reply) (max_retries : ℕ) where
  -- A loop that ends at its first attempt.
  Ends-here :
      (attempt backoff : ℕ) (e : Ending)
      → attempt ≤ max_retries
      → EndsAt py replies max_retries attempt e
      → Ends py replies max_retries attempt backoff (e, [])
  unfolding total
  Ends-here attempt backoff e le h = record {
    ends = subst (λ n. EndsAt py replies max_retries n e) (omega arith) h;
    bounded = omega arith;
    retries_before = λ i low high. absurd (omega arith);
    slept = omega arith;
  }

  -- One retry, and what comes after it.
  Ends-later :
      (attempt backoff : ℕ) (result : Ending × List ℕ)
      → IsRetried py replies (replies attempt)
      → Ends py replies max_retries (attempt + 1) (backoff * 2) result
      → Ends py replies max_retries attempt backoff (result.0, backoff ∷ result.1)
  unfolding total
  Ends-later attempt backoff result here h = record {
    ends = subst (λ n. EndsAt py replies max_retries n result.0) (omega arith) h.ends;
    bounded = omega (arith, h.bounded);
    retries_before = λ i low high. elim (ℕ_discrete attempt i) [
      | yes same ↦ subst (λ n. IsRetried py replies (replies n)) same here
      | no other ↦ h.retries_before i (omega arith) (omega arith)
    ];
    slept = doubled backoff (total result.1) (length result.1) h.slept;
  }

  retries-Ends :
      (left attempt backoff : ℕ)
      → attempt + left ≡ max_retries + 1
      → attempt ≤ max_retries
      → Ends py replies max_retries attempt backoff
          (retries py replies (pos max_retries) left attempt backoff)
  unfolding retries
  retries-Ends zero attempt backoff sum le = absurd (omega arith)
  retries-Ends (suc left) attempt backoff sum le = elim (Reply-cases (replies attempt)) [
    | inl (stdout, e) ↦
        rw (retries, e) (Ends-here attempt backoff (answer stdout) le (by_answer stdout e))
    | inr (exc, e) ↦
        elim (Bool-cases
          (not (leb_ℤ (pos max_retries) (pos attempt)) && is_retryable_gh_error py exc)) [
            | inl t ↦
                rw (retries, e, t)
                  (Ends-later attempt backoff
                    (retries py replies (pos max_retries) left (attempt + 1) (backoff * 2))
                    (rw e (retried exc (ground arith)))
                    (retries-Ends left (attempt + 1) (backoff * 2) (omega arith) (ground arith)))
            | inr t ↦
                rw (retries, e, t)
                  (Ends-here attempt backoff (called_process_error exc) le
                    (by_error exc e (ground arith)))
          ]
  ]

-- How run_gh ends for a setting of max_retries.
pub Finishes : Python → (ℕ → Reply) → ℤ → ℕ → Ending × List ℕ → Type 0
Finishes py replies (pos max_retries) initial_backoff result =
    (e : Ending) × (result.0 ≡ stripped e)
    × Ends py replies max_retries 0 initial_backoff (e, result.1)
Finishes py replies (negsuc n) initial_backoff result = result ≡ (unreachable, [])

-- With an initial_backoff and a max_retries that are not negative, run_gh never falls out of its
-- loop. It ends after at most max_retries retries, each of them after an error that is retryable:
-- with the output of the last run, stripped, or with the last run's error, which is not retryable
-- unless the retries are used up; and it has slept initial_backoff times 2 ^ n - 1 in all for its n
-- retries. With a negative max_retries it raises the error below the loop, without a sleep.
pub run_gh-Finishes :
    (py : Python) (max_retries : ℤ) (initial_backoff : ℕ) (replies : ℕ → Reply)
    → Finishes py replies max_retries initial_backoff
        (run_gh py max_retries initial_backoff replies)
unfolding run_gh Finishes
run_gh-Finishes py (pos max_retries) initial_backoff replies = (
  (retries py replies (pos max_retries) (max_retries + 1) 0 initial_backoff).0,
  refl,
  retries-Ends py replies max_retries (max_retries + 1) 0 initial_backoff (omega arith)
      (omega arith),
)
run_gh-Finishes py (negsuc n) initial_backoff replies = refl
