-- ===== src/Github/Client.antt =====
-- The calls of `GitHubClient` that change GitHub, as actions that may raise. The service is a
-- parameter: it says which calls succeed after which history, and what a read returns.
use loony_dev.Prelude.{ℕ, Bool, true, false, List, [], ◌∷◌, ◌++◌, Text}

pub data Call : Type 0 where
  comment : (number : ℕ) (body : Text) → Call
  edit_comment : (id : ℕ) (body : Text) → Call
  add_label remove_label : (number : ℕ) (label : Text) → Call
  add_assignee : (number : ℕ) (user : Text) → Call
  add_reviewer : (number : ℕ) (reviewer : Text) → Call

pub data Exception : Type 0 where
  called_process_error comment_fetch_error lease_fenced_error value_error : Exception
  rate_limited_error : (summary : Text) → Exception
  runtime_error : (message : Text) → Exception

pub data Result {ℓ} (A : Type ℓ) : Type ℓ where
  ok : A → Result A
  raise : Exception → Result A

-- The calls made so far, each with its success.
abbrev pub History : Type 0
History = List (Call × Bool)

-- A computation on a state that may raise.
abbrev pub Stateful {ℓ κ} : Type ℓ → Type κ → Type (ℓ ⊔ κ)
Stateful S A = S → Result A × S

abbrev pub Action {ℓ} : Type ℓ → Type ℓ
Action A = Stateful History A

module _ {ℓ κ μ} {S : Type μ} {A : Type ℓ} {B : Type κ} where
  abbrev pub and_then : Result A → (A → Stateful S B) → Stateful S B
  and_then (ok a) f = f a
  and_then (raise e) f = λ h. (raise e, h)

  infixl 5 ◌>>=◌ ◌>>◌
  abbrev pub ◌>>=◌ : Stateful S A → (A → Stateful S B) → Stateful S B
  m >>= f = λ h. let (r, h') = m h in and_then r f h'

  abbrev pub ◌>>◌ : Stateful S A → Stateful S B → Stateful S B
  m >> k = m >>= λ _. k

module _ {ℓ μ} {S : Type μ} {A : Type ℓ} where
  abbrev pub pure : A → Stateful S A
  pure a h = (ok a, h)

  abbrev pub throw : Exception → Stateful S A
  throw e h = (raise e, h)

-- Which calls the service accepts.
abbrev pub Service : Type 0
Service = History → Call → Bool

-- `gh(...)` as a test: whether `subprocess.CalledProcessError` was not raised.
unfoldable pub try_call : Service → Call → Action Bool
try_call gh c h = let success = gh h c in (ok success, h ++ (c, success) ∷ [])

abbrev pub or_raise : Bool → Action (Unit {0})
or_raise true = pure tt
or_raise false = throw called_process_error

-- `gh(...)` whose error is passed on.
unfoldable pub call : Service → Call → Action (Unit {0})
unfolding try_call
call gh c = try_call gh c >>= or_raise
