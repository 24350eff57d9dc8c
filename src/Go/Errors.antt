-- ===== src/Go/Errors.antt =====
-- Go's `error` values, and a call that may return one or panic.
use Prim.Native.String
use argo_rollouts_manager.Base.{String, Bool, false, ◌≡◌, arith}

-- The text of `err.Error()`, and the answer of `errors.IsNotFound(err)`.
pub record GoError : Type 0 where
  pub message : String
  pub is_not_found : Bool

abbrev pub append : String → String → String
append s t = String.◌++◌ s t

-- `errors.New(msg)`, and `fmt.Errorf(msg)` with no error in it.
abbrev pub new_error : String → GoError
new_error msg = record { message = msg; is_not_found = false }

-- `fmt.Errorf(head + "%w", err)`: the wrapped error is still found by `errors.IsNotFound`.
abbrev pub wrap : String → GoError → GoError
wrap head e = record { message = append head e.message; is_not_found = e.is_not_found }

-- `fmt.Errorf(head + "%s", err)`: only the text is kept.
abbrev pub reword : String → GoError → GoError
reword head e = new_error (append head e.message)

-- What a call of the API client answers.
pub data Response {ℓ} (A : Type ℓ) : Type ℓ where
  answer : A → Response A
  refusal : GoError → Response A

-- What a function of the operator returns: a value, an error, or a panic.
pub data Result {ℓ} (A : Type ℓ) : Type ℓ where
  ok : A → Result A
  err : GoError → Result A
  panic : Result A

pub ok_inj {ℓ} : {A : Type ℓ} {a b : A} → ok a ≡ ok b → a ≡ b
ok_inj h = ground arith
