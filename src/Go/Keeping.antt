-- ===== src/Go/Keeping.antt =====
-- What a function that calls the API leaves as it was, however it ends.
use argo_rollouts_manager.Go.Errors.{Result, Response, GoError, ok, answer, err, refusal, panic}
use argo_rollouts_manager.Go.Exec.{◌>>=◌, Exec, or_raise, wrapping, send, pure}
use argo_rollouts_manager.Base.{Bool, String, if◌then◌else◌, true, false}

module _ {S : Type 0} (P : S → Type 0) where
  -- The property still holds after the function.
  abbrev pub Keeps : {A : Type 0} → Exec S A → Type 0
  Keeps m = (s : S) → P s → P (m s).1

  after_result :
      {A B : Type 0} (f : A → Exec S B) (r : Result A) (s : S)
      → ((a : A) → Keeps (f a))
      → P s
      → P (◌>>=◌ {A = A} (λ t. (r, t)) f s).1
  after_result f (ok a) s h p = h a s p
  after_result f (err e) s h p = p
  after_result f panic s h p = p

  pub bind-Keeps :
      {A B : Type 0} (m : Exec S A) (f : A → Exec S B)
      → Keeps m
      → ((a : A) → Keeps (f a))
      → Keeps (m >>= f)
  bind-Keeps m f h k s p = after_result f (m s).0 (m s).1 k (h s p)

  pub if-Keeps :
      {A : Type 0} (b : Bool) (m n : Exec S A) → Keeps m → Keeps n → Keeps (if b then m else n)
  if-Keeps true m n h k = h
  if-Keeps false m n h k = k

  pub send-Keeps :
      {A : Type 0} (f : S → Response A × S) → ((s : S) → P s → P (f s).1) → Keeps (send f)
  send-Keeps f h s p = h s p

  pub or_raise-Keeps : {A : Type 0} (g : GoError → GoError) (r : Response A) → Keeps (or_raise g r)
  or_raise-Keeps g (answer a) s p = p
  or_raise-Keeps g (refusal e) s p = p

  pub wrapping-Keeps :
      {A : Type 0} (head : String) (m : Exec S A) → Keeps m → Keeps (wrapping head m)
  wrapping-Keeps head m h s p = wrapped head (m s).0 (m s).1 (h s p)
    where
      wrapped :
          {A : Type 0} (head : String) (r : Result A) (s : S)
          → P s
          → P (wrapping head (λ t. (r, t)) s).1
      wrapped head (ok a) s p = p
      wrapped head (err e) s p = p
      wrapped head panic s p = p

  -- A write whose error is returned and whose answer is dropped.
  pub done-Keeps :
      {A : Type 0} (f : S → Response A × S) (g : GoError → GoError)
      → ((s : S) → P s → P (f s).1)
      → Keeps (send f >>= λ r. or_raise g r >>= λ _. pure tt)
  done-Keeps f g h =
      bind-Keeps (send f) (λ r. or_raise g r >>= λ _. pure tt) h
        (λ r. bind-Keeps (or_raise g r) (λ _. pure tt) (or_raise-Keeps g r) (λ _ s p. p))
