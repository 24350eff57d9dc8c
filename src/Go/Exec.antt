-- ===== src/Go/Exec.antt =====
-- A function that calls the API: the state of the cluster goes through it, and what was written
-- before an error or a panic stays written.
use argo_rollouts_manager.Base.{◌≡◌, arith, refl, ap, String}
use argo_rollouts_manager.Go.Errors.{
  GoError, Response, answer, refusal, Result, ok, err, panic, wrap,
}

abbrev pub Exec {ℓ} : Type ℓ → Type ℓ → Type ℓ
Exec S A = S → Result A × S

module _ {ℓ} {S A : Type ℓ} where
  abbrev pub pure : A → Exec S A
  pure a s = (ok a, s)

  abbrev pub raise : GoError → Exec S A
  raise e s = (err e, s)

  abbrev pub crash : Exec S A
  crash s = (panic, s)

  -- `if err != nil { return fmt.Errorf(head + "%w", err) }` after a call of the operator's own.
  abbrev pub wrapping : String → Exec S A → Exec S A
  wrapping head m s =
      let (r, s') = m s in
      elim r [ ok a ↦ (ok a, s') | err e ↦ (err (wrap head e), s') | panic ↦ (panic, s') ]

  -- A call that only reads; its error is handed to the caller as a value.
  abbrev pub ask : (S → Response A) → Exec S (Response A)
  ask f s = (ok (f s), s)

  -- A call that writes, its error handed to the caller as a value.
  abbrev pub send : (S → Response A × S) → Exec S (Response A)
  send f s = let (r, s') = f s in (ok r, s')

  -- `if err != nil { return f(err) }`
  abbrev pub or_raise : (GoError → GoError) → Response A → Exec S A
  or_raise f (answer a) = pure a
  or_raise f (refusal e) = raise (f e)

module _ {ℓ} {S A B : Type ℓ} where
  infixl 5 ◌>>=◌ ◌>>◌
  abbrev pub ◌>>=◌ : Exec S A → (A → Exec S B) → Exec S B
  ◌>>=◌ m f s =
      let (r, s') = m s in elim r [ ok a ↦ f a s' | err e ↦ raise e s' | panic ↦ crash s' ]

  abbrev pub ◌>>◌ : Exec S A → Exec S B → Exec S B
  m >> k = m >>= λ _. k

-- A function that returned a value has returned from each of its parts.
module _ {S A B : Type 0} where
  abbrev Returned : Exec S A → (A → Exec S B) → S → B → S → Type 0
  Returned m f s b s' =
      (a : A) × (s1 : S) × ◌≡◌ {A = Result A × S} (m s) (ok a, s1)
      × ◌≡◌ {A = Result B × S} (f a s1) (ok b, s')

  Returned-of :
      (m : Exec S A) (f : A → Exec S B) (s : S) (b : B) (s' : S) (r : Result A) (s1 : S)
      → ◌≡◌ {A = Result A × S} (m s) (r, s1)
      → ◌≡◌ {A = Result B × S}
          (elim r [ ok a ↦ f a s1 | err e ↦ raise e s1 | panic ↦ crash s1 ])
          (ok b, s')
      → Returned m f s b s'
  Returned-of m f s b s' (ok a) s1 e h = (a, s1, e, h)
  Returned-of m f s b s' (err x) s1 e h = ground arith
  Returned-of m f s b s' panic s1 e h = ground arith

  pub bind_inv :
      (m : Exec S A) (f : A → Exec S B) (s : S) (b : B) (s' : S)
      → ◌≡◌ {A = Result B × S} ((m >>= f) s) (ok b, s')
      → Returned m f s b s'
  bind_inv m f s b s' h = Returned-of m f s b s' (m s).0 (m s).1 refl h

-- A write whose error is returned has succeeded when the function has.
module _ {S A : Type 0} where
  reply_inv :
      (g : GoError → GoError) (r : Response A) (s s' : S) (a : A)
      → ◌≡◌ {A = Result A × S} (or_raise g r s) (ok a, s')
      → ◌≡◌ {A = Response A × S} (r, s) (answer a, s')
  reply_inv g (answer b) s s' a h = ground arith
  reply_inv g (refusal e) s s' a h = ground arith

  pub send_inv :
      (g : GoError → GoError) (f : S → Response A × S) (s s' : S) (a : A)
      → ◌≡◌ {A = Result A × S} ((send f >>= or_raise g) s) (ok a, s')
      → f s ≡ (answer a, s')
  send_inv g f s s' a h = reply_inv g (f s).0 (f s).1 s' a h

  done_inv :
      (g : GoError → GoError) (r : Response A) (s s' : S)
      → ◌≡◌ {A = Result (Unit {0}) × S} ((or_raise g r >>= λ _. pure tt) s) (ok tt, s')
      → (a : A) × ◌≡◌ {A = Response A × S} (r, s) (answer a, s')
  done_inv g (answer b) s s' h = (b, ground arith)
  done_inv g (refusal e) s s' h = ground arith

  -- The same for a write whose answer is dropped.
  pub send_done_inv :
      (g : GoError → GoError) (f : S → Response A × S) (s s' : S)
      → ◌≡◌ {A = Result (Unit {0}) × S}
          ((send f >>= λ r. or_raise g r >>= λ _. pure tt) s)
          (ok tt, s')
      → (a : A) × (f s ≡ (answer a, s'))
  send_done_inv g f s s' h = done_inv g (f s).0 (f s).1 s' h

  pub or_raise_inv :
      (g : GoError → GoError) (r : Response A) (s s' : S) (a : A)
      → ◌≡◌ {A = Result A × S} (or_raise g r s) (ok a, s')
      → (r ≡ answer a) × (s ≡ s')
  or_raise_inv g (answer b) s s' a h = ground arith
  or_raise_inv g (refusal e) s s' a h = ground arith

module _ {S A B : Type 0} where
  abbrev proceed : (A → Exec S B) → Result A × S → Result B × S
  proceed f p = elim p.0 [ ok a ↦ f a p.1 | err e ↦ raise e p.1 | panic ↦ crash p.1 ]

  -- What follows a part that has returned.
  pub bind_returned :
      (m : Exec S A) (f : A → Exec S B) (s s1 : S) (a : A)
      → ◌≡◌ {A = Result A × S} (m s) (ok a, s1)
      → (m >>= f) s ≡ f a s1
  bind_returned m f s s1 a h = ap (proceed f) h

  -- What follows a part that has failed is not run.
  pub bind_failed :
      (m : Exec S A) (f : A → Exec S B) (s s1 : S) (e : GoError)
      → ◌≡◌ {A = Result A × S} (m s) (err e, s1)
      → ◌≡◌ {A = Result B × S} ((m >>= f) s) (err e, s1)
  bind_failed m f s s1 e h = ap (proceed f) h
