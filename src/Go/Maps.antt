-- ===== src/Go/Maps.antt =====
-- Go's `map[string]V`, which may be nil. A map is an association list; only look-ups are
-- observable, and where an update runs over a map the last entry is written first, which is one
-- of the orders that Go's `range` may take.
use argo_rollouts_manager.Base.{
  String, ◌≡◌, refl, inl, inr, Bool, Option, none, some, List, [], ◌∷◌, arith, ◌==◌, eq_iff,
  eq_refl, if◌then◌else◌, text_cases, ==-eq_false,
}

module _ {ℓ} {V : Type ℓ} where
  unfoldable pub lookup : String → List (String × V) → Option V
  lookup key [] = none
  lookup key ((other, value) ∷ table) = if other == key then some value else lookup key table

  -- `m[k] = v`
  unfoldable pub insert : String → V → List (String × V) → List (String × V)
  insert key new [] = (key, new) ∷ []
  insert key new ((other, old) ∷ table) =
      let below = insert key new table in
      if other == key then (key, new) ∷ table else (other, old) ∷ below

  -- `for k, v := range add { m[k] = v }`
  unfoldable pub insert_all : List (String × V) → List (String × V) → List (String × V)
  insert_all [] m = m
  insert_all ((k, v) ∷ add) m = insert k v (insert_all add m)

  -- `for k := range m { if !keep(k) { delete(m, k) } }`
  unfoldable pub retain : (String → Bool) → List (String × V) → List (String × V)
  retain keep [] = []
  retain keep ((k, v) ∷ m) = if keep k then (k, v) ∷ retain keep m else retain keep m

  -- An insertion is seen under its own key only.
  pub lookup-insert :
      (key wanted : String) (new : V) (table : List (String × V))
      → lookup wanted (insert key new table)
        ≡ (if key == wanted then some new else lookup wanted table)
  unfolding insert lookup
  lookup-insert key wanted new [] = refl
  lookup-insert key wanted new ((other, old) ∷ table) = ground (
    arith,
    lookup-insert key wanted new table,
    eq_iff other key,
    eq_iff other wanted,
    eq_iff key wanted,
  )

  abbrev pub or_else : Option V → Option V → Option V
  or_else none o = o
  or_else (some v) o = some v

  pub lookup-insert_all :
      (j : String) (add m : List (String × V))
      → lookup j (insert_all add m) ≡ or_else (lookup j add) (lookup j m)
  unfolding lookup insert_all
  lookup-insert_all j [] m = refl
  lookup-insert_all j ((k, v) ∷ add) m =
      ground (arith, lookup-insert k j v (insert_all add m), lookup-insert_all j add m)

  pub lookup-retain :
      (keep : String → Bool) (j : String) (m : List (String × V))
      → lookup j (retain keep m) ≡ (if keep j then lookup j m else none)
  unfolding lookup retain
  lookup-retain keep j [] = ground arith
  lookup-retain keep j ((k, v) ∷ m) = elim (text_cases k j) [
    | inl e ↦ rw e (ground (arith, eq_refl j, lookup-retain keep j m))
    | inr n ↦ ground (arith, ==-eq_false k j n, lookup-retain keep j m)
  ]
