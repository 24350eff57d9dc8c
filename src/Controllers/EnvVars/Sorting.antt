-- ===== src/Controllers/EnvVars/Sorting.antt =====
-- controllers/utils.go: `envMerge` returns its variables in the order of their names.
use argo_rollouts_manager.Go.Maps.{or_else}
use argo_rollouts_manager.Controllers.EnvVars.Merging.{
  first_named, last_named, first_named-env_merge,
}
use argo_rollouts_manager.Kube.Workload.{EnvVar}
use argo_rollouts_manager.Controllers.EnvVars.{insert_env, env_merge, sort_env, name_leb}
use argo_rollouts_manager.Base.{
  ◌≡◌, String, Bool, ℕ, false, true, ap, ◌∙◌, sym, arith, ◌&&◌, List, ◌∷◌, [], Bool-cases, inl,
  refl, inr,
}
use Prim.Native.Nat.{Ordering}
use Prim.Native.String.compare
use Prim.Native.String
use Prim.Native.String.{compare}
use Prim.Native.Char.{code}

abbrev is_leq : Ordering → Bool
is_leq o = elim o [ Ordering.gt ↦ false | _ ↦ true ]

numbers_total :
    (a b : ℕ) (o p : Ordering)
    → is_leq (String.then (Prim.Native.Nat.compare a b) o) ≡ false
    → (is_leq o ≡ false → is_leq p ≡ true)
    → is_leq (String.then (Prim.Native.Nat.compare b a) p) ≡ true
numbers_total a b o p h k = ground arith

-- Of two texts one is not greater than the other.
text_total : (s t : String) → is_leq (compare s t) ≡ false → is_leq (compare t s) ≡ true
text_total String.[] String.[] h = ap is_leq compare.nil-nil
text_total String.[] (String.◌∷◌ d t) h = cc (h, ap is_leq (compare.nil-cons d t))
text_total (String.◌∷◌ c s) String.[] h = ap is_leq (compare.nil-cons c s)
text_total (String.◌∷◌ c s) (String.◌∷◌ d t) h =
    ap is_leq (compare.cons-cons d c t s)
    ∙ numbers_total (code c) (code d) (compare s t) (compare t s)
        (sym (ap is_leq (compare.cons-cons c d s t)) ∙ h) (text_total s t)

-- No variable in front of the list is greater than its head.
abbrev pub leads : EnvVar → List EnvVar → Bool
leads e [] = true
leads e (x ∷ xs) = name_leb e x

-- Each name is not greater than the next one.
abbrev pub is_sorted : List EnvVar → Bool
is_sorted [] = true
is_sorted (x ∷ xs) = leads x xs && is_sorted xs

leads-insert_env :
    (x e : EnvVar) (xs : List EnvVar)
    → name_leb x e ≡ true
    → leads x xs ≡ true
    → leads x (insert_env e xs) ≡ true
unfolding insert_env
leads-insert_env x e [] h k = h
leads-insert_env x e (y ∷ ys) h k = elim (Bool-cases (name_leb e y)) [
  | inl a ↦ rw a h
  | inr a ↦ rw a k
]

both_true : (a b : Bool) → a ≡ true → b ≡ true → (a && b) ≡ true
both_true a b h k = ground arith

insert_env-sorted :
    (e : EnvVar) (xs : List EnvVar) → is_sorted xs ≡ true → is_sorted (insert_env e xs) ≡ true
unfolding insert_env
insert_env-sorted e [] h = refl
insert_env-sorted e (x ∷ xs) h = elim (Bool-cases (name_leb e x)) [
  | inl a ↦ rw a (both_true (name_leb e x) (is_sorted (x ∷ xs)) a h)
  | inr a ↦
      let (first, rest) = parts (leads x xs) (is_sorted xs) h in
      rw a (
        both_true (leads x (insert_env e xs)) (is_sorted (insert_env e xs))
          (leads-insert_env x e xs (text_total e.name x.name a) first)
          (insert_env-sorted e xs rest))
]
  where
    parts : (a b : Bool) → (a && b) ≡ true → (a ≡ true) × (b ≡ true)
    parts a b h = ground arith

sort_env-sorted : (final : List (String × EnvVar)) → is_sorted (sort_env final) ≡ true
unfolding sort_env
sort_env-sorted [] = refl
sort_env-sorted ((k, v) ∷ final) = insert_env-sorted v (sort_env final) (sort_env-sorted final)

-- The merged environment variables, where nothing is overridden, are in the order of their names,
-- and of each name there is the last of the existing variables, or else the first of those that are
-- merged in.
pub env_merge-sorted :
    (existing merge : List EnvVar)
    → (is_sorted (env_merge existing merge false) ≡ true)
      × ((n : String)
          → first_named n (env_merge existing merge false)
            ≡ or_else (last_named n existing) (first_named n merge))
unfolding env_merge
env_merge-sorted existing merge = (sort_env-sorted _, λ n. first_named-env_merge n existing merge)
