-- ===== src/Controllers/EnvVars/Merging.antt =====
-- controllers/utils.go: what `envMerge` keeps, and the order of its result.
use argo_rollouts_manager.Go.Maps.{or_else, lookup, insert, lookup-insert}
use argo_rollouts_manager.Kube.Workload.{EnvVar}
use argo_rollouts_manager.Controllers.ConfigMap.{text_leb}
use argo_rollouts_manager.Controllers.EnvVars.{
  insert_env, merge_all, by_name, merge_one, sort_env, env_merge, name_leb,
}
use argo_rollouts_manager.Base.{
  ◌≡◌, ◌∷◌, String, Option, List, if◌then◌else◌, true, ◌==◌, refl, false, [], text_cases, ◌∙◌,
  arith, inl, inr, eq_iff, Bool, ap, All, Bool-cases, eq_refl, ==-eq_false, is_some,
}
use text.Mathlib.TextPositions.{compare_refl}
use Prim.Native.Nat.{Ordering}
use mathlib.Core.Option.{none, some}

-- The variable of a name that is found first.
abbrev pub first_named : String → List EnvVar → Option EnvVar
first_named n [] = none
first_named n (e ∷ es) = if e.name == n then some e else first_named n es

-- The variable of a name that is found last.
abbrev pub last_named : String → List EnvVar → Option EnvVar
last_named n [] = none
last_named n (e ∷ es) = or_else (last_named n es) (if e.name == n then some e else none)

or_else_assoc : (o p q : Option EnvVar) → or_else (or_else o p) q ≡ or_else o (or_else p q)
or_else_assoc none p q = refl
or_else_assoc (some v) p q = refl

lookup-by_name :
    (n : String) (existing : List EnvVar) (final : List (String × EnvVar))
    → lookup n (by_name existing final) ≡ or_else (last_named n existing) (lookup n final)
unfolding by_name
lookup-by_name n [] final = refl
lookup-by_name n (e ∷ existing) final =
    lookup-by_name n existing (insert e.name e final)
    ∙ ground (arith, lookup-insert e.name n e final)

lookup-merge_one :
    (n : String) (m : EnvVar) (final : List (String × EnvVar))
    → lookup n (merge_one false m final)
      ≡ or_else (lookup n final) (if m.name == n then some m else none)
unfolding merge_one
lookup-merge_one n m final = elim (text_cases m.name n) [
  | inl same ↦ rw same (ground (arith, eq_refl n, lookup-insert n n m final))
  | inr differ ↦ ground (arith, ==-eq_false m.name n differ, lookup-insert m.name n m final)
]

one_or :
    (b : Bool) (m : EnvVar) (o : Option EnvVar)
    → or_else (if b then some m else none) o ≡ (if b then some m else o)
one_or true m o = refl
one_or false m o = refl

lookup-merge_all :
    (n : String) (merge : List EnvVar) (final : List (String × EnvVar))
    → lookup n (merge_all false merge final) ≡ or_else (lookup n final) (first_named n merge)
unfolding merge_all merge_one
lookup-merge_all n [] final = ground arith
lookup-merge_all n (m ∷ merge) final =
    lookup-merge_all n merge (merge_one false m final)
    ∙ ap (λ o. or_else o (first_named n merge)) (lookup-merge_one n m final)
    ∙ or_else_assoc (lookup n final) (if m.name == n then some m else none) (first_named n merge)
    ∙ ap (or_else (lookup n final)) (one_or (m.name == n) m (first_named n merge))

text_leb_refl : (s : String) → text_leb s s ≡ true
text_leb_refl s = ap (λ o. elim o [ Ordering.gt ↦ false | _ ↦ true ]) (compare_refl s)

first_named-insert_env :
    (n : String) (e : EnvVar) (es : List EnvVar)
    → first_named n (insert_env e es) ≡ (if e.name == n then some e else first_named n es)
unfolding insert_env
first_named-insert_env n e [] = refl
first_named-insert_env n e (x ∷ xs) = elim (Bool-cases (name_leb e x)) [
  | inl front ↦ rw front refl
  | inr behind ↦ elim (text_cases e.name n) [
    | inl here ↦ elim (text_cases x.name n) [
      | inl both ↦ cc (text_leb_refl n, here, both, behind)
      | inr other ↦ rw behind (
          ground (
            arith,
            first_named-insert_env n e xs,
            ==-eq_false x.name n other,
            (eq_iff e.name n).1 here,
          ))
    ]
    | inr other ↦
        rw behind (ground (arith, first_named-insert_env n e xs, ==-eq_false e.name n other))
  ]
]

-- Every variable in the map stands under its own name.
abbrev IsNamed : List (String × EnvVar) → Type 0
IsNamed = All (λ (p : String × EnvVar). p.1.name ≡ p.0)

first_named-sort_env :
    (n : String) (final : List (String × EnvVar))
    → IsNamed final
    → first_named n (sort_env final) ≡ lookup n final
unfolding sort_env lookup
first_named-sort_env n [] h = refl
first_named-sort_env n ((k, v) ∷ final) (h, rest) =
    first_named-insert_env n v (sort_env final)
    ∙ ground (arith, first_named-sort_env n final rest, h)

insert-IsNamed :
    (e : EnvVar) (final : List (String × EnvVar)) → IsNamed final → IsNamed (insert e.name e final)
unfolding insert
insert-IsNamed e [] h = (refl, tt)
insert-IsNamed e ((k, v) ∷ final) (h, rest) = elim (Bool-cases (k == e.name)) [
  | inl same ↦ rw same (refl, rest)
  | inr differ ↦ rw differ (h, insert-IsNamed e final rest)
]

by_name-IsNamed :
    (existing : List EnvVar) (final : List (String × EnvVar))
    → IsNamed final
    → IsNamed (by_name existing final)
unfolding by_name
by_name-IsNamed [] final h = h
by_name-IsNamed (e ∷ existing) final h =
    by_name-IsNamed existing (insert e.name e final) (insert-IsNamed e final h)

merge_all-IsNamed :
    (merge : List EnvVar) (final : List (String × EnvVar))
    → IsNamed final
    → IsNamed (merge_all false merge final)
unfolding merge_all merge_one
merge_all-IsNamed [] final h = h
merge_all-IsNamed (m ∷ merge) final h = elim (Bool-cases (is_some (lookup m.name final))) [
  | inl known ↦ rw known (merge_all-IsNamed merge final h)
  | inr new ↦ rw new (merge_all-IsNamed merge (insert m.name m final) (insert-IsNamed m final h))
]

-- Of each name the merged list has the last of the existing variables, and otherwise the first of those
-- that are merged in.
pub first_named-env_merge :
    (n : String) (existing merge : List EnvVar)
    → first_named n (env_merge existing merge false)
      ≡ or_else (last_named n existing) (first_named n merge)
unfolding env_merge lookup
first_named-env_merge n existing merge =
    first_named-sort_env n _ (merge_all-IsNamed merge _ (by_name-IsNamed existing [] tt))
    ∙ lookup-merge_all n merge (by_name existing [])
    ∙ ap (λ o. or_else o (first_named n merge))
        (lookup-by_name n existing [] ∙ nothing (last_named n existing))
  where
    nothing : (o : Option EnvVar) → or_else o (lookup n []) ≡ o
    nothing none = refl
    nothing (some v) = refl
