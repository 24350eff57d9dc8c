-- ===== src/Controllers/Metadata/Lookups.antt =====
-- What a reader of a map finds after each of the map functions of controllers/utils.go.
use argo_rollouts_manager.Base.{
  String, ◌≡◌, refl, sym, eq_refl, ◌∙◌, ◌↔◌, Bool, true, ◌||◌, Option, none, some, List, [], ◌∷◌,
  arith, if◌then◌else◌, is_some, Option-cases, inl, inr,
}
use argo_rollouts_manager.Go.Maps.{lookup, insert_all, or_else, lookup-insert_all, lookup-retain}
use argo_rollouts_manager.Go.StringMaps.{
  Entries, StringMap, entries, get, deep_equal, same_entries_iff,
}
use argo_rollouts_manager.Kube.Meta.{ObjectMeta}
use argo_rollouts_manager.Api.{RolloutManager}
use argo_rollouts_manager.Controllers.Metadata.{
  combine_string_maps, combine_loop, are_string_maps_equal, remove_user_labels_and_annotations,
  default_labels_and_annotations, is_aggregate_label, retain_keys,
  set_labels_and_annotations_to_object, set_additional_labels_and_annotations,
  set_rollouts_labels_and_annotations,
}

-- The value of the last map in the list that has the key.
abbrev pub last_value : String → List StringMap → Option String
last_value k [] = none
last_value k (m ∷ ms) = or_else (last_value k ms) (get k m)

or_else_assoc : (o p q : Option String) → or_else (or_else o p) q ≡ or_else o (or_else p q)
or_else_assoc none p q = refl
or_else_assoc (some v) p q = refl

lookup-combine_loop :
    (k : String) (res : Entries) (ms : List StringMap)
    → lookup k (combine_loop res ms) ≡ or_else (last_value k ms) (lookup k res)
unfolding combine_loop
lookup-combine_loop k res [] = refl
lookup-combine_loop k res (m ∷ ms) =
    lookup-combine_loop k (insert_all (entries m) res) ms
    ∙ rw (lookup-insert_all k (entries m) res) (rw or_else_assoc)

-- After combining, each key has the value of the last map that has the key.
pub get-combine_string_maps :
    (k : String) (ms : List StringMap) → get k (combine_string_maps ms) ≡ last_value k ms
unfolding combine_string_maps lookup
get-combine_string_maps k [] = refl
get-combine_string_maps k (m ∷ ms) = lookup-combine_loop k [] (m ∷ ms) ∙ go (last_value k (m ∷ ms))
  where
    go : (o : Option String) → or_else o none ≡ o
    go none = refl
    go (some v) = refl

lookup-head : (k v : String) (m : Entries) → lookup k ((k, v) ∷ m) ≡ some v
unfolding lookup
lookup-head k v m = rw (eq_refl k)

-- A map with an entry does not read like an empty one.
entry_found : {A : Type 0} (k v : String) (m : Entries) → lookup k ((k, v) ∷ m) ≡ none → A
entry_found k v m h = cc (lookup-head k v m)

-- Two maps are found equal exactly when they have the same look-ups; nil and empty do not differ.
pub are_string_maps_equal_iff :
    (one two : StringMap)
    → (are_string_maps_equal one two ≡ true) ↔ ((k : String) → get k one ≡ get k two)
unfolding are_string_maps_equal deep_equal lookup
are_string_maps_equal_iff none none = (λ _ k. refl, λ _. refl)
are_string_maps_equal_iff none (some []) = (λ _ k. refl, λ _. refl)
are_string_maps_equal_iff none (some ((j, v) ∷ m)) = (λ h. cc, λ h. entry_found j v m (sym (h j)))
are_string_maps_equal_iff (some []) none = (λ _ k. refl, λ _. refl)
are_string_maps_equal_iff (some []) (some []) = (λ _ k. refl, λ _. refl)
are_string_maps_equal_iff (some []) (some ((j, v) ∷ m)) = same_entries_iff [] ((j, v) ∷ m)
are_string_maps_equal_iff (some ((j, v) ∷ m)) none = (λ h. cc, λ h. entry_found j v m (h j))
are_string_maps_equal_iff (some ((j, v) ∷ m)) (some n) = same_entries_iff ((j, v) ∷ m) n

get-retain_keys :
    (keep : String → Bool) (k : String) (m : StringMap)
    → get k (retain_keys keep m) ≡ (if keep k then get k m else none)
unfolding lookup
get-retain_keys keep k none = ground arith
get-retain_keys keep k (some m) = lookup-retain keep k m

-- What is left of the labels and of the annotations of an object.
module _ (obj : ObjectMeta) (cr : RolloutManager) (k : String) where
  pub get-labels-remove : get k (remove_user_labels_and_annotations obj cr).labels ≡ (
      if is_aggregate_label k || is_some (get k (default_labels_and_annotations cr).labels)
      then get k obj.labels
      else none)
  unfolding remove_user_labels_and_annotations
  get-labels-remove = get-retain_keys _ k obj.labels

  pub get-annotations-remove : get k (remove_user_labels_and_annotations obj cr).annotations ≡ (
      if is_some (get k (default_labels_and_annotations cr).annotations)
      then get k obj.annotations
      else none)
  unfolding remove_user_labels_and_annotations
  get-annotations-remove = get-retain_keys _ k obj.annotations

-- The labels and annotations are all that is set.
pub set_labels_and_annotations_to_object-named :
    (m : ObjectMeta) (cr : RolloutManager)
    → ((set_labels_and_annotations_to_object m cr).name ≡ m.name)
      × ((set_labels_and_annotations_to_object m cr).namespace ≡ m.namespace)
unfolding set_labels_and_annotations_to_object set_additional_labels_and_annotations
    set_rollouts_labels_and_annotations
set_labels_and_annotations_to_object-named m cr = elim (Option-cases cr.spec.additional_metadata) [
  | inl e ↦ rw e (refl, refl)
  | inr (a, e) ↦ rw e (refl, refl)
]
