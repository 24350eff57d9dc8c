-- ===== src/Controllers/Metadata.antt =====
-- controllers/utils.go: string maps, and the labels and annotations of what the operator creates.
pub mod Lookups
pub mod Convergence
use text.Mathlib.Text.{find?}
use argo_rollouts_manager.Base.{
  String, Bool, true, false, not, ◌&&◌, ◌||◌, Option, none, some, List, [], ◌∷◌, if◌then◌else◌,
  is_some,
}
use argo_rollouts_manager.Go.Maps.{insert, insert_all, retain}
use argo_rollouts_manager.Go.StringMaps.{Entries, StringMap, entries, get, deep_equal}
use argo_rollouts_manager.Kube.Meta.{ObjectMeta}
use argo_rollouts_manager.Api.{RolloutManager}
use argo_rollouts_manager.Controllers.Defaults.{
  default_argo_rollouts_resource_name, default_rollouts_selector_key, part_of_key, component_key,
}

-- `setRolloutsLabelsAndAnnotations`
unfoldable pub set_rollouts_labels_and_annotations : ObjectMeta → ObjectMeta
set_rollouts_labels_and_annotations obj = record obj {
  labels = some (
      insert component_key default_argo_rollouts_resource_name (
        insert part_of_key default_argo_rollouts_resource_name
          (insert default_rollouts_selector_key default_argo_rollouts_resource_name [])));
  annotations = some [];
}

-- `setAdditionalRolloutsLabelsAndAnnotationsToObject`
unfoldable pub set_additional_labels_and_annotations : ObjectMeta → RolloutManager → ObjectMeta
set_additional_labels_and_annotations obj cr = elim cr.spec.additional_metadata [
  | none ↦ obj
  | some extra ↦ record obj {
    labels = some (insert_all (entries extra.labels) (entries obj.labels));
    annotations = some (insert_all (entries extra.annotations) (entries obj.annotations));
  }
]

-- `setRolloutsLabelsAndAnnotationsToObject`
unfoldable pub set_labels_and_annotations_to_object : ObjectMeta → RolloutManager → ObjectMeta
set_labels_and_annotations_to_object obj cr =
    set_additional_labels_and_annotations (set_rollouts_labels_and_annotations obj) cr

-- `setCustomLabels`
unfoldable pub set_custom_labels : ObjectMeta → StringMap → ObjectMeta
set_custom_labels obj custom = record obj {
  labels = some (insert_all (entries custom) (entries obj.labels));
}

-- `appendStringMap`
unfoldable pub append_string_map : StringMap → StringMap → StringMap
append_string_map src add = some (insert_all (entries add) (entries src))

abbrev is_empty : Entries → Bool
is_empty [] = true
is_empty (_ ∷ _) = false

-- `areStringMapsEqual`
unfoldable pub are_string_maps_equal : StringMap → StringMap → Bool
are_string_maps_equal one two =
    if is_empty (entries one) && is_empty (entries two) then true else deep_equal one two

combine_loop : Entries → List StringMap → Entries
combine_loop res [] = res
combine_loop res (m ∷ ms) = combine_loop (insert_all (entries m) res) ms

-- `combineStringMaps`; with no argument the variadic slice is nil.
unfoldable pub combine_string_maps : List StringMap → StringMap
unfolding combine_loop
combine_string_maps [] = none
combine_string_maps (m ∷ ms) = some (combine_loop [] (m ∷ ms))

-- `strings.Contains`
abbrev pub contains_text : String → String → Bool
contains_text s t = is_some (find? s t)

-- The label of the aggregated cluster roles, which `removeUserLabelsAndAnnotations` passes over.
unfoldable pub is_aggregate_label : String → Bool
is_aggregate_label k = contains_text k "rbac.authorization.k8s.io/" && contains_text k "aggregate"

abbrev empty_meta : ObjectMeta
empty_meta = record {
  name = "";
  namespace = "";
  labels = none;
  annotations = none;
  controller = none;
  deletion_timestamp = none;
}

-- `defaultLabelsAndAnnotations`
unfoldable pub default_labels_and_annotations : RolloutManager → ObjectMeta
default_labels_and_annotations cr = set_labels_and_annotations_to_object empty_meta cr

abbrev pub retain_keys : (String → Bool) → StringMap → StringMap
retain_keys keep none = none
retain_keys keep (some m) = some (retain keep m)

-- `removeUserLabelsAndAnnotations`
unfoldable pub remove_user_labels_and_annotations : ObjectMeta → RolloutManager → ObjectMeta
remove_user_labels_and_annotations obj cr =
    let default = default_labels_and_annotations cr in
    record obj {
      labels = retain_keys (λ k. is_aggregate_label k || is_some (get k default.labels)) obj.labels;
      annotations = retain_keys (λ k. is_some (get k default.annotations)) obj.annotations;
    }

-- The test by which every `reconcile` function decides that the labels or annotations of a live
-- object are out of date.
unfoldable pub metadata_differs : RolloutManager → ObjectMeta → ObjectMeta → Bool
metadata_differs cr live expected =
    let normalized = remove_user_labels_and_annotations live cr in
    not (are_string_maps_equal normalized.labels expected.labels)
    || not (are_string_maps_equal normalized.annotations expected.annotations)

-- What the `reconcile` functions then write over the live object.
unfoldable pub merge_metadata : ObjectMeta → ObjectMeta → ObjectMeta
merge_metadata live expected = record live {
  labels = combine_string_maps (live.labels ∷ expected.labels ∷ []);
  annotations = combine_string_maps (live.annotations ∷ expected.annotations ∷ []);
}
