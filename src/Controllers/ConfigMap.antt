-- ===== src/Controllers/ConfigMap.antt =====
-- controllers/configmap.go: the ConfigMap with the plugins.
pub mod Plugins
pub mod Settling
pub mod Reconcile
use argo_rollouts_manager.Kube.Workload.{Slice}
use argo_rollouts_manager.Go.Maps.{lookup, insert}
use argo_rollouts_manager.Go.StringMaps.{StringMap, get}
use argo_rollouts_manager.Controllers.Defaults.{open_shift_rollout_plugin_name}
use argo_rollouts_manager.Go.Errors.{Response, answer, refusal, new_error, append}
use argo_rollouts_manager.Base.{
  String, List, map, Bool, ◌∷◌, if◌then◌else◌, [], is_some, true, ◌==◌, ◌&&◌, false,
}
use argo_rollouts_manager.Api.{Plugin}
use Prim.Native.Nat.{Ordering}
use Prim.Native.String.{compare}
use mathlib.Core.Option.{none, some}
use argo_rollouts_manager.Go.Exec.{◌>>=◌, ◌>>◌}

-- `pluginItem`
pub record PluginItem : Type 0 where
  pub name : String
  pub location : String
  pub sha256 : String

-- `yaml.Marshal` and `yaml.Unmarshal` on lists of plugins.
pub record Yaml : Type 0 where
  pub marshal : List PluginItem → Response String
  pub unmarshal : String → Response (Slice PluginItem)

-- The fields of `RolloutManagerReconciler` that the reconciliation reads.
pub record Config : Type 0 where
  pub open_shift_route_plugin_location : String
  pub resource_labels : StringMap
  pub namespace_scoped_argo_rollouts_controller : Bool

abbrev pub item_of : Plugin → PluginItem
item_of p = record { name = p.name; location = p.location; sha256 = p.sha256 }

-- `if _, exists := m[plugin.Name]; !exists { m[plugin.Name] = … }`
unfoldable pub add_plugin : Plugin → List (String × PluginItem) → List (String × PluginItem)
add_plugin p m = if is_some (lookup p.name m) then m else insert p.name (item_of p) m

-- The loop over the traffic management plugins, which stops at the plugin that only the operator
-- may set.
unfoldable pub add_traffic_plugins :
    List (String × PluginItem) → List Plugin → Response (List (String × PluginItem))
add_traffic_plugins m [] = answer m
add_traffic_plugins m (p ∷ ps) =
    let rest = add_traffic_plugins (add_plugin p m) ps in
    if p.name == open_shift_rollout_plugin_name
    then refusal (
        new_error (
          append "the plugin " (
            append open_shift_rollout_plugin_name
              " cannot be modified or added through the RolloutManager CR")))
    else rest

-- The loop over the metric plugins.
unfoldable pub add_metric_plugins :
    List (String × PluginItem) → List Plugin → List (String × PluginItem)
add_metric_plugins m [] = m
add_metric_plugins m (p ∷ ps) = add_metric_plugins (add_plugin p m) ps

-- The order of `sort.Strings`.
abbrev pub text_leb : String → String → Bool
text_leb s t = elim (compare s t) [ Ordering.gt ↦ false | _ ↦ true ]

unfoldable pub insert_sorted : String → List String → List String
insert_sorted k [] = k ∷ []
insert_sorted k (j ∷ js) =
    let rest = insert_sorted k js in if text_leb k j then k ∷ j ∷ js else j ∷ rest

-- `sort.Strings`
unfoldable pub sort_strings : List String → List String
sort_strings [] = []
sort_strings (k ∷ ks) = insert_sorted k (sort_strings ks)

-- `m[key]` for each key.
unfoldable pub items_at : List (String × PluginItem) → List String → List PluginItem
items_at m [] = []
items_at m (k ∷ ks) = elim (lookup k m) [
  | none ↦ record { name = ""; location = ""; sha256 = "" } ∷ items_at m ks
  | some item ↦ item ∷ items_at m ks
]

-- The values of a map in the order of its keys.
unfoldable pub sorted_plugins : List (String × PluginItem) → List PluginItem
sorted_plugins m = items_at m (sort_strings (map (λ e. e.0) m))

abbrev pub open_shift_plugins : Config → List (String × PluginItem)
open_shift_plugins config =
    (
      open_shift_rollout_plugin_name,
      record {
        name = open_shift_rollout_plugin_name;
        location = config.open_shift_route_plugin_location;
        sha256 = "";
      },
    )
    ∷ []

abbrev pub plugins_eq : List PluginItem → List PluginItem → Bool
plugins_eq [] [] = true
plugins_eq (a ∷ xs) (b ∷ ys) =
    (a.name == b.name) && (a.location == b.location) && (a.sha256 == b.sha256) && plugins_eq xs ys
plugins_eq _ _ = false

-- `reflect.DeepEqual(actual, desired)`, where `desired` is not nil.
abbrev pub slice_eq : Slice PluginItem → List PluginItem → Bool
slice_eq none ps = false
slice_eq (some qs) ps = plugins_eq qs ps

-- `Data[key]`, the empty text when the key is missing.
abbrev pub data_at : String → StringMap → String
data_at key table = elim (get key table) [ none ↦ "" | some v ↦ v ]
