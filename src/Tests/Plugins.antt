-- ===== src/Tests/Plugins.antt =====
-- The plugins of the ConfigMap, the string maps and the policy rules at concrete inputs.
use argo_rollouts_manager.Controllers.ConfigMap.Settling.{
  update_config_map-settled, update_config_map-panics,
}
use argo_rollouts_manager.Go.Errors.{answer, ok, GoError, panic, refusal}
use argo_rollouts_manager.Kube.Objects.{Object, Kind}
use argo_rollouts_manager.Controllers.Rbac.Rules.{
  get_policy_rules, get_aggregate_to_view_policy_rules, get_aggregate_to_edit_policy_rules,
  get_aggregate_to_admin_policy_rules,
}
use argo_rollouts_manager.Tests.Samples.{
  sample_meta, sample_cluster, sample_plugins, sample_manager,
}
use argo_rollouts_manager.Controllers.Metadata.Convergence.{
  IsSettled, NoForeignAggregate, metadata_differs_iff, set-IsStandard,
}
use argo_rollouts_manager.Go.Maps.{lookup, or_else}
use argo_rollouts_manager.Controllers.Metadata.{
  set_labels_and_annotations_to_object, metadata_differs,
}
use argo_rollouts_manager.Controllers.ConfigMap.{
  PluginItem, Yaml, add_metric_plugins, add_traffic_plugins,
}
use argo_rollouts_manager.Controllers.ConfigMap.Plugins.{
  reserved, declared, lookup-add_metric_plugins, add_traffic_plugins-lookup,
}
use argo_rollouts_manager.Kube.Meta.{ObjectMeta}
use argo_rollouts_manager.Go.StringMaps.{StringMap}
use argo_rollouts_manager.Controllers.ConfigMap.Reconcile.{
  update_config_map, write_plugins, Desired, without_old_key,
}
use argo_rollouts_manager.Controllers.Rbac.Rules.Grants.{
  grants, among, reading, only_reading, aggregate_rules_nested,
}
use argo_rollouts_manager.Kube.Memory.{Cluster, memory}
use argo_rollouts_manager.Base.{
  ◌≡◌, ◌∷◌, some, [], true, none, if◌then◌else◌, refl, ◌↔◌, false, ◌==◌, ◌⊎◌, arith,
}

lookup-add_metric_plugins_example :
    lookup "b" (add_metric_plugins [] sample_plugins)
    ≡ or_else (lookup "b" []) (declared "b" sample_plugins)
lookup-add_metric_plugins_example = lookup-add_metric_plugins "b" [] sample_plugins

add_traffic_plugins-lookup_example :
    ((reserved sample_plugins ≡ true)
      × ((e : GoError) × (add_traffic_plugins [] sample_plugins ≡ refusal e)))
    ⊎ ((reserved sample_plugins ≡ false)
        × (add_traffic_plugins [] sample_plugins ≡ answer (add_metric_plugins [] sample_plugins)))
add_traffic_plugins-lookup_example = add_traffic_plugins-lookup [] sample_plugins

abbrev one : PluginItem
one = record { name = "p"; location = "q"; sha256 = "" }

-- A serialisation that knows the two lists that it needs.
abbrev yaml : Yaml
yaml = record {
  marshal = λ ps. answer (elim ps [ [] ↦ "none" | p ∷ _ ↦ "one" ]);
  unmarshal = λ text.
      if text == "one"
      then answer (some (one ∷ []))
      else if text == "none"
      then answer (some [])
      else answer none;
}

abbrev desired : Desired
desired = record { traffic = one ∷ []; metric = []; traffic_text = "one"; metric_text = "none" }

abbrev config_map : StringMap → Object Kind.config_map
config_map table = record { meta = sample_meta "argo" "argo-rollouts-config"; body = table }

abbrev stale : StringMap
stale = some (("metricPlugins", "old") ∷ [])

abbrev fresh : StringMap
fresh = some (("trafficRouterPlugins", "one") ∷ ("metricProviderPlugins", "none") ∷ [])

abbrev cluster : Cluster
cluster = sample_cluster "rollouts" true

wrote :
    write_plugins memory "one" "none" (without_old_key memory stale) cluster ≡ (ok fresh, cluster)
unfolding write_plugins argo_rollouts_manager.Go.Maps.insert argo_rollouts_manager.Go.Maps.retain
wrote = refl

update_config_map-settled_example :
    update_config_map memory yaml (sample_manager true) desired (config_map fresh) cluster
    ≡ (ok tt, cluster)
update_config_map-settled_example =
    update_config_map-settled memory yaml (sample_manager true) desired (config_map stale) fresh
      cluster cluster cluster refl refl wrote

update_config_map-panics_example :
    update_config_map memory yaml (sample_manager true) desired (config_map none) cluster
    ≡ (panic, cluster)
update_config_map-panics_example =
    update_config_map-panics memory yaml (sample_manager true) desired (config_map none) cluster
      refl refl

aggregate_rules_nested_example :
    (grants get_aggregate_to_view_policy_rules "argoproj.io" "rollouts" "get" ≡ true
      → grants get_aggregate_to_edit_policy_rules "argoproj.io" "rollouts" "get" ≡ true)
    × (grants get_aggregate_to_edit_policy_rules "argoproj.io" "rollouts" "get" ≡ true
        → grants get_aggregate_to_admin_policy_rules "argoproj.io" "rollouts" "get" ≡ true)
aggregate_rules_nested_example = aggregate_rules_nested "argoproj.io" "rollouts" "get"

only_reading_example :
    (grants get_policy_rules "" "secrets" "watch" ≡ true → among reading "watch" ≡ true)
    × (grants get_policy_rules "" "configmaps" "watch" ≡ true → among reading "watch" ≡ true)
    × (grants get_aggregate_to_view_policy_rules "" "rollouts" "watch" ≡ true
        → among reading "watch" ≡ true)
only_reading_example = only_reading "" "rollouts" "watch"

abbrev live : ObjectMeta
live = record (sample_meta "argo" "argo-rollouts") {
  labels = some (("user", "x") ∷ ("app.kubernetes.io/name", "y") ∷ []);
}

abbrev expected : ObjectMeta
expected =
    set_labels_and_annotations_to_object (sample_meta "argo" "argo-rollouts") (sample_manager true)

metadata_differs_iff_example :
    (metadata_differs (sample_manager true) live expected ≡ false)
    ↔ IsSettled (sample_manager true) live expected
metadata_differs_iff_example =
    metadata_differs_iff (sample_manager true) live expected (set-IsStandard _ _)

not_aggregate : NoForeignAggregate (sample_meta "argo" "argo-rollouts") expected
unfolding lookup
not_aggregate k aggregate has_it = ground arith
