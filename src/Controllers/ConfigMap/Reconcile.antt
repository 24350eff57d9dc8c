-- ===== src/Controllers/ConfigMap/Reconcile.antt =====
-- controllers/configmap.go: `reconcileConfigMap` and `restartRolloutsPod`.
use argo_rollouts_manager.Controllers.Live.{fetch_object}
use argo_rollouts_manager.Controllers.Rbac.{named}
use argo_rollouts_manager.Controllers.Metadata.{set_labels_and_annotations_to_object}
use argo_rollouts_manager.Controllers.Defaults.{
  default_argo_rollouts_resource_name, previous_invalid_key, metric_plugin_config_map_key,
  traffic_router_plugin_config_map_key, default_rollouts_config_map_name,
  default_rollouts_selector_key,
}
use argo_rollouts_manager.Controllers.Secrets.{resource_labelled}
use argo_rollouts_manager.Kube.Meta.{ObjectMeta}
use argo_rollouts_manager.Go.Errors.{Response, refusal, wrap, new_error, answer, append, reword}
use argo_rollouts_manager.Go.Maps.{retain, insert}
use argo_rollouts_manager.Api.{RolloutManager}
use argo_rollouts_manager.Kube.Objects.{Object, Kind}
use argo_rollouts_manager.Kube.Workload.{Slice}
use argo_rollouts_manager.Go.StringMaps.{StringMap, get}
use argo_rollouts_manager.Controllers.ConfigMap.{
  Config, PluginItem, Yaml, add_traffic_plugins, open_shift_plugins, sorted_plugins,
  add_metric_plugins, slice_eq, data_at,
}
use argo_rollouts_manager.Kube.Client.{Client}
use argo_rollouts_manager.Base.{
  List, String, Bool, not, if◌then◌else◌, ◌∷◌, ◌==◌, [], ◌||◌, is_some,
}
use mathlib.Core.Option.{none, some}
use argo_rollouts_manager.Go.Exec.{◌>>=◌, ◌>>◌, Exec, pure, crash, ask, raise, send, or_raise}

-- The texts of the two lists of plugins, and the lists.
pub record Desired : Type 0 where
  pub traffic : List PluginItem
  pub metric : List PluginItem
  pub traffic_text : String
  pub metric_text : String

module _ (c : Client) where
  open c use {State, get as get_object, create, update, delete, list_pods}

  -- The loop over the pods: those that are not yet being deleted are deleted.
  unfoldable pub delete_pods : List (Object Kind.pod) → Exec State (Unit {0})
  delete_pods [] = pure tt
  delete_pods (pod ∷ pods) = elim pod.meta.deletion_timestamp [
    | some t ↦ delete_pods pods
    | none ↦ (do
      deleted ← send (delete Kind.pod pod.meta.namespace pod.meta.name)
      elim deleted [
        | answer u ↦ delete_pods pods
        | refusal e ↦
            if e.is_not_found
            then delete_pods pods
            else raise
                (wrap (append "failed to delete Rollouts Pod " (append pod.meta.name ": ")) e)
      ])
  ]

  -- A Deployment without a selector is a nil pointer that is read.
  unfoldable pub restart_pods_of :
      String → Response (Object Kind.deployment) → Exec State (Unit {0})
  restart_pods_of namespace (refusal e) =
      if e.is_not_found then pure tt else raise (wrap "failed to get deployment: " e)
  restart_pods_of namespace (answer deployment) = elim deployment.body.spec.selector [
    | none ↦ crash
    | some selector ↦ (do
      listed ← ask (list_pods namespace selector.match_labels)
      pods ← or_raise (wrap "failed to list Rollouts Pods: ") listed
      delete_pods pods)
  ]

  -- `restartRolloutsPod`
  unfoldable pub restart_rollouts_pod : String → Exec State (Unit {0})
  restart_rollouts_pod namespace = do
    found ← ask (get_object Kind.deployment namespace default_argo_rollouts_resource_name)
    restart_pods_of namespace found

  -- The two writes to the map of the live ConfigMap, which panic when it is nil.
  unfoldable pub write_plugins : String → String → StringMap → Exec State StringMap
  write_plugins traffic metric none = crash
  write_plugins traffic metric (some table) = pure (
      some (
        insert metric_plugin_config_map_key metric
          (insert traffic_router_plugin_config_map_key traffic table)))

  -- The live ConfigMap without the key that an earlier version wrote.
  abbrev pub without_old_key : StringMap → StringMap
  without_old_key none = none
  without_old_key (some table) = some (retain (λ k. not (k == previous_invalid_key)) table)

  unfoldable pub config_map_differs :
      Desired → Slice PluginItem → Slice PluginItem → StringMap → Bool
  config_map_differs d actual_traffic actual_metric table =
      not (slice_eq actual_traffic d.traffic)
      || not (slice_eq actual_metric d.metric)
      || is_some (get previous_invalid_key table)

  unfoldable pub update_config_map :
      Yaml → RolloutManager → Desired → Object Kind.config_map → Exec State (Unit {0})
  update_config_map yaml cr d live = do
    actual_traffic ←
        or_raise (reword "failed to unmarshal traffic router plugins: ")
          (yaml.unmarshal (data_at traffic_router_plugin_config_map_key live.body))
    actual_metric ←
        or_raise (reword "failed to unmarshal metric plugins: ")
          (yaml.unmarshal (data_at metric_plugin_config_map_key live.body))
    if config_map_differs d actual_traffic actual_metric live.body
        then (do
          table ← write_plugins d.traffic_text d.metric_text (without_old_key live.body)
          updated ← send (update Kind.config_map (record live { body = table }))
          or_raise (reword "failed to update ConfigMap: ") updated
          restart_rollouts_pod cr.meta.namespace)
        else pure tt

  -- The metadata of the ConfigMap that is created.
  unfoldable pub config_map_meta : Config → RolloutManager → ObjectMeta
  config_map_meta config cr = resource_labelled config.resource_labels (
      set_labels_and_annotations_to_object
        (record (named default_rollouts_config_map_name cr.meta.namespace) {
          labels = some ((default_rollouts_selector_key, default_rollouts_config_map_name) ∷ []);
        })
        cr)

  unfoldable pub create_or_update_config_map :
      Yaml
      → Config
      → RolloutManager
      → Desired
      → Response (Object Kind.config_map)
      → Exec State (Unit {0})
  create_or_update_config_map yaml config cr d (answer live) = update_config_map yaml cr d live
  create_or_update_config_map yaml config cr d (refusal e) =
      if e.is_not_found
      then (do
        created ← send (
            create Kind.config_map (record {
              meta = config_map_meta config cr;
              body = some (
                  (traffic_router_plugin_config_map_key, d.traffic_text)
                  ∷ (metric_plugin_config_map_key, d.metric_text)
                  ∷ []);
            }))
        or_raise (λ x. x) created
        pure tt)
      else raise (wrap "failed to get the ConfigMap associated with argo-rollouts-config: " e)

  -- `reconcileConfigMap`
  unfoldable pub reconcile_config_map : Yaml → Config → RolloutManager → Exec State (Unit {0})
  reconcile_config_map yaml config cr =
      if config.open_shift_route_plugin_location == ""
      then raise (new_error "OpenShift Route Plugin location is not set")
      else (do
        traffic_map ←
            or_raise (λ e. e)
              (add_traffic_plugins (open_shift_plugins config) cr.spec.plugins.traffic_management)
        let traffic = sorted_plugins traffic_map
        let metric = sorted_plugins (add_metric_plugins [] cr.spec.plugins.metric)
        traffic_text ←
            or_raise (reword "error marshalling trafficRouterPlugin to string ")
              (yaml.marshal traffic)
        metric_text ←
            or_raise (reword "error marshalling metricPlugins to string ") (yaml.marshal metric)
        found ←
            ask (fetch_object c Kind.config_map cr.meta.namespace default_rollouts_config_map_name)
        create_or_update_config_map yaml config cr
            (record {
              traffic = traffic;
              metric = metric;
              traffic_text = traffic_text;
              metric_text = metric_text;
            })
            found)
