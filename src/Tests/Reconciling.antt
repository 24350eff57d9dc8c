-- ===== src/Tests/Reconciling.antt =====
-- The reconciliation of the sample RolloutManager.
use argo_rollouts_manager.Controllers.Reconcile.Reporting.{reconcile_rollouts_manager-error}
use argo_rollouts_manager.Kube.Meta.{condition_false}
use argo_rollouts_manager.Controllers.Conditions.{reconciled, reason_error_occurred}
use argo_rollouts_manager.Kube.Objects.{Object, Kind}
use argo_rollouts_manager.Controllers.Deployment.Generating.{generate-IsDesired}
use argo_rollouts_manager.Controllers.Deployment.Settling.{deployment_differs-unannotated}
use argo_rollouts_manager.Tests.Deployments.{sample_environment, generated, generated_run}
use argo_rollouts_manager.Controllers.Reconcile.{Outcome, reconcile_rollouts_manager, failed}
use argo_rollouts_manager.Controllers.Deployment.Reconcile.{
  deployment_differs, reconcile_rollouts_deployment,
}
use argo_rollouts_manager.Controllers.Reconcile.Refusal.{
  is_let_through, IsFalse, reconcile_rollouts_manager_refused,
}
use argo_rollouts_manager.Kube.Memory.{Cluster, memory, as_stored}
use argo_rollouts_manager.Controllers.ConfigMap.{Config, Yaml}
use argo_rollouts_manager.Go.Errors.{ok, Result, answer, GoError, new_error}
use argo_rollouts_manager.Base.{◌≡◌, [], refl, true, ◌∷◌, false, is_some}
use argo_rollouts_manager.Tests.Samples.{sample_manager, sample_account, sample_deployment}
use argo_rollouts_manager.Tests.Access.{after}
use mathlib.Core.Option.{none, some}

-- A cluster on which there is nothing yet.
abbrev pub empty_cluster : Cluster
empty_cluster = record { objects = λ k. []; managers = sample_manager true ∷ [] }

-- A serialisation of lists of plugins to one text.
abbrev pub sample_yaml : Yaml
sample_yaml = record { marshal = λ ps. answer "plugins"; unmarshal = λ text. answer none }

abbrev pub sample_config : Config
sample_config = record {
  open_shift_route_plugin_location = "plugin.so";
  resource_labels = none;
  namespace_scoped_argo_rollouts_controller = true;
}

abbrev deploy : Cluster → Result (Unit {0}) × Cluster
deploy =
    reconcile_rollouts_deployment memory (sample_manager true) sample_environment sample_account

abbrev pub stored_deployment : Object Kind.deployment
stored_deployment = as_stored Kind.deployment (record (generated true) {
  meta = record ((generated true).meta) { controller = some "rollouts" };
})

pub stored_annotated : is_some stored_deployment.meta.annotations ≡ true
unfolding argo_rollouts_manager.Controllers.Deployment.generate_desired_rollouts_deployment
    argo_rollouts_manager.Controllers.Deployment.rollouts_container
    argo_rollouts_manager.Controllers.Container.get_rollouts_command_args
    argo_rollouts_manager.Controllers.Container.is_mergable
    argo_rollouts_manager.Controllers.Scope.contains argo_rollouts_manager.Api.ha_enabled
    argo_rollouts_manager.Controllers.Container.get_rollouts_container_image
    argo_rollouts_manager.Controllers.Container.get_image_pull_policy
    argo_rollouts_manager.Controllers.Metadata.set_labels_and_annotations_to_object
    argo_rollouts_manager.Controllers.Metadata.set_additional_labels_and_annotations
    argo_rollouts_manager.Controllers.Metadata.set_rollouts_labels_and_annotations
stored_annotated = refl

deployment_differs-unannotated_example :
    deployment_differs (sample_manager true) sample_deployment (generated true) ≡ true
deployment_differs-unannotated_example =
    deployment_differs-unannotated (sample_manager true) (generated true) sample_deployment
      (generate-IsDesired sample_environment (sample_manager true) sample_account (generated true)
        generated_run)
      refl

-- A cluster-scoped RolloutManager that a namespace-scoped operator refuses.
refused_scope :
    is_let_through memory sample_environment sample_yaml sample_config
      (sample_manager false)
      empty_cluster
    ≡ false
unfolding is_let_through argo_rollouts_manager.Controllers.Scope.validate_rollouts_scope
refused_scope = refl

reconcile_rollouts_manager_refused_example :
    (outcome : Outcome) × (reconcile_rollouts_manager memory sample_environment sample_yaml
        sample_config
        (sample_manager false)
        empty_cluster
      ≡ (ok outcome, empty_cluster))
    × IsFalse outcome
reconcile_rollouts_manager_refused_example =
    reconcile_rollouts_manager_refused memory sample_environment sample_yaml sample_config
      (sample_manager false) empty_cluster refused_scope

-- Without the location of its plugin the operator stops at the ConfigMap.
abbrev broken_config : Config
broken_config = record sample_config { open_shift_route_plugin_location = "" }

abbrev broken : Cluster → Result Outcome × Cluster
broken =
    reconcile_rollouts_manager memory sample_environment sample_yaml broken_config
      (sample_manager true)

abbrev broken_error : GoError
broken_error = new_error "OpenShift Route Plugin location is not set"

broken_run : broken empty_cluster ≡ (ok (failed broken_error), after broken empty_cluster)
unfolding argo_rollouts_manager.Controllers.Metadata.set_rollouts_labels_and_annotations
    argo_rollouts_manager.Controllers.Metadata.set_additional_labels_and_annotations
    argo_rollouts_manager.Controllers.Metadata.set_labels_and_annotations_to_object
    argo_rollouts_manager.Controllers.Metadata.set_custom_labels
    argo_rollouts_manager.Controllers.Metadata.append_string_map
    argo_rollouts_manager.Controllers.Metadata.are_string_maps_equal
    argo_rollouts_manager.Controllers.Metadata.combine_string_maps
    argo_rollouts_manager.Controllers.Metadata.is_aggregate_label
    argo_rollouts_manager.Controllers.Metadata.default_labels_and_annotations
    argo_rollouts_manager.Controllers.Metadata.remove_user_labels_and_annotations
    argo_rollouts_manager.Controllers.Metadata.metadata_differs
    argo_rollouts_manager.Controllers.Metadata.merge_metadata
    argo_rollouts_manager.Controllers.Live.fetch_object
    argo_rollouts_manager.Controllers.Live.repaired
    argo_rollouts_manager.Controllers.Live.update_needed
    argo_rollouts_manager.Controllers.Live.create_expected
    argo_rollouts_manager.Controllers.Live.update_live
    argo_rollouts_manager.Controllers.Live.create_or_update
    argo_rollouts_manager.Controllers.Live.ensure
    argo_rollouts_manager.Controllers.Rbac.set_aggregated_cluster_role_labels
    argo_rollouts_manager.Controllers.Rbac.rules_differ
    argo_rollouts_manager.Controllers.Rbac.subjects_differ
    argo_rollouts_manager.Controllers.Rbac.service_account_target
    argo_rollouts_manager.Controllers.Rbac.role_target
    argo_rollouts_manager.Controllers.Rbac.cluster_role_target
    argo_rollouts_manager.Controllers.Rbac.role_binding_target
    argo_rollouts_manager.Controllers.Rbac.cluster_role_binding_target
    argo_rollouts_manager.Controllers.Rbac.aggregate_target
    argo_rollouts_manager.Controllers.Rbac.delete_answered
    argo_rollouts_manager.Controllers.Rbac.delete_existing
    argo_rollouts_manager.Controllers.Rbac.reconcile_rollouts_service_account
    argo_rollouts_manager.Controllers.Rbac.reconcile_rollouts_role
    argo_rollouts_manager.Controllers.Rbac.reconcile_rollouts_cluster_role
    argo_rollouts_manager.Controllers.Rbac.reconcile_rollouts_role_binding
    argo_rollouts_manager.Controllers.Rbac.reconcile_rollouts_cluster_role_binding
    argo_rollouts_manager.Controllers.Rbac.reconcile_aggregate_to_admin_cluster_role
    argo_rollouts_manager.Controllers.Rbac.reconcile_aggregate_to_edit_cluster_role
    argo_rollouts_manager.Controllers.Rbac.reconcile_aggregate_to_view_cluster_role
    argo_rollouts_manager.Controllers.Rbac.Rules.get_policy_rules
    argo_rollouts_manager.Controllers.Rbac.Rules.get_aggregate_to_admin_policy_rules
    argo_rollouts_manager.Controllers.Rbac.Rules.get_aggregate_to_edit_policy_rules
    argo_rollouts_manager.Controllers.Rbac.Rules.get_aggregate_to_view_policy_rules
    argo_rollouts_manager.Controllers.Secrets.secret_target
    argo_rollouts_manager.Controllers.Secrets.reconcile_live_secret
    argo_rollouts_manager.Controllers.Secrets.reconcile_rollouts_secrets
    argo_rollouts_manager.Controllers.ConfigMap.add_plugin
    argo_rollouts_manager.Controllers.ConfigMap.add_traffic_plugins
    argo_rollouts_manager.Controllers.ConfigMap.add_metric_plugins
    argo_rollouts_manager.Controllers.ConfigMap.insert_sorted
    argo_rollouts_manager.Controllers.ConfigMap.sort_strings
    argo_rollouts_manager.Controllers.ConfigMap.items_at
    argo_rollouts_manager.Controllers.ConfigMap.sorted_plugins
    argo_rollouts_manager.Controllers.ConfigMap.Reconcile.delete_pods
    argo_rollouts_manager.Controllers.ConfigMap.Reconcile.restart_pods_of
    argo_rollouts_manager.Controllers.ConfigMap.Reconcile.restart_rollouts_pod
    argo_rollouts_manager.Controllers.ConfigMap.Reconcile.write_plugins
    argo_rollouts_manager.Controllers.ConfigMap.Reconcile.config_map_differs
    argo_rollouts_manager.Controllers.ConfigMap.Reconcile.update_config_map
    argo_rollouts_manager.Controllers.ConfigMap.Reconcile.config_map_meta
    argo_rollouts_manager.Controllers.ConfigMap.Reconcile.create_or_update_config_map
    argo_rollouts_manager.Controllers.ConfigMap.Reconcile.reconcile_config_map
    argo_rollouts_manager.Controllers.Deployment.container_with
    argo_rollouts_manager.Controllers.Deployment.rollouts_container
    argo_rollouts_manager.Controllers.Deployment.pod_labels
    argo_rollouts_manager.Controllers.Deployment.pod_annotations
    argo_rollouts_manager.Controllers.Deployment.replica_count
    argo_rollouts_manager.Controllers.Deployment.ha_affinity
    argo_rollouts_manager.Controllers.Deployment.node_selector_of
    argo_rollouts_manager.Controllers.Deployment.deployment_spec
    argo_rollouts_manager.Controllers.Deployment.generate_desired_rollouts_deployment
    argo_rollouts_manager.Controllers.Deployment.Reconcile.deployment_differs
    argo_rollouts_manager.Controllers.Deployment.Reconcile.selector_differs
    argo_rollouts_manager.Controllers.Deployment.Reconcile.copy_spec
    argo_rollouts_manager.Controllers.Deployment.Reconcile.updated_deployment
    argo_rollouts_manager.Controllers.Deployment.Reconcile.create_new_rollouts_deployment
    argo_rollouts_manager.Controllers.Deployment.Reconcile.recreate_deployment
    argo_rollouts_manager.Controllers.Deployment.Reconcile.update_deployment
    argo_rollouts_manager.Controllers.Deployment.Reconcile.create_or_update_deployment
    argo_rollouts_manager.Controllers.Deployment.Reconcile.reconcile_rollouts_deployment
    argo_rollouts_manager.Controllers.Metrics.metrics_service_target
    argo_rollouts_manager.Controllers.Metrics.service_monitor_matches
    argo_rollouts_manager.Controllers.Metrics.reconcile_service
    argo_rollouts_manager.Controllers.Metrics.reconcile_rollouts_metrics_service
    argo_rollouts_manager.Controllers.Metrics.create_service_monitor_if_absent
    argo_rollouts_manager.Controllers.Metrics.reconcile_service_monitor
    argo_rollouts_manager.Controllers.Metrics.monitor_if_defined
    argo_rollouts_manager.Controllers.Metrics.reconcile_rollouts_metrics_service_and_monitor
    argo_rollouts_manager.Controllers.NetworkPolicy.network_policy_differs
    argo_rollouts_manager.Controllers.NetworkPolicy.fix_network_policy
    argo_rollouts_manager.Controllers.NetworkPolicy.network_policy_target
    argo_rollouts_manager.Controllers.NetworkPolicy.delete_network_policy
    argo_rollouts_manager.Controllers.NetworkPolicy.delete_rollouts_network_policies
    argo_rollouts_manager.Controllers.NetworkPolicy.reconcile_rollouts_network_policy
    argo_rollouts_manager.Controllers.Status.status_of
    argo_rollouts_manager.Controllers.Status.determine_status_phase
    argo_rollouts_manager.Controllers.Scope.split_list
    argo_rollouts_manager.Controllers.Scope.contains
    argo_rollouts_manager.Controllers.Scope.allowed_cluster_scoped_namespace
    argo_rollouts_manager.Controllers.Scope.validate_rollouts_scope
    argo_rollouts_manager.Controllers.Scope.same_manager
    argo_rollouts_manager.Controllers.Scope.check_items
    argo_rollouts_manager.Controllers.Scope.check_listed
    argo_rollouts_manager.Controllers.Scope.check_for_existing_rollout_manager
    argo_rollouts_manager.Controllers.Scope.multiple_rollout_managers_exist
    argo_rollouts_manager.Controllers.Scope.invalid_rollout_scope
    argo_rollouts_manager.Controllers.Scope.invalid_rollout_namespace
    argo_rollouts_manager.Controllers.Conditions.create_condition
    argo_rollouts_manager.Controllers.Conditions.wrap_condition
    argo_rollouts_manager.Controllers.Conditions.content_differs
    argo_rollouts_manager.Controllers.Conditions.insert_or_update
    argo_rollouts_manager.Controllers.Conditions.apply_status
    argo_rollouts_manager.Controllers.Conditions.update_status_condition
    argo_rollouts_manager.Controllers.Container.is_mergable
    argo_rollouts_manager.Controllers.Container.get_rollouts_command_args
    argo_rollouts_manager.Controllers.Container.get_image_pull_policy
    argo_rollouts_manager.Controllers.Container.combine_image_tag
    argo_rollouts_manager.Controllers.Container.extract_base_image_name
    argo_rollouts_manager.Controllers.Container.get_rollouts_container_image
    argo_rollouts_manager.Controllers.Reconcile.reconcile_access
    argo_rollouts_manager.Controllers.Reconcile.reconcile_services
    argo_rollouts_manager.Controllers.Reconcile.reconcile_resources
    argo_rollouts_manager.Controllers.Reconcile.after_scope
    argo_rollouts_manager.Controllers.Reconcile.after_existing
    argo_rollouts_manager.Controllers.Reconcile.reconcile_rollouts_manager
    argo_rollouts_manager.Go.Maps.lookup argo_rollouts_manager.Go.Maps.insert
    argo_rollouts_manager.Go.Maps.insert_all argo_rollouts_manager.Go.Maps.retain
    argo_rollouts_manager.Kube.Memory.find_object argo_rollouts_manager.Kube.Memory.without
    argo_rollouts_manager.Kube.Memory.change argo_rollouts_manager.Kube.Memory.find_manager
    argo_rollouts_manager.Api.is_enabled argo_rollouts_manager.Api.ha_enabled
    argo_rollouts_manager.Tests.Samples.sample_objects
    argo_rollouts_manager.Go.StringMaps.deep_equal argo_rollouts_manager.Go.StringMaps.same_entries
broken_run = refl

reconcile_rollouts_manager-error_example :
    ((failed broken_error).0.condition
      ≡ reconciled condition_false reason_error_occurred broken_error.message)
    × ((failed broken_error).0.phase ≡ none)
    × ((failed broken_error).0.rollout_controller ≡ none)
reconcile_rollouts_manager-error_example =
    reconcile_rollouts_manager-error memory sample_environment sample_yaml broken_config
      (sample_manager true) empty_cluster _ _ broken_error refl broken_run
