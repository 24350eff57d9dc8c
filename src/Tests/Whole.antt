-- ===== src/Tests/Whole.antt =====
-- The whole reconciliation of the sample RolloutManager on an empty cluster.
use argo_rollouts_manager.Controllers.Reconcile.Steps.{AllDone}
use argo_rollouts_manager.Controllers.Rbac.{reconcile_rollouts_service_account}
use argo_rollouts_manager.Controllers.Deployment.Reconcile.{
  deployment_differs, reconcile_rollouts_deployment,
}
use argo_rollouts_manager.Controllers.Deployment.{generate_desired_rollouts_deployment}
use argo_rollouts_manager.Controllers.Reconcile.Refusal.{
  is_let_through, reconcile_rollouts_manager_complete,
}
use argo_rollouts_manager.Tests.Samples.{sample_manager}
use argo_rollouts_manager.Tests.Deployments.{sample_environment}
use argo_rollouts_manager.Api.{pending}
use argo_rollouts_manager.Tests.Access.{after}
use argo_rollouts_manager.Kube.Meta.{condition_true}
use argo_rollouts_manager.Controllers.Reconcile.{
  Outcome, reconcile_rollouts_manager, reconcile_resources,
}
use argo_rollouts_manager.Go.Errors.{ok, Result}
use argo_rollouts_manager.Tests.Reconciling.{empty_cluster, sample_yaml, sample_config}
use argo_rollouts_manager.Kube.Memory.{Cluster, memory}
use argo_rollouts_manager.Controllers.Conditions.{ReconcileStatusResult, reconciled, reason_success}
use argo_rollouts_manager.Base.{◌≡◌, refl, true}
use mathlib.Core.Option.{none, some}

abbrev whole : Cluster → Result Outcome × Cluster
whole =
    reconcile_rollouts_manager memory sample_environment sample_yaml sample_config
      (sample_manager true)

-- A success, with a Deployment that is not ready yet.
abbrev good_result : ReconcileStatusResult
good_result = record {
  condition = reconciled condition_true reason_success "";
  rollout_controller = some pending;
  phase = some pending;
}

whole_run : whole empty_cluster ≡ (ok (good_result, none), after whole empty_cluster)
unfolding argo_rollouts_manager.Controllers.Metadata.set_rollouts_labels_and_annotations
    argo_rollouts_manager.Controllers.Metadata.set_additional_labels_and_annotations
    argo_rollouts_manager.Controllers.Metadata.set_labels_and_annotations_to_object
    argo_rollouts_manager.Controllers.Metadata.set_custom_labels
    argo_rollouts_manager.Controllers.Metadata.append_string_map
    argo_rollouts_manager.Controllers.Metadata.are_string_maps_equal
    argo_rollouts_manager.Controllers.Metadata.combine_string_maps
    argo_rollouts_manager.Controllers.Metadata.is_aggregate_label
    argo_rollouts_manager.Controllers.Metadata.default_labels_and_annotations
    argo_rollouts_manager.Controllers.Metadata.remove_user_labels_and_annotations
    argo_rollouts_manager.Controllers.Metadata.metadata_differs
    argo_rollouts_manager.Controllers.Metadata.merge_metadata
    argo_rollouts_manager.Controllers.Live.fetch_object
    argo_rollouts_manager.Controllers.Live.repaired
    argo_rollouts_manager.Controllers.Live.update_needed
    argo_rollouts_manager.Controllers.Live.create_expected
    argo_rollouts_manager.Controllers.Live.update_live
    argo_rollouts_manager.Controllers.Live.create_or_update
    argo_rollouts_manager.Controllers.Live.ensure
    argo_rollouts_manager.Controllers.Rbac.set_aggregated_cluster_role_labels
    argo_rollouts_manager.Controllers.Rbac.rules_differ
    argo_rollouts_manager.Controllers.Rbac.subjects_differ
    argo_rollouts_manager.Controllers.Rbac.service_account_target
    argo_rollouts_manager.Controllers.Rbac.role_target
    argo_rollouts_manager.Controllers.Rbac.cluster_role_target
    argo_rollouts_manager.Controllers.Rbac.role_binding_target
    argo_rollouts_manager.Controllers.Rbac.cluster_role_binding_target
    argo_rollouts_manager.Controllers.Rbac.aggregate_target
    argo_rollouts_manager.Controllers.Rbac.delete_answered
    argo_rollouts_manager.Controllers.Rbac.delete_existing
    argo_rollouts_manager.Controllers.Rbac.reconcile_rollouts_service_account
    argo_rollouts_manager.Controllers.Rbac.reconcile_rollouts_role
    argo_rollouts_manager.Controllers.Rbac.reconcile_rollouts_cluster_role
    argo_rollouts_manager.Controllers.Rbac.reconcile_rollouts_role_binding
    argo_rollouts_manager.Controllers.Rbac.reconcile_rollouts_cluster_role_binding
    argo_rollouts_manager.Controllers.Rbac.reconcile_aggregate_to_admin_cluster_role
    argo_rollouts_manager.Controllers.Rbac.reconcile_aggregate_to_edit_cluster_role
    argo_rollouts_manager.Controllers.Rbac.reconcile_aggregate_to_view_cluster_role
    argo_rollouts_manager.Controllers.Rbac.Rules.get_policy_rules
    argo_rollouts_manager.Controllers.Rbac.Rules.get_aggregate_to_admin_policy_rules
    argo_rollouts_manager.Controllers.Rbac.Rules.get_aggregate_to_edit_policy_rules
    argo_rollouts_manager.Controllers.Rbac.Rules.get_aggregate_to_view_policy_rules
    argo_rollouts_manager.Controllers.Secrets.secret_target
    argo_rollouts_manager.Controllers.Secrets.reconcile_live_secret
    argo_rollouts_manager.Controllers.Secrets.reconcile_rollouts_secrets
    argo_rollouts_manager.Controllers.ConfigMap.add_plugin
    argo_rollouts_manager.Controllers.ConfigMap.add_traffic_plugins
    argo_rollouts_manager.Controllers.ConfigMap.add_metric_plugins
    argo_rollouts_manager.Controllers.ConfigMap.insert_sorted
    argo_rollouts_manager.Controllers.ConfigMap.sort_strings
    argo_rollouts_manager.Controllers.ConfigMap.items_at
    argo_rollouts_manager.Controllers.ConfigMap.sorted_plugins
    argo_rollouts_manager.Controllers.ConfigMap.Reconcile.delete_pods
    argo_rollouts_manager.Controllers.ConfigMap.Reconcile.restart_pods_of
    argo_rollouts_manager.Controllers.ConfigMap.Reconcile.restart_rollouts_pod
    argo_rollouts_manager.Controllers.ConfigMap.Reconcile.write_plugins
    argo_rollouts_manager.Controllers.ConfigMap.Reconcile.config_map_differs
    argo_rollouts_manager.Controllers.ConfigMap.Reconcile.update_config_map
    argo_rollouts_manager.Controllers.ConfigMap.Reconcile.config_map_meta
    argo_rollouts_manager.Controllers.ConfigMap.Reconcile.create_or_update_config_map
    argo_rollouts_manager.Controllers.ConfigMap.Reconcile.reconcile_config_map
    argo_rollouts_manager.Controllers.Deployment.container_with
    argo_rollouts_manager.Controllers.Deployment.rollouts_container
    argo_rollouts_manager.Controllers.Deployment.pod_labels
    argo_rollouts_manager.Controllers.Deployment.pod_annotations
    argo_rollouts_manager.Controllers.Deployment.replica_count
    argo_rollouts_manager.Controllers.Deployment.ha_affinity
    argo_rollouts_manager.Controllers.Deployment.node_selector_of
    argo_rollouts_manager.Controllers.Deployment.deployment_spec
    argo_rollouts_manager.Controllers.Deployment.generate_desired_rollouts_deployment
    argo_rollouts_manager.Controllers.Deployment.Reconcile.deployment_differs
    argo_rollouts_manager.Controllers.Deployment.Reconcile.selector_differs
    argo_rollouts_manager.Controllers.Deployment.Reconcile.copy_spec
    argo_rollouts_manager.Controllers.Deployment.Reconcile.updated_deployment
    argo_rollouts_manager.Controllers.Deployment.Reconcile.create_new_rollouts_deployment
    argo_rollouts_manager.Controllers.Deployment.Reconcile.recreate_deployment
    argo_rollouts_manager.Controllers.Deployment.Reconcile.update_deployment
    argo_rollouts_manager.Controllers.Deployment.Reconcile.create_or_update_deployment
    argo_rollouts_manager.Controllers.Deployment.Reconcile.reconcile_rollouts_deployment
    argo_rollouts_manager.Controllers.Metrics.metrics_service_target
    argo_rollouts_manager.Controllers.Metrics.service_monitor_matches
    argo_rollouts_manager.Controllers.Metrics.reconcile_service
    argo_rollouts_manager.Controllers.Metrics.reconcile_rollouts_metrics_service
    argo_rollouts_manager.Controllers.Metrics.create_service_monitor_if_absent
    argo_rollouts_manager.Controllers.Metrics.reconcile_service_monitor
    argo_rollouts_manager.Controllers.Metrics.monitor_if_defined
    argo_rollouts_manager.Controllers.Metrics.reconcile_rollouts_metrics_service_and_monitor
    argo_rollouts_manager.Controllers.NetworkPolicy.network_policy_differs
    argo_rollouts_manager.Controllers.NetworkPolicy.fix_network_policy
    argo_rollouts_manager.Controllers.NetworkPolicy.network_policy_target
    argo_rollouts_manager.Controllers.NetworkPolicy.delete_network_policy
    argo_rollouts_manager.Controllers.NetworkPolicy.delete_rollouts_network_policies
    argo_rollouts_manager.Controllers.NetworkPolicy.reconcile_rollouts_network_policy
    argo_rollouts_manager.Controllers.Status.status_of
    argo_rollouts_manager.Controllers.Status.determine_status_phase
    argo_rollouts_manager.Controllers.Scope.split_list
    argo_rollouts_manager.Controllers.Scope.contains
    argo_rollouts_manager.Controllers.Scope.allowed_cluster_scoped_namespace
    argo_rollouts_manager.Controllers.Scope.validate_rollouts_scope
    argo_rollouts_manager.Controllers.Scope.same_manager
    argo_rollouts_manager.Controllers.Scope.check_items
    argo_rollouts_manager.Controllers.Scope.check_listed
    argo_rollouts_manager.Controllers.Scope.check_for_existing_rollout_manager
    argo_rollouts_manager.Controllers.Scope.multiple_rollout_managers_exist
    argo_rollouts_manager.Controllers.Scope.invalid_rollout_scope
    argo_rollouts_manager.Controllers.Scope.invalid_rollout_namespace
    argo_rollouts_manager.Controllers.Conditions.create_condition
    argo_rollouts_manager.Controllers.Conditions.wrap_condition
    argo_rollouts_manager.Controllers.Conditions.content_differs
    argo_rollouts_manager.Controllers.Conditions.insert_or_update
    argo_rollouts_manager.Controllers.Conditions.apply_status
    argo_rollouts_manager.Controllers.Conditions.update_status_condition
    argo_rollouts_manager.Controllers.Container.is_mergable
    argo_rollouts_manager.Controllers.Container.get_rollouts_command_args
    argo_rollouts_manager.Controllers.Container.get_image_pull_policy
    argo_rollouts_manager.Controllers.Container.combine_image_tag
    argo_rollouts_manager.Controllers.Container.extract_base_image_name
    argo_rollouts_manager.Controllers.Container.get_rollouts_container_image
    argo_rollouts_manager.Controllers.Reconcile.reconcile_access
    argo_rollouts_manager.Controllers.Reconcile.reconcile_services
    argo_rollouts_manager.Controllers.Reconcile.reconcile_resources
    argo_rollouts_manager.Controllers.Reconcile.after_scope
    argo_rollouts_manager.Controllers.Reconcile.after_existing
    argo_rollouts_manager.Controllers.Reconcile.reconcile_rollouts_manager
    argo_rollouts_manager.Go.Maps.lookup argo_rollouts_manager.Go.Maps.insert
    argo_rollouts_manager.Go.Maps.insert_all argo_rollouts_manager.Go.Maps.retain
    argo_rollouts_manager.Kube.Memory.find_object argo_rollouts_manager.Kube.Memory.without
    argo_rollouts_manager.Kube.Memory.change argo_rollouts_manager.Kube.Memory.find_manager
    argo_rollouts_manager.Api.is_enabled argo_rollouts_manager.Api.ha_enabled
    argo_rollouts_manager.Tests.Samples.sample_objects
    argo_rollouts_manager.Go.StringMaps.deep_equal argo_rollouts_manager.Go.StringMaps.same_entries
whole_run = refl

reconcile_rollouts_manager_complete_example :
    (is_let_through memory sample_environment sample_yaml sample_config
        (sample_manager true)
        empty_cluster
      ≡ true)
    × AllDone memory sample_environment sample_yaml sample_config
        (sample_manager true)
        good_result
        empty_cluster
        (after whole empty_cluster)
reconcile_rollouts_manager_complete_example =
    reconcile_rollouts_manager_complete memory sample_environment sample_yaml sample_config
      (sample_manager true) empty_cluster _ good_result whole_run refl
