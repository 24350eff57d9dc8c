-- ===== src/Tests/Roles.antt =====
-- The service account, the ClusterRoleBinding and the aggregated roles on the sample cluster.
use argo_rollouts_manager.Kube.Laws.{Absent}
use argo_rollouts_manager.Controllers.Rbac.Account.{reconcile_rollouts_service_account-IsSettled}
use argo_rollouts_manager.Controllers.Rbac.Settling.{
  reconcile_rollouts_cluster_role_binding-settles,
}
use argo_rollouts_manager.Controllers.Metadata.{set_labels_and_annotations_to_object}
use argo_rollouts_manager.Controllers.Metadata.Convergence.{IsSettled}
use argo_rollouts_manager.Kube.Memory.Laws.{memory-IsApi, memory-Readable}
use argo_rollouts_manager.Controllers.Defaults.{default_argo_rollouts_resource_name}
use argo_rollouts_manager.Controllers.Rbac.Rules.{get_aggregate_to_admin_policy_rules}
use argo_rollouts_manager.Controllers.Live.Settling.{LiveIsClean}
use argo_rollouts_manager.Tests.Samples.{sample_manager, sample_cluster_role, sample_account}
use argo_rollouts_manager.Tests.Access.{shared, clean_absent, missing, returned, after}
use argo_rollouts_manager.Go.Errors.{Result, ok, answer}
use argo_rollouts_manager.Kube.Objects.{Object, Kind}
use argo_rollouts_manager.Api.{RolloutManager}
use argo_rollouts_manager.Kube.Memory.{Cluster, memory}
use argo_rollouts_manager.Controllers.Rbac.Aggregates.{
  Settles, reconcile_aggregate_to_admin_cluster_role-Settles,
}
use argo_rollouts_manager.Controllers.Rbac.{
  service_account_target, reconcile_aggregate_to_edit_cluster_role, aggregate_target,
  reconcile_aggregate_to_view_cluster_role, reconcile_rollouts_cluster_role_binding,
  cluster_role_binding_target, reconcile_rollouts_service_account,
  reconcile_aggregate_to_admin_cluster_role, named,
}
use argo_rollouts_manager.Go.DeepEqual.{list_deep_eq, rule_deep_eq, subject_deep_eq}
use argo_rollouts_manager.Base.{◌≡◌, false, some, refl, ◌∷◌, []}

abbrev manager : RolloutManager
manager = sample_manager false

abbrev bind : Cluster → Result (Unit {0}) × Cluster
bind =
    reconcile_rollouts_cluster_role_binding memory manager (some sample_cluster_role)
      (some sample_account)

binding_run : bind shared ≡ (ok tt, after bind shared)
unfolding reconcile_rollouts_cluster_role_binding
    argo_rollouts_manager.Controllers.Rbac.delete_existing
    argo_rollouts_manager.Controllers.Rbac.delete_answered
    argo_rollouts_manager.Controllers.Live.fetch_object
    argo_rollouts_manager.Kube.Memory.find_object argo_rollouts_manager.Tests.Samples.sample_objects
    argo_rollouts_manager.Controllers.Live.ensure
    argo_rollouts_manager.Controllers.Live.create_or_update cluster_role_binding_target
    set_labels_and_annotations_to_object
    argo_rollouts_manager.Controllers.Metadata.set_additional_labels_and_annotations
    argo_rollouts_manager.Controllers.Metadata.set_rollouts_labels_and_annotations
    argo_rollouts_manager.Controllers.Live.create_expected
binding_run = refl

binding_clean :
    LiveIsClean memory
      (cluster_role_binding_target manager sample_cluster_role sample_account)
      shared
unfolding cluster_role_binding_target argo_rollouts_manager.Kube.Memory.find_object
    argo_rollouts_manager.Tests.Samples.sample_objects
binding_clean =
    clean_absent (cluster_role_binding_target manager sample_cluster_role sample_account) shared
      missing refl

reconcile_rollouts_cluster_role_binding-settles_example :
    (stored : Object Kind.cluster_role_binding) × Absent memory Kind.role_binding "argo"
      default_argo_rollouts_resource_name
      (after bind shared)
    × (memory.get Kind.cluster_role_binding "" default_argo_rollouts_resource_name
          (after bind shared)
        ≡ answer stored)
    × (stored.body.subjects
        ≡ record {
          kind = "ServiceAccount";
          api_group = "";
          name = "argo-rollouts";
          namespace = "argo";
        }
          ∷ [])
    × (bind (after bind shared) ≡ (ok tt, after bind shared))
reconcile_rollouts_cluster_role_binding-settles_example =
    reconcile_rollouts_cluster_role_binding-settles memory memory-IsApi manager sample_cluster_role
      sample_account shared _ binding_clean
      (memory-Readable Kind.role_binding "argo" default_argo_rollouts_resource_name shared)
      binding_run

abbrev account : Cluster → Result (Object Kind.service_account) × Cluster
account = reconcile_rollouts_service_account memory manager

account_run : account shared ≡ (ok (returned sample_account account shared), after account shared)
unfolding reconcile_rollouts_service_account argo_rollouts_manager.Controllers.Live.ensure
    argo_rollouts_manager.Controllers.Live.create_or_update
    argo_rollouts_manager.Controllers.Live.fetch_object service_account_target
    set_labels_and_annotations_to_object
    argo_rollouts_manager.Controllers.Metadata.set_additional_labels_and_annotations
    argo_rollouts_manager.Controllers.Metadata.set_rollouts_labels_and_annotations
    argo_rollouts_manager.Kube.Memory.find_object argo_rollouts_manager.Tests.Samples.sample_objects
    argo_rollouts_manager.Controllers.Live.create_expected
account_run = refl

account_clean : LiveIsClean memory (service_account_target manager) shared
unfolding service_account_target argo_rollouts_manager.Kube.Memory.find_object
    argo_rollouts_manager.Tests.Samples.sample_objects
account_clean = clean_absent (service_account_target manager) shared missing refl

reconcile_rollouts_service_account-IsSettled_example :
    (stored : Object Kind.service_account) × (memory.get Kind.service_account "argo"
        default_argo_rollouts_resource_name
        (after account shared)
      ≡ answer stored)
    × IsSettled manager stored.meta (
        set_labels_and_annotations_to_object
          (named default_argo_rollouts_resource_name "argo")
          manager)
    × (account (after account shared) ≡ (ok stored, after account shared))
reconcile_rollouts_service_account-IsSettled_example =
    reconcile_rollouts_service_account-IsSettled memory memory-IsApi manager shared _ _
      account_clean account_run

abbrev admin : Cluster → Result (Unit {0}) × Cluster
admin = reconcile_aggregate_to_admin_cluster_role memory manager

admin_run : admin shared ≡ (ok tt, after admin shared)
unfolding reconcile_aggregate_to_admin_cluster_role argo_rollouts_manager.Controllers.Live.ensure
    argo_rollouts_manager.Controllers.Live.create_or_update
    argo_rollouts_manager.Controllers.Live.fetch_object aggregate_target
    argo_rollouts_manager.Controllers.Metadata.set_additional_labels_and_annotations
    argo_rollouts_manager.Controllers.Rbac.set_aggregated_cluster_role_labels
    argo_rollouts_manager.Kube.Memory.find_object argo_rollouts_manager.Tests.Samples.sample_objects
    argo_rollouts_manager.Controllers.Live.create_expected
admin_run = refl

admin_clean :
    LiveIsClean memory
      (aggregate_target manager "aggregate-to-admin" get_aggregate_to_admin_policy_rules)
      shared
unfolding aggregate_target argo_rollouts_manager.Kube.Memory.find_object
    argo_rollouts_manager.Tests.Samples.sample_objects
    argo_rollouts_manager.Controllers.Metadata.set_additional_labels_and_annotations
    argo_rollouts_manager.Controllers.Rbac.set_aggregated_cluster_role_labels
admin_clean =
    clean_absent (aggregate_target manager "aggregate-to-admin" get_aggregate_to_admin_policy_rules)
      shared missing refl

reconcile_aggregate_to_admin_cluster_role-Settles_example :
    Settles memory manager "aggregate-to-admin" get_aggregate_to_admin_policy_rules admin
      (after admin shared)
reconcile_aggregate_to_admin_cluster_role-Settles_example =
    reconcile_aggregate_to_admin_cluster_role-Settles memory manager memory-IsApi shared _
      admin_clean admin_run
