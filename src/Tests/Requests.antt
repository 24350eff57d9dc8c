-- ===== src/Tests/Requests.antt =====
-- Requests and events on the sample cluster.
use argo_rollouts_manager.Controllers.Cleanup.{aggregate_role_names}
use argo_rollouts_manager.Controllers.Defaults.{default_argo_rollouts_resource_name}
use argo_rollouts_manager.Tests.Reconciling.{sample_yaml, sample_config}
use argo_rollouts_manager.Tests.Samples.{sample_manager}
use argo_rollouts_manager.Tests.Deployments.{sample_environment}
use argo_rollouts_manager.Go.Errors.{ok, Result}
use argo_rollouts_manager.Tests.Access.{mine, after, missing}
use argo_rollouts_manager.Kube.Laws.{Absent}
use argo_rollouts_manager.Controllers.Entry.{
  Request, enqueue_other_rollout_managers_except_obj, reconcile, enqueue_all_rollout_managers,
}
use argo_rollouts_manager.Controllers.Entry.Requests.{IsGone, reconcile-Absent}
use argo_rollouts_manager.Kube.Memory.{Cluster, memory}
use argo_rollouts_manager.Kube.Objects.{Kind}
use argo_rollouts_manager.Base.{◌≡◌, refl, inl, All}
use argo_rollouts_manager.Kube.Memory.Laws.{memory-IsApi}

abbrev gone : Request
gone = record { namespace = "nowhere"; name = "rollouts" }

abbrev answer_gone : Cluster → Result (Unit {0}) × Cluster
answer_gone = reconcile memory sample_environment sample_yaml sample_config 0 gone

gone-IsGone : IsGone memory sample_environment sample_yaml sample_config 0 gone mine
unfolding argo_rollouts_manager.Kube.Memory.find_object
    argo_rollouts_manager.Tests.Samples.sample_objects
gone-IsGone = inl (missing, refl, refl)

gone_run : answer_gone mine ≡ (ok tt, after answer_gone mine)
unfolding reconcile argo_rollouts_manager.Controllers.Entry.reconcile_in
    argo_rollouts_manager.Kube.Memory.find_object argo_rollouts_manager.Tests.Samples.sample_objects
    argo_rollouts_manager.Controllers.Cleanup.remove_cluster_scoped_resources_if_applicable
    argo_rollouts_manager.Controllers.Cleanup.delete_if_present
    argo_rollouts_manager.Controllers.Cleanup.delete_found
    argo_rollouts_manager.Controllers.Cleanup.delete_each argo_rollouts_manager.Kube.Memory.change
    argo_rollouts_manager.Kube.Memory.without
gone_run = refl

reconcile-Absent_example :
    Absent memory Kind.cluster_role "" default_argo_rollouts_resource_name (after answer_gone mine)
    × All (λ n. Absent memory Kind.cluster_role "" n (after answer_gone mine)) aggregate_role_names
    × Absent memory Kind.cluster_role_binding "" default_argo_rollouts_resource_name
        (after answer_gone mine)
reconcile-Absent_example =
    reconcile-Absent memory sample_environment sample_yaml sample_config 0 memory-IsApi gone mine _
      gone-IsGone gone_run
