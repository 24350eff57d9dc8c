-- ===== src/Tests/Objects.antt =====
-- The clean-up, the NetworkPolicy and the Secret on the sample cluster.
use argo_rollouts_manager.Controllers.Cleanup.Absence.{remove_cluster_scoped_resources-Absent}
use argo_rollouts_manager.Kube.Memory.Laws.{memory-IsApi}
use argo_rollouts_manager.Controllers.NetworkPolicy.Settling.{
  reconcile_rollouts_network_policy-settles, AsDesired,
}
use argo_rollouts_manager.Controllers.Defaults.{
  default_rollouts_network_policy, default_argo_rollouts_resource_name,
  default_rollouts_notification_secret_name,
}
use argo_rollouts_manager.Controllers.Live.Settling.{LiveIsClean}
use argo_rollouts_manager.Controllers.Secrets.Skipping.{reconcile_rollouts_secrets_removed}
use argo_rollouts_manager.Tests.Access.{mine, after, clean_absent, missing}
use argo_rollouts_manager.Tests.Samples.{sample_cluster, sample_manager, sample_secret}
use argo_rollouts_manager.Go.Errors.{ok, GoError, Result, answer, refusal}
use argo_rollouts_manager.Controllers.Cleanup.{
  remove_cluster_scoped_resources_if_applicable, aggregate_role_names,
}
use argo_rollouts_manager.Kube.Laws.{Absent}
use argo_rollouts_manager.Controllers.NetworkPolicy.{
  reconcile_rollouts_network_policy, network_policy_target,
}
use argo_rollouts_manager.Controllers.Secrets.{reconcile_rollouts_secrets}
use argo_rollouts_manager.Kube.Objects.{Object, Kind}
use argo_rollouts_manager.Kube.Memory.{find_object, Cluster, memory}
use argo_rollouts_manager.Api.{RolloutManager, is_enabled}
use argo_rollouts_manager.Base.{◌≡◌, refl, true, none, All}

abbrev policy : RolloutManager → Cluster → Result (Unit {0}) × Cluster
policy cr = reconcile_rollouts_network_policy memory cr

policy_run : policy (sample_manager true) mine ≡ (ok tt, after (policy (sample_manager true)) mine)
unfolding reconcile_rollouts_network_policy is_enabled argo_rollouts_manager.Controllers.Live.ensure
    argo_rollouts_manager.Controllers.Live.create_or_update
    argo_rollouts_manager.Controllers.Live.fetch_object network_policy_target
    argo_rollouts_manager.Controllers.Metadata.set_labels_and_annotations_to_object
    argo_rollouts_manager.Controllers.Metadata.set_additional_labels_and_annotations
    argo_rollouts_manager.Controllers.Metadata.set_rollouts_labels_and_annotations find_object
    argo_rollouts_manager.Tests.Samples.sample_objects
    argo_rollouts_manager.Controllers.Live.create_expected
policy_run = refl

enabled : is_enabled (sample_manager true).spec.network_policy ≡ true
unfolding is_enabled
enabled = refl

policy_clean : LiveIsClean memory (network_policy_target (sample_manager true)) mine
unfolding network_policy_target find_object argo_rollouts_manager.Tests.Samples.sample_objects
policy_clean = clean_absent (network_policy_target (sample_manager true)) mine missing refl

reconcile_rollouts_network_policy-settles_example :
    (stored : Object Kind.network_policy) × (memory.get Kind.network_policy "argo"
        default_rollouts_network_policy
        (after (policy (sample_manager true)) mine)
      ≡ answer stored)
    × AsDesired stored.body
    × (policy (sample_manager true) (after (policy (sample_manager true)) mine)
        ≡ (ok tt, after (policy (sample_manager true)) mine))
reconcile_rollouts_network_policy-settles_example =
    reconcile_rollouts_network_policy-settles memory memory-IsApi (sample_manager true) mine _
      enabled policy_clean policy_run

abbrev clean_up : Cluster → Result (Unit {0}) × Cluster
clean_up = remove_cluster_scoped_resources_if_applicable memory

clean_up_run : clean_up mine ≡ (ok tt, after clean_up mine)
unfolding remove_cluster_scoped_resources_if_applicable
    argo_rollouts_manager.Controllers.Cleanup.delete_if_present
    argo_rollouts_manager.Controllers.Cleanup.delete_found find_object
    argo_rollouts_manager.Tests.Samples.sample_objects
    argo_rollouts_manager.Controllers.Cleanup.delete_each argo_rollouts_manager.Kube.Memory.change
    argo_rollouts_manager.Kube.Memory.without
clean_up_run = refl

remove_cluster_scoped_resources-Absent_example :
    Absent memory Kind.cluster_role "" default_argo_rollouts_resource_name (after clean_up mine)
    × All (λ n. Absent memory Kind.cluster_role "" n (after clean_up mine)) aggregate_role_names
    × Absent memory Kind.cluster_role_binding "" default_argo_rollouts_resource_name
        (after clean_up mine)
remove_cluster_scoped_resources-Absent_example =
    remove_cluster_scoped_resources-Absent memory memory-IsApi mine _ clean_up_run

abbrev secrets : Cluster → Result (Unit {0}) × Cluster
secrets = reconcile_rollouts_secrets memory none (sample_manager true)

abbrev theirs : Cluster
theirs = sample_cluster "other" true

their_secret :
    memory.get Kind.secret "argo" default_rollouts_notification_secret_name theirs
    ≡ answer (sample_secret "other")
unfolding find_object argo_rollouts_manager.Tests.Samples.sample_objects
their_secret = refl

my_secret :
    memory.get Kind.secret "argo" default_rollouts_notification_secret_name mine
    ≡ answer (sample_secret "rollouts")
unfolding find_object argo_rollouts_manager.Tests.Samples.sample_objects
my_secret = refl

secrets_run : secrets mine ≡ (ok tt, after secrets mine)
unfolding reconcile_rollouts_secrets argo_rollouts_manager.Controllers.Secrets.reconcile_live_secret
    argo_rollouts_manager.Controllers.Live.fetch_object find_object
    argo_rollouts_manager.Tests.Samples.sample_objects
secrets_run = refl

reconcile_rollouts_secrets_removed_example :
    (e : GoError) × (memory.get Kind.secret "argo" default_rollouts_notification_secret_name
        (after secrets mine)
      ≡ refusal e)
    × (e.is_not_found ≡ true)
reconcile_rollouts_secrets_removed_example =
    reconcile_rollouts_secrets_removed memory none (sample_manager true) memory-IsApi mine _ refl
      (sample_secret "rollouts") my_secret refl secrets_run
