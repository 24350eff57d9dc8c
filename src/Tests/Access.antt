-- ===== src/Tests/Access.antt =====
-- The roles and the RoleBinding on the sample cluster.
use argo_rollouts_manager.Kube.Laws.{Absent}
use argo_rollouts_manager.Controllers.Metadata.Convergence.{has}
use argo_rollouts_manager.Go.Maps.{lookup}
use argo_rollouts_manager.Controllers.Live.{Target}
use argo_rollouts_manager.Controllers.Rbac.Settling.{
  reconcile_rollouts_cluster_role-settles, reconcile_rollouts_role-settles,
  reconcile_rollouts_role_binding-settles,
}
use argo_rollouts_manager.Kube.Memory.Laws.{memory-IsApi, answered, memory-Readable}
use argo_rollouts_manager.Controllers.Rbac.Rules.{get_policy_rules}
use argo_rollouts_manager.Controllers.Defaults.{default_argo_rollouts_resource_name}
use argo_rollouts_manager.Controllers.Live.Settling.{LiveIsClean}
use argo_rollouts_manager.Tests.Samples.{
  sample_cluster, sample_manager, sample_cluster_role, sample_role, sample_secret, sample_account,
}
use argo_rollouts_manager.Kube.Objects.{Object, Kind}
use argo_rollouts_manager.Go.Errors.{ok, GoError, Result, err, refusal, answer, panic}
use argo_rollouts_manager.Kube.Memory.{find_object, Cluster, memory}
use argo_rollouts_manager.Controllers.Rbac.{
  role_binding_target, reconcile_rollouts_role, reconcile_rollouts_role_binding, role_target,
  cluster_role_target, reconcile_rollouts_cluster_role,
}
use argo_rollouts_manager.Go.DeepEqual.{list_deep_eq, rule_deep_eq, subject_deep_eq}
use argo_rollouts_manager.Base.{
  ◌≡◌, false, refl, true, none, some, ◌∷◌, [], sym, ◌∙◌, ap, subst, arith,
}

abbrev pub mine : Cluster
mine = sample_cluster "rollouts" true

abbrev pub shared : Cluster
shared = sample_cluster "rollouts" false

abbrev pub after : {A : Type 0} → (Cluster → Result A × Cluster) → Cluster → Cluster
after run s = (run s).1

-- An object without labels, or one that is not there, has no foreign aggregate label.
clean_bare :
    {k : Kind} (t : Target k) (s : Cluster) (bare : Object k)
    → memory.get k t.expected.meta.namespace t.expected.meta.name s ≡ answer bare
    → bare.meta.labels ≡ none
    → LiveIsClean memory t s
unfolding lookup
clean_bare t s bare e unlabelled live found k aggregate has_it =
    let same = answered bare live (sym e ∙ found) in
    let labels = subst (λ (o : Object _). o.meta.labels ≡ none) same unlabelled in
    let no : has k live.meta.labels ≡ false = ap (has k) labels in ground (arith, no, has_it)

abbrev pub missing : GoError
missing = record { message = "not found"; is_not_found = true }

pub clean_absent :
    {k : Kind} (t : Target k) (s : Cluster) (e : GoError)
    → memory.get k t.expected.meta.namespace t.expected.meta.name s ≡ refusal e
    → LiveIsClean memory t s
clean_absent t s e absent live found k aggregate has_it = ground (arith, absent, found)

-- What a run returns, or another value where it fails.
abbrev pub returned : {A : Type 0} → A → (Cluster → Result A × Cluster) → Cluster → A
returned d run s = elim (run s).0 [ ok a ↦ a | err e ↦ d | panic ↦ d ]

reconcile_rollouts_role_run : reconcile_rollouts_role memory (sample_manager true) mine ≡ (
  ok (returned sample_role (reconcile_rollouts_role memory (sample_manager true)) mine),
  after (reconcile_rollouts_role memory (sample_manager true)) mine,
)
unfolding reconcile_rollouts_role argo_rollouts_manager.Controllers.Rbac.delete_existing
    argo_rollouts_manager.Controllers.Rbac.delete_answered
    argo_rollouts_manager.Controllers.Live.fetch_object find_object
    argo_rollouts_manager.Tests.Samples.sample_objects argo_rollouts_manager.Controllers.Live.ensure
    argo_rollouts_manager.Controllers.Live.create_or_update role_target
    argo_rollouts_manager.Controllers.Metadata.set_labels_and_annotations_to_object
    argo_rollouts_manager.Controllers.Metadata.set_additional_labels_and_annotations
    argo_rollouts_manager.Controllers.Metadata.set_rollouts_labels_and_annotations
    argo_rollouts_manager.Kube.Memory.change argo_rollouts_manager.Controllers.Live.update_live
    argo_rollouts_manager.Controllers.Live.update_needed
    argo_rollouts_manager.Controllers.Rbac.rules_differ get_policy_rules
reconcile_rollouts_role_run = refl

reconcile_rollouts_role_clean : LiveIsClean memory (role_target (sample_manager true)) mine
unfolding role_target find_object argo_rollouts_manager.Tests.Samples.sample_objects
    argo_rollouts_manager.Controllers.Metadata.set_labels_and_annotations_to_object
    argo_rollouts_manager.Controllers.Metadata.set_additional_labels_and_annotations
    argo_rollouts_manager.Controllers.Metadata.set_rollouts_labels_and_annotations
reconcile_rollouts_role_clean =
    clean_bare (role_target (sample_manager true)) mine sample_role refl refl

reconcile_rollouts_role-settles_example :
    (stored : Object Kind.role) × Absent memory Kind.cluster_role ""
      default_argo_rollouts_resource_name
      (after (reconcile_rollouts_role memory (sample_manager true)) mine)
    × (memory.get Kind.role "argo" default_argo_rollouts_resource_name
          (after (reconcile_rollouts_role memory (sample_manager true)) mine)
        ≡ answer stored)
    × (stored.body ≡ get_policy_rules)
    × (reconcile_rollouts_role memory
          (sample_manager true)
          (after (reconcile_rollouts_role memory (sample_manager true)) mine)
        ≡ (ok stored, after (reconcile_rollouts_role memory (sample_manager true)) mine))
reconcile_rollouts_role-settles_example =
    reconcile_rollouts_role-settles memory memory-IsApi (sample_manager true) mine _ _
      reconcile_rollouts_role_clean
      (memory-Readable Kind.cluster_role "" default_argo_rollouts_resource_name mine)
      reconcile_rollouts_role_run

reconcile_rollouts_cluster_role_run :
    reconcile_rollouts_cluster_role memory (sample_manager false) shared ≡ (
      ok (
          returned sample_cluster_role
            (reconcile_rollouts_cluster_role memory (sample_manager false))
            shared),
      after (reconcile_rollouts_cluster_role memory (sample_manager false)) shared,
    )
unfolding reconcile_rollouts_cluster_role argo_rollouts_manager.Controllers.Rbac.delete_existing
    argo_rollouts_manager.Controllers.Rbac.delete_answered
    argo_rollouts_manager.Controllers.Live.fetch_object find_object
    argo_rollouts_manager.Tests.Samples.sample_objects argo_rollouts_manager.Controllers.Live.ensure
    argo_rollouts_manager.Controllers.Live.create_or_update cluster_role_target
    argo_rollouts_manager.Controllers.Metadata.set_labels_and_annotations_to_object
    argo_rollouts_manager.Controllers.Metadata.set_additional_labels_and_annotations
    argo_rollouts_manager.Controllers.Metadata.set_rollouts_labels_and_annotations
    argo_rollouts_manager.Kube.Memory.change argo_rollouts_manager.Controllers.Live.update_live
    argo_rollouts_manager.Controllers.Live.update_needed
    argo_rollouts_manager.Controllers.Rbac.rules_differ get_policy_rules
reconcile_rollouts_cluster_role_run = refl

reconcile_rollouts_cluster_role_clean :
    LiveIsClean memory (cluster_role_target (sample_manager false)) shared
unfolding cluster_role_target find_object argo_rollouts_manager.Tests.Samples.sample_objects
    argo_rollouts_manager.Controllers.Metadata.set_labels_and_annotations_to_object
    argo_rollouts_manager.Controllers.Metadata.set_additional_labels_and_annotations
    argo_rollouts_manager.Controllers.Metadata.set_rollouts_labels_and_annotations
reconcile_rollouts_cluster_role_clean =
    clean_bare (cluster_role_target (sample_manager false)) shared sample_cluster_role refl refl

reconcile_rollouts_cluster_role-settles_example :
    (stored : Object Kind.cluster_role) × Absent memory Kind.role "argo"
      default_argo_rollouts_resource_name
      (after (reconcile_rollouts_cluster_role memory (sample_manager false)) shared)
    × (memory.get Kind.cluster_role "" default_argo_rollouts_resource_name
          (after (reconcile_rollouts_cluster_role memory (sample_manager false)) shared)
        ≡ answer stored)
    × (stored.body ≡ get_policy_rules)
    × (reconcile_rollouts_cluster_role memory
          (sample_manager false)
          (after (reconcile_rollouts_cluster_role memory (sample_manager false)) shared)
        ≡ (ok stored, after (reconcile_rollouts_cluster_role memory (sample_manager false)) shared))
reconcile_rollouts_cluster_role-settles_example =
    reconcile_rollouts_cluster_role-settles memory memory-IsApi (sample_manager false) shared _ _
      reconcile_rollouts_cluster_role_clean
      (memory-Readable Kind.role "argo" default_argo_rollouts_resource_name shared)
      reconcile_rollouts_cluster_role_run

abbrev bind : Cluster → Result (Unit {0}) × Cluster
bind =
    reconcile_rollouts_role_binding memory (sample_manager true) (some sample_role)
      (some sample_account)

binding_run : bind mine ≡ (ok tt, after bind mine)
unfolding reconcile_rollouts_role_binding argo_rollouts_manager.Controllers.Rbac.delete_existing
    argo_rollouts_manager.Controllers.Rbac.delete_answered
    argo_rollouts_manager.Controllers.Live.fetch_object find_object
    argo_rollouts_manager.Tests.Samples.sample_objects argo_rollouts_manager.Controllers.Live.ensure
    argo_rollouts_manager.Controllers.Live.create_or_update role_binding_target
    argo_rollouts_manager.Controllers.Metadata.set_labels_and_annotations_to_object
    argo_rollouts_manager.Controllers.Metadata.set_additional_labels_and_annotations
    argo_rollouts_manager.Controllers.Metadata.set_rollouts_labels_and_annotations
    argo_rollouts_manager.Controllers.Live.create_expected
binding_run = refl

binding_clean :
    LiveIsClean memory (role_binding_target (sample_manager true) sample_role sample_account) mine
unfolding role_binding_target find_object argo_rollouts_manager.Tests.Samples.sample_objects
binding_clean =
    clean_absent (role_binding_target (sample_manager true) sample_role sample_account) mine missing
      refl

reconcile_rollouts_role_binding-settles_example :
    (stored : Object Kind.role_binding) × Absent memory Kind.cluster_role_binding ""
      default_argo_rollouts_resource_name
      (after bind mine)
    × (memory.get Kind.role_binding "argo" default_argo_rollouts_resource_name (after bind mine)
        ≡ answer stored)
    × (stored.body.subjects
        ≡ record {
          kind = "ServiceAccount";
          api_group = "";
          name = "argo-rollouts";
          namespace = "argo";
        }
          ∷ [])
    × (bind (after bind mine) ≡ (ok tt, after bind mine))
reconcile_rollouts_role_binding-settles_example =
    reconcile_rollouts_role_binding-settles memory memory-IsApi (sample_manager true) sample_role
      sample_account mine _ binding_clean
      (memory-Readable Kind.cluster_role_binding "" default_argo_rollouts_resource_name mine)
      binding_run
