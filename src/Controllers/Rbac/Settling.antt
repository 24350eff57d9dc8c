-- ===== src/Controllers/Rbac/Settling.antt =====
-- controllers/resources.go: the cluster after a successful reconciliation of a role or a binding.
use argo_rollouts_manager.Kube.Defaults.{with_group}
use argo_rollouts_manager.Controllers.Metadata.{set_labels_and_annotations_to_object}
use argo_rollouts_manager.Controllers.Metadata.Lookups.{set_labels_and_annotations_to_object-named}
use argo_rollouts_manager.Go.DeepEqual.{rule_deep_eq, subject_deep_eq}
use argo_rollouts_manager.Controllers.Metadata.Convergence.{set-IsStandard}
use argo_rollouts_manager.Controllers.Rbac.Replacing.{replace-settles, replace_quietly-settles}
use argo_rollouts_manager.Controllers.Rbac.Rules.{get_policy_rules}
use argo_rollouts_manager.Controllers.Defaults.{default_argo_rollouts_resource_name}
use argo_rollouts_manager.Go.Errors.{ok, answer}
use argo_rollouts_manager.Controllers.Live.Settling.{LiveIsClean}
use argo_rollouts_manager.Go.DeepEqual.{deep_eq_refl, lists_eq_iff}
use argo_rollouts_manager.Kube.Objects.{PolicyRule, Object, Kind, Subject}
use argo_rollouts_manager.Api.{RolloutManager}
use argo_rollouts_manager.Kube.Laws.{IsApi, Readable, Absent}
use argo_rollouts_manager.Controllers.Rbac.{
  rules_differ, reconcile_rollouts_role, role_target, subjects_differ,
  reconcile_rollouts_cluster_role, cluster_role_target, reconcile_rollouts_role_binding,
  role_binding_target, reconcile_rollouts_cluster_role_binding, cluster_role_binding_target, named,
}
use argo_rollouts_manager.Kube.Client.{Client}
use argo_rollouts_manager.Base.{◌≡◌, List, false, arith, some, ◌∷◌, [], sym, String, map, ◌∙◌, ap}

pub rules_differ_refl : (l : List PolicyRule) → rules_differ l l ≡ false
unfolding rules_differ
rules_differ_refl l = rw (deep_eq_refl l)

pub rules_same : (a b : List PolicyRule) → rules_differ a b ≡ false → a ≡ b
unfolding rules_differ
rules_same a b h = (lists_eq_iff a b).0 (ground arith)

subjects_differ_refl : (l : List Subject) → subjects_differ l l ≡ false
unfolding subjects_differ
subjects_differ_refl l = rw (deep_eq_refl l)

subjects_same : (a b : List Subject) → subjects_differ a b ≡ false → a ≡ b
unfolding subjects_differ
subjects_same a b h = (lists_eq_iff a b).0 (ground arith)

abbrev account_subject : String → String → Subject
account_subject name ns = record {
  kind = "ServiceAccount";
  api_group = "";
  name = name;
  namespace = ns;
}

-- A service account among the subjects stays as it is.
subjects_differ-map :
    (name ns : String) (sent stored : List Subject)
    → stored ≡ map with_group sent
    → subjects_differ (account_subject name ns ∷ []) sent ≡ false
    → subjects_differ (account_subject name ns ∷ []) stored ≡ false
unfolding with_group
subjects_differ-map name ns sent stored kept h =
    let same = subjects_same (account_subject name ns ∷ []) sent h in
    rw (kept ∙ sym (ap (map with_group) same)) (subjects_differ_refl (account_subject name ns ∷ []))

module _ (c : Client) (api : IsApi c) (cr : RolloutManager) where
  -- Labels and annotations do not change where an object is read.
  read_back :
      {k : Kind} (name ns : String) (s : c.State) (o : Object k)
      → c.get k
          (set_labels_and_annotations_to_object (named name ns) cr).namespace
          (set_labels_and_annotations_to_object (named name ns) cr).name
          s
        ≡ answer o
      → c.get k ns name s ≡ answer o
  read_back name ns s o found =
      let (same_name, same_ns) = set_labels_and_annotations_to_object-named (named name ns) cr in
      (rw (same_ns, same_name) at found)

  -- With an API server that keeps the laws of IsApi, where reading the ClusterRole fails only when
  -- there is none, and where the live Role, if there is one, has no aggregate label that the
  -- expected Role lacks: after a successful run of the Role's reconciliation there is no
  -- ClusterRole of the operator's name, the Role of that name in the namespace of the
  -- RolloutManager that is then read has the operator's rules, and a second run changes nothing and
  -- returns it.
  pub reconcile_rollouts_role-settles :
      (s s' : c.State) (o : Object Kind.role)
      → LiveIsClean c (role_target cr) s
      → Readable c Kind.cluster_role "" default_argo_rollouts_resource_name s
      → reconcile_rollouts_role c cr s ≡ (ok o, s')
      → (stored : Object Kind.role) × Absent c Kind.cluster_role ""
          default_argo_rollouts_resource_name s'
        × (c.get Kind.role cr.meta.namespace default_argo_rollouts_resource_name s' ≡ answer stored)
        × (stored.body ≡ get_policy_rules)
        × (reconcile_rollouts_role c cr s' ≡ (ok stored, s'))
  unfolding reconcile_rollouts_role role_target
  reconcile_rollouts_role-settles s s' o clean readable h =
      let rules = get_policy_rules in
      let (settled, gone, again) =
        replace-settles c Kind.cluster_role "" default_argo_rollouts_resource_name
          "failed to delete existing ClusterRole argo-rollouts: " cr (role_target cr)
          (set-IsStandard _ cr)
          (record {
            fixed = λ b. rules_differ_refl rules;
            expected = rules_differ_refl rules;
            kept = λ a b e h. rw e h;
          })
          api.reference (api.reads _) (api.reads _) (api.deletes _) (api.isolates _ _ (cc))
          (api.isolates _ _ (cc)) s s' o clean readable h in
      (
        settled.stored,
        gone,
        read_back _ _ _ _ settled.found,
        rules_same _ _ settled.body_same,
        again,
      )

  -- With an API server that keeps the laws of IsApi, where reading the Role fails only when there
  -- is none, and where the live ClusterRole, if there is one, has no aggregate label that the
  -- expected ClusterRole lacks: after a successful run of the ClusterRole's reconciliation there is
  -- no Role of the operator's name in the namespace of the RolloutManager, the ClusterRole of that
  -- name that is then read has the operator's rules, and a second run changes nothing and returns
  -- it.
  pub reconcile_rollouts_cluster_role-settles :
      (s s' : c.State) (o : Object Kind.cluster_role)
      → LiveIsClean c (cluster_role_target cr) s
      → Readable c Kind.role cr.meta.namespace default_argo_rollouts_resource_name s
      → reconcile_rollouts_cluster_role c cr s ≡ (ok o, s')
      → (stored : Object Kind.cluster_role) × Absent c Kind.role cr.meta.namespace
          default_argo_rollouts_resource_name s'
        × (c.get Kind.cluster_role "" default_argo_rollouts_resource_name s' ≡ answer stored)
        × (stored.body ≡ get_policy_rules)
        × (reconcile_rollouts_cluster_role c cr s' ≡ (ok stored, s'))
  unfolding reconcile_rollouts_cluster_role cluster_role_target
  reconcile_rollouts_cluster_role-settles s s' o clean readable h =
      let rules = get_policy_rules in
      let (settled, gone, again) =
        replace-settles c Kind.role cr.meta.namespace default_argo_rollouts_resource_name _ cr
          (cluster_role_target cr) (set-IsStandard _ cr)
          (record {
            fixed = λ b. rules_differ_refl rules;
            expected = rules_differ_refl rules;
            kept = λ a b e h. rw e h;
          })
          api.reference (api.reads _) (api.reads _) (api.deletes _) (api.isolates _ _ (cc))
          (api.isolates _ _ (cc)) s s' o clean readable h in
      (
        settled.stored,
        gone,
        read_back _ _ _ _ settled.found,
        rules_same _ _ settled.body_same,
        again,
      )

  module _ (role : Object Kind.role) (sa : Object Kind.service_account) where
    -- With an API server that keeps the laws of IsApi, where reading the ClusterRoleBinding fails
    -- only when there is none, and where the live RoleBinding, if there is one, has no aggregate
    -- label that the expected RoleBinding lacks: after a successful run of the RoleBinding's
    -- reconciliation there is no ClusterRoleBinding of the operator's name, the RoleBinding of that
    -- name in the namespace of the RolloutManager that is then read has the service account as its
    -- one subject, and a second run changes nothing.
    pub reconcile_rollouts_role_binding-settles :
        (s s' : c.State)
        → LiveIsClean c (role_binding_target cr role sa) s
        → Readable c Kind.cluster_role_binding "" default_argo_rollouts_resource_name s
        → reconcile_rollouts_role_binding c cr (some role) (some sa) s ≡ (ok tt, s')
        → (stored : Object Kind.role_binding) × Absent c Kind.cluster_role_binding ""
            default_argo_rollouts_resource_name s'
          × (c.get Kind.role_binding cr.meta.namespace default_argo_rollouts_resource_name s'
              ≡ answer stored)
          × (stored.body.subjects
              ≡ record {
                kind = "ServiceAccount";
                api_group = "";
                name = sa.meta.name;
                namespace = sa.meta.namespace;
              }
                ∷ [])
          × (reconcile_rollouts_role_binding c cr (some role) (some sa) s' ≡ (ok tt, s'))
    unfolding reconcile_rollouts_role_binding role_binding_target
    reconcile_rollouts_role_binding-settles s s' clean readable h =
        let (settled, gone, again) =
          replace_quietly-settles c Kind.cluster_role_binding "" default_argo_rollouts_resource_name
            "failed to delete existing ClusterRoleBinding argo-rollouts: " cr
            (role_binding_target cr role sa) (set-IsStandard _ cr)
            (record {
              fixed = λ b. subjects_differ_refl _;
              expected = subjects_differ_refl _;
              kept = λ a b e h.
                  subjects_differ-map sa.meta.name sa.meta.namespace a.subjects b.subjects e h;
            })
            api.reference (api.reads _) (api.reads _) (api.deletes _) (api.isolates _ _ (cc))
            (api.isolates _ _ (cc)) s s' clean readable h in
        (
          settled.stored,
          gone,
          read_back _ _ _ _ settled.found,
          sym (subjects_same _ _ settled.body_same),
          again,
        )

  module _ (cluster_role : Object Kind.cluster_role) (sa : Object Kind.service_account) where
    -- With an API server that keeps the laws of IsApi, where reading the RoleBinding fails only
    -- when there is none, and where the live ClusterRoleBinding, if there is one, has no aggregate
    -- label that the expected ClusterRoleBinding lacks: after a successful run of the
    -- ClusterRoleBinding's reconciliation there is no RoleBinding of the operator's name in the
    -- namespace of the RolloutManager, the ClusterRoleBinding of that name that is then read has
    -- the service account as its one subject, and a second run changes nothing.
    pub reconcile_rollouts_cluster_role_binding-settles :
        (s s' : c.State)
        → LiveIsClean c (cluster_role_binding_target cr cluster_role sa) s
        → Readable c Kind.role_binding cr.meta.namespace default_argo_rollouts_resource_name s
        → reconcile_rollouts_cluster_role_binding c cr (some cluster_role) (some sa) s ≡ (ok tt, s')
        → (stored : Object Kind.cluster_role_binding) × Absent c Kind.role_binding cr.meta.namespace
            default_argo_rollouts_resource_name s'
          × (c.get Kind.cluster_role_binding "" default_argo_rollouts_resource_name s'
              ≡ answer stored)
          × (stored.body.subjects
              ≡ record {
                kind = "ServiceAccount";
                api_group = "";
                name = sa.meta.name;
                namespace = sa.meta.namespace;
              }
                ∷ [])
          × (reconcile_rollouts_cluster_role_binding c cr (some cluster_role) (some sa) s'
              ≡ (ok tt, s'))
    unfolding reconcile_rollouts_cluster_role_binding cluster_role_binding_target
    reconcile_rollouts_cluster_role_binding-settles s s' clean readable h =
        let (settled, gone, again) =
          replace_quietly-settles c Kind.role_binding cr.meta.namespace
            default_argo_rollouts_resource_name _ cr
            (cluster_role_binding_target cr cluster_role sa) (set-IsStandard _ cr)
            (record {
              fixed = λ b. subjects_differ_refl _;
              expected = subjects_differ_refl _;
              kept = λ a b e h.
                  subjects_differ-map sa.meta.name sa.meta.namespace a.subjects b.subjects e h;
            })
            api.reference (api.reads _) (api.reads _) (api.deletes _) (api.isolates _ _ (cc))
            (api.isolates _ _ (cc)) s s' clean readable h in
        (
          settled.stored,
          gone,
          read_back _ _ _ _ settled.found,
          sym (subjects_same _ _ settled.body_same),
          again,
        )
