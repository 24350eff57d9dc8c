-- ===== src/Controllers/Rbac/Aggregates.antt =====
-- controllers/resources.go: the aggregated cluster roles after a successful reconciliation.
use argo_rollouts_manager.Controllers.Rbac.Settling.{rules_same, rules_differ_refl}
use argo_rollouts_manager.Controllers.Live.{ensure}
use argo_rollouts_manager.Controllers.Rbac.Rules.{
  get_aggregate_to_admin_policy_rules, get_aggregate_to_view_policy_rules,
  get_aggregate_to_edit_policy_rules,
}
use argo_rollouts_manager.Controllers.Live.Settling.{
  IsSettledAt, LiveIsClean, ensure-IsSettledAt, ensure-settles,
}
use argo_rollouts_manager.Kube.Objects.{PolicyRule, Object, Kind}
use argo_rollouts_manager.Kube.Laws.{IsApi}
use argo_rollouts_manager.Kube.Client.{Client}
use mathlib.Core.Option.{none, some}
use argo_rollouts_manager.Go.Exec.{◌>>◌, Exec, bind_inv, bind_returned, pure}
use argo_rollouts_manager.Go.Errors.{append, ok, answer, Result}
use argo_rollouts_manager.Controllers.Metadata.Convergence.{has, IsStandard}
use argo_rollouts_manager.Api.{RolloutManager}
use argo_rollouts_manager.Controllers.Defaults.{
  component_key, part_of_key, default_rollouts_selector_key, default_argo_rollouts_resource_name,
}
use argo_rollouts_manager.Go.StringMaps.{Entries, entries, StringMap}
use argo_rollouts_manager.Kube.Meta.{ObjectMeta}
use argo_rollouts_manager.Go.Maps.{lookup, insert, lookup-insert, lookup-insert_all}
use argo_rollouts_manager.Controllers.Rbac.{
  set_aggregated_cluster_role_labels, named, aggregate_target,
  reconcile_aggregate_to_edit_cluster_role, reconcile_aggregate_to_admin_cluster_role,
  reconcile_aggregate_to_view_cluster_role,
}
use argo_rollouts_manager.Controllers.Metadata.{
  set_additional_labels_and_annotations, set_rollouts_labels_and_annotations,
  default_labels_and_annotations, set_labels_and_annotations_to_object, is_aggregate_label,
}
use argo_rollouts_manager.Base.{
  ◌≡◌, String, Bool, is_some, ◌==◌, ◌||◌, arith, [], Option-cases, inl, inr, true, refl, text_cases,
  subst, ==-eq_false, ◌∙◌, sym, List, ap,
}

-- The keys of the default labels.
abbrev is_default : String → Bool
is_default k = (component_key == k) || (part_of_key == k) || (default_rollouts_selector_key == k)

default_own :
    (k : String)
    → is_some (lookup k (entries (set_rollouts_labels_and_annotations (named "" "")).labels))
      ≡ is_default k
unfolding set_rollouts_labels_and_annotations lookup
default_own k = ground (
  arith,
  lookup-insert component_key k default_argo_rollouts_resource_name (
      insert part_of_key default_argo_rollouts_resource_name
        (insert default_rollouts_selector_key default_argo_rollouts_resource_name [])),
  lookup-insert part_of_key k default_argo_rollouts_resource_name
      (insert default_rollouts_selector_key default_argo_rollouts_resource_name []),
  lookup-insert default_rollouts_selector_key k default_argo_rollouts_resource_name [],
)

aggregate_own :
    (m : ObjectMeta) (name kind k : String)
    → is_some (lookup k (entries (set_aggregated_cluster_role_labels m name kind).labels))
      ≡ ((append "rbac.authorization.k8s.io/" kind == k) || is_default k)
unfolding set_aggregated_cluster_role_labels lookup
aggregate_own m name kind k =
    let l1 : Entries = insert component_key "aggregate-cluster-role" [] in
    let l2 = insert default_rollouts_selector_key name l1 in
    let l3 = insert part_of_key default_argo_rollouts_resource_name l2 in
    ground (
      arith,
      lookup-insert (append "rbac.authorization.k8s.io/" kind) k "true" l3,
      lookup-insert part_of_key k default_argo_rollouts_resource_name l2,
      lookup-insert default_rollouts_selector_key k name l1,
      lookup-insert {V = String} component_key k "aggregate-cluster-role" [],
    )

abbrev extra_labels : RolloutManager → StringMap
extra_labels cr = elim cr.spec.additional_metadata [ none ↦ none | some e ↦ e.labels ]

abbrev extra_annotations : RolloutManager → StringMap
extra_annotations cr = elim cr.spec.additional_metadata [ none ↦ none | some e ↦ e.annotations ]

-- The labels and annotations of the specification are added to those of an object.
has-additional_labels :
    (m : ObjectMeta) (cr : RolloutManager) (k : String)
    → has k (set_additional_labels_and_annotations m cr).labels
      ≡ (has k (extra_labels cr) || has k m.labels)
unfolding set_additional_labels_and_annotations lookup
has-additional_labels m cr k = elim (Option-cases cr.spec.additional_metadata) [
  | inl e ↦ rw e refl
  | inr (x, e) ↦ rw e (ground (arith, lookup-insert_all k (entries x.labels) (entries m.labels)))
]

has-additional_annotations :
    (m : ObjectMeta) (cr : RolloutManager) (k : String)
    → has k (set_additional_labels_and_annotations m cr).annotations
      ≡ (has k (extra_annotations cr) || has k m.annotations)
unfolding set_additional_labels_and_annotations lookup
has-additional_annotations m cr k = elim (Option-cases cr.spec.additional_metadata) [
  | inl e ↦ rw e refl
  | inr (x, e) ↦
      rw e (ground (arith, lookup-insert_all k (entries x.annotations) (entries m.annotations)))
]

aggregate-IsStandard :
    (cr : RolloutManager) (name kind : String)
    → is_aggregate_label (append "rbac.authorization.k8s.io/" kind) ≡ true
    → IsStandard cr (
        set_additional_labels_and_annotations
          (set_aggregated_cluster_role_labels (named name "") name kind)
          cr)
unfolding default_labels_and_annotations set_labels_and_annotations_to_object
    set_aggregated_cluster_role_labels set_rollouts_labels_and_annotations lookup
aggregate-IsStandard cr name kind h = record {
  kept = λ k m. elim (text_cases (append "rbac.authorization.k8s.io/" kind) k) [
    | inl e ↦
        let aggregate = subst (λ x. is_aggregate_label x ≡ true) e h in ground (arith, aggregate)
    | inr n ↦ ground (
      arith,
      m,
      ==-eq_false (append "rbac.authorization.k8s.io/" kind) k n,
      has-additional_labels (set_aggregated_cluster_role_labels (named name "") name kind) cr k,
      aggregate_own (named name "") name kind k,
      has-additional_labels (set_rollouts_labels_and_annotations (named "" "")) cr k,
      default_own k,
    )
  ];
  complete = λ k m. ground (
    arith,
    m,
    has-additional_labels (set_aggregated_cluster_role_labels (named name "") name kind) cr k,
    aggregate_own (named name "") name kind k,
    has-additional_labels (set_rollouts_labels_and_annotations (named "" "")) cr k,
    default_own k,
  );
  annotated = λ k.
      has-additional_annotations (set_aggregated_cluster_role_labels (named name "") name kind) cr k
      ∙ sym (has-additional_annotations (set_rollouts_labels_and_annotations (named "" "")) cr k);
}

set_additional-named :
    (m : ObjectMeta) (cr : RolloutManager)
    → ((set_additional_labels_and_annotations m cr).name ≡ m.name)
      × ((set_additional_labels_and_annotations m cr).namespace ≡ m.namespace)
unfolding set_additional_labels_and_annotations
set_additional-named m cr = elim (Option-cases cr.spec.additional_metadata) [
  | inl e ↦ rw e (refl, refl)
  | inr (a, e) ↦ rw e (refl, refl)
]

module _ (c : Client) (cr : RolloutManager) where
  abbrev run : String → List PolicyRule → Exec c.State (Unit {0})
  run kind rules = do ensure c cr (aggregate_target cr kind rules); pure tt

  -- What holds in a cluster with one of the aggregated roles settled.
  abbrev pub Settles : String → List PolicyRule → Exec c.State (Unit {0}) → c.State → Type 0
  Settles kind rules f s =
      (stored : Object Kind.cluster_role) × (c.get Kind.cluster_role ""
          (append "argo-rollouts-" kind) s
        ≡ answer stored)
      × (stored.body ≡ rules)
      × (f s ≡ (ok tt, s))

  settled_aggregate :
      (kind : String) (rules : List PolicyRule) (s : c.State)
      → IsSettledAt c cr (aggregate_target cr kind rules) s
      → Settles kind rules (run kind rules) s
  unfolding aggregate_target set_aggregated_cluster_role_labels
  settled_aggregate kind rules s settled =
      let m =
        set_aggregated_cluster_role_labels (named (append "argo-rollouts-" kind) "")
          (append "argo-rollouts-" kind) kind in
      let (name, ns) = set_additional-named m cr in
      (
        settled.stored,
        (rw (ns, name) at settled.found),
        rules_same _ _ settled.body_same,
        bind_returned (ensure c cr (aggregate_target cr kind rules)) (λ _. pure tt) s s
            settled.stored (ensure-IsSettledAt c cr (aggregate_target cr kind rules) s settled),
      )

  module _ (api : IsApi c) where
    aggregate-Settles :
        (kind : String) (rules : List PolicyRule) (s s' : c.State)
        → is_aggregate_label (append "rbac.authorization.k8s.io/" kind) ≡ true
        → LiveIsClean c (aggregate_target cr kind rules) s
        → run kind rules s ≡ (ok tt, s')
        → Settles kind rules (run kind rules) s'
    unfolding aggregate_target
    aggregate-Settles kind rules s s' label clean h =
        let t = aggregate_target cr kind rules in
        let (o, s1, ran, last) = bind_inv (ensure c cr t) (λ _. pure tt) s tt s' h in
        let same = ap (λ (p : Result (Unit {0}) × c.State). p.1) last in
        settled_aggregate kind rules s' (
          subst (IsSettledAt c cr t) same (
            ensure-settles c cr t
              (aggregate-IsStandard cr (append "argo-rollouts-" kind) kind label)
              (record {
                fixed = λ b. rules_differ_refl rules;
                expected = rules_differ_refl rules;
                kept = λ a b e h. rw e h;
              })
              api.reference (api.reads _) s s1 o clean ran))

    -- With an API server that keeps the laws of IsApi, and a live ClusterRole
    -- argo-rollouts-aggregate-to-admin, if there is one, without an aggregate label that the
    -- expected one lacks: after a successful reconciliation that ClusterRole is stored with the
    -- admin rules, and a second reconciliation changes nothing.
    pub reconcile_aggregate_to_admin_cluster_role-Settles :
        (s s' : c.State)
        → LiveIsClean c
            (aggregate_target cr "aggregate-to-admin" get_aggregate_to_admin_policy_rules)
            s
        → reconcile_aggregate_to_admin_cluster_role c cr s ≡ (ok tt, s')
        → Settles "aggregate-to-admin" get_aggregate_to_admin_policy_rules
            (reconcile_aggregate_to_admin_cluster_role c cr)
            s'
    unfolding reconcile_aggregate_to_admin_cluster_role is_aggregate_label
    reconcile_aggregate_to_admin_cluster_role-Settles s s' clean h =
        aggregate-Settles "aggregate-to-admin" get_aggregate_to_admin_policy_rules s s' refl clean h

    -- With an API server that keeps the laws of IsApi, and a live ClusterRole
    -- argo-rollouts-aggregate-to-edit, if there is one, without an aggregate label that the
    -- expected one lacks: after a successful reconciliation that ClusterRole is stored with the
    -- edit rules, and a second reconciliation changes nothing.
    pub reconcile_aggregate_to_edit_cluster_role-Settles :
        (s s' : c.State)
        → LiveIsClean c
            (aggregate_target cr "aggregate-to-edit" get_aggregate_to_edit_policy_rules)
            s
        → reconcile_aggregate_to_edit_cluster_role c cr s ≡ (ok tt, s')
        → Settles "aggregate-to-edit" get_aggregate_to_edit_policy_rules
            (reconcile_aggregate_to_edit_cluster_role c cr)
            s'
    unfolding reconcile_aggregate_to_edit_cluster_role is_aggregate_label
    reconcile_aggregate_to_edit_cluster_role-Settles s s' clean h =
        aggregate-Settles "aggregate-to-edit" get_aggregate_to_edit_policy_rules s s' refl clean h

    -- With an API server that keeps the laws of IsApi, and a live ClusterRole
    -- argo-rollouts-aggregate-to-view, if there is one, without an aggregate label that the
    -- expected one lacks: after a successful reconciliation that ClusterRole is stored with the
    -- view rules, and a second reconciliation changes nothing.
    pub reconcile_aggregate_to_view_cluster_role-Settles :
        (s s' : c.State)
        → LiveIsClean c
            (aggregate_target cr "aggregate-to-view" get_aggregate_to_view_policy_rules)
            s
        → reconcile_aggregate_to_view_cluster_role c cr s ≡ (ok tt, s')
        → Settles "aggregate-to-view" get_aggregate_to_view_policy_rules
            (reconcile_aggregate_to_view_cluster_role c cr)
            s'
    unfolding reconcile_aggregate_to_view_cluster_role is_aggregate_label
    reconcile_aggregate_to_view_cluster_role-Settles s s' clean h =
        aggregate-Settles "aggregate-to-view" get_aggregate_to_view_policy_rules s s' refl clean h
