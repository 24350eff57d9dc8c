-- ===== src/Controllers/Cleanup/Absence.antt =====
-- controllers/resources.go: what `removeClusterScopedResourcesIfApplicable` leaves behind.
use argo_rollouts_manager.Controllers.Defaults.{default_argo_rollouts_resource_name}
use argo_rollouts_manager.Go.Exec.{bind_inv}
use argo_rollouts_manager.Go.Errors.{Response, ok, refusal, answer}
use argo_rollouts_manager.Kube.Objects.{Kind, Object}
use argo_rollouts_manager.Controllers.Cleanup.{
  delete_if_present, delete_found, delete_each, unless_missing,
  remove_cluster_scoped_resources_if_applicable, aggregate_role_names,
}
use argo_rollouts_manager.Kube.Laws.{IsApi, Absent}
use argo_rollouts_manager.Kube.Client.{Client}
use argo_rollouts_manager.Go.Exec.{◌>>◌}
use argo_rollouts_manager.Base.{
  ◌≡◌, List, String, ◌⊎◌, ◌≢◌, All, ◌∷◌, subst, refl, Bool-cases, ap, inl, [], inr, arith,
  text_cases, ◌∙◌,
}

module _ (c : Client) (api : IsApi c) where
  -- A delete that is not refused, or refused because there is nothing, leaves nothing.
  unless_missing-Absent :
      (k : Kind) (name : String) (s s1 s' : c.State) (r : Response (Unit {0}))
      → c.delete k "" name s ≡ (r, s1)
      → unless_missing c r s1 ≡ (ok tt, s')
      → (s1 ≡ s') × Absent c k "" name s'
  unless_missing-Absent k name s s1 s' (answer tt) sent h =
      let same = ap (λ p. p.1) h in
      (same, subst (Absent c k "" name) same ((api.deletes k).gone "" name s s1 sent))
  unless_missing-Absent k name s s1 s' (refusal e) sent h = elim (Bool-cases e.is_not_found) [
    | inl m ↦
        let same : s1 ≡ s' = ground (arith, h, m) in
        (same, subst (Absent c k "" name) same ((api.deletes k).missing "" name s s1 e sent m))
    | inr m ↦ ground arith
  ]

  -- After a block there is nothing of its name, and the cluster is unchanged or has had an object
  -- of that name deleted.
  delete_found-Absent :
      (k : Kind) (name : String) (s s' : c.State) (r : Response (Object k))
      → c.get k "" name s ≡ r
      → delete_found c k r s ≡ (ok tt, s')
      → ((s ≡ s') ⊎ ((c.delete k "" name s).1 ≡ s')) × Absent c k "" name s'
  unfolding delete_found
  delete_found-Absent k name s s' (refusal e) found h = elim (Bool-cases e.is_not_found) [
    | inl m ↦
        let same : s ≡ s' = ground (arith, h, m) in
        (inl same, subst (Absent c k "" name) same (e, found, m))
    | inr m ↦ ground arith
  ]
  delete_found-Absent k name s s' (answer live) found h =
      let (name_same, ns_same) = (api.reads k).named "" name s live found in
      let (same, absent) =
        unless_missing-Absent k name s _ s' _ refl (rw (ns_same, name_same) at h) in
      (inr same, absent)

  delete_if_present-Absent :
      (k : Kind) (name : String) (s s' : c.State)
      → delete_if_present c k name s ≡ (ok tt, s')
      → ((s ≡ s') ⊎ ((c.delete k "" name s).1 ≡ s')) × Absent c k "" name s'
  unfolding delete_if_present
  delete_if_present-Absent k name s s' h = delete_found-Absent k name s s' _ refl h

  -- What is absent stays absent while other objects are deleted.
  same_kind-stays :
      (k : Kind) (name other : String) (s s' : c.State)
      → delete_if_present c k name s ≡ (ok tt, s')
      → Absent c k "" other s
      → Absent c k "" other s'
  same_kind-stays k name other s s' h (e, found, missing) =
      let (changed, gone) = delete_if_present-Absent k name s s' h in
      elim (text_cases name other) [
        | inl same ↦ subst (λ n. Absent c k "" n s') same gone
        | inr differ ↦ elim changed [
          | inl kept ↦ subst (Absent c k "" other) kept (e, found, missing)
          | inr deleted ↦
              subst (Absent c k "" other) deleted
                (e, (api.deletes k).others "" name "" other s differ ∙ found, missing)
        ]
      ]

  other_kind-stays :
      (k j : Kind) (name other : String) (s s' : c.State)
      → k ≢ j
      → delete_if_present c k name s ≡ (ok tt, s')
      → Absent c j "" other s
      → Absent c j "" other s'
  other_kind-stays k j name other s s' differ h (e, found, missing) =
      let (changed, gone) = delete_if_present-Absent k name s s' h in
      elim changed [
        | inl kept ↦ subst (Absent c j "" other) kept (e, found, missing)
        | inr deleted ↦
            subst (Absent c j "" other) deleted
              (e, (api.isolates k j differ).deleted "" name s "" other ∙ found, missing)
      ]

  delete_each-stays :
      (k : Kind) (names : List String) (other : String) (s s' : c.State)
      → delete_each c k names s ≡ (ok tt, s')
      → Absent c k "" other s
      → Absent c k "" other s'
  unfolding delete_each
  delete_each-stays k [] other s s' h absent = subst (Absent c k "" other) (ap (λ p. p.1) h) absent
  delete_each-stays k (n ∷ names) other s s' h absent =
      let (u, s1, first, rest) =
        bind_inv (delete_if_present c k n) (λ _. delete_each c k names) s tt s' h in
      delete_each-stays k names other s1 s' rest (same_kind-stays k n other s s1 first absent)

  delete_each-Absent :
      (k : Kind) (names : List String) (s s' : c.State)
      → delete_each c k names s ≡ (ok tt, s')
      → All (λ n. Absent c k "" n s') names
  unfolding delete_each
  delete_each-Absent k [] s s' h = tt
  delete_each-Absent k (n ∷ names) s s' h =
      let (u, s1, first, rest) =
        bind_inv (delete_if_present c k n) (λ _. delete_each c k names) s tt s' h in
      (
        delete_each-stays k names n s1 s' rest (delete_if_present-Absent k n s s1 first).1,
        delete_each-Absent k names s1 s' rest,
      )

  All-stay :
      (k j : Kind) (name : String) (names : List String) (s s' : c.State)
      → k ≢ j
      → delete_if_present c k name s ≡ (ok tt, s')
      → All (λ n. Absent c j "" n s) names
      → All (λ n. Absent c j "" n s') names
  All-stay k j name [] s s' differ h all = tt
  All-stay k j name (n ∷ names) s s' differ h (first, rest) =
      (other_kind-stays k j name n s s' differ h first, All-stay k j name names s s' differ h rest)

  -- With an API server that keeps the laws of IsApi, after a successful removal none of the
  -- cluster-scoped objects of a RolloutManager is left to read: its ClusterRole, the three
  -- aggregated ClusterRoles and its ClusterRoleBinding.
  pub remove_cluster_scoped_resources-Absent :
      (s s' : c.State)
      → remove_cluster_scoped_resources_if_applicable c s ≡ (ok tt, s')
      → Absent c Kind.cluster_role "" default_argo_rollouts_resource_name s'
        × All (λ n. Absent c Kind.cluster_role "" n s') aggregate_role_names
        × Absent c Kind.cluster_role_binding "" default_argo_rollouts_resource_name s'
  unfolding remove_cluster_scoped_resources_if_applicable
  remove_cluster_scoped_resources-Absent s s' h =
      let role = default_argo_rollouts_resource_name in
      let last = delete_if_present c Kind.cluster_role_binding role in
      let each = delete_each c Kind.cluster_role aggregate_role_names in
      let (u, s1, first, after) =
        bind_inv (delete_if_present c Kind.cluster_role role) (λ _. each >> last) s tt s' h in
      let (v, s2, aggregates, binding) = bind_inv each (λ _. last) s1 tt s' after in
      let kinds : Kind.cluster_role_binding ≢ Kind.cluster_role = cc in
      (
        other_kind-stays _ _ role role s2 s' kinds binding (
            delete_each-stays Kind.cluster_role aggregate_role_names role s1 s2 aggregates
              (delete_if_present-Absent Kind.cluster_role role s s1 first).1),
        All-stay _ _ role aggregate_role_names s2 s' kinds binding
            (delete_each-Absent Kind.cluster_role aggregate_role_names s1 s2 aggregates),
        (delete_if_present-Absent Kind.cluster_role_binding role s2 s' binding).1,
      )
