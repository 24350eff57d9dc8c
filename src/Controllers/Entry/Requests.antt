-- ===== src/Controllers/Entry/Requests.antt =====
-- controllers/argorollouts_controller.go: what a request does when its Namespace or its RolloutManager
-- is gone, and what an event puts on the queue.
use argo_rollouts_manager.Controllers.Cleanup.Absence.{remove_cluster_scoped_resources-Absent}
use argo_rollouts_manager.Controllers.Cleanup.{
  remove_cluster_scoped_resources_if_applicable, aggregate_role_names,
}
use argo_rollouts_manager.Controllers.Defaults.{default_argo_rollouts_resource_name}
use argo_rollouts_manager.Go.Errors.{ok, GoError, answer, refusal, Response}
use argo_rollouts_manager.Kube.Objects.{Kind, Object}
use argo_rollouts_manager.Kube.Laws.{IsApi, Absent}
use argo_rollouts_manager.Controllers.ConfigMap.{Yaml, Config}
use argo_rollouts_manager.Controllers.Deployment.{Environment}
use argo_rollouts_manager.Api.{RolloutManager}
use argo_rollouts_manager.Kube.Client.{Client}
use argo_rollouts_manager.Kube.Meta.{ObjectMeta}
use argo_rollouts_manager.Controllers.Entry.{
  enqueue_other_rollout_managers_except_obj, requests_except, Request, enqueue_all_rollout_managers,
  request_of, reconcile, reconcile_in, reconcile_manager,
}
use argo_rollouts_manager.Base.{
  ◌≡◌, List, keep, Bool, not, ◌==◌, map, ◌&&◌, ℕ, ◌∷◌, ◌⊎◌, arith, [], All, refl, inl, inr, true,
  sym, ◌∙◌,
}
use mathlib.Core.Option.{none, some}

module _ (c : Client) (env : Environment) (yaml : Yaml) (config : Config) (now : ℕ) where
  -- While the Namespace of a request is being deleted, the request changes nothing.
  pub reconcile_untouched :
      (req : Request) (s : c.State) (ns : Object Kind.namespace) (t : ℕ)
      → c.get Kind.namespace "" req.namespace s ≡ answer ns
      → ns.meta.deletion_timestamp ≡ some t
      → reconcile c env yaml config now req s ≡ (ok tt, s)
  unfolding reconcile reconcile_in
  reconcile_untouched req s ns t found deleting = rw (found, deleting) refl

  -- The Namespace of the request does not exist, or it is not being deleted and has no RolloutManager
  -- of the name.
  abbrev pub IsGone : Request → c.State → Type 0
  IsGone req s =
      Absent c Kind.namespace "" req.namespace s
      ⊎ ((ns : Object Kind.namespace) × (e : GoError) × (c.get Kind.namespace "" req.namespace s
            ≡ answer ns)
          × (ns.meta.deletion_timestamp ≡ none)
          × (c.get_rollout_manager req.namespace req.name s ≡ refusal e)
          × (e.is_not_found ≡ true))

  reconcile-IsGone :
      (req : Request) (s : c.State)
      → IsGone req s
      → reconcile c env yaml config now req s ≡ remove_cluster_scoped_resources_if_applicable c s
  unfolding reconcile reconcile_in reconcile_manager
  reconcile-IsGone req s (inl (e, missing, not_found)) = rw (missing, not_found) refl
  reconcile-IsGone req s (inr (ns, e, found, alive, missing, not_found)) =
      rw (found, alive, missing, not_found) refl

  -- With an API server that keeps the laws of IsApi: when the Namespace of a request does not
  -- exist, or it is not being deleted and has no RolloutManager of the name, then after a
  -- successful request none of the cluster-scoped objects is left to read.
  pub reconcile-Absent :
      (api : IsApi c) (req : Request) (s s' : c.State)
      → IsGone req s
      → reconcile c env yaml config now req s ≡ (ok tt, s')
      → Absent c Kind.cluster_role "" default_argo_rollouts_resource_name s'
        × All (λ n. Absent c Kind.cluster_role "" n s') aggregate_role_names
        × Absent c Kind.cluster_role_binding "" default_argo_rollouts_resource_name s'
  reconcile-Absent api req s s' gone h =
      remove_cluster_scoped_resources-Absent c api s s' (sym (reconcile-IsGone req s gone) ∙ h)

abbrev pub is_request_for : ObjectMeta → Request → Bool
is_request_for obj req = (req.name == obj.name) && (req.namespace == obj.namespace)

requests_except-keep :
    (obj : ObjectMeta) (items : List RolloutManager)
    → requests_except obj items ≡ keep (λ req. not (is_request_for obj req)) (map request_of items)
unfolding requests_except
requests_except-keep obj [] = refl
requests_except-keep obj (rm ∷ items) = ground (arith, requests_except-keep obj items)

others_of :
    (obj : ObjectMeta) (r : Response (List RolloutManager))
    → elim r [ refusal e ↦ [] | answer items ↦ requests_except obj items ]
      ≡ keep
          (λ req. not (is_request_for obj req))
          (elim r [ refusal e ↦ [] | answer items ↦ map request_of items ])
others_of obj (refusal e) = refl
others_of obj (answer items) = requests_except-keep obj items

-- The requests that are queued for an event of a RolloutManager are those for all RolloutManagers,
-- in order, without the ones for its own name and namespace; both are empty when the listing fails.
pub enqueue_other_rollout_managers_except_obj-keep :
    (c : Client) (obj : ObjectMeta) (s : c.State)
    → enqueue_other_rollout_managers_except_obj c obj s
      ≡ keep (λ req. not (is_request_for obj req)) (enqueue_all_rollout_managers c s)
unfolding enqueue_other_rollout_managers_except_obj enqueue_all_rollout_managers
enqueue_other_rollout_managers_except_obj-keep c obj s = others_of obj (c.list_rollout_managers s)
