-- ===== src/Controllers/NetworkPolicy/Frame.antt =====
-- controllers/resources.go: what the reconciliation of the NetworkPolicy leaves alone.
use argo_rollouts_manager.Controllers.Defaults.{default_rollouts_network_policy}
use argo_rollouts_manager.Controllers.Live.Frame.{ensure_keeps}
use argo_rollouts_manager.Controllers.Live.{ensure, fetch_object}
use argo_rollouts_manager.Go.Keeping.{Keeps, if-Keeps, bind-Keeps, or_raise-Keeps}
use argo_rollouts_manager.Go.Errors.{Response, answer, refusal}
use argo_rollouts_manager.Controllers.NetworkPolicy.{
  delete_network_policy, reconcile_rollouts_network_policy, delete_rollouts_network_policies,
  network_policy_target,
}
use argo_rollouts_manager.Kube.Objects.{Object, Kind}
use argo_rollouts_manager.Api.{RolloutManager, is_enabled}
use argo_rollouts_manager.Kube.Client.{Client}
use argo_rollouts_manager.Base.{String}
use argo_rollouts_manager.Go.Exec.{◌>>=◌, send, or_raise, pure, raise}

module _ (c : Client) (cr : RolloutManager) (P : c.State → Type 0)
    (creates : (o : Object Kind.network_policy) (s : c.State)
      → P s
      → P (c.create Kind.network_policy o s).1)
    (updates : (o : Object Kind.network_policy) (s : c.State)
      → P s
      → P (c.update Kind.network_policy o s).1)
    (deletes : (ns name : String) (s : c.State)
      → P s
      → P (c.delete Kind.network_policy ns name s).1) where
  delete-Keeps : (r : Response (Object Kind.network_policy)) → Keeps P (delete_network_policy c r)
  unfolding delete_network_policy
  delete-Keeps (answer existing) =
      bind-Keeps P (send (c.delete Kind.network_policy existing.meta.namespace existing.meta.name))
        (λ r. or_raise (λ e. e) r) (deletes existing.meta.namespace existing.meta.name)
        (λ r. or_raise-Keeps P (λ e. e) r)
  delete-Keeps (refusal e) = if-Keeps P e.is_not_found (pure tt) (raise e) (λ s h. h) (λ s h. h)

  -- Whatever the writes of network policies keep, their reconciliation keeps.
  pub reconcile_rollouts_network_policy-Keeps : Keeps P (reconcile_rollouts_network_policy c cr)
  unfolding reconcile_rollouts_network_policy delete_rollouts_network_policies
  reconcile_rollouts_network_policy-Keeps =
      if-Keeps P (is_enabled cr.spec.network_policy)
        (ensure c cr (network_policy_target cr) >>= λ _. pure tt)
        (delete_rollouts_network_policies c cr)
        (bind-Keeps P (ensure c cr (network_policy_target cr)) (λ _. pure tt)
          (ensure_keeps c cr (network_policy_target cr) P creates updates) (λ _ s h. h))
        (λ s h.
          delete-Keeps
            (fetch_object c Kind.network_policy cr.meta.namespace default_rollouts_network_policy s)
            s h)
