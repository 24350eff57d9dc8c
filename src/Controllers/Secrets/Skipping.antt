-- ===== src/Controllers/Secrets/Skipping.antt =====
-- controllers/resources.go: the notification Secret when its deployment is skipped.
use argo_rollouts_manager.Go.Exec.{send_inv}
use argo_rollouts_manager.Controllers.Live.Settling.{fetch_object-get}
use argo_rollouts_manager.Go.Errors.{answer, ok, GoError, refusal}
use argo_rollouts_manager.Controllers.Defaults.{default_rollouts_notification_secret_name}
use argo_rollouts_manager.Kube.Objects.{Object, Kind}
use argo_rollouts_manager.Kube.Laws.{IsApi}
use argo_rollouts_manager.Controllers.Secrets.{
  reconcile_rollouts_secrets, reconcile_live_secret, is_owned_by,
}
use argo_rollouts_manager.Api.{RolloutManager}
use argo_rollouts_manager.Go.StringMaps.{StringMap}
use argo_rollouts_manager.Kube.Client.{Client}
use argo_rollouts_manager.Base.{◌≡◌, true}

module _ (c : Client) (resource_labels : StringMap) (cr : RolloutManager) where
  -- With an API server that keeps the laws of IsApi, while the deployment of the Secret is skipped:
  -- after a successful run on a Secret that the RolloutManager owns there is no such Secret to
  -- read.
  pub reconcile_rollouts_secrets_removed :
      (api : IsApi c) (s s' : c.State) (skip : cr.spec.skip_notification_secret_deployment ≡ true)
      (live : Object Kind.secret)
      → c.get Kind.secret cr.meta.namespace default_rollouts_notification_secret_name s
        ≡ answer live
      → is_owned_by cr live.meta ≡ true
      → reconcile_rollouts_secrets c resource_labels cr s ≡ (ok tt, s')
      → (e : GoError) × (c.get Kind.secret cr.meta.namespace
            default_rollouts_notification_secret_name s'
          ≡ refusal e)
        × (e.is_not_found ≡ true)
  unfolding reconcile_rollouts_secrets reconcile_live_secret
  reconcile_rollouts_secrets_removed api s s' skip live found owned h =
      let (name, ns) = (api.reads Kind.secret).named _ _ s live found in
      let run =
        (rw
          (
            fetch_object-get c Kind.secret cr.meta.namespace
                default_rollouts_notification_secret_name s,
            found,
            skip,
            owned,
          )
          at h) in
      let gone =
        (api.deletes Kind.secret).gone live.meta.namespace live.meta.name s s' (
          send_inv (λ e. e) (c.delete Kind.secret live.meta.namespace live.meta.name) s s' tt
            run) in
      (rw (name, ns) at gone)
