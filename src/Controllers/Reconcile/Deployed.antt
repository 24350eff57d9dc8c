-- ===== src/Controllers/Reconcile/Deployed.antt =====
-- controllers/reconcile.go: the Deployment after a whole reconciliation.
use argo_rollouts_manager.Controllers.Defaults.{default_argo_rollouts_resource_name}
use argo_rollouts_manager.Kube.Objects.{Object, Kind}
use argo_rollouts_manager.Go.Errors.{Response}
use argo_rollouts_manager.Api.{RolloutManager}
use argo_rollouts_manager.Controllers.ConfigMap.{Yaml, Config}
use argo_rollouts_manager.Controllers.Deployment.{Environment}
use argo_rollouts_manager.Kube.Laws.{IsApi}
use argo_rollouts_manager.Kube.Client.{Client}

module _ (c : Client) (api : IsApi c) (env : Environment) (yaml : Yaml) (config : Config)
    (cr : RolloutManager) where
  -- The Deployment that is read.
  abbrev deployment_at : c.State → Response (Object Kind.deployment)
  deployment_at s = c.get Kind.deployment cr.meta.namespace default_argo_rollouts_resource_name s
