-- ===== src/Controllers/Deployment/Convergence.antt =====
-- controllers/deployment.go: the reconciliation of the Deployment, run twice.
use argo_rollouts_manager.Controllers.Deployment.Compare.Difference.{deployments_alike}
use argo_rollouts_manager.Controllers.Live.Settling.{fetch_object-get}
use argo_rollouts_manager.Go.Errors.{answer, ok}
use argo_rollouts_manager.Controllers.Deployment.{Environment, generate_desired_rollouts_deployment}
use argo_rollouts_manager.Kube.Client.{Client}
use argo_rollouts_manager.Controllers.Deployment.Settling.{Response-cases}
use argo_rollouts_manager.Controllers.Defaults.{default_argo_rollouts_resource_name}
use argo_rollouts_manager.Controllers.Deployment.Reconcile.{
  deployment_differs, reconcile_rollouts_deployment, update_deployment, create_or_update_deployment,
}
use argo_rollouts_manager.Kube.Objects.{Object, Kind}
use argo_rollouts_manager.Go.StringMaps.{get}
use argo_rollouts_manager.Controllers.Deployment.Normal.{normalize_deployment}
use argo_rollouts_manager.Api.{RolloutManager}
use argo_rollouts_manager.Base.{◌≡◌, true, refl, is_some, arith, inl, inr, false}

-- The normal form of a stored Deployment is what reflect.DeepEqual takes for the desired one.
abbrev pub HasForm : RolloutManager → Object Kind.deployment → Object Kind.deployment → Type 0
HasForm cr desired stored =
    (normal : Object Kind.deployment) × (normalize_deployment stored cr ≡ answer normal)
    × (deployments_alike normal desired ≡ true)

pub HasForm-deployment_differs :
    (cr : RolloutManager) (desired stored : Object Kind.deployment)
    → normalize_deployment desired cr ≡ answer desired
    → deployment_differs cr stored desired ≡ false
    → HasForm cr desired stored
unfolding deployment_differs
HasForm-deployment_differs cr desired stored own h =
    elim (Response-cases (normalize_deployment stored cr)) [
      | inl (n, e) ↦ let alike = (rw (e, own) at h) in (n, e, ground arith)
      | inr (x, e) ↦ cc (rw e at h)
    ]

module _ (c : Client) (cr : RolloutManager) (env : Environment) (sa : Object Kind.service_account)
    (desired : Object Kind.deployment)
    (generated : generate_desired_rollouts_deployment env cr sa ≡ answer desired) where
  -- Nothing is written while the live Deployment does not differ from the generated one.
  pub reconcile_rollouts_deployment_untouched :
      (s : c.State) (stored : Object Kind.deployment)
      → c.get Kind.deployment cr.meta.namespace default_argo_rollouts_resource_name s
        ≡ answer stored
      → deployment_differs cr stored desired ≡ false
      → reconcile_rollouts_deployment c cr env sa s ≡ (ok tt, s)
  unfolding reconcile_rollouts_deployment create_or_update_deployment update_deployment
  reconcile_rollouts_deployment_untouched s stored found same =
      rw
        (
          generated,
          fetch_object-get c Kind.deployment cr.meta.namespace default_argo_rollouts_resource_name
              s,
          found,
          same,
        )
        refl

  -- There is a Deployment that does not differ from the desired one, and it is left alone.
  abbrev pub IsDeployedAt : c.State → Type 0
  IsDeployedAt s =
      (stored : Object Kind.deployment) × (c.get Kind.deployment cr.meta.namespace
          default_argo_rollouts_resource_name s
        ≡ answer stored)
      × HasForm cr desired stored
      × (deployment_differs cr stored desired ≡ false)
      × (reconcile_rollouts_deployment c cr env sa s ≡ (ok tt, s))

  -- The API server reports the annotations of the Deployment as a map that is not nil.
  abbrev pub Annotates : c.State → Type 0
  Annotates s =
      (stored : Object Kind.deployment)
      → c.get Kind.deployment cr.meta.namespace default_argo_rollouts_resource_name s
        ≡ answer stored
      → is_some stored.meta.annotations ≡ true
