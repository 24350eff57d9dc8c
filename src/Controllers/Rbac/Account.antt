-- ===== src/Controllers/Rbac/Account.antt =====
-- controllers/resources.go: the service account after a successful reconciliation.
use argo_rollouts_manager.Controllers.Metadata.Lookups.{set_labels_and_annotations_to_object-named}
use argo_rollouts_manager.Controllers.Metadata.{set_labels_and_annotations_to_object}
use argo_rollouts_manager.Controllers.Metadata.Convergence.{
  IsSettled, metadata_differs_iff, set-IsStandard,
}
use argo_rollouts_manager.Go.Errors.{ok, answer}
use argo_rollouts_manager.Controllers.Defaults.{default_argo_rollouts_resource_name}
use argo_rollouts_manager.Kube.Objects.{Object, Kind}
use argo_rollouts_manager.Controllers.Live.Settling.{
  IsSettledAt, LiveIsClean, ensure-settles, ensure-IsSettledAt,
}
use argo_rollouts_manager.Controllers.Rbac.{
  reconcile_rollouts_service_account, service_account_target, named,
}
use argo_rollouts_manager.Api.{RolloutManager}
use argo_rollouts_manager.Kube.Laws.{IsApi}
use argo_rollouts_manager.Kube.Client.{Client}
use argo_rollouts_manager.Base.{◌≡◌, refl}

module _ (c : Client) (api : IsApi c) (cr : RolloutManager) where
  account-IsSettled :
      (s : c.State)
      → IsSettledAt c cr (service_account_target cr) s
      → (stored : Object Kind.service_account) × (c.get Kind.service_account cr.meta.namespace
            default_argo_rollouts_resource_name s
          ≡ answer stored)
        × IsSettled cr stored.meta (
            set_labels_and_annotations_to_object
              (named default_argo_rollouts_resource_name cr.meta.namespace)
              cr)
        × (reconcile_rollouts_service_account c cr s ≡ (ok stored, s))
  unfolding reconcile_rollouts_service_account service_account_target
  account-IsSettled s settled =
      let (name, ns) =
        set_labels_and_annotations_to_object-named
          (named default_argo_rollouts_resource_name cr.meta.namespace) cr in
      (
        settled.stored,
        (rw (ns, name) at settled.found),
        (metadata_differs_iff cr settled.stored.meta _ (set-IsStandard _ cr)).0
            settled.metadata_same,
        ensure-IsSettledAt c cr (service_account_target cr) s settled,
      )

  -- With an API server that keeps the laws of IsApi, and a live service account, if there is one,
  -- without an aggregate label that the expected one lacks: after a successful reconciliation there
  -- is a service account in the namespace of the RolloutManager that has the expected value under
  -- every key of its labels and annotations that the operator is responsible for, and a second
  -- reconciliation changes nothing and returns it.
  pub reconcile_rollouts_service_account-IsSettled :
      (s s' : c.State) (o : Object Kind.service_account)
      → LiveIsClean c (service_account_target cr) s
      → reconcile_rollouts_service_account c cr s ≡ (ok o, s')
      → (stored : Object Kind.service_account) × (c.get Kind.service_account cr.meta.namespace
            default_argo_rollouts_resource_name s'
          ≡ answer stored)
        × IsSettled cr stored.meta (
            set_labels_and_annotations_to_object
              (named default_argo_rollouts_resource_name cr.meta.namespace)
              cr)
        × (reconcile_rollouts_service_account c cr s' ≡ (ok stored, s'))
  unfolding reconcile_rollouts_service_account service_account_target
  reconcile_rollouts_service_account-IsSettled s s' o clean h = account-IsSettled s' (
      ensure-settles c cr (service_account_target cr) (set-IsStandard _ cr)
        (record { fixed = λ b. refl; expected = refl; kept = λ a b e h. refl }) api.reference
        (api.reads _) s s' o clean h)
