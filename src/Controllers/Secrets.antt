-- ===== src/Controllers/Secrets.antt =====
-- controllers/resources.go: the notification Secret.
pub mod Skipping
use argo_rollouts_manager.Controllers.Rbac.{named}
use argo_rollouts_manager.Controllers.Defaults.{default_rollouts_notification_secret_name}
use argo_rollouts_manager.Controllers.Metadata.{
  set_custom_labels, set_labels_and_annotations_to_object,
}
use argo_rollouts_manager.Base.{Bool, some, none, false, if◌then◌else◌, ◌==◌, not, true}
use argo_rollouts_manager.Kube.Objects.{Object, Kind}
use argo_rollouts_manager.Kube.Meta.{ObjectMeta}
use argo_rollouts_manager.Controllers.Live.{Target, fetch_object, create_expected, update_live}
use argo_rollouts_manager.Go.Errors.{Response, refusal, wrap, answer}
use argo_rollouts_manager.Go.StringMaps.{StringMap}
use argo_rollouts_manager.Api.{RolloutManager}
use argo_rollouts_manager.Kube.Client.{Client}
use argo_rollouts_manager.Go.Exec.{◌>>=◌, ◌>>◌, Exec, ask, raise, pure, send, or_raise}

abbrev pub resource_labelled : StringMap → ObjectMeta → ObjectMeta
resource_labelled none m = m
resource_labelled (some labels) m = set_custom_labels m (some labels)

-- The Secret that is expected; `resource_labels` is the field `ResourceLabels` of the reconciler.
unfoldable pub secret_target : StringMap → RolloutManager → Target Kind.secret
secret_target resource_labels cr = record {
  expected = record {
    meta = resource_labelled resource_labels (
        set_labels_and_annotations_to_object
          (named default_rollouts_notification_secret_name cr.meta.namespace) cr);
    body = "Opaque";
  };
  owned = true;
  body_differs = λ b. false;
  fix_body = λ b. b;
  fetch_error = wrap "failed to get the Secret argo-rollouts-notification-secret: ";
  reference_error = λ e. e;
  create_error = λ e. e;
  update_error = λ e. e;
}

-- `controller != nil && controller.Name == cr.Name`
abbrev pub is_owned_by : RolloutManager → ObjectMeta → Bool
is_owned_by cr m = elim m.controller [ none ↦ false | some owner ↦ owner == cr.meta.name ]

module _ (c : Client) (resource_labels : StringMap) (cr : RolloutManager) where
  open c use {State, delete}

  unfoldable pub reconcile_live_secret : Response (Object Kind.secret) → Exec State (Unit {0})
  reconcile_live_secret (refusal e) =
      if not e.is_not_found
      then raise ((secret_target resource_labels cr).fetch_error e)
      else if cr.spec.skip_notification_secret_deployment
      then pure tt
      else (do create_expected c cr (secret_target resource_labels cr); pure tt)
  reconcile_live_secret (answer live) =
      if cr.spec.skip_notification_secret_deployment
      then (if is_owned_by cr live.meta
          then (do
            deleted ← send (delete Kind.secret live.meta.namespace live.meta.name)
            or_raise (λ e. e) deleted)
          else pure tt)
      else (do update_live c cr (secret_target resource_labels cr) live; pure tt)

  -- `reconcileRolloutsSecrets`
  unfoldable pub reconcile_rollouts_secrets : Exec State (Unit {0})
  reconcile_rollouts_secrets = do
    found ←
        ask (fetch_object c Kind.secret cr.meta.namespace default_rollouts_notification_secret_name)
    reconcile_live_secret found
