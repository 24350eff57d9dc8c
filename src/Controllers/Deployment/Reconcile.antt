-- ===== src/Controllers/Deployment/Reconcile.antt =====
-- controllers/deployment.go: `reconcileRolloutsDeployment`. What is only logged is left out.
use argo_rollouts_manager.Controllers.Defaults.{default_argo_rollouts_resource_name}
use argo_rollouts_manager.Controllers.Live.{fetch_object}
use argo_rollouts_manager.Controllers.Deployment.Compare.Pods.{selectors_alike}
use argo_rollouts_manager.Controllers.Deployment.Compare.Difference.{deployments_alike}
use argo_rollouts_manager.Controllers.Deployment.Compare.{options_alike}
use argo_rollouts_manager.Controllers.Metadata.{merge_metadata}
use argo_rollouts_manager.Controllers.Deployment.Normal.{normalize_deployment}
use argo_rollouts_manager.Controllers.Rbac.{named}
use argo_rollouts_manager.Controllers.Deployment.{Environment, generate_desired_rollouts_deployment}
use argo_rollouts_manager.Api.{RolloutManager}
use argo_rollouts_manager.Kube.Client.{Client}
use argo_rollouts_manager.Go.Errors.{Response, answer, refusal, wrap, append}
use argo_rollouts_manager.Kube.Workload.{DeploymentSpec}
use argo_rollouts_manager.Kube.Objects.{Object, Kind}
use argo_rollouts_manager.Base.{Bool, not, false, ◌||◌, if◌then◌else◌, [], true}
use mathlib.Core.Option.{none}
use argo_rollouts_manager.Go.Exec.{◌>>=◌, ◌>>◌, Exec, or_raise, send, pure, raise, ask}

-- `appsv1.Deployment{}`
abbrev zero_deployment : Object Kind.deployment
zero_deployment = record {
  meta = named "" "";
  body = record {
    spec = record {
      replicas = none;
      selector = none;
      template = record {
        labels = none;
        annotations = none;
        spec = record {
          node_selector = none;
          tolerations = none;
          service_account_name = "";
          security_context = none;
          containers = [];
          volumes = [];
          affinity = none;
          other = "";
        };
      };
      strategy = record { strategy_type = ""; rolling_update = none };
      other = "";
    };
    ready_replicas = 0;
  };
}

-- The Deployment that `normalizeDeployment` returns, with or without an error.
abbrev pub returned_normal : Response (Object Kind.deployment) → Object Kind.deployment
returned_normal (answer d) = d
returned_normal (refusal e) = zero_deployment

abbrev has_failed : {A : Type 0} → Response A → Bool
has_failed (answer a) = false
has_failed (refusal e) = true

-- `err != nil || !reflect.DeepEqual(normalizedActualDeployment, normalizedDesiredDeployment)`
unfoldable pub deployment_differs :
    RolloutManager → Object Kind.deployment → Object Kind.deployment → Bool
deployment_differs cr actual desired =
    let normal = normalize_deployment actual cr in
    has_failed normal
    || not (
        deployments_alike (returned_normal normal)
          (returned_normal (normalize_deployment desired cr)))

-- `!reflect.DeepEqual(…)` on the selectors of the two normal forms.
unfoldable pub selector_differs :
    RolloutManager → Object Kind.deployment → Object Kind.deployment → Bool
selector_differs cr actual desired = not (
    options_alike selectors_alike
      (returned_normal (normalize_deployment actual cr)).body.spec.selector
      (returned_normal (normalize_deployment desired cr)).body.spec.selector)

-- The fields of `actualDeployment.Spec` that are copied from the desired Deployment.
unfoldable pub copy_spec : DeploymentSpec → DeploymentSpec → DeploymentSpec
copy_spec actual desired =
    let pod = actual.template.spec in
    let want = desired.template.spec in
    record actual {
      strategy = desired.strategy;
      replicas = desired.replicas;
      selector = desired.selector;
      template = record {
        labels = desired.template.labels;
        annotations = desired.template.annotations;
        spec = record pod {
          containers = want.containers;
          service_account_name = want.service_account_name;
          affinity = want.affinity;
          node_selector = want.node_selector;
          tolerations = want.tolerations;
          security_context = want.security_context;
          volumes = want.volumes;
        };
      };
    }

-- The live Deployment with what the operator sets copied over it.
unfoldable pub updated_deployment :
    Object Kind.deployment → Object Kind.deployment → Object Kind.deployment
updated_deployment actual desired = record {
  meta = merge_metadata actual.meta desired.meta;
  body = record actual.body { spec = copy_spec actual.body.spec desired.body.spec };
}

module _ (c : Client) (cr : RolloutManager) where
  open c use {State, create, update, delete, set_controller_reference}

  -- `createNewRolloutsDeployment`
  unfoldable pub create_new_rollouts_deployment : Object Kind.deployment → Exec State (Unit {0})
  create_new_rollouts_deployment desired = do
    owned ← or_raise (λ e. e) (set_controller_reference cr.meta desired.meta)
    created ← send (create Kind.deployment (record desired { meta = owned }))
    or_raise (λ e. e) created
    pure tt

  unfoldable pub recreate_deployment : Object Kind.deployment → Exec State (Unit {0})
  recreate_deployment desired = do
    deleted ← send (delete Kind.deployment desired.meta.namespace desired.meta.name)
    or_raise (wrap "unable to delete Rollouts Deployment after .spec.selector change: ") deleted
    create_new_rollouts_deployment desired

  unfoldable pub update_deployment :
      Object Kind.deployment → Object Kind.deployment → Exec State (Unit {0})
  update_deployment actual desired =
      if not (deployment_differs cr actual desired)
      then pure tt
      else if selector_differs cr actual desired
      then recreate_deployment desired
      else (do
        updated ← send (update Kind.deployment (updated_deployment actual desired))
        or_raise (λ e. e) updated
        pure tt)

  unfoldable pub create_or_update_deployment :
      Object Kind.deployment → Response (Object Kind.deployment) → Exec State (Unit {0})
  create_or_update_deployment desired (answer actual) = update_deployment actual desired
  create_or_update_deployment desired (refusal e) =
      if e.is_not_found
      then create_new_rollouts_deployment desired
      else raise (
          wrap
            (append "failed to get the Deployment "
              (append default_argo_rollouts_resource_name ": "))
            e)

  -- `reconcileRolloutsDeployment`
  unfoldable pub reconcile_rollouts_deployment :
      Environment → Object Kind.service_account → Exec State (Unit {0})
  reconcile_rollouts_deployment env sa = do
    desired ← or_raise (λ e. e) (generate_desired_rollouts_deployment env cr sa)
    found ←
        ask (fetch_object c Kind.deployment cr.meta.namespace default_argo_rollouts_resource_name)
    create_or_update_deployment desired found
