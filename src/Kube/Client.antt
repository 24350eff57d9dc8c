-- ===== src/Kube/Client.antt =====
-- The Kubernetes API as the operator calls it through controller-runtime: a parameter of the
-- model. A read does not change the cluster; a write answers and leaves the cluster changed.
use argo_rollouts_manager.Base.{String, List}
use argo_rollouts_manager.Go.Errors.{Response}
use argo_rollouts_manager.Go.StringMaps.{StringMap}
use argo_rollouts_manager.Kube.Meta.{ObjectMeta}
use argo_rollouts_manager.Kube.Objects.{Kind, Object}
use argo_rollouts_manager.Api.{RolloutManager}

-- Objects are named by namespace, empty for cluster-scoped kinds, and name. `create` and `update`
-- answer with the object as the server has stored it. `set_controller_reference owner obj` is
-- `controllerutil.SetControllerReference` with the manager's scheme.
pub record Client : Type 1 where
  pub State : Type 0
  pub get : (k : Kind) → String → String → State → Response (Object k)
  pub create : (k : Kind) → Object k → State → Response (Object k) × State
  pub update : (k : Kind) → Object k → State → Response (Object k) × State
  pub delete : (k : Kind) → String → String → State → Response (Unit {0}) × State
  pub list_pods : String → StringMap → State → Response (List (Object Kind.pod))
  pub get_rollout_manager : String → String → State → Response RolloutManager
  pub list_rollout_managers : State → Response (List RolloutManager)
  pub update_status : RolloutManager → State → Response (Unit {0}) × State
  pub set_controller_reference : ObjectMeta → ObjectMeta → Response ObjectMeta
