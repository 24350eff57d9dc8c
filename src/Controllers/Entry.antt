-- ===== src/Controllers/Entry.antt =====
-- controllers/argorollouts_controller.go: `Reconcile`, and which RolloutManagers an event of a watched
-- object brings back to the queue.
pub mod Requests
use argo_rollouts_manager.Controllers.Conditions.{update_status_condition}
use argo_rollouts_manager.Kube.Objects.{Object, Kind}
use argo_rollouts_manager.Controllers.Reconcile.{reconcile_rollouts_manager}
use argo_rollouts_manager.Controllers.Cleanup.{remove_cluster_scoped_resources_if_applicable}
use argo_rollouts_manager.Controllers.ConfigMap.{Yaml, Config}
use argo_rollouts_manager.Go.Errors.{refusal, answer, Response}
use argo_rollouts_manager.Controllers.Deployment.{Environment}
use argo_rollouts_manager.Api.{RolloutManager}
use argo_rollouts_manager.Kube.Meta.{ObjectMeta}
use argo_rollouts_manager.Kube.Client.{Client}
use argo_rollouts_manager.Base.{
  ◌≡◌, String, Bool, List, true, false, ◌∷◌, [], if◌then◌else◌, ℕ, ◌==◌, map, ◌&&◌,
}
use mathlib.Core.Option.{none, some}
use argo_rollouts_manager.Go.Exec.{◌>>=◌, ◌>>◌, Exec, ask, raise, pure}

-- `ctrl.Request`
pub record Request : Type 0 where
  pub namespace : String
  pub name : String

-- `client.ObjectKeyFromObject(&rm)`
abbrev pub request_of : RolloutManager → Request
request_of rm = record { namespace = rm.meta.namespace; name = rm.meta.name }

module _ (c : Client) (env : Environment) (yaml : Yaml) (config : Config) (now : ℕ) where
  open c use {State, get, get_rollout_manager}

  -- The status is written before the error of the reconciliation is returned.
  unfoldable pub reconcile_found : RolloutManager → Exec State (Unit {0})
  reconcile_found rm = do
    outcome ← reconcile_rollouts_manager c env yaml config rm
    update_status_condition c now outcome.0 rm
    elim outcome.1 [ none ↦ pure tt | some e ↦ raise e ]

  unfoldable pub reconcile_manager : Response RolloutManager → Exec State (Unit {0})
  reconcile_manager (answer rm) = reconcile_found rm
  reconcile_manager (refusal e) =
      if e.is_not_found then remove_cluster_scoped_resources_if_applicable c else raise e

  unfoldable pub reconcile_in : Request → Response (Object Kind.namespace) → Exec State (Unit {0})
  reconcile_in req (refusal e) =
      if e.is_not_found then remove_cluster_scoped_resources_if_applicable c else raise e
  reconcile_in req (answer ns) = elim ns.meta.deletion_timestamp [
    | some t ↦ pure tt
    | none ↦ (do found ← ask (get_rollout_manager req.namespace req.name); reconcile_manager found)
  ]

  -- `Reconcile`; its `ctrl.Result` is always empty.
  unfoldable pub reconcile : Request → Exec State (Unit {0})
  reconcile req = do ns ← ask (get Kind.namespace "" req.namespace); reconcile_in req ns

-- `event.CreateEvent`, `event.DeleteEvent`, `event.UpdateEvent` and `event.GenericEvent`
pub data Event : Type 0 where
  create_event delete_event update_event generic_event : Event

-- `createdOrDeletedPredicate`
unfoldable pub created_or_deleted_predicate : Event → Bool
created_or_deleted_predicate create_event = true
created_or_deleted_predicate delete_event = true
created_or_deleted_predicate generic_event = false
created_or_deleted_predicate update_event = false

-- The loop of `enqueueOtherRolloutManagersExceptObj`.
unfoldable pub requests_except : ObjectMeta → List RolloutManager → List Request
requests_except obj [] = []
requests_except obj (rm ∷ items) =
    if (rm.meta.name == obj.name) && (rm.meta.namespace == obj.namespace)
    then requests_except obj items
    else request_of rm ∷ requests_except obj items

-- `enqueueOtherRolloutManagersExceptObj`
unfoldable pub enqueue_other_rollout_managers_except_obj :
    (c : Client) → ObjectMeta → c.State → List Request
enqueue_other_rollout_managers_except_obj c obj s = elim (c.list_rollout_managers s) [
  | refusal e ↦ []
  | answer items ↦ requests_except obj items
]

-- `enqueueAllRolloutManagers`
unfoldable pub enqueue_all_rollout_managers : (c : Client) → c.State → List Request
enqueue_all_rollout_managers c s = elim (c.list_rollout_managers s) [
  | refusal e ↦ []
  | answer items ↦ map request_of items
]
