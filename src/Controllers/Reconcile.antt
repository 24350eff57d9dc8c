-- ===== src/Controllers/Reconcile.antt =====
-- controllers/reconcile.go: the order of the whole reconciliation of a RolloutManager.
pub mod Steps
pub mod Refusal
pub mod Deployed
pub mod Reporting
use argo_rollouts_manager.Controllers.Status.{determine_status_phase}
use argo_rollouts_manager.Controllers.NetworkPolicy.{reconcile_rollouts_network_policy}
use argo_rollouts_manager.Controllers.Metrics.{reconcile_rollouts_metrics_service_and_monitor}
use argo_rollouts_manager.Controllers.Deployment.Reconcile.{reconcile_rollouts_deployment}
use argo_rollouts_manager.Controllers.ConfigMap.Reconcile.{reconcile_config_map}
use argo_rollouts_manager.Controllers.Secrets.{reconcile_rollouts_secrets}
use argo_rollouts_manager.Kube.Objects.{Object, Kind}
use argo_rollouts_manager.Controllers.Rbac.{
  reconcile_rollouts_service_account, reconcile_aggregate_to_admin_cluster_role,
  reconcile_rollouts_role, reconcile_rollouts_role_binding,
  reconcile_aggregate_to_edit_cluster_role, reconcile_rollouts_cluster_role_binding,
  reconcile_aggregate_to_view_cluster_role, reconcile_rollouts_cluster_role,
}
use argo_rollouts_manager.Controllers.Scope.{
  validate_rollouts_scope, Checked, check_for_existing_rollout_manager,
  multiple_rollout_managers_exist, invalid_rollout_scope, invalid_rollout_namespace,
}
use argo_rollouts_manager.Api.{RolloutManager}
use argo_rollouts_manager.Controllers.ConfigMap.{Yaml, Config}
use argo_rollouts_manager.Controllers.Deployment.{Environment}
use argo_rollouts_manager.Controllers.Conditions.{
  ReconcileStatusResult, wrap_condition, create_condition, reason_multiple_cluster_scoped,
  reason_invalid_scoped, reason_invalid_namespace,
}
use argo_rollouts_manager.Go.Errors.{GoError, ok, err, panic}
use argo_rollouts_manager.Kube.Meta.{Condition}
use argo_rollouts_manager.Kube.Client.{Client}
use argo_rollouts_manager.Base.{◌≡◌, Option, [], if◌then◌else◌, ◌∷◌}
use mathlib.Core.Option.{none, some}
use argo_rollouts_manager.Go.Exec.{◌>>=◌, ◌>>◌, Exec, crash, pure}

-- What `reconcileRolloutsManager` returns: values for the status, and an error.
abbrev pub Outcome : Type 0
Outcome = ReconcileStatusResult × Option GoError

-- `return wrapCondition(createCondition(err.Error())), err`
abbrev pub failed : GoError → Outcome
failed e = (wrap_condition (create_condition e.message []), some e)

-- `rr.condition = …; return *rr, nil`, which panics on a nil pointer.
abbrev pub returned_with : {S : Type 0} → Condition → Option ReconcileStatusResult → Exec S Outcome
returned_with condition none = crash
returned_with condition (some rr) = pure (record rr { condition = condition }, none)

-- An error of a step becomes an outcome, and the steps behind it are not run.
abbrev pub reporting : {S : Type 0} → Exec S ReconcileStatusResult → Exec S Outcome
reporting m s =
    let (r, s') = m s in
    elim r [ ok rr ↦ (ok (rr, none), s') | err e ↦ (ok (failed e), s') | panic ↦ (panic, s') ]

module _ (c : Client) (env : Environment) (yaml : Yaml) (config : Config)
    (cr : RolloutManager) where
  open c use {State}

  abbrev pub role_or_cluster_role :
      Exec State (Option (Object Kind.role) × Option (Object Kind.cluster_role))
  role_or_cluster_role =
      if cr.spec.namespace_scoped
      then (do role ← reconcile_rollouts_role c cr; pure (some role, none))
      else (do role ← reconcile_rollouts_cluster_role c cr; pure (none, some role))

  abbrev pub binding_of :
      Option (Object Kind.role)
      → Option (Object Kind.cluster_role)
      → Object Kind.service_account
      → Exec State (Unit {0})
  binding_of role cluster_role sa =
      if cr.spec.namespace_scoped
      then reconcile_rollouts_role_binding c cr role (some sa)
      else reconcile_rollouts_cluster_role_binding c cr cluster_role (some sa)

  -- The aggregated cluster roles and the binding.
  unfoldable pub reconcile_access : Object Kind.service_account → Exec State (Unit {0})
  reconcile_access sa = do
    roles ← role_or_cluster_role
    reconcile_aggregate_to_admin_cluster_role c cr
    reconcile_aggregate_to_edit_cluster_role c cr
    reconcile_aggregate_to_view_cluster_role c cr
    binding_of roles.0 roles.1 sa

  -- The steps behind the Deployment.
  unfoldable pub reconcile_services : Exec State ReconcileStatusResult
  reconcile_services = do
    reconcile_rollouts_metrics_service_and_monitor c cr
    reconcile_rollouts_network_policy c cr
    rr ← determine_status_phase c cr
    pure (record rr { condition = create_condition "" [] })

  -- The steps behind the two checks; each of them returns its error in the same way.
  unfoldable pub reconcile_resources : Exec State ReconcileStatusResult
  reconcile_resources = do
    sa ← reconcile_rollouts_service_account c cr
    reconcile_access sa
    reconcile_rollouts_secrets c config.resource_labels cr
    reconcile_config_map c yaml config cr
    reconcile_rollouts_deployment c cr env sa
    reconcile_services

  -- The branches behind `validateRolloutsScope`.
  unfoldable pub after_scope : Checked → Exec State Outcome → Exec State Outcome
  after_scope (rr, none) continue = continue
  after_scope (rr, some e) continue =
      if invalid_rollout_scope e
      then returned_with (create_condition e.message (reason_invalid_scoped ∷ [])) rr
      else if invalid_rollout_namespace e
      then returned_with (create_condition e.message (reason_invalid_namespace ∷ [])) rr
      else pure (failed e)

  -- The branches behind `checkForExistingRolloutManager`.
  unfoldable pub after_existing : Checked → Exec State Outcome → Exec State Outcome
  after_existing (res, none) continue = continue
  after_existing (res, some e) continue =
      if multiple_rollout_managers_exist e
      then returned_with (create_condition e.message (reason_multiple_cluster_scoped ∷ [])) res
      else pure (failed e)

  -- `reconcileRolloutsManager`
  unfoldable pub reconcile_rollouts_manager : Exec State Outcome
  reconcile_rollouts_manager =
      after_scope
        (validate_rollouts_scope env.getenv cr config.namespace_scoped_argo_rollouts_controller)
        (λ s.
          after_existing (check_for_existing_rollout_manager c cr s) (reporting reconcile_resources)
            s)
