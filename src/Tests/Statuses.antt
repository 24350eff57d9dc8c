-- ===== src/Tests/Statuses.antt =====
-- The conditions, the status and the phase at concrete inputs.
use argo_rollouts_manager.Controllers.Status.{determine_status_phase}
use argo_rollouts_manager.Controllers.Defaults.{default_argo_rollouts_resource_name}
use argo_rollouts_manager.Go.Errors.{ok, GoError, refusal, answer}
use argo_rollouts_manager.Tests.Samples.{sample_cluster, sample_manager}
use argo_rollouts_manager.Kube.Memory.{memory}
use argo_rollouts_manager.Controllers.Container.{get_rollouts_command_args}
use argo_rollouts_manager.Kube.Meta.{Condition, condition_false, condition_true}
use argo_rollouts_manager.Controllers.Conditions.Updating.{
  condition_of, update_status_condition_again, recorded, condition_of-insert_or_update,
}
use argo_rollouts_manager.Controllers.Container.Args.{repeats, get_rollouts_command_args-repeats}
use argo_rollouts_manager.Api.{RolloutManager, available, ha_enabled}
use argo_rollouts_manager.Controllers.Conditions.{
  apply_status, update_status_condition, ReconcileStatusResult, reconciled, insert_or_update,
  reason_error_occurred, reason_success,
}
use argo_rollouts_manager.Controllers.Status.Phase.{ShowsPhase, determine_status_phase-ShowsPhase}
use argo_rollouts_manager.Kube.Objects.{Kind}
use argo_rollouts_manager.Base.{◌≡◌, some, false, ◌∷◌, true, [], if◌then◌else◌, ◌==◌, ◌⊎◌, ◌++◌}

abbrev succeeded : Condition
succeeded = reconciled condition_true reason_success ""

abbrev failed : Condition
failed = record (reconciled condition_false reason_error_occurred "no") { last_transition_time = 5 }

abbrev result : ReconcileStatusResult
result = record {
  condition = succeeded;
  rollout_controller = some available;
  phase = some available;
}

abbrev manager : RolloutManager
manager = sample_manager true

condition_of-insert_or_update_example :
    condition_of "Reconciled" (insert_or_update 9 succeeded (failed ∷ [])).1 ≡ (
      if "Reconciled" == "Reconciled"
      then some (recorded 9 succeeded (condition_of "Reconciled" (failed ∷ [])))
      else condition_of "Reconciled" (failed ∷ []))
condition_of-insert_or_update_example =
    condition_of-insert_or_update 9 succeeded (failed ∷ []) "Reconciled"

update_status_condition_again_example :
    update_status_condition memory 10 result
      (record manager { status = (apply_status 9 result manager.status).0 })
      (sample_cluster "rollouts" true)
    ≡ (ok tt, sample_cluster "rollouts" true)
update_status_condition_again_example =
    update_status_condition_again memory 9 10 result manager (sample_cluster "rollouts" true)

determine_status_phase-ShowsPhase_example :
    ShowsPhase 9 manager
      (sample_cluster "rollouts" true)
      (memory.get Kind.deployment "argo" default_argo_rollouts_resource_name
        (sample_cluster "rollouts" true))
      (determine_status_phase memory manager (sample_cluster "rollouts" true))
determine_status_phase-ShowsPhase_example =
    determine_status_phase-ShowsPhase memory manager 9 (sample_cluster "rollouts" true)

get_rollouts_command_args-repeats_example :
    ((repeats manager ≡ true) × ((e : GoError) × (get_rollouts_command_args manager ≡ refusal e)))
    ⊎ ((repeats manager ≡ false)
        × (get_rollouts_command_args manager
            ≡ answer (
                ((if manager.spec.namespace_scoped then "--namespaced" ∷ [] else [])
                  ++ (if ha_enabled manager then "--leader-elect" ∷ "true" ∷ [] else []))
                ++ manager.spec.extra_command_args)))
get_rollouts_command_args-repeats_example = get_rollouts_command_args-repeats manager
