-- ===== src/Controllers/Status.antt =====
-- controllers/status.go: the phase of a RolloutManager, read off its Deployment.
pub mod Phase
use argo_rollouts_manager.Controllers.Defaults.{default_argo_rollouts_resource_name}
use argo_rollouts_manager.Controllers.Live.{fetch_object}
use argo_rollouts_manager.Kube.Objects.{Object, Kind}
use argo_rollouts_manager.Go.Errors.{Response, answer, refusal}
use argo_rollouts_manager.Controllers.Conditions.{ReconcileStatusResult, no_condition}
use argo_rollouts_manager.Base.{Option, if◌then◌else◌, none, some, nat_eq}
use argo_rollouts_manager.Kube.Workload.{DeploymentBody}
use argo_rollouts_manager.Kube.Client.{Client}
use argo_rollouts_manager.Api.{
  RolloutControllerPhase, RolloutManager, phase_eq, available, failure, pending,
}
use argo_rollouts_manager.Go.Exec.{◌>>=◌, Exec, ask, pure, raise}

-- The phase of a Deployment that exists.
abbrev pub deployed_phase : DeploymentBody → RolloutControllerPhase
deployed_phase d = elim d.spec.replicas [
  | none ↦ RolloutControllerPhase.unknown
  | some n ↦ if nat_eq d.ready_replicas n then available else pending
]

-- `if current != status { res = &status }`
abbrev pub changed_phase :
    RolloutControllerPhase → RolloutControllerPhase → Option RolloutControllerPhase
changed_phase current p = if phase_eq current p then none else some p

abbrev pub phase_result : RolloutManager → RolloutControllerPhase → ReconcileStatusResult
phase_result cr p = record {
  condition = no_condition;
  rollout_controller = changed_phase cr.status.rollout_controller p;
  phase = changed_phase cr.status.phase p;
}

unfoldable pub status_of :
    {S : Type 0} → RolloutManager → Response (Object Kind.deployment) → Exec S ReconcileStatusResult
status_of cr (answer d) = pure (phase_result cr (deployed_phase d.body))
status_of cr (refusal e) = if e.is_not_found then pure (phase_result cr failure) else raise e

-- `determineStatusPhase`
unfoldable pub determine_status_phase :
    (c : Client) → RolloutManager → Exec c.State ReconcileStatusResult
determine_status_phase c cr = do
  found ← ask (fetch_object c Kind.deployment cr.meta.namespace default_argo_rollouts_resource_name)
  status_of cr found
