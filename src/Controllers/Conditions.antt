-- ===== src/Controllers/Conditions.antt =====
-- controllers/utils.go and controllers/reconcile.go: the conditions and the status of a
-- RolloutManager.
pub mod Updating
use argo_rollouts_manager.Api.{
  RolloutControllerPhase, RolloutManager, RolloutManagerStatus, phase_eq,
}
use argo_rollouts_manager.Kube.Client.{Client}
use argo_rollouts_manager.Kube.Meta.{
  Condition, ConditionStatus, condition_unset, condition_false, condition_true, condition_unknown,
}
use argo_rollouts_manager.Base.{
  Option, String, ℕ, List, Bool, none, ◌||◌, not, false, true, if◌then◌else◌, ◌∷◌, some, ◌==◌, [],
}
use argo_rollouts_manager.Go.Exec.{◌>>=◌, Exec, send, or_raise, pure}

-- `reconcileStatusResult`
pub record ReconcileStatusResult : Type 0 where
  pub condition : Condition
  pub rollout_controller : Option RolloutControllerPhase
  pub phase : Option RolloutControllerPhase

-- `metav1.Condition{}`
abbrev pub no_condition : Condition
no_condition = record {
  condition_type = "";
  status = condition_unset;
  last_transition_time = 0;
  reason = "";
  message = "";
}

abbrev pub rollout_manager_condition_type : String
rollout_manager_condition_type = "Reconciled"

abbrev pub reason_success : String
reason_success = "Success"

abbrev pub reason_error_occurred : String
reason_error_occurred = "ErrorOccurred"

abbrev pub reason_multiple_cluster_scoped : String
reason_multiple_cluster_scoped = "MultipleClusterScopedRolloutManager"

abbrev pub reason_invalid_scoped : String
reason_invalid_scoped = "InvalidRolloutManagerScope"

abbrev pub reason_invalid_namespace : String
reason_invalid_namespace = "InvalidRolloutManagerNamespace"

abbrev pub reconciled : ConditionStatus → String → String → Condition
reconciled status reason message = record {
  condition_type = rollout_manager_condition_type;
  status = status;
  last_transition_time = 0;
  reason = reason;
  message = message;
}

-- The branches of `createCondition` for a message that is not empty.
abbrev failed_condition : String → List String → Condition
failed_condition message [] = reconciled condition_false reason_error_occurred message
failed_condition message (r ∷ []) = reconciled condition_false r message
failed_condition message (r ∷ r' ∷ rs) =
    reconciled condition_true reason_error_occurred "An internal error occurred"

-- `createCondition`
unfoldable pub create_condition : String → List String → Condition
create_condition message reason =
    if message == ""
    then reconciled condition_true reason_success ""
    else failed_condition message reason

-- `wrapCondition`
unfoldable pub wrap_condition : Condition → ReconcileStatusResult
wrap_condition cond = record { condition = cond; rollout_controller = none; phase = none }

abbrev pub status_eq : ConditionStatus → ConditionStatus → Bool
status_eq condition_unset condition_unset = true
status_eq condition_true condition_true = true
status_eq condition_false condition_false = true
status_eq condition_unknown condition_unknown = true
status_eq _ _ = false

-- The test of `insertOrUpdateConditionsInSlice` on the condition that it has found.
unfoldable pub content_differs : Condition → Condition → Bool
content_differs old new =
    not (old.message == new.message)
    || not (old.reason == new.reason)
    || not (status_eq old.status new.status)

-- The walk to the first condition of the same type, and what is done there or at the end.
unfoldable pub insert_or_update : ℕ → Condition → List Condition → Bool × List Condition
insert_or_update now new [] = (true, record new { last_transition_time = now } ∷ [])
insert_or_update now new (old ∷ rest) =
    let (changed, after) = insert_or_update now new rest in
    if old.condition_type == new.condition_type
    then (if content_differs old new
        then (true, record new { last_transition_time = now } ∷ rest)
        else (false, old ∷ rest))
    else (changed, old ∷ after)

abbrev pub set_phase :
    Option RolloutControllerPhase → RolloutControllerPhase → RolloutControllerPhase × Bool
set_phase none current = (current, false)
set_phase (some p) current = if phase_eq p current then (current, false) else (p, true)

-- The new status, and whether it has to be written.
unfoldable pub apply_status :
    ℕ → ReconcileStatusResult → RolloutManagerStatus → RolloutManagerStatus × Bool
apply_status now rr status =
    let (inserted, conditions) = insert_or_update now rr.condition status.conditions in
    let (phase, phase_changed) = set_phase rr.phase status.phase in
    let (controller, controller_changed) =
      set_phase rr.rollout_controller status.rollout_controller in
    let changed = inserted || phase_changed || controller_changed in
    (
      record {
        rollout_controller = controller;
        phase = phase;
        conditions = if changed then conditions else status.conditions;
      },
      changed,
    )

-- `updateStatusConditionOfRolloutManager`
unfoldable pub update_status_condition :
    (c : Client) → ℕ → ReconcileStatusResult → RolloutManager → Exec c.State (Unit {0})
update_status_condition c now rr rm =
    let (status, changed) = apply_status now rr rm.status in
    if changed
    then (do
      written ← send (c.update_status (record rm { status = status }))
      or_raise (λ e. e) written)
    else pure tt
