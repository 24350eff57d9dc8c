-- ===== src/Controllers/Reconcile/Reporting.antt =====
-- controllers/reconcile.go: the condition that comes with an error.
use argo_rollouts_manager.Controllers.Scope.{
  Checked, multiple_rollout_managers_exist, invalid_rollout_scope, invalid_rollout_namespace,
  validate_rollouts_scope, check_for_existing_rollout_manager,
}
use argo_rollouts_manager.Api.{RolloutManager}
use argo_rollouts_manager.Controllers.ConfigMap.{Yaml, Config}
use argo_rollouts_manager.Controllers.Deployment.{Environment}
use argo_rollouts_manager.Controllers.Conditions.{
  ReconcileStatusResult, create_condition, wrap_condition, reconciled, reason_error_occurred,
}
use argo_rollouts_manager.Controllers.Reconcile.{
  Outcome, returned_with, reporting, failed, reconcile_rollouts_manager, after_existing,
  after_scope, reconcile_resources,
}
use argo_rollouts_manager.Kube.Meta.{Condition, condition_false}
use argo_rollouts_manager.Kube.Client.{Client}
use argo_rollouts_manager.Go.Errors.{GoError, Result, ok, err, panic}
use argo_rollouts_manager.Base.{
  ◌≡◌, Option, arith, Bool-cases, ◌==◌, false, inl, inr, ap, sym, ◌∙◌, refl,
}
use mathlib.Core.Option.{none, some}
use argo_rollouts_manager.Go.Exec.{Exec}

-- An outcome with an error has the condition that is made of it.
abbrev IsReport : {S : Type 0} → Result Outcome × S → Type 0
IsReport {S} run =
    (rr : ReconcileStatusResult) (e : GoError) (s' : S)
    → run ≡ (ok (rr, some e), s')
    → rr ≡ (failed e).0

returned_with-IsReport :
    {S : Type 0} (condition : Condition) (rr : Option ReconcileStatusResult) (s : S)
    → IsReport (returned_with condition rr s)
returned_with-IsReport condition none s rr' e s' h = ground arith
returned_with-IsReport condition (some rr) s rr' e s' h = ground arith

returned_value : {A : Type 0} {a b : A} → ok a ≡ ok b → a ≡ b
returned_value h = ground arith

same_error : {x e : GoError} → some x ≡ some e → x ≡ e
same_error h = cc

failed-IsReport : {S : Type 0} (x : GoError) (s : S) → IsReport {S = S} (ok (failed x), s)
failed-IsReport {S = S} x s rr e s' h =
    let same : failed x ≡ (rr, some e) = returned_value (ap (λ (p : Result Outcome × S). p.0) h) in
    let error : x ≡ e = same_error (ap (λ (p : Outcome). p.1) same) in
    sym (ap (λ (p : Outcome). p.0) same) ∙ ap (λ y. (failed y).0) error

reporting-IsReport :
    {S : Type 0} (run : Result ReconcileStatusResult × S) → IsReport (reporting (λ _. run) run.1)
reporting-IsReport (ok a, t) rr e s' h = ground arith
reporting-IsReport (err x, t) rr e s' h = failed-IsReport x t rr e s' h
reporting-IsReport (panic, t) rr e s' h = ground arith

module _ (c : Client) (env : Environment) (yaml : Yaml) (config : Config)
    (cr : RolloutManager) where
  after_scope-IsReport :
      (v : Checked) (continue : Exec c.State Outcome) (s : c.State)
      → IsReport (continue s)
      → IsReport (after_scope c env yaml config cr v continue s)
  unfolding after_scope
  after_scope-IsReport (rr, none) continue s h = h
  after_scope-IsReport (rr, some e) continue s h = elim (Bool-cases (invalid_rollout_scope e)) [
    | inl a ↦ rw a (returned_with-IsReport _ rr s)
    | inr a ↦ elim (Bool-cases (invalid_rollout_namespace e)) [
      | inl b ↦ rw (a, b) (returned_with-IsReport _ rr s)
      | inr b ↦ rw (a, b) (failed-IsReport e s)
    ]
  ]

  after_existing-IsReport :
      (v : Checked) (continue : Exec c.State Outcome) (s : c.State)
      → IsReport (continue s)
      → IsReport (after_existing c env yaml config cr v continue s)
  unfolding after_existing
  after_existing-IsReport (rr, none) continue s h = h
  after_existing-IsReport (rr, some e) continue s h =
      elim (Bool-cases (multiple_rollout_managers_exist e)) [
        | inl a ↦ rw a (returned_with-IsReport _ rr s)
        | inr a ↦ rw a (failed-IsReport e s)
      ]

  -- An error with a text that is not empty comes with a condition that is false, has this text and
  -- the reason ErrorOccurred, and with no change of the two phases of the status.
  pub reconcile_rollouts_manager-error :
      (s s' : c.State) (rr : ReconcileStatusResult) (e : GoError)
      → (e.message == "") ≡ false
      → reconcile_rollouts_manager c env yaml config cr s ≡ (ok (rr, some e), s')
      → (rr.condition ≡ reconciled condition_false reason_error_occurred e.message)
        × (rr.phase ≡ none)
        × (rr.rollout_controller ≡ none)
  unfolding reconcile_rollouts_manager create_condition wrap_condition
  reconcile_rollouts_manager-error s s' rr e text h =
      let made : rr ≡ (failed e).0 =
        after_scope-IsReport
          (validate_rollouts_scope env.getenv cr config.namespace_scoped_argo_rollouts_controller)
          (λ t.
            after_existing c env yaml config cr (check_for_existing_rollout_manager c cr t)
              (reporting (reconcile_resources c env yaml config cr)) t)
          s
          (after_existing-IsReport (check_for_existing_rollout_manager c cr s)
            (reporting (reconcile_resources c env yaml config cr)) s
            (reporting-IsReport (reconcile_resources c env yaml config cr s)))
          rr e s' h in
      (
        ap (λ r. r.condition) made ∙ rw text refl,
        ap (λ r. r.phase) made,
        ap (λ r. r.rollout_controller) made,
      )
