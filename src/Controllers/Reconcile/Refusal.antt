-- ===== src/Controllers/Reconcile/Refusal.antt =====
-- controllers/reconcile.go: a RolloutManager that is not let through, and what a true condition says.
use argo_rollouts_manager.Controllers.Reconcile.Steps.{AllDone, reconcile_resources-AllDone}
use argo_rollouts_manager.Controllers.Scope.Admission.{failed_listing_message, check_items_cases}
use argo_rollouts_manager.Go.Exec.{Exec}
use argo_rollouts_manager.Controllers.Conditions.{
  create_condition, wrap_condition, ReconcileStatusResult,
}
use argo_rollouts_manager.Controllers.Scope.{
  Checked, validate_rollouts_scope, invalid_rollout_scope, invalid_rollout_namespace,
  check_for_existing_rollout_manager, allowed_cluster_scoped_namespace, check_listed,
  multiple_rollout_managers_exist,
}
use argo_rollouts_manager.Api.{RolloutManager}
use argo_rollouts_manager.Controllers.ConfigMap.{Yaml, Config}
use argo_rollouts_manager.Controllers.Deployment.{Environment}
use argo_rollouts_manager.Kube.Meta.{condition_false, condition_true}
use argo_rollouts_manager.Go.Errors.{
  append, Result, ok, Response, refusal, answer, wrap, err, panic,
}
use argo_rollouts_manager.Kube.Client.{Client}
use argo_rollouts_manager.Controllers.Reconcile.{
  Outcome, after_scope, reconcile_rollouts_manager, after_existing, failed, reporting,
  reconcile_resources,
}
use text.Mathlib.Text.{is_eq}
use Prim.Native.String.append
use Prim.Native.String.compare
use argo_rollouts_manager.Base.{
  ◌≡◌, String, ◌==◌, false, ap, Bool, ◌∙◌, not, is_some, ◌&&◌, true, Bool-cases, inl, inr, refl,
  List, arith, sym,
}
use mathlib.Core.Option.{none, some}

listing_message :
    (m : String)
    → (append "failed to get the list of RolloutManager CRs from cluster: " m == "") ≡ false
listing_message m =
    ap (λ (z : String). z == "")
      (append.cons "f" "ailed to get the list of RolloutManager CRs from cluster: " m)
    ∙ ap is_eq (compare.cons-nil "f" _)

-- The outcome leaves the condition false.
abbrev pub IsFalse : Outcome → Type 0
IsFalse outcome = outcome.0.condition.status ≡ condition_false

module _ (c : Client) (env : Environment) (yaml : Yaml) (config : Config)
    (cr : RolloutManager) where
  abbrev scope_check : Checked
  scope_check =
      validate_rollouts_scope env.getenv cr config.namespace_scoped_argo_rollouts_controller

  -- Neither of the two checks returns an error.
  unfoldable pub is_let_through : c.State → Bool
  is_let_through s =
      not (is_some scope_check.1) && not (is_some (check_for_existing_rollout_manager c cr s).1)

  -- The cluster is unchanged, and the condition will be false.
  abbrev pub LeavesFalse : c.State → Result Outcome × c.State → Type 0
  LeavesFalse s run = (outcome : Outcome) × (run ≡ (ok outcome, s)) × IsFalse outcome

  after_scope_refused :
      (continue : Exec c.State Outcome) (s : c.State) (b : Bool)
      → is_some (validate_rollouts_scope env.getenv cr b).1 ≡ true
      → LeavesFalse s
          (after_scope c env yaml config cr (validate_rollouts_scope env.getenv cr b) continue s)
  unfolding after_scope validate_rollouts_scope invalid_rollout_scope invalid_rollout_namespace
      create_condition allowed_cluster_scoped_namespace
  after_scope_refused continue s true h = elim (Bool-cases cr.spec.namespace_scoped) [
    | inl e ↦ cc (rw e at h)
    | inr e ↦ rw e (_, refl, refl)
  ]
  after_scope_refused continue s false h = elim (Bool-cases cr.spec.namespace_scoped) [
    | inl e ↦ rw e (_, refl, refl)
    | inr e ↦ elim (Bool-cases (allowed_cluster_scoped_namespace env.getenv cr)) [
      | inl a ↦ cc (rw (e, a) at h)
      | inr a ↦ rw (e, a) (_, refl, refl)
    ]
  ]

  listed_refused :
      (continue : Exec c.State Outcome) (s : c.State) (r : Response (List RolloutManager))
      → is_some (check_listed cr r).1 ≡ true
      → LeavesFalse s (after_existing c env yaml config cr (check_listed cr r) continue s)
  unfolding after_existing check_listed multiple_rollout_managers_exist create_condition
      wrap_condition
  listed_refused continue s (refusal x) h = (
    failed (wrap "failed to get the list of RolloutManager CRs from cluster: " x),
    rw (failed_listing_message x.message) refl,
    rw (listing_message x.message) refl,
  )
  listed_refused continue s (answer items) h = elim (check_items_cases cr items) [
    | inl e ↦ cc (rw e at h)
    | inr e ↦ rw e (_, refl, refl)
  ]

  after_existing_refused :
      (continue : Exec c.State Outcome) (s : c.State)
      → is_some (check_for_existing_rollout_manager c cr s).1 ≡ true
      → LeavesFalse s (
          after_existing c env yaml config cr
            (check_for_existing_rollout_manager c cr s)
            continue
            s)
  unfolding check_for_existing_rollout_manager
  after_existing_refused continue s h = elim (Bool-cases cr.spec.namespace_scoped) [
    | inl e ↦ cc (rw e at h)
    | inr e ↦ simp e (listed_refused continue s (c.list_rollout_managers s) (simp e at h))
  ]

  scope_passed :
      (v : Checked) (continue : Exec c.State Outcome)
      → is_some v.1 ≡ false
      → after_scope c env yaml config cr v continue ≡ continue
  unfolding after_scope
  scope_passed (rr, none) continue h = refl
  scope_passed (rr, some e) continue h = cc h

  existing_passed :
      (v : Checked) (continue : Exec c.State Outcome)
      → is_some v.1 ≡ false
      → after_existing c env yaml config cr v continue ≡ continue
  unfolding after_existing
  existing_passed (rr, none) continue h = refl
  existing_passed (rr, some e) continue h = cc h

  -- A RolloutManager that one of the two checks refuses, or for which the listing of
  -- RolloutManagers fails, changes nothing on the cluster: the reconciliation returns without a
  -- panic, and its condition is false.
  pub reconcile_rollouts_manager_refused :
      (s : c.State)
      → is_let_through s ≡ false
      → (outcome : Outcome) × (reconcile_rollouts_manager c env yaml config cr s ≡ (ok outcome, s))
        × IsFalse outcome
  unfolding reconcile_rollouts_manager is_let_through
  reconcile_rollouts_manager_refused s h = elim (Bool-cases (is_some scope_check.1)) [
    | inl e ↦ after_scope_refused _ s config.namespace_scoped_argo_rollouts_controller e
    | inr e ↦ elim (Bool-cases (is_some (check_for_existing_rollout_manager c cr s).1)) [
      | inl x ↦ rw (scope_passed scope_check _ e) (after_existing_refused _ s x)
      | inr x ↦ cc (rw (e, x) at h)
    ]
  ]

  -- Otherwise the outcome is that of the steps.
  pub reconcile_rollouts_manager-reporting :
      (s : c.State)
      → is_let_through s ≡ true
      → reconcile_rollouts_manager c env yaml config cr s
        ≡ reporting (reconcile_resources c env yaml config cr) s
  unfolding reconcile_rollouts_manager is_let_through
  reconcile_rollouts_manager-reporting s h = elim (Bool-cases (is_some scope_check.1)) [
    | inl e ↦ cc (rw e at h)
    | inr e ↦ elim (Bool-cases (is_some (check_for_existing_rollout_manager c cr s).1)) [
      | inl x ↦ cc (rw (e, x) at h)
      | inr x ↦
          rw
            (
              scope_passed scope_check _ e,
              existing_passed (check_for_existing_rollout_manager c cr s) _ x,
            )
            refl
    ]
  ]

  reported :
      (run : Result ReconcileStatusResult × c.State) (rr : ReconcileStatusResult) (s' : c.State)
      → reporting (λ _. run) run.1 ≡ (ok (rr, none), s')
      → run ≡ (ok rr, s')
  reported (ok a, t) rr s' h = ground arith
  reported (err e, t) rr s' h = ground arith
  reported (panic, t) rr s' h = ground arith

  -- An outcome without an error whose condition is true comes only from a RolloutManager that both
  -- checks have let through and of which every step, from the service account to the phase, has
  -- returned without an error, one after the other, with the roles and bindings of its scope.
  pub reconcile_rollouts_manager_complete :
      (s s' : c.State) (rr : ReconcileStatusResult)
      → reconcile_rollouts_manager c env yaml config cr s ≡ (ok (rr, none), s')
      → rr.condition.status ≡ condition_true
      → (is_let_through s ≡ true) × AllDone c env yaml config cr rr s s'
  reconcile_rollouts_manager_complete s s' rr h good = elim (Bool-cases (is_let_through s)) [
    | inl through ↦ (
      through,
      reconcile_resources-AllDone c env yaml config cr s s' rr
          (reported _ rr s' (sym (reconcile_rollouts_manager-reporting s through) ∙ h)),
    )
    | inr refused ↦
        let (outcome, run, bad) = reconcile_rollouts_manager_refused s refused in ground arith
  ]
