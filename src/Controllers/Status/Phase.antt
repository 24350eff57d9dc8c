-- ===== src/Controllers/Status/Phase.antt =====
-- controllers/status.go with `updateStatusConditionOfRolloutManager`: the phase that the status of
-- a RolloutManager shows after a reconciliation.
use argo_rollouts_manager.Go.Exec.{pure, raise}
use argo_rollouts_manager.Controllers.Conditions.Updating.{phase_eq_refl}
use argo_rollouts_manager.Controllers.Live.Settling.{fetch_object-get}
use argo_rollouts_manager.Controllers.Defaults.{default_argo_rollouts_resource_name}
use argo_rollouts_manager.Controllers.Status.{
  determine_status_phase, changed_phase, deployed_phase, status_of, phase_result,
}
use argo_rollouts_manager.Controllers.Conditions.{set_phase, apply_status, ReconcileStatusResult}
use argo_rollouts_manager.Api.{
  RolloutControllerPhase, phase_eq, RolloutManager, unset, failure, available, pending,
}
use argo_rollouts_manager.Kube.Client.{Client}
use argo_rollouts_manager.Go.Errors.{Response, refusal, answer, GoError, err, ok, Result}
use argo_rollouts_manager.Kube.Objects.{Object, Kind}
use argo_rollouts_manager.Base.{
  ◌≡◌, true, none, ℕ, ◌⊎◌, some, refl, ◌≢◌, false, Bool-cases, arith, Option-cases, inr, inl,
  Bool-eq_of_iff, Bool, subst, if◌then◌else◌,
}

-- The phase that belongs to an answer about the Deployment: failure when there is none, unknown
-- when the number of its replicas is not set, available when all of them are ready, and pending
-- otherwise.
unfoldable pub PhaseOf : Response (Object Kind.deployment) → RolloutControllerPhase → Type 0
PhaseOf (refusal e) p = (e.is_not_found ≡ true) × (p ≡ failure)
PhaseOf (answer d) p =
    ((d.body.spec.replicas ≡ none) × (p ≡ RolloutControllerPhase.unknown))
    ⊎ ((n : ℕ) × (d.body.spec.replicas ≡ some n)
        × (((d.body.ready_replicas ≡ n) × (p ≡ available))
            ⊎ ((d.body.ready_replicas ≢ n) × (p ≡ pending))))

phase_eq_iff : (p q : RolloutControllerPhase) → phase_eq p q ≡ true → p ≡ q
phase_eq_iff unset unset h = refl
phase_eq_iff available available h = refl
phase_eq_iff pending pending h = refl
phase_eq_iff RolloutControllerPhase.unknown RolloutControllerPhase.unknown h = refl
phase_eq_iff failure failure h = refl
phase_eq_iff _ _ h = ground (arith, h)

phase_eq_sym : (p q : RolloutControllerPhase) → phase_eq p q ≡ phase_eq q p
phase_eq_sym p q =
    Bool-eq_of_iff (phase_eq p q) (phase_eq q p)
      (λ h. subst (λ x. phase_eq x p ≡ true) (phase_eq_iff p q h) (phase_eq_refl p))
      (λ h. subst (λ x. phase_eq x q ≡ true) (phase_eq_iff q p h) (phase_eq_refl q))

-- Setting the phase that differs from the current one gives that phase.
set_phase-changed_phase :
    (current p : RolloutControllerPhase) → (set_phase (changed_phase current p) current).0 ≡ p
set_phase-changed_phase current p = elim (Bool-cases (phase_eq current p)) [
  | inl e ↦ rw e (phase_eq_iff current p e)
  | inr e ↦ rw (e, phase_eq_sym p current, e) refl
]

PhaseOf-deployed_phase : (d : Object Kind.deployment) → PhaseOf (answer d) (deployed_phase d.body)
unfolding PhaseOf
PhaseOf-deployed_phase d = elim (Option-cases d.body.spec.replicas) [
  | inl e ↦ rw e (inl (refl, refl))
  | inr (n, e) ↦ rw e (inr (n, refl, ground arith))
]

-- What a run that starts in `s` from the answer `r` ends with.
abbrev pub ShowsPhase :
    {S : Type 0}
    → ℕ
    → RolloutManager
    → S
    → Response (Object Kind.deployment)
    → Result ReconcileStatusResult × S
    → Type 0
ShowsPhase now cr s r out =
    ((e : GoError) × (r ≡ refusal e) × (e.is_not_found ≡ false) × (out ≡ (err e, s)))
    ⊎ ((rr : ReconcileStatusResult) × (out ≡ (ok rr, s))
        × PhaseOf r (apply_status now rr cr.status).0.phase
        × ((apply_status now rr cr.status).0.rollout_controller
            ≡ (apply_status now rr cr.status).0.phase))

phase_result-ShowsPhase :
    (S : Type 0) (now : ℕ) (cr : RolloutManager) (s : S) (r : Response (Object Kind.deployment))
    (p : RolloutControllerPhase)
    → PhaseOf r p
    → ShowsPhase now cr s r (ok (phase_result cr p), s)
unfolding apply_status
phase_result-ShowsPhase S now cr s r p h =
    let e = set_phase-changed_phase cr.status.phase p in
    let e' = set_phase-changed_phase cr.status.rollout_controller p in
    inr (phase_result cr p, refl, rw e h, rw (e, e') refl)

refused :
    (S : Type 0) (now : ℕ) (cr : RolloutManager) (s : S) (e : GoError) (b : Bool)
    → e.is_not_found ≡ b
    → ShowsPhase now cr s (refusal e) ((if b then pure (phase_result cr failure) else raise e) s)
unfolding PhaseOf
refused S now cr s e true h = phase_result-ShowsPhase S now cr s (refusal e) failure (h, refl)
refused S now cr s e false h = inl (e, refl, h, refl)

status_of-ShowsPhase :
    (S : Type 0) (now : ℕ) (cr : RolloutManager) (s : S) (r : Response (Object Kind.deployment))
    → ShowsPhase now cr s r (status_of cr r s)
unfolding status_of
status_of-ShowsPhase S now cr s (answer d) =
    phase_result-ShowsPhase S now cr s (answer d) _ (PhaseOf-deployed_phase d)
status_of-ShowsPhase S now cr s (refusal e) = refused S now cr s e e.is_not_found refl

module _ (c : Client) (cr : RolloutManager) where
  -- Determining the phase does not change the cluster. The status to which its result is applied
  -- shows, both as its phase and as that of the rollout controller, Failure when the Deployment
  -- does not exist, Unknown when the number of its replicas is not set, Available when as many are
  -- ready, and otherwise Pending; when reading the Deployment fails for another reason, the error
  -- is returned.
  pub determine_status_phase-ShowsPhase :
      (now : ℕ) (s : c.State)
      → ShowsPhase now cr s
          (c.get Kind.deployment cr.meta.namespace default_argo_rollouts_resource_name s)
          (determine_status_phase c cr s)
  unfolding determine_status_phase
  determine_status_phase-ShowsPhase now s =
      rw
        (fetch_object-get c Kind.deployment cr.meta.namespace default_argo_rollouts_resource_name s)
        (status_of-ShowsPhase c.State now cr s _)
