-- ===== src/Controllers/Deployment/Replicas.antt =====
-- controllers/deployment.go: the number of replicas, and the anti-affinity that goes with it.
use argo_rollouts_manager.Controllers.Deployment.Generating.{then_inv, desired_meta, answer_inj}
use argo_rollouts_manager.Go.Errors.{answer}
use argo_rollouts_manager.Kube.Objects.{Object, Kind}
use argo_rollouts_manager.Api.{RolloutManager, ha_enabled}
use argo_rollouts_manager.Base.{
  ◌≡◌, ℕ, ◌≤◌, ◌↔◌, true, is_some, ap, sym, Bool, if◌then◌else◌, arith, false, refl, ◌∙◌,
}
use mathlib.Core.Option.{none, some}
use argo_rollouts_manager.Controllers.Deployment.{
  ◌then◌, generate_desired_rollouts_deployment, deployment_spec, replica_count, Environment,
  rollouts_container, ha_affinity, pod_labels,
}

abbrev count : Bool → ℕ
count b = if b then 2 else 1

one_or_two : (b : Bool) → (1 ≤ count b) × (count b ≤ 2) × ((count b ≡ 2) ↔ (b ≡ true))
one_or_two true = (omega arith, omega arith, (λ _. refl, λ _. refl))
one_or_two false = (omega arith, omega arith, (λ h. ground arith, λ h. cc h))

is_some-if : {A : Type 0} (b : Bool) (a : A) → is_some (if b then some a else none) ≡ b
is_some-if true a = refl
is_some-if false a = refl

-- The Deployment that is generated has one or two replicas, two exactly with high availability, and
-- an affinity exactly with high availability.
pub generate-replicas :
    (env : Environment) (cr : RolloutManager) (sa : Object Kind.service_account)
    (d : Object Kind.deployment)
    → generate_desired_rollouts_deployment env cr sa ≡ answer d
    → (n : ℕ) × (d.body.spec.replicas ≡ some n)
      × (1 ≤ n)
      × (n ≤ 2)
      × ((n ≡ 2) ↔ (ha_enabled cr ≡ true))
      × (is_some d.body.spec.template.spec.affinity ≡ ha_enabled cr)
unfolding generate_desired_rollouts_deployment deployment_spec replica_count
generate-replicas env cr sa d h =
    let (container, _, h1) =
      then_inv (rollouts_container env cr)
        (λ container. answer (record {
          meta = desired_meta cr;
          body = record { spec = deployment_spec cr sa.meta.name container; ready_replicas = 0 };
        }))
        d h in
    let made = answer_inj h1 in
    let (least, most, two) = one_or_two (ha_enabled cr) in
    (
      count (ha_enabled cr),
      ap (λ x. x.body.spec.replicas) (sym made),
      least,
      most,
      two,
      ap (λ x. is_some x.body.spec.template.spec.affinity) (sym made)
          ∙ is_some-if (ha_enabled cr) (ha_affinity (pod_labels cr)),
    )
