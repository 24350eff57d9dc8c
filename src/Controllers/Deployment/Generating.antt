-- ===== src/Controllers/Deployment/Generating.antt =====
-- controllers/deployment.go: the Deployment that is generated is in normal form.
use argo_rollouts_manager.Controllers.Container.{
  get_rollouts_command_args, get_rollouts_container_image, get_image_pull_policy,
}
use argo_rollouts_manager.Controllers.Defaults.{default_argo_rollouts_resource_name}
use argo_rollouts_manager.Kube.Objects.{Object, Kind}
use argo_rollouts_manager.Kube.Meta.{Opaque, ObjectMeta}
use argo_rollouts_manager.Kube.Workload.{EnvVar, Container}
use argo_rollouts_manager.Controllers.Rbac.{named}
use argo_rollouts_manager.Go.StringMaps.{Entries, StringMap, get}
use argo_rollouts_manager.Controllers.Metadata.{
  set_labels_and_annotations_to_object, set_additional_labels_and_annotations,
  set_rollouts_labels_and_annotations, retain_keys,
}
use argo_rollouts_manager.Controllers.Deployment.Normal.{
  normal_meta, normal_spec, normal_container, normal_affinity, normal_anti_affinity, normalize_map,
  normalize_deployment, normal_parts, assembled,
}
use argo_rollouts_manager.Go.Maps.{retain, lookup}
use argo_rollouts_manager.Go.Errors.{Response, answer, refusal}
use argo_rollouts_manager.Api.{RolloutManager, ha_enabled}
use argo_rollouts_manager.Base.{
  ◌∷◌, ◌≡◌, String, arith, List, Bool, refl, is_some, true, Bool-cases, inl, inr, Option-cases,
  some, ap₂, ap, none, eq_refl, subst, [], ◌∙◌, sym,
}
use argo_rollouts_manager.Controllers.Deployment.{
  ◌then◌, deployment_spec, container_with, ha_affinity, generate_desired_rollouts_deployment,
  rollouts_container, Environment, image_then_policy, container_of,
}

-- What a chain of fallible calls answered, its parts answered.
pub then_inv :
    {A B : Type 0} (r : Response A) (f : A → Response B) (b : B)
    → (r then f) ≡ answer b
    → (a : A) × (r ≡ answer a) × (f a ≡ answer b)
then_inv (answer a) f b h = (a, refl, h)
then_inv (refusal e) f b h = ground arith

pub answer_inj : {A : Type 0} {a b : A} → answer a ≡ answer b → a ≡ b
answer_inj h = ground arith

-- Dropping keys that the map does not have does nothing.
pub retain-own :
    (keep : String → Bool) (m : Entries)
    → ((k : String) → is_some (lookup k m) ≡ true → keep k ≡ true)
    → retain keep m ≡ m
unfolding retain lookup
retain-own keep [] h = refl
retain-own keep ((k, v) ∷ m) h =
    let here = h k (rw (eq_refl k) refl) in
    let below = retain-own keep m (λ j d. h j (ground (arith, d))) in rw (here, below) refl

retain_keys-own : (m : StringMap) → retain_keys (λ k. is_some (get k m)) m ≡ m
retain_keys-own none = refl
retain_keys-own (some m) = ap some (retain-own _ m (λ k h. h))

abbrev with_both : String → String → StringMap → StringMap → ObjectMeta
with_both name ns labels annotations = record (named name ns) {
  labels = labels;
  annotations = annotations;
}

module _ (cr : RolloutManager) where
  -- The metadata that the operator sets is in normal form.
  pub normal_meta-named :
      (name ns : String)
      → normal_meta cr (set_labels_and_annotations_to_object (named name ns) cr)
        ≡ set_labels_and_annotations_to_object (named name ns) cr
  unfolding normal_meta set_labels_and_annotations_to_object set_additional_labels_and_annotations
      set_rollouts_labels_and_annotations
  normal_meta-named name ns = elim (Option-cases cr.spec.additional_metadata) [
    | inl e ↦ rw e (ap₂ (with_both name ns) (retain_keys-own _) (retain_keys-own _))
    | inr (a, e) ↦ rw e (ap₂ (with_both name ns) (retain_keys-own _) (retain_keys-own _))
  ]

  pub normal_container-with :
      (args : List String) (vars : List EnvVar) (image policy : String) (resources : Opaque)
      → normal_container (container_with args vars image policy resources)
        ≡ answer (container_with args vars image policy resources)
  unfolding normal_container container_with
  normal_container-with args vars image policy resources = refl

  pub normal_spec-deployment_spec :
      (account : String) (container : Container)
      → normal_container container ≡ answer container
      → normal_spec (deployment_spec cr account container)
        ≡ answer (deployment_spec cr account container)
  unfolding normal_spec normal_parts assembled deployment_spec normal_affinity ha_affinity
      normal_anti_affinity normalize_map
  normal_spec-deployment_spec account container h = elim (Bool-cases (ha_enabled cr)) [
    | inl e ↦ rw (e, h) refl
    | inr e ↦ rw (e, h) refl
  ]

  -- A container that is generated is in normal form.
  pub normal_container-rollouts_container :
      (env : Environment) (c : Container)
      → rollouts_container env cr ≡ answer c
      → normal_container c ≡ answer c
  unfolding rollouts_container
  normal_container-rollouts_container env c h =
      let (args, _, h1) = then_inv (get_rollouts_command_args cr) (image_then_policy env cr) c h in
      let (image, _, h2) =
        then_inv (get_rollouts_container_image env.getenv env.parse cr)
          (λ i. get_image_pull_policy env.getenv cr then λ p. answer (container_of env cr args i p))
          c h1 in
      let (policy, _, h3) =
        then_inv (get_image_pull_policy env.getenv cr)
          (λ p. answer (container_of env cr args image p)) c h2 in
      subst (λ x. normal_container x ≡ answer x) (answer_inj h3)
        (normal_container-with args _ image policy _)

-- The metadata of every Deployment that is generated.
abbrev pub desired_meta : RolloutManager → ObjectMeta
desired_meta cr =
    set_labels_and_annotations_to_object
      (named default_argo_rollouts_resource_name cr.meta.namespace) cr

-- What all Deployments that are generated have in common.
pub record IsDesired (cr : RolloutManager) (d : Object Kind.deployment) : Type 0 where
  pub meta : d.meta ≡ desired_meta cr
  pub spec : normal_spec d.body.spec ≡ answer d.body.spec
  pub ready : d.body.ready_replicas ≡ 0

pub generate-IsDesired :
    (env : Environment) (cr : RolloutManager) (sa : Object Kind.service_account)
    (d : Object Kind.deployment)
    → generate_desired_rollouts_deployment env cr sa ≡ answer d
    → IsDesired cr d
unfolding generate_desired_rollouts_deployment
generate-IsDesired env cr sa d h =
    let (container, made, h1) =
      then_inv (rollouts_container env cr)
        (λ container. answer (record {
          meta = desired_meta cr;
          body = record { spec = deployment_spec cr sa.meta.name container; ready_replicas = 0 };
        }))
        d h in
    let spec =
      normal_spec-deployment_spec cr sa.meta.name container
        (normal_container-rollouts_container cr env container made) in
    subst (IsDesired cr) (answer_inj h1) (record { meta = refl; spec = spec; ready = refl })

-- The Deployment that is generated for a RolloutManager is its own normal form.
pub normalize_deployment-generate :
    (env : Environment) (cr : RolloutManager) (sa : Object Kind.service_account)
    (d : Object Kind.deployment)
    → generate_desired_rollouts_deployment env cr sa ≡ answer d
    → normalize_deployment d cr ≡ answer d
unfolding normalize_deployment
normalize_deployment-generate env cr sa d h =
    let is = generate-IsDesired env cr sa d h in
    let named_meta = normal_meta-named cr default_argo_rollouts_resource_name cr.meta.namespace in
    rw (is.spec) (
      ap₂
        (λ m n.
          answer (record { meta = m; body = record { spec = d.body.spec; ready_replicas = n } }))
        (ap (normal_meta cr) is.meta ∙ named_meta ∙ sym is.meta) (sym is.ready))
