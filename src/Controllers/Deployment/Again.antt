-- ===== src/Controllers/Deployment/Again.antt =====
-- controllers/deployment.go: normalizeDeployment applied to a Deployment that it has made.
use argo_rollouts_manager.Controllers.Deployment.Forms.{normalize_inv, selector-assembled}
use argo_rollouts_manager.Controllers.Deployment.{◌then◌}
use argo_rollouts_manager.Kube.Objects.{Object, Kind}
use argo_rollouts_manager.Go.Errors.{answer}
use argo_rollouts_manager.Api.{RolloutManager}
use argo_rollouts_manager.Go.StringMaps.{StringMap, Entries}
use argo_rollouts_manager.Controllers.Metadata.{
  set_labels_and_annotations_to_object, set_additional_labels_and_annotations, retain_keys,
  set_rollouts_labels_and_annotations,
}
use argo_rollouts_manager.Go.Maps.{retain}
use argo_rollouts_manager.Base.{
  String, Bool, ◌≡◌, none, some, ap, refl, Option-cases, inl, ap₂, inr, Option, subst, ◌∷◌,
  Bool-cases, [],
}
use argo_rollouts_manager.Controllers.Deployment.Normal.{
  normalize_map, normal_meta, normal_selector, normal_affinity, filled, normal_anti_affinity,
  normal_container, required, two, security_of, one, normal_probe, normal_port, normal_security,
  normal_mount, assembled, normal_spec, normalize_deployment, normal_parts, Parts,
}
use argo_rollouts_manager.Kube.Meta.{ObjectMeta}
use argo_rollouts_manager.Kube.Workload.{
  Slice, LabelSelector, Container, Probe, Affinity, HttpGetAction, PodAntiAffinity, ContainerPort,
  SecurityContext, Capabilities, VolumeMount, DeploymentSpec,
}
use argo_rollouts_manager.Controllers.Deployment.Generating.{then_inv, answer_inj}

normalize_map_again : (m : StringMap) → normalize_map (normalize_map m) ≡ normalize_map m
unfolding normalize_map
normalize_map_again none = refl
normalize_map_again (some m) = refl

filled_again : {A : Type 0} (xs : Slice A) → filled (filled xs) ≡ filled xs
filled_again none = refl
filled_again (some xs) = refl

retain_again : (keep : String → Bool) (m : Entries) → retain keep (retain keep m) ≡ retain keep m
unfolding retain
retain_again keep [] = refl
retain_again keep ((k, v) ∷ m) =
    let below = retain_again keep m in
    elim (Bool-cases (keep k)) [ inl e ↦ rw (e, e, below) refl | inr e ↦ rw (e, below) refl ]

retain_keys_again :
    (keep : String → Bool) (m : StringMap)
    → retain_keys keep (retain_keys keep m) ≡ retain_keys keep m
retain_keys_again keep none = refl
retain_keys_again keep (some m) = ap some (retain_again keep m)

abbrev with_strings : ObjectMeta → StringMap → StringMap → ObjectMeta
with_strings m labels annotations = record m {
  labels = labels;
  annotations = annotations;
  controller = none;
  deletion_timestamp = none;
}

normal_meta_again :
    (cr : RolloutManager) (m : ObjectMeta) → normal_meta cr (normal_meta cr m) ≡ normal_meta cr m
unfolding normal_meta set_labels_and_annotations_to_object set_additional_labels_and_annotations
    set_rollouts_labels_and_annotations
normal_meta_again cr m = elim (Option-cases cr.spec.additional_metadata) [
  | inl e ↦
      rw e (ap₂ (with_strings m) (retain_keys_again _ m.labels) (retain_keys_again _ m.annotations))
  | inr (a, e) ↦
      rw e (ap₂ (with_strings m) (retain_keys_again _ m.labels) (retain_keys_again _ m.annotations))
]

normal_selector_again :
    (s : LabelSelector) → normal_selector (normal_selector s) ≡ normal_selector s
normal_selector_again s =
    ap (λ m. record { match_labels = m; other = "" }) (normalize_map_again s.match_labels)

-- The container that `normalizeDeployment` makes of what it has read and checked.
abbrev container_made :
    Container
    → Probe
    → HttpGetAction
    → ContainerPort × ContainerPort
    → SecurityContext × Capabilities
    → VolumeMount × VolumeMount
    → Container
container_made c probe http ports security mounts = record {
  args = filled c.args;
  env = filled c.env;
  image = c.image;
  image_pull_policy = c.image_pull_policy;
  liveness_probe = some (normal_probe probe http);
  name = c.name;
  ports = normal_port ports.0 ∷ normal_port ports.1 ∷ [];
  readiness_probe = c.readiness_probe;
  resources = c.resources;
  security_context = some (normal_security security.0 security.1);
  volume_mounts = normal_mount mounts.0 ∷ normal_mount mounts.1 ∷ [];
  other = "";
}

container_made_again :
    (c : Container) (probe : Probe) (http : HttpGetAction) (ports : ContainerPort × ContainerPort)
    (security : SecurityContext × Capabilities) (mounts : VolumeMount × VolumeMount)
    → normal_container (container_made c probe http ports security mounts)
      ≡ answer (container_made c probe http ports security mounts)
unfolding normal_container
container_made_again c probe http ports security mounts =
    rw (filled_again c.args, filled_again c.env) refl

normal_container_again :
    (c e : Container) → normal_container c ≡ answer e → normal_container e ≡ answer e
unfolding normal_container
normal_container_again c e h =
    let (probe, _, h1) = then_inv (required "incorrect liveness probe" c.liveness_probe) _ e h in
    let (http, _, h2) =
      then_inv (required "incorrect http get in liveness probe" probe.http_get) _ e h1 in
    let (ports, _, h3) = then_inv (two "incorrect input ports" c.ports) _ e h2 in
    let (security, _, h4) = then_inv (security_of c.security_context) _ e h3 in
    let (mounts, _, h5) = then_inv (two "incorrect volume mounts" c.volume_mounts) _ e h4 in
    subst (λ x. normal_container x ≡ answer x) (answer_inj h5)
      (container_made_again c probe http ports security mounts)

normal_anti_affinity_again :
    (s : LabelSelector) (o r : Option PodAntiAffinity)
    → normal_anti_affinity s o ≡ answer r
    → normal_anti_affinity (normal_selector s) r ≡ answer r
unfolding normal_anti_affinity
normal_anti_affinity_again s none r h =
    subst (λ x. normal_anti_affinity (normal_selector s) x ≡ answer x) (answer_inj h) refl
normal_anti_affinity_again s (some a) r h =
    let (p, _, h1) =
      then_inv
        (one "incorrect number of anti-affinity PreferredDuringSchedulingIgnoredDuringExecution"
          a.preferred)
        _ r h in
    let (q, _, h2) =
      then_inv
        (one "incorrect number of anti-affinity RequiredDuringSchedulingIgnoredDuringExecution"
          a.required)
        _ r h1 in
    subst (λ x. normal_anti_affinity (normal_selector s) x ≡ answer x) (answer_inj h2)
      (rw (normal_selector_again s) refl)

normal_affinity_again :
    (s : LabelSelector) (o r : Option Affinity)
    → normal_affinity s o ≡ answer r
    → normal_affinity (normal_selector s) r ≡ answer r
unfolding normal_affinity
normal_affinity_again s none r h =
    subst (λ x. normal_affinity (normal_selector s) x ≡ answer x) (answer_inj h) refl
normal_affinity_again s (some a) r h =
    let (anti, made, h1) = then_inv (normal_anti_affinity s a.pod_anti_affinity) _ r h in
    subst (λ x. normal_affinity (normal_selector s) x ≡ answer x) (answer_inj h1)
      (rw (normal_anti_affinity_again s a.pod_anti_affinity anti made) refl)

abbrev parts_again : Parts → Parts
parts_again p = record p {
  security = record { run_as_non_root = p.security.run_as_non_root; other = "" };
}

normal_parts_again :
    (d : DeploymentSpec) (s : LabelSelector) (p : Parts)
    → normal_parts d s ≡ answer p
    → normal_parts (assembled d s p) (normal_selector s) ≡ answer (parts_again p)
unfolding normal_parts assembled
normal_parts_again d s p h =
    let pod = d.template.spec in
    let (security, _, h1) =
      then_inv (required "missing .spec.template.spec.securityContext" pod.security_context) _ p
        h in
    let (volumes, _, h2) =
      then_inv (two "missing .spec.template.spec.volumes" pod.volumes) _ p h1 in
    let (input, _, h3) =
      then_inv (one "incorrect number of .spec.template.spec.containers" pod.containers) _ p h2 in
    let (container, made, h4) = then_inv (normal_container input) _ p h3 in
    let (affinity, tied, h5) = then_inv (normal_affinity s pod.affinity) _ p h4 in
    subst (λ x. normal_parts (assembled d s x) (normal_selector s) ≡ answer (parts_again x))
      (answer_inj h5)
      (rw
        (
          normal_container_again input container made,
          normal_affinity_again s pod.affinity affinity tied,
        )
        refl)

assembled_again :
    (d : DeploymentSpec) (s : LabelSelector) (p : Parts)
    → assembled (assembled d s p) (normal_selector s) (parts_again p) ≡ assembled d s p
unfolding assembled
assembled_again d s p =
    rw
      (
        normalize_map_again s.match_labels,
        normalize_map_again d.template.labels,
        normalize_map_again d.template.annotations,
      )
      refl

normal_spec_again : (d e : DeploymentSpec) → normal_spec d ≡ answer e → normal_spec e ≡ answer e
unfolding normal_spec normal_parts assembled normalize_map
normal_spec_again d e h =
    let (s, found, h1) =
      then_inv (required "missing .spec.selector" d.selector)
        (λ s. normal_parts d s then λ parts. answer (assembled d s parts)) e h in
    let (p, made, h2) = then_inv (normal_parts d s) (λ parts. answer (assembled d s parts)) e h1 in
    subst (λ x. normal_spec x ≡ answer x) (answer_inj h2)
      (rw (selector-assembled d s p, normal_parts_again d s p made)
        (ap answer (assembled_again d s p)))

-- Normalising the normal form of a Deployment gives the same Deployment.
pub normalize_deployment_again :
    (cr : RolloutManager) (a x : Object Kind.deployment)
    → normalize_deployment a cr ≡ answer x
    → normalize_deployment x cr ≡ answer x
unfolding normalize_deployment
normalize_deployment_again cr a x h =
    let (spec, made, same) = normalize_inv cr a x h in
    subst (λ y. normalize_deployment y cr ≡ answer y) same
      (rw (normal_spec_again a.body.spec spec made, normal_meta_again cr a.meta) refl)
