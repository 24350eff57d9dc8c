-- ===== src/Controllers/Deployment/Defaulting.antt =====
-- controllers/deployment.go: the normal form does not depend on what the API server fills in.
use argo_rollouts_manager.Go.StringMaps.{StringMap}
use argo_rollouts_manager.Kube.Defaults.{
  bare_spec, bare_container, if_some, or_empty, bare_probe, bare_security, bare_http, bare_port,
  bare_capabilities, bare_mount,
}
use argo_rollouts_manager.Go.Errors.{Response, answer, refusal}
use argo_rollouts_manager.Controllers.Deployment.Normal.{
  normal_spec, assembled, normal_parts, normalize_map, normal_container, filled, required, two, one,
  security_of, Parts, normal_affinity,
}
use argo_rollouts_manager.Kube.Workload.{
  Slice, DeploymentSpec, Container, SecurityContext, Capabilities, LabelSelector,
}
use argo_rollouts_manager.Base.{
  ◌∷◌, ◌≡◌, Option, String, List, ap, sym, ◌∙◌, map, some, refl, [], none, Option-cases, inl, inr,
}
use argo_rollouts_manager.Controllers.Deployment.{◌then◌}

then_cong :
    {A B : Type 0} (r : Response A) (f g : A → Response B)
    → ((a : A) → f a ≡ g a)
    → (r then f) ≡ (r then g)
then_cong (answer a) f g h = h a
then_cong (refusal e) f g h = refl

module _ {A B C : Type 0} (text : String) (f : A → B) where
  required_if_some :
      (o : Option A) (g : B → Response C)
      → (required text (if_some f o) then g) ≡ (required text o then λ a. g (f a))
  required_if_some none g = refl
  required_if_some (some a) g = refl

  two-map :
      (xs : List A) (g : B × B → Response C)
      → (two text (map f xs) then g) ≡ (two text xs then λ p. g (f p.0, f p.1))
  two-map [] g = refl
  two-map (a ∷ []) g = refl
  two-map (a ∷ b ∷ []) g = refl
  two-map (a ∷ b ∷ c ∷ xs) g = refl

  one-map :
      (xs : List A) (g : B → Response C)
      → (one text (map f xs) then g) ≡ (one text xs then λ a. g (f a))
  one-map [] g = refl
  one-map (a ∷ []) g = refl
  one-map (a ∷ b ∷ xs) g = refl

security_of-bare :
    {C : Type 0} (o : Option SecurityContext) (g : SecurityContext × Capabilities → Response C)
    → (security_of (if_some bare_security o) then g)
      ≡ (security_of o then λ s. g (bare_security s.0, bare_capabilities s.1))
security_of-bare none g = refl
security_of-bare (some s) g = elim (Option-cases s.capabilities) [
  | inl e ↦ rw e refl
  | inr (x, e) ↦ rw e (
      ap (λ o. g (record s { capabilities = o; other = "" }, bare_capabilities x))
        (sym (ap (if_some bare_capabilities) e)))
]

filled-or_empty : {A : Type 0} (xs : Slice A) → filled (or_empty xs) ≡ filled xs
filled-or_empty none = refl
filled-or_empty (some xs) = refl

normalize_map-or_empty : (m : StringMap) → normalize_map (or_empty m) ≡ normalize_map m
unfolding normalize_map
normalize_map-or_empty none = refl
normalize_map-or_empty (some m) = refl

normal_container-bare : (c : Container) → normal_container (bare_container c) ≡ normal_container c
unfolding normal_container
normal_container-bare c =
    rw (filled-or_empty c.args, filled-or_empty c.env)
      (required_if_some "incorrect liveness probe" bare_probe c.liveness_probe _
        ∙ then_cong (required "incorrect liveness probe" c.liveness_probe) _ _ (λ probe.
          required_if_some "incorrect http get in liveness probe" bare_http probe.http_get _
          ∙ then_cong (required "incorrect http get in liveness probe" probe.http_get) _ _ (λ http.
            two-map "incorrect input ports" bare_port c.ports _
            ∙ then_cong (two "incorrect input ports" c.ports) _ _ (λ ports.
              security_of-bare c.security_context _
              ∙ then_cong (security_of c.security_context) _ _
                  (λ security. two-map "incorrect volume mounts" bare_mount c.volume_mounts _)))))

normal_parts-bare :
    (d : DeploymentSpec) (s : LabelSelector) → normal_parts (bare_spec d) s ≡ normal_parts d s
unfolding normal_parts bare_spec
normal_parts-bare d s =
    let pod = d.template.spec in
    then_cong (required "missing .spec.template.spec.securityContext" pod.security_context) _ _
      (λ security. then_cong (two "missing .spec.template.spec.volumes" pod.volumes) _ _ (λ volumes.
        one-map "incorrect number of .spec.template.spec.containers" bare_container pod.containers _
        ∙ then_cong (one "incorrect number of .spec.template.spec.containers" pod.containers) _ _
            (λ input.
              ap
                (λ r. r then λ container. normal_affinity s pod.affinity then λ affinity.
                  answer (record {
                    security = security;
                    volumes = volumes;
                    container = container;
                    affinity = affinity;
                  }))
                (normal_container-bare input))))

assembled-bare :
    (d : DeploymentSpec) (s : LabelSelector) (p : Parts)
    → assembled (bare_spec d) s p ≡ assembled d s p
unfolding assembled bare_spec
assembled-bare d s p =
    rw (normalize_map-or_empty d.template.labels, normalize_map-or_empty d.template.annotations)
      refl

pub normal_spec-bare : (d : DeploymentSpec) → normal_spec (bare_spec d) ≡ normal_spec d
unfolding normal_spec bare_spec
normal_spec-bare d = then_cong (required "missing .spec.selector" d.selector) _ _ (λ s.
    ap (λ r. r then λ p. answer (assembled (bare_spec d) s p)) (normal_parts-bare d s)
    ∙ then_cong (normal_parts d s) _ _ (λ p. ap answer (assembled-bare d s p)))

-- The normal form of what is stored is that of what was sent.
pub normal_spec-Kept :
    (sent stored : DeploymentSpec)
    → bare_spec stored ≡ bare_spec sent
    → normal_spec stored ≡ normal_spec sent
normal_spec-Kept sent stored h =
    sym (normal_spec-bare stored) ∙ (ap normal_spec h ∙ normal_spec-bare sent)
