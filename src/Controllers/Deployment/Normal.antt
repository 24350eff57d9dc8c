-- ===== src/Controllers/Deployment/Normal.antt =====
-- controllers/deployment.go: `normalizeDeployment`, which drops what the operator does not set.
use argo_rollouts_manager.Controllers.Metadata.{set_labels_and_annotations_to_object, retain_keys}
use argo_rollouts_manager.Kube.Meta.{ObjectMeta}
use argo_rollouts_manager.Go.Errors.{Response, answer, refusal, new_error}
use argo_rollouts_manager.Kube.Objects.{Object, Kind}
use argo_rollouts_manager.Api.{RolloutManager}
use argo_rollouts_manager.Go.StringMaps.{StringMap, get}
use argo_rollouts_manager.Kube.Workload.{
  ContainerPort, Probe, Container, SecurityContext, LabelSelector, Slice, VolumeMount,
  DeploymentSpec, HttpGetAction, PodAffinityTerm, Capabilities, PodAntiAffinity, Affinity,
  PodSecurityContext, Volume,
}
use argo_rollouts_manager.Base.{Option, String, List, [], ◌∷◌, is_some}
use mathlib.Core.Option.{none, some}
use argo_rollouts_manager.Controllers.Deployment.{◌then◌}

-- `normalizeMap`
unfoldable pub normalize_map : StringMap → StringMap
normalize_map none = some []
normalize_map (some m) = some m

-- The labels and annotations that the operator adds to a Deployment.
unfoldable pub normal_meta : RolloutManager → ObjectMeta → ObjectMeta
normal_meta cr input =
    let standard = set_labels_and_annotations_to_object input cr in
    record {
      name = input.name;
      namespace = input.namespace;
      labels = retain_keys (λ k. is_some (get k standard.labels)) input.labels;
      annotations = retain_keys (λ k. is_some (get k standard.annotations)) input.annotations;
      controller = none;
      deletion_timestamp = none;
    }

-- `if p == nil { return …, fmt.Errorf(…) }`
abbrev pub required : {A : Type 0} → String → Option A → Response A
required text none = refusal (new_error text)
required text (some a) = answer a

-- `if len(xs) != 2`; the two elements.
abbrev pub two : {A : Type 0} → String → List A → Response (A × A)
two text (a ∷ b ∷ []) = answer (a, b)
two text _ = refusal (new_error text)

-- `if len(xs) != 1`; the element.
abbrev pub one : {A : Type 0} → String → List A → Response A
one text (a ∷ []) = answer a
one text _ = refusal (new_error text)

-- A nil slice becomes an empty one.
abbrev pub filled : {A : Type 0} → Slice A → Slice A
filled none = some []
filled (some xs) = some xs

abbrev pub normal_probe : Probe → HttpGetAction → Probe
normal_probe p g = record {
  failure_threshold = p.failure_threshold;
  http_get = some (record { path = g.path; port = g.port; other = "" });
  initial_delay_seconds = p.initial_delay_seconds;
  period_seconds = p.period_seconds;
  success_threshold = p.success_threshold;
  timeout_seconds = p.timeout_seconds;
  other = "";
}

abbrev pub normal_port : ContainerPort → ContainerPort
normal_port p = record { container_port = p.container_port; name = p.name; other = "" }

abbrev pub normal_mount : VolumeMount → VolumeMount
normal_mount m = record { name = m.name; mount_path = m.mount_path; other = "" }

abbrev pub normal_security : SecurityContext → Capabilities → SecurityContext
normal_security s c = record {
  capabilities = some (record { drop = c.drop; other = "" });
  allow_privilege_escalation = s.allow_privilege_escalation;
  read_only_root_filesystem = s.read_only_root_filesystem;
  run_as_non_root = s.run_as_non_root;
  seccomp_profile = s.seccomp_profile;
  other = "";
}

abbrev pub security_of : Option SecurityContext → Response (SecurityContext × Capabilities)
security_of none = refusal (new_error "incorrect security context")
security_of (some s) = elim s.capabilities [
  | none ↦ refusal (new_error "incorrect security context")
  | some c ↦ answer (s, c)
]

-- The container, or what is wrong with it.
unfoldable pub normal_container : Container → Response Container
normal_container c = required "incorrect liveness probe" c.liveness_probe then λ probe.
    required "incorrect http get in liveness probe" probe.http_get then λ http.
    two "incorrect input ports" c.ports then λ ports.
    security_of c.security_context then λ security.
    two "incorrect volume mounts" c.volume_mounts then λ mounts. answer (record {
      args = filled c.args;
      env = filled c.env;
      image = c.image;
      image_pull_policy = c.image_pull_policy;
      liveness_probe = some (normal_probe probe http);
      name = c.name;
      ports = normal_port ports.0 ∷ normal_port ports.1 ∷ [];
      readiness_probe = c.readiness_probe;
      resources = c.resources;
      security_context = some (normal_security security.0 security.1);
      volume_mounts = normal_mount mounts.0 ∷ normal_mount mounts.1 ∷ [];
      other = "";
    })

abbrev pub normal_selector : LabelSelector → LabelSelector
normal_selector s = record { match_labels = normalize_map s.match_labels; other = "" }

abbrev pub normal_term : LabelSelector → PodAffinityTerm → PodAffinityTerm
normal_term s t = record {
  label_selector = some (normal_selector s);
  topology_key = t.topology_key;
  other = "";
}

unfoldable pub normal_anti_affinity :
    LabelSelector → Option PodAntiAffinity → Response (Option PodAntiAffinity)
normal_anti_affinity s none = answer none
normal_anti_affinity s (some a) =
    one "incorrect number of anti-affinity PreferredDuringSchedulingIgnoredDuringExecution"
      a.preferred
    then λ p.
        one "incorrect number of anti-affinity RequiredDuringSchedulingIgnoredDuringExecution"
          a.required
        then λ r. answer (
            some (record {
              preferred = record { weight = p.weight; term = normal_term s p.term } ∷ [];
              required = normal_term s r ∷ [];
            }))

unfoldable pub normal_affinity : LabelSelector → Option Affinity → Response (Option Affinity)
normal_affinity s none = answer none
normal_affinity s (some a) = normal_anti_affinity s a.pod_anti_affinity then λ anti.
    answer (some (record { pod_affinity = a.pod_affinity; pod_anti_affinity = anti; other = "" }))

-- What `normalizeDeployment` has read and checked of `input.Spec` beside the selector.
pub record Parts : Type 0 where
  pub security : PodSecurityContext
  pub volumes : Volume × Volume
  pub container : Container
  pub affinity : Option Affinity

unfoldable pub normal_parts : DeploymentSpec → LabelSelector → Response Parts
normal_parts d selector =
    let pod = d.template.spec in
    required "missing .spec.template.spec.securityContext" pod.security_context then λ security.
    two "missing .spec.template.spec.volumes" pod.volumes then λ volumes.
    one "incorrect number of .spec.template.spec.containers" pod.containers then λ input.
    normal_container input then λ container. normal_affinity selector pod.affinity then λ affinity.
    answer (record {
      security = security;
      volumes = volumes;
      container = container;
      affinity = affinity;
    })

-- `res.Spec`
unfoldable pub assembled : DeploymentSpec → LabelSelector → Parts → DeploymentSpec
assembled d selector parts =
    let pod = d.template.spec in
    record {
      replicas = some (elim d.replicas [ none ↦ 1 | some n ↦ n ]);
      selector = some (normal_selector selector);
      template = record {
        labels = normalize_map d.template.labels;
        annotations = normalize_map d.template.annotations;
        spec = record {
          node_selector = pod.node_selector;
          tolerations = pod.tolerations;
          service_account_name = pod.service_account_name;
          security_context =
              some (record { run_as_non_root = parts.security.run_as_non_root; other = "" });
          containers = parts.container ∷ [];
          volumes = parts.volumes.0 ∷ parts.volumes.1 ∷ [];
          affinity = parts.affinity;
          other = "";
        };
      };
      strategy = record { strategy_type = d.strategy.strategy_type; rolling_update = none };
      other = "";
    }

-- What `normalizeDeployment` makes of `input.Spec`.
unfoldable pub normal_spec : DeploymentSpec → Response DeploymentSpec
normal_spec d = required "missing .spec.selector" d.selector then λ selector.
    normal_parts d selector then λ parts. answer (assembled d selector parts)

-- `normalizeDeployment`
unfoldable pub normalize_deployment :
    Object Kind.deployment → RolloutManager → Response (Object Kind.deployment)
normalize_deployment input cr = normal_spec input.body.spec then λ spec.
    answer (record {
      meta = normal_meta cr input.meta;
      body = record { spec = spec; ready_replicas = 0 };
    })
