-- ===== src/Controllers/Deployment.antt =====
-- controllers/deployment.go: the Deployment of the Rollouts controller that the operator generates.
-- What is read of the process and of the image parser is an argument.
pub mod Normal
pub mod Generating
pub mod Compare
pub mod Reconcile
pub mod Settling
pub mod Convergence
pub mod Replicas
pub mod Defaulting
pub mod Forms
pub mod Again
use argo_rollouts_manager.Controllers.Rbac.{named}
use argo_rollouts_manager.Go.Maps.{insert_all}
use argo_rollouts_manager.Controllers.Metadata.{
  append_string_map, set_labels_and_annotations_to_object,
}
use argo_rollouts_manager.Controllers.EnvVars.{env_merge, proxy_env_vars}
use argo_rollouts_manager.Kube.Objects.{Object, Kind}
use argo_rollouts_manager.Controllers.Defaults.{
  topology_kubernetes_zone_label, default_rollouts_selector_key, kubernetes_hostname_label,
  default_argo_rollouts_resource_name,
}
use argo_rollouts_manager.Controllers.Container.{
  Parser, get_rollouts_command_args, get_rollouts_container_image, get_image_pull_policy,
}
use argo_rollouts_manager.Go.StringMaps.{Entries, StringMap, entries}
use argo_rollouts_manager.Go.Errors.{Response, answer, refusal}
use argo_rollouts_manager.Kube.Meta.{Opaque}
use argo_rollouts_manager.Api.{RolloutManager, ha_enabled}
use argo_rollouts_manager.Base.{◌≡◌, List, Option, String, ◌∷◌, true, ℕ, [], false, if◌then◌else◌}
use mathlib.Core.Option.{none, some}
use argo_rollouts_manager.Kube.Workload.{
  Container, DeploymentSpec, EnvVar, PodSpec, Affinity, Volume, Probe, SecurityContext,
  LabelSelector, Slice,
}

-- `os.Getenv`, and the parser of image references.
pub record Environment : Type 0 where
  pub getenv : String → String
  pub parse : Parser

-- `defaultRolloutsContainerResources`, in serialised form.
abbrev pub default_rollouts_container_resources : Opaque
default_rollouts_container_resources = "limits: {ephemeral-storage: 1Gi}"

abbrev rollouts_liveness_probe : Probe
rollouts_liveness_probe = record {
  failure_threshold = 3;
  http_get = some (record { path = "/healthz"; port = "healthz"; other = "" });
  initial_delay_seconds = 30;
  period_seconds = 20;
  success_threshold = 1;
  timeout_seconds = 10;
  other = "";
}

abbrev container_security : SecurityContext
container_security = record {
  capabilities = some (record { drop = some ("ALL" ∷ []); other = "" });
  allow_privilege_escalation = some false;
  read_only_root_filesystem = some true;
  run_as_non_root = some true;
  seccomp_profile = some "RuntimeDefault";
  other = "";
}

-- The container around its arguments, environment, image, pull policy and resources.
unfoldable pub container_with : List String → List EnvVar → String → String → Opaque → Container
container_with args env image policy resources = record {
  args = some args;
  env = some env;
  image = image;
  image_pull_policy = policy;
  liveness_probe = some rollouts_liveness_probe;
  name = "argo-rollouts";
  ports =
      record { container_port = 8080; name = "healthz"; other = "" }
      ∷ record { container_port = 8090; name = "metrics"; other = "" }
      ∷ [];
  readiness_probe = none;
  resources = resources;
  security_context = some container_security;
  volume_mounts =
      record { name = "plugin-bin"; mount_path = "/home/argo-rollouts/plugin-bin"; other = "" }
      ∷ record { name = "tmp"; mount_path = "/tmp"; other = "" }
      ∷ [];
  other = "";
}

abbrev or_default_resources : Option Opaque → Opaque
or_default_resources none = default_rollouts_container_resources
or_default_resources (some r) = r

infixl 5 ◌then◌
-- `if err != nil { return …, err }`
abbrev pub ◌then◌ : {A B : Type 0} → Response A → (A → Response B) → Response B
◌then◌ (answer a) f = f a
◌then◌ (refusal e) f = refusal e

module _ (env : Environment) (cr : RolloutManager) where
  -- The container, once its arguments, its image and its pull policy are known.
  abbrev pub container_of : List String → String → String → Container
  container_of args image policy =
      let vars = env_merge cr.spec.env (proxy_env_vars env.getenv) false in
      container_with args vars image policy (or_default_resources cr.spec.controller_resources)

  abbrev pub image_then_policy : List String → Response Container
  image_then_policy args = get_rollouts_container_image env.getenv env.parse cr then λ image.
      get_image_pull_policy env.getenv cr then λ policy. answer (container_of args image policy)

  -- `rolloutsContainer`
  unfoldable pub rollouts_container : Response Container
  rollouts_container = get_rollouts_command_args cr then image_then_policy

-- The labels of the pods, which are the selector too.
unfoldable pub pod_labels : RolloutManager → Entries
pod_labels cr =
    let labels = (default_rollouts_selector_key, default_argo_rollouts_resource_name) ∷ [] in
    elim cr.spec.additional_metadata [
      | none ↦ labels
      | some extra ↦ insert_all (entries extra.labels) labels
    ]

unfoldable pub pod_annotations : RolloutManager → Entries
pod_annotations cr = elim cr.spec.additional_metadata [
  | none ↦ []
  | some extra ↦ insert_all (entries extra.annotations) []
]

-- 1, and 2 with high availability.
unfoldable pub replica_count : RolloutManager → ℕ
replica_count cr = if ha_enabled cr then 2 else 1

abbrev labels_selector : Entries → LabelSelector
labels_selector labels = record { match_labels = some labels; other = "" }

-- The anti-affinity that keeps the replicas on different hosts, and on different zones if possible.
unfoldable pub ha_affinity : Entries → Affinity
ha_affinity labels = record {
  pod_affinity = none;
  pod_anti_affinity = some (record {
    preferred =
        record {
          weight = 100;
          term = record {
            label_selector = some (labels_selector labels);
            topology_key = topology_kubernetes_zone_label;
            other = "";
          };
        }
        ∷ [];
    required =
        record {
          label_selector = some (labels_selector labels);
          topology_key = kubernetes_hostname_label;
          other = "";
        }
        ∷ [];
  });
  other = "";
}

unfoldable pub node_selector_of : RolloutManager → StringMap
node_selector_of cr =
    let linux = some (("kubernetes.io/os", "linux") ∷ []) in
    elim cr.spec.node_placement [ none ↦ linux | some p ↦ append_string_map linux p.node_selector ]

abbrev tolerations_of : RolloutManager → Slice Opaque
tolerations_of cr = elim cr.spec.node_placement [ none ↦ none | some p ↦ p.tolerations ]

abbrev empty_dir : String → Volume
empty_dir name = record { name = name; source = "emptyDir: {}" }

-- `desiredDeployment.Spec`, around the container.
unfoldable pub deployment_spec : RolloutManager → String → Container → DeploymentSpec
deployment_spec cr account container = record {
  replicas = some (replica_count cr);
  selector = some (labels_selector (pod_labels cr));
  template = record {
    labels = some (pod_labels cr);
    annotations = some (pod_annotations cr);
    spec = record {
      node_selector = node_selector_of cr;
      tolerations = tolerations_of cr;
      service_account_name = account;
      security_context = some (record { run_as_non_root = some true; other = "" });
      containers = container ∷ [];
      volumes = empty_dir "plugin-bin" ∷ empty_dir "tmp" ∷ [];
      affinity = if ha_enabled cr then some (ha_affinity (pod_labels cr)) else none;
      other = "";
    };
  };
  strategy = record { strategy_type = "RollingUpdate"; rolling_update = none };
  other = "";
}

-- `generateDesiredRolloutsDeployment`
unfoldable pub generate_desired_rollouts_deployment :
    Environment → RolloutManager → Object Kind.service_account → Response (Object Kind.deployment)
generate_desired_rollouts_deployment env cr sa = rollouts_container env cr then λ container.
    answer (record {
      meta =
          set_labels_and_annotations_to_object
            (named default_argo_rollouts_resource_name cr.meta.namespace) cr;
      body = record { spec = deployment_spec cr sa.meta.name container; ready_replicas = 0 };
    })
