-- ===== src/Kube/Workload.antt =====
-- `appsv1.Deployment` and what it holds. A field `other` stands for all the fields that the
-- operator never sets; the API server may fill them in.
use argo_rollouts_manager.Base.{ℕ, String, Bool, Option, List}
use argo_rollouts_manager.Go.StringMaps.{StringMap}
use argo_rollouts_manager.Kube.Meta.{Opaque}

-- A slice that may be nil.
abbrev pub Slice : Type 0 → Type 0
Slice A = Option (List A)

pub record EnvVar : Type 0 where
  pub name : String
  pub value : String
  pub value_from : Option Opaque

pub record HttpGetAction : Type 0 where
  pub path : String
  pub port : String
  pub other : Opaque

pub record Probe : Type 0 where
  pub failure_threshold : ℕ
  pub http_get : Option HttpGetAction
  pub initial_delay_seconds : ℕ
  pub period_seconds : ℕ
  pub success_threshold : ℕ
  pub timeout_seconds : ℕ
  pub other : Opaque

pub record ContainerPort : Type 0 where
  pub container_port : ℕ
  pub name : String
  pub other : Opaque

pub record Capabilities : Type 0 where
  pub drop : Slice String
  pub other : Opaque

pub record SecurityContext : Type 0 where
  pub capabilities : Option Capabilities
  pub allow_privilege_escalation : Option Bool
  pub read_only_root_filesystem : Option Bool
  pub run_as_non_root : Option Bool
  pub seccomp_profile : Option String
  pub other : Opaque

pub record VolumeMount : Type 0 where
  pub name : String
  pub mount_path : String
  pub other : Opaque

pub record Container : Type 0 where
  pub args : Slice String
  pub env : Slice EnvVar
  pub image : String
  pub image_pull_policy : String
  pub liveness_probe : Option Probe
  pub name : String
  pub ports : List ContainerPort
  pub readiness_probe : Option Opaque
  pub resources : Opaque
  pub security_context : Option SecurityContext
  pub volume_mounts : List VolumeMount
  pub other : Opaque

pub record LabelSelector : Type 0 where
  pub match_labels : StringMap
  pub other : Opaque

pub record PodAffinityTerm : Type 0 where
  pub label_selector : Option LabelSelector
  pub topology_key : String
  pub other : Opaque

pub record WeightedPodAffinityTerm : Type 0 where
  pub weight : ℕ
  pub term : PodAffinityTerm

pub record PodAntiAffinity : Type 0 where
  pub preferred : List WeightedPodAffinityTerm
  pub required : List PodAffinityTerm

pub record Affinity : Type 0 where
  pub pod_affinity : Option Opaque
  pub pod_anti_affinity : Option PodAntiAffinity
  pub other : Opaque

pub record PodSecurityContext : Type 0 where
  pub run_as_non_root : Option Bool
  pub other : Opaque

pub record Volume : Type 0 where
  pub name : String
  pub source : Opaque

pub record PodSpec : Type 0 where
  pub node_selector : StringMap
  pub tolerations : Slice Opaque
  pub service_account_name : String
  pub security_context : Option PodSecurityContext
  pub containers : List Container
  pub volumes : List Volume
  pub affinity : Option Affinity
  pub other : Opaque

pub record PodTemplateSpec : Type 0 where
  pub labels : StringMap
  pub annotations : StringMap
  pub spec : PodSpec

pub record DeploymentStrategy : Type 0 where
  pub strategy_type : String
  pub rolling_update : Option Opaque

pub record DeploymentSpec : Type 0 where
  pub replicas : Option ℕ
  pub selector : Option LabelSelector
  pub template : PodTemplateSpec
  pub strategy : DeploymentStrategy
  pub other : Opaque

-- A Deployment without its metadata.
pub record DeploymentBody : Type 0 where
  pub spec : DeploymentSpec
  pub ready_replicas : ℕ
