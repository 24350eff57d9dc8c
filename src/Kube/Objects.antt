-- ===== src/Kube/Objects.antt =====
-- The kinds of object, and what an object of each kind holds beside its metadata.
use argo_rollouts_manager.Base.{ℕ, String, List, Option}
use argo_rollouts_manager.Go.StringMaps.{StringMap}
use argo_rollouts_manager.Kube.Meta.{Opaque, ObjectMeta}
use argo_rollouts_manager.Kube.Workload.{DeploymentBody, LabelSelector}

pub data Kind : Type 0 where
  namespace service_account role cluster_role role_binding cluster_role_binding : Kind
  secret config_map deployment pod service service_monitor network_policy : Kind
  custom_resource_definition : Kind

pub record PolicyRule : Type 0 where
  pub api_groups : List String
  pub resources : List String
  pub verbs : List String
  pub other : Opaque

pub record RoleRef : Type 0 where
  pub api_group : String
  pub kind : String
  pub name : String

pub record Subject : Type 0 where
  pub kind : String
  pub api_group : String
  pub name : String
  pub namespace : String

pub record Binding : Type 0 where
  pub role_ref : RoleRef
  pub subjects : List Subject

pub record ServicePort : Type 0 where
  pub name : String
  pub port : ℕ
  pub protocol : String
  pub target_port : ℕ
  pub other : Opaque

pub record ServiceBody : Type 0 where
  pub ports : List ServicePort
  pub selector : StringMap

-- An endpoint by its port, as the operator sets no other field.
pub record ServiceMonitorBody : Type 0 where
  pub match_labels : StringMap
  pub endpoints : List String

-- `intstr.IntOrString`
pub data IntOrString : Type 0 where
  from_int : ℕ → IntOrString
  from_string : String → IntOrString

pub record NetworkPolicyPort : Type 0 where
  pub protocol : Option String
  pub port : Option IntOrString
  pub end_port : Option ℕ

-- The peers of `from` are opaque.
pub record NetworkPolicyIngressRule : Type 0 where
  pub ports : List NetworkPolicyPort
  pub from : Option (List Opaque)

pub record NetworkPolicyBody : Type 0 where
  pub pod_selector : LabelSelector
  pub policy_types : List String
  pub ingress : List NetworkPolicyIngressRule

abbrev pub Body : Kind → Type 0
Body Kind.namespace = Unit
Body Kind.service_account = Unit
Body Kind.role = List PolicyRule
Body Kind.cluster_role = List PolicyRule
Body Kind.role_binding = Binding
Body Kind.cluster_role_binding = Binding
Body Kind.secret = String
Body Kind.config_map = StringMap
Body Kind.deployment = DeploymentBody
Body Kind.pod = Unit
Body Kind.service = ServiceBody
Body Kind.service_monitor = ServiceMonitorBody
Body Kind.network_policy = NetworkPolicyBody
Body Kind.custom_resource_definition = Unit

pub record Object (k : Kind) : Type 0 where
  pub meta : ObjectMeta
  pub body : Body k
