-- ===== src/Kube/Defaults.antt =====
-- What the API server keeps of the specification of a Deployment: it fills in defaults, and does not
-- tell a nil slice or map from an empty one.
use argo_rollouts_manager.Kube.Objects.{NetworkPolicyPort, Subject, NetworkPolicyIngressRule}
use argo_rollouts_manager.Base.{[], if◌then◌else◌, ◌==◌, ◌&&◌, ◌||◌}
use mathlib.Core.Option.{Option, none, some}
use mathlib.Core.List.{List, map}
use argo_rollouts_manager.Kube.Workload.{
  DeploymentSpec, HttpGetAction, Container, Probe, Capabilities, VolumeMount, SecurityContext,
  ContainerPort,
}

abbrev pub if_some : {A B : Type 0} → (A → B) → Option A → Option B
if_some f none = none
if_some f (some a) = some (f a)

abbrev pub or_empty : {A : Type 0} → Option (List A) → Option (List A)
or_empty none = some []
or_empty (some xs) = some xs

abbrev pub bare_http : HttpGetAction → HttpGetAction
bare_http g = record g { other = "" }

abbrev pub bare_probe : Probe → Probe
bare_probe p = record p { http_get = if_some bare_http p.http_get; other = "" }

abbrev pub bare_port : ContainerPort → ContainerPort
bare_port p = record p { other = "" }

abbrev pub bare_mount : VolumeMount → VolumeMount
bare_mount m = record m { other = "" }

abbrev pub bare_capabilities : Capabilities → Capabilities
bare_capabilities c = record c { other = "" }

abbrev pub bare_security : SecurityContext → SecurityContext
bare_security s = record s { capabilities = if_some bare_capabilities s.capabilities; other = "" }

-- The fields `other` hold those that the operator does not set, such as the scheme of a probe, the
-- protocol of a port and the path for termination messages.
abbrev pub bare_container : Container → Container
bare_container c = record c {
  args = or_empty c.args;
  env = or_empty c.env;
  liveness_probe = if_some bare_probe c.liveness_probe;
  ports = map bare_port c.ports;
  security_context = if_some bare_security c.security_context;
  volume_mounts = map bare_mount c.volume_mounts;
  other = "";
}

-- A specification without what the server fills in: the parameters of a rolling update, one replica
-- where the number is missing, and the fields that the operator does not set.
unfoldable pub bare_spec : DeploymentSpec → DeploymentSpec
bare_spec d = record d {
  replicas = some (elim d.replicas [ none ↦ 1 | some n ↦ n ]);
  template = record {
    labels = or_empty d.template.labels;
    annotations = or_empty d.template.annotations;
    spec = record d.template.spec {
      containers = map bare_container d.template.spec.containers;
      other = "";
    };
  };
  strategy = record d.strategy { rolling_update = none };
  other = "";
}

-- A subject other than a service account belongs to the API group of RBAC where none is named.
unfoldable pub with_group : Subject → Subject
with_group u =
    if (u.api_group == "") && ((u.kind == "User") || (u.kind == "Group"))
    then record u { api_group = "rbac.authorization.k8s.io" }
    else u

abbrev pub with_protocol : NetworkPolicyPort → NetworkPolicyPort
with_protocol p = record p { protocol = some (elim p.protocol [ none ↦ "TCP" | some q ↦ q ]) }

-- TCP is the protocol of a port where none is named.
unfoldable pub with_protocols : NetworkPolicyIngressRule → NetworkPolicyIngressRule
with_protocols r = record r { ports = map with_protocol r.ports }
