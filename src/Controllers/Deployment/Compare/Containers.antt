-- ===== src/Controllers/Deployment/Compare/Containers.antt =====
-- controllers/deployment.go: `reflect.DeepEqual` on containers.
use argo_rollouts_manager.Controllers.Deployment.Compare.{
  nat_eq_refl, options_alike_refl, slices_alike, options_alike, lists_alike, texts_alike,
  flags_alike, flags_alike_refl, lists_alike_refl,
}
use argo_rollouts_manager.Kube.Workload.{
  SecurityContext, VolumeMount, EnvVar, HttpGetAction, Probe, Container, Capabilities,
  ContainerPort,
}
use argo_rollouts_manager.Base.{◌≡◌, true, Bool, nat_eq, eq_refl, ◌==◌, ◌&&◌, refl}

unfoldable pub env_vars_alike : EnvVar → EnvVar → Bool
env_vars_alike x y =
    (x.name == y.name)
    && (x.value == y.value)
    && options_alike texts_alike x.value_from y.value_from

pub env_vars_alike_refl : (x : EnvVar) → env_vars_alike x x ≡ true
unfolding env_vars_alike
env_vars_alike_refl x =
    rw (eq_refl x.name, eq_refl x.value, options_alike_refl texts_alike eq_refl x.value_from) refl

unfoldable pub http_gets_alike : HttpGetAction → HttpGetAction → Bool
http_gets_alike x y = (x.path == y.path) && (x.port == y.port) && (x.other == y.other)

pub http_gets_alike_refl : (x : HttpGetAction) → http_gets_alike x x ≡ true
unfolding http_gets_alike
http_gets_alike_refl x = rw (eq_refl x.path, eq_refl x.port, eq_refl x.other) refl

unfoldable pub probes_alike : Probe → Probe → Bool
probes_alike x y =
    nat_eq x.failure_threshold y.failure_threshold
    && options_alike http_gets_alike x.http_get y.http_get
    && nat_eq x.initial_delay_seconds y.initial_delay_seconds
    && nat_eq x.period_seconds y.period_seconds
    && nat_eq x.success_threshold y.success_threshold
    && nat_eq x.timeout_seconds y.timeout_seconds
    && (x.other == y.other)

pub probes_alike_refl : (x : Probe) → probes_alike x x ≡ true
unfolding probes_alike
probes_alike_refl x =
    rw
      (
        nat_eq_refl x.failure_threshold,
        options_alike_refl http_gets_alike http_gets_alike_refl x.http_get,
        nat_eq_refl x.initial_delay_seconds,
        nat_eq_refl x.period_seconds,
        nat_eq_refl x.success_threshold,
        nat_eq_refl x.timeout_seconds,
        eq_refl x.other,
      )
      refl

unfoldable pub ports_alike : ContainerPort → ContainerPort → Bool
ports_alike x y =
    nat_eq x.container_port y.container_port && (x.name == y.name) && (x.other == y.other)

pub ports_alike_refl : (x : ContainerPort) → ports_alike x x ≡ true
unfolding ports_alike
ports_alike_refl x = rw (nat_eq_refl x.container_port, eq_refl x.name, eq_refl x.other) refl

unfoldable pub capabilities_alike : Capabilities → Capabilities → Bool
capabilities_alike x y = slices_alike texts_alike x.drop y.drop && (x.other == y.other)

pub capabilities_alike_refl : (x : Capabilities) → capabilities_alike x x ≡ true
unfolding capabilities_alike
capabilities_alike_refl x =
    rw
      (
        options_alike_refl (lists_alike texts_alike) (lists_alike_refl texts_alike eq_refl) x.drop,
        eq_refl x.other,
      )
      refl

unfoldable pub security_contexts_alike : SecurityContext → SecurityContext → Bool
security_contexts_alike x y =
    options_alike capabilities_alike x.capabilities y.capabilities
    && options_alike flags_alike x.allow_privilege_escalation y.allow_privilege_escalation
    && options_alike flags_alike x.read_only_root_filesystem y.read_only_root_filesystem
    && options_alike flags_alike x.run_as_non_root y.run_as_non_root
    && options_alike texts_alike x.seccomp_profile y.seccomp_profile
    && (x.other == y.other)

pub security_contexts_alike_refl : (x : SecurityContext) → security_contexts_alike x x ≡ true
unfolding security_contexts_alike
security_contexts_alike_refl x =
    rw
      (
        options_alike_refl capabilities_alike capabilities_alike_refl x.capabilities,
        options_alike_refl flags_alike flags_alike_refl x.allow_privilege_escalation,
        options_alike_refl flags_alike flags_alike_refl x.read_only_root_filesystem,
        options_alike_refl flags_alike flags_alike_refl x.run_as_non_root,
        options_alike_refl texts_alike eq_refl x.seccomp_profile,
        eq_refl x.other,
      )
      refl

unfoldable pub mounts_alike : VolumeMount → VolumeMount → Bool
mounts_alike x y = (x.name == y.name) && (x.mount_path == y.mount_path) && (x.other == y.other)

pub mounts_alike_refl : (x : VolumeMount) → mounts_alike x x ≡ true
unfolding mounts_alike
mounts_alike_refl x = rw (eq_refl x.name, eq_refl x.mount_path, eq_refl x.other) refl

unfoldable pub containers_alike : Container → Container → Bool
containers_alike x y =
    slices_alike texts_alike x.args y.args
    && slices_alike env_vars_alike x.env y.env
    && (x.image == y.image)
    && (x.image_pull_policy == y.image_pull_policy)
    && options_alike probes_alike x.liveness_probe y.liveness_probe
    && (x.name == y.name)
    && lists_alike ports_alike x.ports y.ports
    && options_alike texts_alike x.readiness_probe y.readiness_probe
    && (x.resources == y.resources)
    && options_alike security_contexts_alike x.security_context y.security_context
    && lists_alike mounts_alike x.volume_mounts y.volume_mounts
    && (x.other == y.other)

pub containers_alike_refl : (x : Container) → containers_alike x x ≡ true
unfolding containers_alike
containers_alike_refl x =
    rw
      (
        options_alike_refl (lists_alike texts_alike) (lists_alike_refl texts_alike eq_refl) x.args,
        options_alike_refl (lists_alike env_vars_alike)
            (lists_alike_refl env_vars_alike env_vars_alike_refl) x.env,
        eq_refl x.image,
        eq_refl x.image_pull_policy,
        options_alike_refl probes_alike probes_alike_refl x.liveness_probe,
        eq_refl x.name,
        lists_alike_refl ports_alike ports_alike_refl x.ports,
        options_alike_refl texts_alike eq_refl x.readiness_probe,
        eq_refl x.resources,
        options_alike_refl security_contexts_alike security_contexts_alike_refl x.security_context,
        lists_alike_refl mounts_alike mounts_alike_refl x.volume_mounts,
        eq_refl x.other,
      )
      refl
