-- ===== src/Controllers/NetworkPolicy.antt =====
-- controllers/resources.go: the NetworkPolicy.
pub mod Settling
pub mod Frame
use argo_rollouts_manager.Go.DeepEqual.{list_deep_eq, string_deep_eq, ingress_rule_deep_eq}
use argo_rollouts_manager.Kube.Objects.{from_int}
use argo_rollouts_manager.Controllers.Rbac.{named}
use argo_rollouts_manager.Controllers.Metadata.{set_labels_and_annotations_to_object}
use argo_rollouts_manager.Controllers.Defaults.{
  default_rollouts_selector_key, default_argo_rollouts_resource_name,
  default_rollouts_network_policy,
}
use argo_rollouts_manager.Go.DeepEqual.{deep_eq}
use argo_rollouts_manager.Go.StringMaps.{deep_equal}
use argo_rollouts_manager.Go.Errors.{Response, GoError, wrap, refusal, append, answer}
use argo_rollouts_manager.Controllers.Live.{Target, ensure, fetch_object}
use argo_rollouts_manager.Api.{RolloutManager, is_enabled}
use argo_rollouts_manager.Kube.Objects.{NetworkPolicyPort, NetworkPolicyBody, Kind, Object}
use argo_rollouts_manager.Base.{
  List, ℕ, String, some, if◌then◌else◌, Bool, not, ◌==◌, [], ◌&&◌, true, ◌||◌, ◌∷◌, nat_eq, false,
  none,
}
use argo_rollouts_manager.Kube.Client.{Client}
use argo_rollouts_manager.Kube.Workload.{LabelSelector}
use argo_rollouts_manager.Go.Exec.{◌>>=◌, ◌>>◌, Exec, ask, pure, raise, send, or_raise}

-- `reflect.DeepEqual` on the parts of a NetworkPolicy's `spec`.
abbrev pub selectors_eq : LabelSelector → LabelSelector → Bool
selectors_eq a b = deep_equal a.match_labels b.match_labels && (a.other == b.other)

abbrev pub tcp : ℕ → NetworkPolicyPort
tcp port = record { protocol = some "TCP"; port = some (from_int port); end_port = none }

abbrev pub desired_network_policy : NetworkPolicyBody
desired_network_policy = record {
  pod_selector = record {
    match_labels = some ((default_rollouts_selector_key, default_argo_rollouts_resource_name) ∷ []);
    other = "";
  };
  policy_types = "Ingress" ∷ [];
  ingress = record { ports = tcp 8080 ∷ tcp 8090 ∷ []; from = none } ∷ [];
}

-- The three tests that set `updateNeeded`.
unfoldable pub network_policy_differs : NetworkPolicyBody → Bool
network_policy_differs b =
    not (selectors_eq b.pod_selector desired_network_policy.pod_selector)
    || not (deep_eq b.policy_types desired_network_policy.policy_types)
    || not (deep_eq b.ingress desired_network_policy.ingress)

-- Each part that differs is replaced.
unfoldable pub fix_network_policy : NetworkPolicyBody → NetworkPolicyBody
fix_network_policy b = record b {
  pod_selector =
      if selectors_eq b.pod_selector desired_network_policy.pod_selector
      then b.pod_selector
      else desired_network_policy.pod_selector;
  policy_types =
      if deep_eq b.policy_types desired_network_policy.policy_types
      then b.policy_types
      else desired_network_policy.policy_types;
  ingress =
      if deep_eq b.ingress desired_network_policy.ingress
      then b.ingress
      else desired_network_policy.ingress;
}

-- `fmt.Errorf("failed to <verb> network policy %s in namespace %s: %w", …)`
abbrev policy_error : String → RolloutManager → GoError → GoError
policy_error verb cr = wrap (
    append "failed to " (
      append verb (
        append " network policy " (
          append default_rollouts_network_policy
            (append " in namespace " (append cr.meta.namespace ": "))))))

-- `generateNetworkPolicyHeaders`, and the `spec` that `reconcileRolloutsNetworkPolicy` adds.
unfoldable pub network_policy_target : RolloutManager → Target Kind.network_policy
network_policy_target cr = record {
  expected = record {
    meta =
        set_labels_and_annotations_to_object
          (named default_rollouts_network_policy cr.meta.namespace) cr;
    body = desired_network_policy;
  };
  owned = true;
  body_differs = network_policy_differs;
  fix_body = fix_network_policy;
  fetch_error =
      wrap (append "failed to get NetworkPolicy " (append default_rollouts_network_policy ": "));
  reference_error = wrap "failed to set controller reference on rollouts network policy: ";
  create_error = policy_error "create" cr;
  update_error = policy_error "update" cr;
}

module _ (c : Client) where
  open c use {State, delete}

  unfoldable pub delete_network_policy :
      Response (Object Kind.network_policy) → Exec State (Unit {0})
  delete_network_policy (refusal e) = if e.is_not_found then pure tt else raise e
  delete_network_policy (answer existing) = do
    deleted ← send (delete Kind.network_policy existing.meta.namespace existing.meta.name)
    or_raise (λ e. e) deleted

  -- `deleteRolloutsNetworkPolicies`
  unfoldable pub delete_rollouts_network_policies : RolloutManager → Exec State (Unit {0})
  delete_rollouts_network_policies cr = do
    found ←
        ask (fetch_object c Kind.network_policy cr.meta.namespace default_rollouts_network_policy)
    delete_network_policy found

  -- `reconcileRolloutsNetworkPolicy`
  unfoldable pub reconcile_rollouts_network_policy : RolloutManager → Exec State (Unit {0})
  reconcile_rollouts_network_policy cr =
      if is_enabled cr.spec.network_policy
      then (do ensure c cr (network_policy_target cr); pure tt)
      else delete_rollouts_network_policies cr
