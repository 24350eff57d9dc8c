-- ===== src/Controllers/Rbac.antt =====
-- controllers/resources.go: the service account, the roles and their bindings.
pub mod Rules
pub mod Replacing
pub mod Settling
pub mod Account
pub mod Aggregates
use argo_rollouts_manager.Go.DeepEqual.{deep_eq, list_deep_eq, rule_deep_eq, subject_deep_eq}
use argo_rollouts_manager.Go.Errors.{append, new_error, refusal, wrap, answer, Response}
use argo_rollouts_manager.Controllers.Rbac.Rules.{
  get_aggregate_to_edit_policy_rules, get_aggregate_to_view_policy_rules,
  get_aggregate_to_admin_policy_rules, get_policy_rules,
}
use argo_rollouts_manager.Controllers.Metadata.{
  set_labels_and_annotations_to_object, set_additional_labels_and_annotations,
}
use argo_rollouts_manager.Go.Maps.{insert}
use argo_rollouts_manager.Controllers.Defaults.{
  default_argo_rollouts_resource_name, part_of_key, default_rollouts_selector_key, component_key,
}
use argo_rollouts_manager.Controllers.Live.{Target, ensure, fetch_object}
use argo_rollouts_manager.Kube.Objects.{Kind, Object, Binding, PolicyRule, Subject}
use argo_rollouts_manager.Kube.Meta.{ObjectMeta}
use argo_rollouts_manager.Kube.Client.{Client}
use argo_rollouts_manager.Base.{String, some, Option, none, List, ◌∷◌, true, [], false, not, Bool}
use argo_rollouts_manager.Api.{RolloutManager}
use argo_rollouts_manager.Go.Exec.{◌>>=◌, ◌>>◌, Exec, raise, ask, pure, send, or_raise}

-- `setRolloutsAggregatedClusterRoleLabels`
unfoldable pub set_aggregated_cluster_role_labels : ObjectMeta → String → String → ObjectMeta
set_aggregated_cluster_role_labels obj name aggregation_type = record obj {
  labels = some (
      insert (append "rbac.authorization.k8s.io/" aggregation_type) "true" (
        insert part_of_key default_argo_rollouts_resource_name (
          insert default_rollouts_selector_key name
            (insert component_key "aggregate-cluster-role" []))));
}

abbrev pub named : String → String → ObjectMeta
named name namespace = record {
  name = name;
  namespace = namespace;
  labels = none;
  annotations = none;
  controller = none;
  deletion_timestamp = none;
}

-- `!reflect.DeepEqual(a, b)` on rules and on subjects
unfoldable pub rules_differ : List PolicyRule → List PolicyRule → Bool
rules_differ a b = not (deep_eq a b)

unfoldable pub subjects_differ : List Subject → List Subject → Bool
subjects_differ a b = not (deep_eq a b)

unfoldable pub service_account_target : RolloutManager → Target Kind.service_account
service_account_target cr = record {
  expected = record {
    meta =
        set_labels_and_annotations_to_object
          (named default_argo_rollouts_resource_name cr.meta.namespace) cr;
    body = tt;
  };
  owned = true;
  body_differs = λ b. false;
  fix_body = λ b. b;
  fetch_error = wrap "failed to get the ServiceAccount associated with argo-rollouts: ";
  reference_error = λ e. e;
  create_error = λ e. e;
  update_error = λ e. e;
}

unfoldable pub role_target : RolloutManager → Target Kind.role
role_target cr = record {
  expected = record {
    meta =
        set_labels_and_annotations_to_object
          (named default_argo_rollouts_resource_name cr.meta.namespace) cr;
    body = get_policy_rules;
  };
  owned = true;
  body_differs = λ b. rules_differ b get_policy_rules;
  fix_body = λ b. get_policy_rules;
  fetch_error =
      wrap "failed to reconcile the Role for the ServiceAccount associated with argo-rollouts: ";
  reference_error = λ e. e;
  create_error = λ e. e;
  update_error = λ e. e;
}

unfoldable pub cluster_role_target : RolloutManager → Target Kind.cluster_role
cluster_role_target cr = record {
  expected = record {
    meta = set_labels_and_annotations_to_object (named default_argo_rollouts_resource_name "") cr;
    body = get_policy_rules;
  };
  owned = false;
  body_differs = λ b. rules_differ b get_policy_rules;
  fix_body = λ b. get_policy_rules;
  fetch_error =
      wrap
        "failed to Reconcile the ClusterRole for the ServiceAccount associated with argo-rollouts: ";
  reference_error = λ e. e;
  create_error = λ e. e;
  update_error = λ e. e;
}

abbrev binding_to : String → String → ObjectMeta → Binding
binding_to kind name sa = record {
  role_ref = record { api_group = "rbac.authorization.k8s.io"; kind = kind; name = name };
  subjects =
      record { kind = "ServiceAccount"; api_group = ""; name = sa.name; namespace = sa.namespace }
      ∷ [];
}

unfoldable pub role_binding_target :
    RolloutManager → Object Kind.role → Object Kind.service_account → Target Kind.role_binding
role_binding_target cr role sa =
    let expected_binding = binding_to "Role" role.meta.name sa.meta in
    record {
      expected = record {
        meta =
            set_labels_and_annotations_to_object
              (named default_argo_rollouts_resource_name cr.meta.namespace) cr;
        body = expected_binding;
      };
      owned = true;
      body_differs = λ b. subjects_differ expected_binding.subjects b.subjects;
      fix_body = λ b. record b { subjects = expected_binding.subjects };
      fetch_error = wrap "failed to get the RoleBinding associated with argo-rollouts: ";
      reference_error = λ e. e;
      create_error = λ e. e;
      update_error = λ e. e;
    }

unfoldable pub cluster_role_binding_target :
    RolloutManager
    → Object Kind.cluster_role
    → Object Kind.service_account
    → Target Kind.cluster_role_binding
cluster_role_binding_target cr cluster_role sa =
    let expected_binding = binding_to "ClusterRole" cluster_role.meta.name sa.meta in
    record {
      expected = record {
        meta =
            set_labels_and_annotations_to_object (named default_argo_rollouts_resource_name "") cr;
        body = expected_binding;
      };
      owned = false;
      body_differs = λ b. subjects_differ expected_binding.subjects b.subjects;
      fix_body = λ b. record b { subjects = expected_binding.subjects };
      fetch_error = wrap "failed to get the ClusterRoleBinding associated with argo-rollouts: ";
      reference_error = λ e. e;
      create_error = λ e. e;
      update_error = λ e. e;
    }

-- The three aggregated cluster roles differ by their type and their rules.
unfoldable pub aggregate_target :
    RolloutManager → String → List PolicyRule → Target Kind.cluster_role
aggregate_target cr aggregation_type rules =
    let name = append "argo-rollouts-" aggregation_type in
    record {
      expected = record {
        meta =
            set_additional_labels_and_annotations
              (set_aggregated_cluster_role_labels (named name "") name aggregation_type) cr;
        body = rules;
      };
      owned = false;
      body_differs = λ b. rules_differ b rules;
      fix_body = λ b. rules;
      fetch_error =
          wrap (append "failed to reconcile the aggregated ClusterRole " (append name ": "));
      reference_error = λ e. e;
      create_error = λ e. e;
      update_error = λ e. e;
    }

module _ (c : Client) where
  open c use {State, delete}

  -- `if err := fetchObject(…); err == nil { Delete }`: any error of the fetch is passed over.
  unfoldable pub delete_answered : (k : Kind) → String → Response (Object k) → Exec State (Unit {0})
  delete_answered k failed (refusal e) = pure tt
  delete_answered k failed (answer live) = do
    deleted ← send (delete k live.meta.namespace live.meta.name)
    or_raise (wrap failed) deleted

  unfoldable pub delete_existing : (k : Kind) → String → String → String → Exec State (Unit {0})
  delete_existing k ns name failed = do
    found ← ask (fetch_object c k ns name)
    delete_answered k failed found

  unfoldable pub reconcile_rollouts_service_account :
      RolloutManager → Exec State (Object Kind.service_account)
  reconcile_rollouts_service_account cr = ensure c cr (service_account_target cr)

  unfoldable pub reconcile_rollouts_role : RolloutManager → Exec State (Object Kind.role)
  reconcile_rollouts_role cr = do
    delete_existing Kind.cluster_role "" default_argo_rollouts_resource_name
        "failed to delete existing ClusterRole argo-rollouts: "
    ensure c cr (role_target cr)

  unfoldable pub reconcile_rollouts_cluster_role :
      RolloutManager → Exec State (Object Kind.cluster_role)
  reconcile_rollouts_cluster_role cr = do
    delete_existing Kind.role cr.meta.namespace default_argo_rollouts_resource_name (
        append "failed to delete existing Role argo-rollouts for Namespace "
          (append cr.meta.namespace ": "))
    ensure c cr (cluster_role_target cr)

  bind_role :
      RolloutManager
      → Option (Object Kind.role)
      → Option (Object Kind.service_account)
      → Exec State (Unit {0})
  bind_role cr none sa = raise (new_error "received Role is nil while reconciling RoleBinding")
  bind_role cr (some role) none =
      raise (new_error "received ServiceAccount is nil while reconciling RoleBinding")
  bind_role cr (some role) (some sa) = do ensure c cr (role_binding_target cr role sa); pure tt

  unfoldable pub reconcile_rollouts_role_binding :
      RolloutManager
      → Option (Object Kind.role)
      → Option (Object Kind.service_account)
      → Exec State (Unit {0})
  unfolding bind_role
  reconcile_rollouts_role_binding cr role sa = do
    delete_existing Kind.cluster_role_binding "" default_argo_rollouts_resource_name
        "failed to delete existing ClusterRoleBinding argo-rollouts: "
    bind_role cr role sa

  bind_cluster_role :
      RolloutManager
      → Option (Object Kind.cluster_role)
      → Option (Object Kind.service_account)
      → Exec State (Unit {0})
  bind_cluster_role cr none sa =
      raise (new_error "received ClusterRole is nil while reconciling ClusterRoleBinding")
  bind_cluster_role cr (some role) none =
      raise (new_error "received ServiceAccount is nil while reconciling ClusterRoleBinding")
  bind_cluster_role cr (some role) (some sa) = do
    ensure c cr (cluster_role_binding_target cr role sa)
    pure tt

  unfoldable pub reconcile_rollouts_cluster_role_binding :
      RolloutManager
      → Option (Object Kind.cluster_role)
      → Option (Object Kind.service_account)
      → Exec State (Unit {0})
  unfolding bind_cluster_role
  reconcile_rollouts_cluster_role_binding cr cluster_role sa = do
    delete_existing Kind.role_binding cr.meta.namespace default_argo_rollouts_resource_name (
        append "failed to delete existing RoleBinding argo-rollouts for Namespace "
          (append cr.meta.namespace ": "))
    bind_cluster_role cr cluster_role sa

  unfoldable pub reconcile_aggregate_to_admin_cluster_role : RolloutManager → Exec State (Unit {0})
  reconcile_aggregate_to_admin_cluster_role cr = do
    ensure c cr (aggregate_target cr "aggregate-to-admin" get_aggregate_to_admin_policy_rules)
    pure tt

  unfoldable pub reconcile_aggregate_to_edit_cluster_role : RolloutManager → Exec State (Unit {0})
  reconcile_aggregate_to_edit_cluster_role cr = do
    ensure c cr (aggregate_target cr "aggregate-to-edit" get_aggregate_to_edit_policy_rules)
    pure tt

  unfoldable pub reconcile_aggregate_to_view_cluster_role : RolloutManager → Exec State (Unit {0})
  reconcile_aggregate_to_view_cluster_role cr = do
    ensure c cr (aggregate_target cr "aggregate-to-view" get_aggregate_to_view_policy_rules)
    pure tt
