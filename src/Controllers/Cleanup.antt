-- ===== src/Controllers/Cleanup.antt =====
-- controllers/resources.go: the removal of the cluster-scoped objects that a RolloutManager leaves
-- behind.
pub mod Absence
use argo_rollouts_manager.Controllers.Defaults.{default_argo_rollouts_resource_name}
use argo_rollouts_manager.Kube.Objects.{Kind, Object}
use argo_rollouts_manager.Go.Errors.{Response, answer, refusal, append}
use argo_rollouts_manager.Base.{List, String, map, ◌∷◌, [], if◌then◌else◌}
use argo_rollouts_manager.Kube.Client.{Client}
use argo_rollouts_manager.Go.Exec.{◌>>=◌, ◌>>◌, Exec, ask, pure, raise, send}

abbrev pub aggregate_role_names : List String
aggregate_role_names =
    map (λ suffix. append default_argo_rollouts_resource_name (append "-" suffix))
      ("aggregate-to-admin" ∷ "aggregate-to-edit" ∷ "aggregate-to-view" ∷ [])

module _ (c : Client) where
  open c use {State, get, delete}

  -- `if !IsNotFound(err) { return err }`
  abbrev pub unless_missing : Response (Unit {0}) → Exec State (Unit {0})
  unless_missing (answer u) = pure tt
  unless_missing (refusal e) = if e.is_not_found then pure tt else raise e

  unfoldable pub delete_found : (k : Kind) → Response (Object k) → Exec State (Unit {0})
  delete_found k (refusal e) = if e.is_not_found then pure tt else raise e
  delete_found k (answer live) = do
    deleted ← send (delete k live.meta.namespace live.meta.name)
    unless_missing deleted

  -- One of the four blocks: get the object by its name and delete it if it is there.
  unfoldable pub delete_if_present : (k : Kind) → String → Exec State (Unit {0})
  delete_if_present k name = do found ← ask (get k "" name); delete_found k found

  unfoldable pub delete_each : (k : Kind) → List String → Exec State (Unit {0})
  delete_each k [] = pure tt
  delete_each k (name ∷ names) = do delete_if_present k name; delete_each k names

  -- `removeClusterScopedResourcesIfApplicable`
  unfoldable pub remove_cluster_scoped_resources_if_applicable : Exec State (Unit {0})
  remove_cluster_scoped_resources_if_applicable = do
    delete_if_present Kind.cluster_role default_argo_rollouts_resource_name
    delete_each Kind.cluster_role aggregate_role_names
    delete_if_present Kind.cluster_role_binding default_argo_rollouts_resource_name
