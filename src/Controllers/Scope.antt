-- ===== src/Controllers/Scope.antt =====
-- controllers/utils.go: whether a RolloutManager may be reconciled at all.
pub mod Admission
use argo_rollouts_manager.Go.Text.{trim_space, split_comma}
use argo_rollouts_manager.Controllers.Defaults.{cluster_scoped_argo_rollouts_namespaces}
use argo_rollouts_manager.Kube.Client.{Client}
use argo_rollouts_manager.Go.Errors.{GoError, Response, refusal, new_error, wrap, answer}
use argo_rollouts_manager.Controllers.Conditions.{ReconcileStatusResult, no_condition}
use argo_rollouts_manager.Api.{RolloutManager, failure}
use argo_rollouts_manager.Base.{
  List, none, Option, String, ◌∷◌, some, if◌then◌else◌, map, Bool, not, false, ◌==◌, ◌||◌, true,
  ◌&&◌, [],
}

abbrev pub unsupported_configuration : String
unsupported_configuration =
    "when there exists a cluster-scoped RolloutManager on the cluster, there may not exist another: only a single cluster-scoped RolloutManager is supported"

abbrev pub unsupported_cluster_scoped : String
unsupported_cluster_scoped =
    "when Subscription has environment variable NAMESPACE_SCOPED_ARGO_ROLLOUTS set to True, there may not exist any cluster-scoped RolloutManagers: in this case, only namespace-scoped RolloutManager resources are supported"

abbrev pub unsupported_namespace_scoped : String
unsupported_namespace_scoped =
    "when Subscription has environment variable NAMESPACE_SCOPED_ARGO_ROLLOUTS set to False, there may not exist any namespace-scoped RolloutManagers: only a single cluster-scoped RolloutManager is supported"

abbrev pub unsupported_cluster_scoped_namespace : String
unsupported_cluster_scoped_namespace =
    "namespace is not specified in CLUSTER_SCOPED_ARGO_ROLLOUTS_NAMESPACES environment variable of Subscription resource. If you wish to install a cluster-scoped Argo Rollouts instance outside the default namespace, ensure it is defined in CLUSTER_SCOPED_ARGO_ROLLOUTS_NAMESPACES"

-- `splitList`
unfoldable pub split_list : String → List String
split_list s = map trim_space (split_comma s)

-- The loop of `contains`, and of `allowedClusterScopedNamespace`.
unfoldable pub contains : List String → String → Bool
contains [] g = false
contains (a ∷ s) g = if a == g then true else contains s g

-- `allowedClusterScopedNamespace`, with `os.Getenv` as an argument.
unfoldable pub allowed_cluster_scoped_namespace : (String → String) → RolloutManager → Bool
allowed_cluster_scoped_namespace getenv cr =
    contains (split_list (getenv cluster_scoped_argo_rollouts_namespaces)) cr.meta.namespace

-- A Go function that returns `(*reconcileStatusResult, error)`.
abbrev pub Checked : Type 0
Checked = Option ReconcileStatusResult × Option GoError

abbrev pub allowed : Checked
allowed = (none, none)

abbrev pub phase_failure : ReconcileStatusResult
phase_failure = record {
  condition = no_condition;
  rollout_controller = some failure;
  phase = some failure;
}

abbrev pub refused : String → Checked
refused msg = (some phase_failure, some (new_error msg))

-- `validateRolloutsScope`
unfoldable pub validate_rollouts_scope : (String → String) → RolloutManager → Bool → Checked
validate_rollouts_scope getenv cr true =
    if not cr.spec.namespace_scoped then refused unsupported_cluster_scoped else allowed
validate_rollouts_scope getenv cr false =
    if cr.spec.namespace_scoped
    then refused unsupported_namespace_scoped
    else if not (allowed_cluster_scoped_namespace getenv cr)
    then refused unsupported_cluster_scoped_namespace
    else allowed

-- The RolloutManager in the list is the one that is being reconciled.
unfoldable pub same_manager : RolloutManager → RolloutManager → Bool
same_manager rm cr = (rm.meta.name == cr.meta.name) && (rm.meta.namespace == cr.meta.namespace)

-- The loop of `checkForExistingRolloutManager`.
unfoldable pub check_items : RolloutManager → List RolloutManager → Checked
check_items cr [] = allowed
check_items cr (rm ∷ rest) =
    if same_manager rm cr
    then check_items cr rest
    else if not rm.spec.namespace_scoped
    then refused unsupported_configuration
    else check_items cr rest

unfoldable pub check_listed : RolloutManager → Response (List RolloutManager) → Checked
check_listed cr (refusal e) =
    (none, some (wrap "failed to get the list of RolloutManager CRs from cluster: " e))
check_listed cr (answer items) = check_items cr items

-- `checkForExistingRolloutManager`
unfoldable pub check_for_existing_rollout_manager :
    (c : Client) → RolloutManager → c.State → Checked
unfolding check_listed
check_for_existing_rollout_manager c cr s =
    if cr.spec.namespace_scoped then allowed else check_listed cr (c.list_rollout_managers s)

-- `multipleRolloutManagersExist`
unfoldable pub multiple_rollout_managers_exist : GoError → Bool
multiple_rollout_managers_exist e = e.message == unsupported_configuration

-- `invalidRolloutScope`
unfoldable pub invalid_rollout_scope : GoError → Bool
invalid_rollout_scope e =
    (e.message == unsupported_cluster_scoped) || (e.message == unsupported_namespace_scoped)

-- `invalidRolloutNamespace`
unfoldable pub invalid_rollout_namespace : GoError → Bool
invalid_rollout_namespace e = e.message == unsupported_cluster_scoped_namespace
