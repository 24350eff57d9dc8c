-- ===== src/Tests/Admission.antt =====
-- The checks of a RolloutManager's scope and namespace at concrete inputs.
use argo_rollouts_manager.Go.Errors.{new_error}
use argo_rollouts_manager.Controllers.Defaults.{cluster_scoped_argo_rollouts_namespaces}
use argo_rollouts_manager.Tests.Samples.{sample_meta, sample_cluster, sample_manager}
use argo_rollouts_manager.Controllers.Scope.Admission.{
  IsNoRival, allowed_cluster_scoped_namespace-join, validate_rollouts_scope-allowed_iff,
  check_for_existing_rollout_manager_iff,
}
use argo_rollouts_manager.Go.Text.RoundTrip.{join_names, IsPlain}
use argo_rollouts_manager.Api.{RolloutManager}
use argo_rollouts_manager.Go.Text.{is_space}
use argo_rollouts_manager.Controllers.Scope.{
  check_for_existing_rollout_manager, validate_rollouts_scope, allowed_cluster_scoped_namespace,
  multiple_rollout_managers_exist, contains, allowed, unsupported_configuration,
  unsupported_cluster_scoped_namespace, phase_failure, invalid_rollout_scope, refused,
  invalid_rollout_namespace,
}
use argo_rollouts_manager.Kube.Memory.{Cluster, memory}
use argo_rollouts_manager.Base.{
  ◌≡◌, String, if◌then◌else◌, All, false, ◌∷◌, ◌==◌, some, [], refl, ◌↔◌, true, ◌⊎◌,
}

-- An environment that allows the namespaces `argo` and `ops`.
abbrev getenv : String → String
getenv name = if name == cluster_scoped_argo_rollouts_namespaces then "argo, ops" else ""

abbrev cluster_scoped : RolloutManager
cluster_scoped = sample_manager false

-- The same RolloutManager in a namespace that is not allowed.
abbrev elsewhere : RolloutManager
elsewhere = record cluster_scoped { meta = sample_meta "dev" "rollouts" }

abbrev here : Cluster
here = sample_cluster "rollouts" false

validate_rollouts_scope-allowed_iff_example :
    (validate_rollouts_scope getenv cluster_scoped false ≡ allowed) ↔ (
      (false ≡ false)
      × ((false ≡ true) ⊎ (allowed_cluster_scoped_namespace getenv cluster_scoped ≡ true)))
validate_rollouts_scope-allowed_iff_example =
    validate_rollouts_scope-allowed_iff getenv cluster_scoped false

unsupported :
    (validate_rollouts_scope getenv elsewhere false).1
    ≡ some (new_error unsupported_cluster_scoped_namespace)
unfolding validate_rollouts_scope allowed_cluster_scoped_namespace contains
    argo_rollouts_manager.Controllers.Scope.split_list argo_rollouts_manager.Go.Text.split_comma
    argo_rollouts_manager.Go.Text.trim_space
unsupported = refl

check_for_existing_rollout_manager_iff_example :
    ((check_for_existing_rollout_manager memory elsewhere here ≡ allowed)
      ↔ All (IsNoRival elsewhere) (cluster_scoped ∷ []))
    × ((check_for_existing_rollout_manager memory elsewhere here ≡ allowed)
        ⊎ (check_for_existing_rollout_manager memory elsewhere here
            ≡ refused unsupported_configuration))
check_for_existing_rollout_manager_iff_example =
    check_for_existing_rollout_manager_iff memory elsewhere here (cluster_scoped ∷ []) refl refl

passes : check_for_existing_rollout_manager memory cluster_scoped here ≡ allowed
unfolding check_for_existing_rollout_manager argo_rollouts_manager.Controllers.Scope.check_items
    argo_rollouts_manager.Controllers.Scope.same_manager
passes = refl

rival :
    (check_for_existing_rollout_manager memory elsewhere here).1
    ≡ some (new_error unsupported_configuration)
unfolding check_for_existing_rollout_manager argo_rollouts_manager.Controllers.Scope.check_items
    argo_rollouts_manager.Controllers.Scope.same_manager
rival = refl

plain : All IsPlain ("argo" ∷ "ops" ∷ [])
unfolding is_space
plain = (
  (refl, refl, (refl, refl, (refl, refl, (refl, refl, tt)))),
  ((refl, refl, (refl, refl, (refl, refl, tt))), tt),
)

joined : getenv cluster_scoped_argo_rollouts_namespaces ≡ join_names ("argo" ∷ "ops" ∷ [])
unfolding join_names
joined = refl

allowed_cluster_scoped_namespace-join_example :
    allowed_cluster_scoped_namespace getenv cluster_scoped ≡ contains ("argo" ∷ "ops" ∷ []) "argo"
allowed_cluster_scoped_namespace-join_example =
    allowed_cluster_scoped_namespace-join getenv cluster_scoped "argo" ("ops" ∷ []) plain joined
