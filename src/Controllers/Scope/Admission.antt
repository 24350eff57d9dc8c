-- ===== src/Controllers/Scope/Admission.antt =====
-- controllers/utils.go: which RolloutManagers are let through.
use argo_rollouts_manager.Go.Text.{trim_space, split_comma}
use argo_rollouts_manager.Controllers.Defaults.{cluster_scoped_argo_rollouts_namespaces}
use argo_rollouts_manager.Go.Text.RoundTrip.{IsPlain, join_names, split-join_names}
use mathlib.Core.List.{Memᴰ}
use Prim.Native.String.append
use Prim.Native.String.compare
use text.Mathlib.Text.{is_eq}
use argo_rollouts_manager.Kube.Client.{Client}
use argo_rollouts_manager.Go.Errors.{GoError, answer, append, Response, refusal, wrap}
use argo_rollouts_manager.Controllers.Scope.{
  check_items, validate_rollouts_scope, same_manager, invalid_rollout_scope, allowed,
  invalid_rollout_namespace, allowed_cluster_scoped_namespace, phase_failure, refused,
  check_for_existing_rollout_manager, unsupported_configuration, multiple_rollout_managers_exist,
  unsupported_cluster_scoped, unsupported_namespace_scoped, unsupported_cluster_scoped_namespace,
  check_listed, split_list, contains,
}
use argo_rollouts_manager.Api.{RolloutManager}
use argo_rollouts_manager.Base.{
  ◌≡◌, String, List, true, Bool, ◌⊎◌, ◌↔◌, some, All, arith, ◌∷◌, ◌||◌, false, [], is_some, eq_iff,
  subst, ◌==◌, sym, ap, ◌∙◌, Bool-cases, inl, inr, map,
}

-- A RolloutManager is let through exactly when its scope is the one of the operator and, in cluster
-- scope, its namespace is on the list.
pub validate_rollouts_scope-allowed_iff :
    (getenv : String → String) (cr : RolloutManager) (namespaced : Bool)
    → (validate_rollouts_scope getenv cr namespaced ≡ allowed) ↔ (
        (cr.spec.namespace_scoped ≡ namespaced)
        × ((namespaced ≡ true) ⊎ (allowed_cluster_scoped_namespace getenv cr ≡ true)))
unfolding validate_rollouts_scope
validate_rollouts_scope-allowed_iff getenv cr true = ground arith
validate_rollouts_scope-allowed_iff getenv cr false = ground arith

-- Every refusal sets both phases to Failure and carries an error that the caller recognises.
pub validate_rollouts_scope_refused :
    (getenv : String → String) (cr : RolloutManager) (namespaced : Bool) (e : GoError)
    → (validate_rollouts_scope getenv cr namespaced).1 ≡ some e
    → ((validate_rollouts_scope getenv cr namespaced).0 ≡ some phase_failure)
      × ((invalid_rollout_scope e || invalid_rollout_namespace e) ≡ true)
unfolding validate_rollouts_scope invalid_rollout_scope invalid_rollout_namespace
validate_rollouts_scope_refused getenv cr true e h = ground (
  arith,
  eq_iff e.message unsupported_cluster_scoped,
  eq_iff e.message unsupported_namespace_scoped,
  eq_iff e.message unsupported_cluster_scoped_namespace,
)
validate_rollouts_scope_refused getenv cr false e h = ground (
  arith,
  eq_iff e.message unsupported_cluster_scoped,
  eq_iff e.message unsupported_namespace_scoped,
  eq_iff e.message unsupported_cluster_scoped_namespace,
)

-- The RolloutManager is the one being reconciled, or is namespace-scoped.
abbrev pub IsNoRival : RolloutManager → RolloutManager → Type 0
IsNoRival cr rm = (same_manager rm cr ≡ true) ⊎ (rm.spec.namespace_scoped ≡ true)

check_items_iff :
    (cr : RolloutManager) (items : List RolloutManager)
    → (check_items cr items ≡ allowed) ↔ All (IsNoRival cr) items
unfolding check_items
check_items_iff cr [] = ground arith
check_items_iff cr (rm ∷ rest) = ground (arith, check_items_iff cr rest)

pub check_items_cases :
    (cr : RolloutManager) (items : List RolloutManager)
    → (check_items cr items ≡ allowed) ⊎ (check_items cr items ≡ refused unsupported_configuration)
unfolding check_items
check_items_cases cr [] = ground arith
check_items_cases cr (rm ∷ rest) = ground (arith, check_items_cases cr rest)

-- With the list at hand, a cluster-scoped RolloutManager is let through exactly when every other
-- RolloutManager on the cluster is namespace-scoped, and is otherwise refused for that reason.
pub check_for_existing_rollout_manager_iff :
    (c : Client) (cr : RolloutManager) (s : c.State) (items : List RolloutManager)
    → c.list_rollout_managers s ≡ answer items
    → cr.spec.namespace_scoped ≡ false
    → ((check_for_existing_rollout_manager c cr s ≡ allowed) ↔ All (IsNoRival cr) items)
      × ((check_for_existing_rollout_manager c cr s ≡ allowed)
          ⊎ (check_for_existing_rollout_manager c cr s ≡ refused unsupported_configuration))
unfolding check_for_existing_rollout_manager check_listed
check_for_existing_rollout_manager_iff c cr s items listed scope =
    simp (scope, listed) (check_items_iff cr items, check_items_cases cr items)

All-Memᴰ :
    (P : RolloutManager → Type 0) (x : RolloutManager) (items : List RolloutManager)
    → Memᴰ x items
    → All P items
    → P x
All-Memᴰ P x [] m h = elim m [ ]
All-Memᴰ P x (y ∷ items) (Memᴰ.head e) h = subst P (sym e) h.0
All-Memᴰ P x (y ∷ items) (Memᴰ.tail m) h = All-Memᴰ P x items m h.1

same_manager_names :
    (b a : RolloutManager)
    → IsNoRival a b
    → b.spec.namespace_scoped ≡ false
    → (b.meta.name ≡ a.meta.name) × (b.meta.namespace ≡ a.meta.namespace)
unfolding same_manager
same_manager_names b a h scope =
    ground (arith, eq_iff b.meta.name a.meta.name, eq_iff b.meta.namespace a.meta.namespace)

pub failed_listing_message :
    (m : String)
    → (append "failed to get the list of RolloutManager CRs from cluster: " m
        == unsupported_configuration)
      ≡ false
failed_listing_message m =
    ap (λ (z : String). z == unsupported_configuration)
      (append.cons "f" "ailed to get the list of RolloutManager CRs from cluster: " m)
    ∙ ap is_eq (compare.cons-cons "f" "w" _ _)

check_items_recognised :
    (cr : RolloutManager) (items : List RolloutManager) (e : GoError)
    → (check_items cr items).1 ≡ some e
    → multiple_rollout_managers_exist e ≡ is_some (check_items cr items).0
unfolding multiple_rollout_managers_exist
check_items_recognised cr items e h =
    ground (arith, check_items_cases cr items, eq_iff e.message unsupported_configuration)

recognised_listed :
    (cr : RolloutManager) (r : Response (List RolloutManager)) (e : GoError)
    → (check_listed cr r).1 ≡ some e
    → multiple_rollout_managers_exist e ≡ is_some (check_listed cr r).0
unfolding check_listed multiple_rollout_managers_exist
recognised_listed cr (refusal x) e h =
    let same : wrap "failed to get the list of RolloutManager CRs from cluster: " x ≡ e = cc in
    ap (λ (y : GoError). y.message == unsupported_configuration) (sym same)
    ∙ failed_listing_message x.message
recognised_listed cr (answer items) e h = check_items_recognised cr items e h

-- The caller tells a second RolloutManager from a failed listing by the text of the error: the text
-- is recognised exactly when there is a status to set.
pub check_for_existing_rollout_manager_recognised :
    (c : Client) (cr : RolloutManager) (s : c.State) (e : GoError)
    → (check_for_existing_rollout_manager c cr s).1 ≡ some e
    → multiple_rollout_managers_exist e ≡ is_some (check_for_existing_rollout_manager c cr s).0
unfolding check_for_existing_rollout_manager check_listed
check_for_existing_rollout_manager_recognised c cr s e h =
    elim (Bool-cases cr.spec.namespace_scoped) [
      | inl scope ↦ cc scope
      | inr scope ↦
          simp scope (recognised_listed cr (c.list_rollout_managers s) e (simp scope at h))
    ]

-- Where the environment lists plain names with ", " between them, the namespaces that may hold a
-- cluster-scoped RolloutManager are exactly those names.
pub allowed_cluster_scoped_namespace-join :
    (getenv : String → String) (cr : RolloutManager) (n : String) (names : List String)
    → All IsPlain (n ∷ names)
    → getenv cluster_scoped_argo_rollouts_namespaces ≡ join_names (n ∷ names)
    → allowed_cluster_scoped_namespace getenv cr ≡ contains (n ∷ names) cr.meta.namespace
unfolding allowed_cluster_scoped_namespace split_list
allowed_cluster_scoped_namespace-join getenv cr n names plain set =
    ap (λ l. contains l cr.meta.namespace)
      (ap (λ e. map trim_space (split_comma e)) set ∙ split-join_names n names plain)
