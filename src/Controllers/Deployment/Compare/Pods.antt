-- ===== src/Controllers/Deployment/Compare/Pods.antt =====
-- controllers/deployment.go: `reflect.DeepEqual` on selectors, affinities, volumes and strategies.
use argo_rollouts_manager.Go.StringMaps.{deep_equal}
use argo_rollouts_manager.Controllers.Deployment.Compare.{
  lists_alike, lists_alike_refl, options_alike_refl, options_alike, deep_equal_refl, nat_eq_refl,
  texts_alike, flags_alike, flags_alike_refl,
}
use argo_rollouts_manager.Kube.Workload.{
  PodAntiAffinity, PodAffinityTerm, DeploymentStrategy, WeightedPodAffinityTerm, Volume,
  LabelSelector, Affinity, PodSecurityContext,
}
use argo_rollouts_manager.Base.{◌≡◌, true, Bool, nat_eq, eq_refl, ◌==◌, ◌&&◌, refl}

unfoldable pub selectors_alike : LabelSelector → LabelSelector → Bool
selectors_alike x y = deep_equal x.match_labels y.match_labels && (x.other == y.other)

pub selectors_alike_refl : (x : LabelSelector) → selectors_alike x x ≡ true
unfolding selectors_alike
selectors_alike_refl x = rw (deep_equal_refl x.match_labels, eq_refl x.other) refl

unfoldable pub terms_alike : PodAffinityTerm → PodAffinityTerm → Bool
terms_alike x y =
    options_alike selectors_alike x.label_selector y.label_selector
    && (x.topology_key == y.topology_key)
    && (x.other == y.other)

pub terms_alike_refl : (x : PodAffinityTerm) → terms_alike x x ≡ true
unfolding terms_alike
terms_alike_refl x =
    rw
      (
        options_alike_refl selectors_alike selectors_alike_refl x.label_selector,
        eq_refl x.topology_key,
        eq_refl x.other,
      )
      refl

unfoldable pub weighted_terms_alike : WeightedPodAffinityTerm → WeightedPodAffinityTerm → Bool
weighted_terms_alike x y = nat_eq x.weight y.weight && terms_alike x.term y.term

pub weighted_terms_alike_refl : (x : WeightedPodAffinityTerm) → weighted_terms_alike x x ≡ true
unfolding weighted_terms_alike
weighted_terms_alike_refl x = rw (nat_eq_refl x.weight, terms_alike_refl x.term) refl

unfoldable pub anti_affinities_alike : PodAntiAffinity → PodAntiAffinity → Bool
anti_affinities_alike x y =
    lists_alike weighted_terms_alike x.preferred y.preferred
    && lists_alike terms_alike x.required y.required

pub anti_affinities_alike_refl : (x : PodAntiAffinity) → anti_affinities_alike x x ≡ true
unfolding anti_affinities_alike
anti_affinities_alike_refl x =
    rw
      (
        lists_alike_refl weighted_terms_alike weighted_terms_alike_refl x.preferred,
        lists_alike_refl terms_alike terms_alike_refl x.required,
      )
      refl

unfoldable pub affinities_alike : Affinity → Affinity → Bool
affinities_alike x y =
    options_alike texts_alike x.pod_affinity y.pod_affinity
    && options_alike anti_affinities_alike x.pod_anti_affinity y.pod_anti_affinity
    && (x.other == y.other)

pub affinities_alike_refl : (x : Affinity) → affinities_alike x x ≡ true
unfolding affinities_alike
affinities_alike_refl x =
    rw
      (
        options_alike_refl texts_alike eq_refl x.pod_affinity,
        options_alike_refl anti_affinities_alike anti_affinities_alike_refl x.pod_anti_affinity,
        eq_refl x.other,
      )
      refl

unfoldable pub pod_security_contexts_alike : PodSecurityContext → PodSecurityContext → Bool
pod_security_contexts_alike x y =
    options_alike flags_alike x.run_as_non_root y.run_as_non_root && (x.other == y.other)

pub pod_security_contexts_alike_refl :
    (x : PodSecurityContext) → pod_security_contexts_alike x x ≡ true
unfolding pod_security_contexts_alike
pod_security_contexts_alike_refl x =
    rw (options_alike_refl flags_alike flags_alike_refl x.run_as_non_root, eq_refl x.other) refl

unfoldable pub volumes_alike : Volume → Volume → Bool
volumes_alike x y = (x.name == y.name) && (x.source == y.source)

pub volumes_alike_refl : (x : Volume) → volumes_alike x x ≡ true
unfolding volumes_alike
volumes_alike_refl x = rw (eq_refl x.name, eq_refl x.source) refl

unfoldable pub strategies_alike : DeploymentStrategy → DeploymentStrategy → Bool
strategies_alike x y =
    (x.strategy_type == y.strategy_type)
    && options_alike texts_alike x.rolling_update y.rolling_update

pub strategies_alike_refl : (x : DeploymentStrategy) → strategies_alike x x ≡ true
unfolding strategies_alike
strategies_alike_refl x =
    rw (eq_refl x.strategy_type, options_alike_refl texts_alike eq_refl x.rolling_update) refl
