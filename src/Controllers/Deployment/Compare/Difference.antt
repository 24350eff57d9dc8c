-- ===== src/Controllers/Deployment/Compare/Difference.antt =====
-- controllers/deployment.go: `reflect.DeepEqual` on Deployments, and
-- `identifyDeploymentDifference`.
use argo_rollouts_manager.Controllers.Deployment.Compare.Containers.{
  containers_alike, containers_alike_refl,
}
use argo_rollouts_manager.Controllers.Deployment.Compare.Pods.{
  pod_security_contexts_alike, selectors_alike, strategies_alike, volumes_alike, affinities_alike,
  selectors_alike_refl, pod_security_contexts_alike_refl, strategies_alike_refl, volumes_alike_refl,
  affinities_alike_refl,
}
use argo_rollouts_manager.Controllers.Deployment.Compare.{
  options_alike, slices_alike, texts_alike, lists_alike, options_alike_refl, deep_equal_refl,
  lists_alike_refl, nat_eq_refl,
}
use argo_rollouts_manager.Go.StringMaps.{deep_equal}
use argo_rollouts_manager.Kube.Objects.{Object, Kind}
use argo_rollouts_manager.Kube.Meta.{ObjectMeta}
use argo_rollouts_manager.Kube.Workload.{DeploymentSpec, PodSpec}
use argo_rollouts_manager.Base.{
  ◌∷◌, ◌≡◌, List, Bool, String, ◌&&◌, ◌==◌, nat_eq, if◌then◌else◌, true, not, ◌↔◌, arith, [], refl,
  false, eq_iff, eq_refl,
}

unfoldable pub pods_alike : PodSpec → PodSpec → Bool
pods_alike x y =
    deep_equal x.node_selector y.node_selector
    && slices_alike texts_alike x.tolerations y.tolerations
    && (x.service_account_name == y.service_account_name)
    && options_alike pod_security_contexts_alike x.security_context y.security_context
    && lists_alike containers_alike x.containers y.containers
    && lists_alike volumes_alike x.volumes y.volumes
    && options_alike affinities_alike x.affinity y.affinity
    && (x.other == y.other)

unfoldable pub specs_alike : DeploymentSpec → DeploymentSpec → Bool
specs_alike x y =
    options_alike nat_eq x.replicas y.replicas
    && options_alike selectors_alike x.selector y.selector
    && deep_equal x.template.labels y.template.labels
    && deep_equal x.template.annotations y.template.annotations
    && pods_alike x.template.spec y.template.spec
    && strategies_alike x.strategy y.strategy
    && (x.other == y.other)

unfoldable pub metas_alike : ObjectMeta → ObjectMeta → Bool
metas_alike x y =
    (x.name == y.name)
    && (x.namespace == y.namespace)
    && deep_equal x.labels y.labels
    && deep_equal x.annotations y.annotations
    && options_alike texts_alike x.controller y.controller
    && options_alike nat_eq x.deletion_timestamp y.deletion_timestamp

-- `reflect.DeepEqual` on two Deployments.
unfoldable pub deployments_alike : Object Kind.deployment → Object Kind.deployment → Bool
deployments_alike x y =
    metas_alike x.meta y.meta
    && specs_alike x.body.spec y.body.spec
    && nat_eq x.body.ready_replicas y.body.ready_replicas

pods_alike_refl : (x : PodSpec) → pods_alike x x ≡ true
unfolding pods_alike
pods_alike_refl x =
    rw
      (
        deep_equal_refl x.node_selector,
        options_alike_refl (lists_alike texts_alike) (lists_alike_refl texts_alike eq_refl)
            x.tolerations,
        eq_refl x.service_account_name,
        options_alike_refl pod_security_contexts_alike pod_security_contexts_alike_refl
            x.security_context,
        lists_alike_refl containers_alike containers_alike_refl x.containers,
        lists_alike_refl volumes_alike volumes_alike_refl x.volumes,
        options_alike_refl affinities_alike affinities_alike_refl x.affinity,
        eq_refl x.other,
      )
      refl

pub specs_alike_refl : (x : DeploymentSpec) → specs_alike x x ≡ true
unfolding specs_alike
specs_alike_refl x =
    rw
      (
        options_alike_refl nat_eq nat_eq_refl x.replicas,
        options_alike_refl selectors_alike selectors_alike_refl x.selector,
        deep_equal_refl x.template.labels,
        deep_equal_refl x.template.annotations,
        pods_alike_refl x.template.spec,
        strategies_alike_refl x.strategy,
        eq_refl x.other,
      )
      refl

-- `identifyDeploymentDifference`
unfoldable pub identify_deployment_difference :
    Object Kind.deployment → Object Kind.deployment → String
identify_deployment_difference a b =
    let x = a.body.spec in
    let y = b.body.spec in
    let p = x.template.spec in
    let q = y.template.spec in
    if not (lists_alike containers_alike p.containers q.containers)
    then "Spec.Template.Spec.Containers"
    else if not (p.service_account_name == q.service_account_name)
    then "ServiceAccountName"
    else if not (strategies_alike x.strategy y.strategy)
    then ".Spec.Strategy"
    else if not (deep_equal a.meta.labels b.meta.labels)
    then "Labels"
    else if not (deep_equal a.meta.annotations b.meta.annotations)
    then "Annotations"
    else if not (deep_equal x.template.labels y.template.labels)
    then ".Spec.Template.Labels"
    else if not (deep_equal x.template.annotations y.template.annotations)
    then ".Spec.Template.Annotations"
    else if not (options_alike selectors_alike x.selector y.selector)
    then ".Spec.Selector"
    else if not (deep_equal p.node_selector q.node_selector)
    then "Spec.Template.Spec.NodeSelector"
    else if not (slices_alike texts_alike p.tolerations q.tolerations)
    then "Spec.Template.Spec.Tolerations"
    else if not (options_alike pod_security_contexts_alike p.security_context q.security_context)
    then "Spec.Template.Spec.SecurityContext"
    else if not (lists_alike volumes_alike p.volumes q.volumes)
    then "Spec.Template.Spec.Volumes"
    else if not (options_alike nat_eq x.replicas y.replicas)
    then "Spec.Replicas"
    else if not (options_alike affinities_alike p.affinity q.affinity)
    then "Spec.Template.Spec.Affinity"
    else ""

-- What `reflect.DeepEqual` compares beside the fields that `identifyDeploymentDifference` names.
unfoldable pub rest_alike : Object Kind.deployment → Object Kind.deployment → Bool
rest_alike a b =
    (a.meta.name == b.meta.name)
    && (a.meta.namespace == b.meta.namespace)
    && options_alike texts_alike a.meta.controller b.meta.controller
    && options_alike nat_eq a.meta.deletion_timestamp b.meta.deletion_timestamp
    && (a.body.spec.template.spec.other == b.body.spec.template.spec.other)
    && (a.body.spec.other == b.body.spec.other)
    && nat_eq a.body.ready_replicas b.body.ready_replicas

-- The text of the first Boolean that is false.
abbrev first_false : List (Bool × String) → String
first_false [] = ""
first_false ((b, t) ∷ rest) = if not b then t else first_false rest

abbrev all_true : List (Bool × String) → Bool
all_true [] = true
all_true ((b, t) ∷ rest) = b && all_true rest

all_named : List (Bool × String) → Bool
all_named [] = true
all_named ((b, t) ∷ rest) = not (t == "") && all_named rest

first_false_iff :
    (l : List (Bool × String)) → all_named l ≡ true → (first_false l ≡ "") ↔ (all_true l ≡ true)
unfolding all_named
first_false_iff [] h = (λ _. refl, λ _. refl)
first_false_iff ((true, t) ∷ rest) h = first_false_iff rest (ground arith)
first_false_iff ((false, t) ∷ rest) h = (λ e. ground (arith, eq_iff t ""), λ e. cc e)

-- The comparisons of `identifyDeploymentDifference`, in order.
abbrev comparisons : Object Kind.deployment → Object Kind.deployment → List (Bool × String)
comparisons a b =
    let x = a.body.spec in
    let y = b.body.spec in
    let p = x.template.spec in
    let q = y.template.spec in
    (lists_alike containers_alike p.containers q.containers, "Spec.Template.Spec.Containers")
    ∷ ((p.service_account_name == q.service_account_name), "ServiceAccountName")
    ∷ (strategies_alike x.strategy y.strategy, ".Spec.Strategy")
    ∷ (deep_equal a.meta.labels b.meta.labels, "Labels")
    ∷ (deep_equal a.meta.annotations b.meta.annotations, "Annotations")
    ∷ (deep_equal x.template.labels y.template.labels, ".Spec.Template.Labels")
    ∷ (deep_equal x.template.annotations y.template.annotations, ".Spec.Template.Annotations")
    ∷ (options_alike selectors_alike x.selector y.selector, ".Spec.Selector")
    ∷ (deep_equal p.node_selector q.node_selector, "Spec.Template.Spec.NodeSelector")
    ∷ (slices_alike texts_alike p.tolerations q.tolerations, "Spec.Template.Spec.Tolerations")
    ∷ (
      options_alike pod_security_contexts_alike p.security_context q.security_context,
      "Spec.Template.Spec.SecurityContext",
    )
    ∷ (lists_alike volumes_alike p.volumes q.volumes, "Spec.Template.Spec.Volumes")
    ∷ (options_alike nat_eq x.replicas y.replicas, "Spec.Replicas")
    ∷ (options_alike affinities_alike p.affinity q.affinity, "Spec.Template.Spec.Affinity")
    ∷ []

named_texts : (a b : Object Kind.deployment) → all_named (comparisons a b) ≡ true
unfolding all_named
named_texts a b = refl

identify-first_false :
    (a b : Object Kind.deployment)
    → identify_deployment_difference a b ≡ first_false (comparisons a b)
unfolding identify_deployment_difference
identify-first_false a b = refl

-- Two conjunctions of the same tests.
regroup :
    (c s t l m u v w n o e f r g i j k q x y z : Bool)
    → (i && j && k && q && x && y && z) ≡ true
    → ((i && j && l && m && k && q)
        && (r && w && u && v && (n && o && s && e && c && f && g && x) && t && y)
        && z)
      ≡ ((c
          && (s
              && (t
                  && (l
                      && (m
                          && (u
                              && (v && (w && (n && (o && (e && (f && (r && (g && true)))))))))))))))
regroup c s t l m u v w n o e f r g i j k q x y z h = ground arith

-- For two Deployments that agree in name, namespace, controller, deletion time, ready replicas and
-- the fields that the operator never sets, no difference is named exactly when reflect.DeepEqual
-- finds the two Deployments equal.
pub identify_deployment_difference_iff :
    (a b : Object Kind.deployment)
    → rest_alike a b ≡ true
    → (identify_deployment_difference a b ≡ "") ↔ (deployments_alike a b ≡ true)
unfolding deployments_alike rest_alike metas_alike specs_alike pods_alike
identify_deployment_difference_iff a b h =
    rw (identify-first_false a b, regroup _ _ _ _ _ _ _ _ _ _ _ _ _ _ _ _ _ _ _ _ _ h)
      (first_false_iff (comparisons a b) (named_texts a b))
