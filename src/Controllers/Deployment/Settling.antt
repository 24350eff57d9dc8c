-- ===== src/Controllers/Deployment/Settling.antt =====
-- controllers/deployment.go: when a live Deployment is up to date.
use argo_rollouts_manager.Controllers.Deployment.Compare.{options_alike, texts_alike}
use argo_rollouts_manager.Controllers.Rbac.{named}
use argo_rollouts_manager.Controllers.Metadata.Lookups.{set_labels_and_annotations_to_object-named}
use argo_rollouts_manager.Controllers.Deployment.Reconcile.{deployment_differs}
use argo_rollouts_manager.Controllers.Deployment.Compare.Difference.{
  metas_alike, deployments_alike, specs_alike_refl,
}
use argo_rollouts_manager.Go.Maps.{retain, lookup, lookup-retain}
use argo_rollouts_manager.Controllers.Metadata.Convergence.{has, labels-set, annotations-set}
use argo_rollouts_manager.Controllers.Defaults.{default_argo_rollouts_resource_name}
use argo_rollouts_manager.Go.Errors.{answer, Response, GoError, refusal}
use argo_rollouts_manager.Controllers.Deployment.Normal.{
  normal_spec, normal_meta, normalize_deployment,
}
use argo_rollouts_manager.Controllers.Deployment.Generating.{
  desired_meta, IsDesired, normal_meta-named,
}
use argo_rollouts_manager.Kube.Objects.{Object, Kind}
use argo_rollouts_manager.Api.{RolloutManager}
use argo_rollouts_manager.Go.StringMaps.{deep_equal, StringMap, get, same_entries_iff}
use argo_rollouts_manager.Controllers.Metadata.{
  set_labels_and_annotations_to_object, set_additional_labels_and_annotations,
  set_rollouts_labels_and_annotations, retain_keys,
}
use argo_rollouts_manager.Base.{
  ◌≡◌, is_some, true, none, String, Option-cases, inl, inr, refl, some, arith, false, ◌∙◌, sym,
  eq_refl, ap, Bool, ◌&&◌, ◌⊎◌, ◌==◌, nat_eq,
}

-- The live Deployment has the desired values in all that the operator sets.
pub record IsCurrent (cr : RolloutManager) (desired live : Object Kind.deployment) : Type 0 where
  pub spec : normal_spec live.body.spec ≡ answer desired.body.spec
  pub name : live.meta.name ≡ default_argo_rollouts_resource_name
  pub namespace : live.meta.namespace ≡ cr.meta.namespace
  pub labelled : is_some live.meta.labels ≡ true
  pub annotated : is_some live.meta.annotations ≡ true
  pub labels :
      (k : String)
      → has k desired.meta.labels ≡ true
      → get k live.meta.labels ≡ get k desired.meta.labels
  pub annotations :
      (k : String)
      → has k desired.meta.annotations ≡ true
      → get k live.meta.annotations ≡ get k desired.meta.annotations

-- A map cut down to the keys of another one that it agrees with is equal to it.
retain_keys-same :
    (live want : StringMap)
    → is_some live ≡ true
    → is_some want ≡ true
    → ((k : String) → has k want ≡ true → get k live ≡ get k want)
    → deep_equal (retain_keys (λ k. has k want) live) want ≡ true
unfolding deep_equal
retain_keys-same none want l w h = cc l
retain_keys-same (some live) none l w h = cc w
retain_keys-same (some live) (some want) l w h =
    (same_entries_iff (retain (λ k. is_some (lookup k want)) live) want).1
      λ k. ground (arith, lookup-retain (λ k. is_some (lookup k want)) k live, h k)

desired_maps :
    (cr : RolloutManager)
    → (is_some (desired_meta cr).labels ≡ true)
      × (is_some (desired_meta cr).annotations ≡ true)
      × ((desired_meta cr).controller ≡ none)
      × ((desired_meta cr).deletion_timestamp ≡ none)
unfolding set_labels_and_annotations_to_object set_additional_labels_and_annotations
    set_rollouts_labels_and_annotations
desired_maps cr = elim (Option-cases cr.spec.additional_metadata) [
  | inl e ↦ rw e (refl, refl, refl, refl)
  | inr (a, e) ↦ rw e (refl, refl, refl, refl)
]

nil_equal : (m n : StringMap) → m ≡ none → is_some n ≡ true → deep_equal m n ≡ false
unfolding deep_equal
nil_equal none none h k = cc k
nil_equal none (some n) h k = refl
nil_equal (some m) n h k = cc h

pub Response-cases :
    {A : Type 0} (r : Response A) → ((a : A) × (r ≡ answer a)) ⊎ ((e : GoError) × (r ≡ refusal e))
Response-cases (answer a) = inl (a, refl)
Response-cases (refusal e) = inr (e, refl)

module _ (cr : RolloutManager) (desired live : Object Kind.deployment)
    (made : IsDesired cr desired) where
  normal_meta-alike :
      IsCurrent cr desired live → metas_alike (normal_meta cr live.meta) (desired_meta cr) ≡ true
  unfolding metas_alike normal_meta
  normal_meta-alike h =
      let (l, a, c, d) = desired_maps cr in
      let standard = desired_meta cr in
      let (name, ns) =
        set_labels_and_annotations_to_object-named
          (named default_argo_rollouts_resource_name cr.meta.namespace) cr in
      let labels : deep_equal
            (retain_keys (λ k. has k (set_labels_and_annotations_to_object live.meta cr).labels)
              live.meta.labels)
            standard.labels
          ≡ true =
        rw
          (labels-set live.meta cr
            ∙ sym (labels-set (named default_argo_rollouts_resource_name cr.meta.namespace) cr))
          (retain_keys-same live.meta.labels standard.labels h.labelled l
            (rw made.meta at h.labels)) in
      let annotations : deep_equal
            (retain_keys
              (λ k. has k (set_labels_and_annotations_to_object live.meta cr).annotations)
              live.meta.annotations)
            standard.annotations
          ≡ true =
        rw
          (annotations-set live.meta cr
            ∙ sym
                (annotations-set (named default_argo_rollouts_resource_name cr.meta.namespace) cr))
          (retain_keys-same live.meta.annotations standard.annotations h.annotated a
            (rw made.meta at h.annotations)) in
      rw (labels, annotations, c, d, h.name, h.namespace, name, ns, eq_refl cr.meta.namespace) refl

  -- A live Deployment that is up to date is found equal to the desired one.
  pub deployment_differs-IsCurrent :
      IsCurrent cr desired live → deployment_differs cr live desired ≡ false
  unfolding deployment_differs deployments_alike normalize_deployment
  deployment_differs-IsCurrent h =
      rw
        (
          h.spec,
          made.spec,
          ap (normal_meta cr) made.meta
              ∙ normal_meta-named cr default_argo_rollouts_resource_name cr.meta.namespace,
          normal_meta-alike h,
          specs_alike_refl desired.body.spec,
        )
        refl

  unequal : (a b c d e f : Bool) → d ≡ false → (a && b && c && d && e && f) ≡ false
  unequal a b c d e f h = ground arith

  nil_differs :
      live.meta.annotations ≡ none
      → deep_equal (normal_meta cr live.meta).annotations (desired_meta cr).annotations ≡ false
  unfolding normal_meta deep_equal
  nil_differs bare =
      let (_, annotated, _, _) = desired_maps cr in
      nil_equal _ _
        (ap
          (retain_keys (λ k. has k (set_labels_and_annotations_to_object live.meta cr).annotations))
          bare)
        annotated

  unannotated :
      live.meta.annotations ≡ none
      → metas_alike (normal_meta cr live.meta) (desired_meta cr) ≡ false
  unfolding metas_alike
  unannotated bare =
      let x = normal_meta cr live.meta in
      let y = desired_meta cr in
      unequal (x.name == y.name) (x.namespace == y.namespace) (deep_equal x.labels y.labels)
        (deep_equal x.annotations y.annotations)
        (options_alike texts_alike x.controller y.controller)
        (options_alike nat_eq x.deletion_timestamp y.deletion_timestamp) (nil_differs bare)

  -- A live Deployment whose annotations are a nil map differs from the one that is generated,
  -- whatever else it has.
  pub deployment_differs-unannotated :
      live.meta.annotations ≡ none → deployment_differs cr live desired ≡ true
  unfolding deployment_differs deployments_alike normalize_deployment
  deployment_differs-unannotated bare = elim (Response-cases (normal_spec live.body.spec)) [
    | inr (e, refused) ↦ rw refused refl
    | inl (spec, answered_by) ↦
        rw
          (
            answered_by,
            made.spec,
            ap (normal_meta cr) made.meta
                ∙ normal_meta-named cr default_argo_rollouts_resource_name cr.meta.namespace,
            unannotated bare,
          )
          refl
  ]
