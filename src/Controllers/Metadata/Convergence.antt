-- ===== src/Controllers/Metadata/Convergence.antt =====
-- controllers/utils.go: the comparison of labels and annotations, and what is written when they
-- differ.
use argo_rollouts_manager.Go.Maps.{or_else}
use argo_rollouts_manager.Base.{
  String, ◌≡◌, Bool, true, false, ◌||◌, [], ◌∷◌, arith, is_some, ◌∙◌, not, refl, ◌↔◌, ap,
}
use argo_rollouts_manager.Go.StringMaps.{StringMap, get}
use argo_rollouts_manager.Kube.Meta.{ObjectMeta}
use argo_rollouts_manager.Api.{RolloutManager}
use argo_rollouts_manager.Controllers.Metadata.{
  are_string_maps_equal, remove_user_labels_and_annotations, default_labels_and_annotations,
  is_aggregate_label, metadata_differs, merge_metadata, set_labels_and_annotations_to_object,
  set_additional_labels_and_annotations, set_rollouts_labels_and_annotations,
}
use argo_rollouts_manager.Controllers.Metadata.Lookups.{
  get-combine_string_maps, are_string_maps_equal_iff, get-labels-remove, get-annotations-remove,
}

abbrev pub has : String → StringMap → Bool
has k m = is_some (get k m)

-- Expected metadata that the operator's own clean-up keeps whole: its labels are the default ones
-- and perhaps aggregate labels, and its annotations have exactly the default keys.
pub record IsStandard (cr : RolloutManager) (expected : ObjectMeta) : Type 0 where
  pub kept :
      (k : String)
      → has k expected.labels ≡ true
      → (is_aggregate_label k || has k (default_labels_and_annotations cr).labels) ≡ true
  pub complete :
      (k : String)
      → has k (default_labels_and_annotations cr).labels ≡ true
      → has k expected.labels ≡ true
  pub annotated :
      (k : String)
      → has k expected.annotations ≡ has k (default_labels_and_annotations cr).annotations

-- Every aggregate label of the live object is among the expected ones.
abbrev pub NoForeignAggregate : ObjectMeta → ObjectMeta → Type 0
NoForeignAggregate live expected =
    (k : String)
    → is_aggregate_label k ≡ true
    → has k live.labels ≡ true
    → has k expected.labels ≡ true

-- The live object has the expected value, or its absence, under every key that the clean-up keeps.
pub record IsSettled (cr : RolloutManager) (live expected : ObjectMeta) : Type 0 where
  pub labels :
      (k : String)
      → (is_aggregate_label k || has k (default_labels_and_annotations cr).labels) ≡ true
      → get k live.labels ≡ get k expected.labels
  pub annotations :
      (k : String)
      → has k (default_labels_and_annotations cr).annotations ≡ true
      → get k live.annotations ≡ get k expected.annotations

not_or_false : (a b : Bool) → (not a || not b) ≡ false → (a ≡ true) × (b ≡ true)
not_or_false a b h = ground arith

module _ (cr : RolloutManager) (live expected : ObjectMeta) (std : IsStandard cr expected) where
  labels_equal_of_settled :
      IsSettled cr live expected
      → are_string_maps_equal (remove_user_labels_and_annotations live cr).labels expected.labels
        ≡ true
  labels_equal_of_settled h =
      (are_string_maps_equal_iff _ expected.labels).1
        λ k. ground (arith, get-labels-remove live cr k, std.kept k, h.labels k)

  annotations_equal_of_settled :
      IsSettled cr live expected
      → are_string_maps_equal
          (remove_user_labels_and_annotations live cr).annotations
          expected.annotations
        ≡ true
  annotations_equal_of_settled h =
      (are_string_maps_equal_iff _ expected.annotations).1
        λ k. ground (arith, get-annotations-remove live cr k, std.annotated k, h.annotations k)

  IsSettled-of_equal :
      are_string_maps_equal (remove_user_labels_and_annotations live cr).labels expected.labels
        ≡ true
      → are_string_maps_equal
          (remove_user_labels_and_annotations live cr).annotations
          expected.annotations
        ≡ true
      → IsSettled cr live expected
  IsSettled-of_equal l a = record {
    labels =
        λ k h. ground (arith, get-labels-remove live cr k, (are_string_maps_equal_iff _ _).0 l k);
    annotations = λ k h.
        ground (arith, get-annotations-remove live cr k, (are_string_maps_equal_iff _ _).0 a k);
  }

  -- For expected metadata that the clean-up keeps whole, an update is skipped exactly when the live
  -- object has the expected value under every key that the operator is responsible for.
  pub metadata_differs_iff :
      (metadata_differs cr live expected ≡ false) ↔ IsSettled cr live expected
  unfolding metadata_differs
  metadata_differs_iff = (
    λ h. let (l, a) = not_or_false _ _ h in IsSettled-of_equal l a,
    λ h. rw (labels_equal_of_settled h, annotations_equal_of_settled h),
  )

  -- For expected metadata that the clean-up keeps whole, and a live object without a foreign
  -- aggregate label, the merged labels and annotations have the expected value under every key that
  -- the operator is responsible for.
  pub merge-IsSettled :
      NoForeignAggregate live expected → IsSettled cr (merge_metadata live expected) expected
  unfolding merge_metadata
  merge-IsSettled only = record {
    labels = λ k h. ground (
      arith,
      get-combine_string_maps k (live.labels ∷ expected.labels ∷ []),
      std.complete k,
      only k,
    );
    annotations = λ k h. ground (
      arith,
      get-combine_string_maps k (live.annotations ∷ expected.annotations ∷ []),
      std.annotated k,
    );
  }

-- Metadata that reads like settled metadata is settled.
pub IsSettled-lookups :
    {cr : RolloutManager} {live expected : ObjectMeta} (stored : ObjectMeta)
    → ((k : String) → get k stored.labels ≡ get k live.labels)
    → ((k : String) → get k stored.annotations ≡ get k live.annotations)
    → IsSettled cr live expected
    → IsSettled cr stored expected
IsSettled-lookups stored l a h = record {
  labels = λ k d. l k ∙ h.labels k d;
  annotations = λ k d. a k ∙ h.annotations k d;
}

pub IsSettled-refl : (cr : RolloutManager) (m : ObjectMeta) → IsSettled cr m m
IsSettled-refl cr m = record { labels = λ k d. refl; annotations = λ k d. refl }

-- The merge takes the expected value where there is one, and keeps the user's elsewhere.
pub labels-merge :
    (live expected : ObjectMeta) (k : String)
    → get k (merge_metadata live expected).labels
      ≡ or_else (get k expected.labels) (get k live.labels)
unfolding merge_metadata
labels-merge live expected k = get-combine_string_maps k (live.labels ∷ expected.labels ∷ [])

pub annotations-merge :
    (live expected : ObjectMeta) (k : String)
    → get k (merge_metadata live expected).annotations
      ≡ or_else (get k expected.annotations) (get k live.annotations)
unfolding merge_metadata
annotations-merge live expected k =
    get-combine_string_maps k (live.annotations ∷ expected.annotations ∷ [])

pub labels-set :
    (m : ObjectMeta) (cr : RolloutManager)
    → (set_labels_and_annotations_to_object m cr).labels
      ≡ (default_labels_and_annotations cr).labels
unfolding default_labels_and_annotations set_labels_and_annotations_to_object
    set_additional_labels_and_annotations set_rollouts_labels_and_annotations
labels-set m cr = ground arith

pub annotations-set :
    (m : ObjectMeta) (cr : RolloutManager)
    → (set_labels_and_annotations_to_object m cr).annotations
      ≡ (default_labels_and_annotations cr).annotations
unfolding default_labels_and_annotations set_labels_and_annotations_to_object
    set_additional_labels_and_annotations set_rollouts_labels_and_annotations
annotations-set m cr = ground arith

-- What `setRolloutsLabelsAndAnnotationsToObject` sets is standard.
pub set-IsStandard :
    (m : ObjectMeta) (cr : RolloutManager)
    → IsStandard cr (set_labels_and_annotations_to_object m cr)
set-IsStandard m cr = record {
  kept = λ k h. ground (arith, ap (has k) (labels-set m cr));
  complete = λ k h. ground (arith, ap (has k) (labels-set m cr));
  annotated = λ k. ap (has k) (annotations-set m cr);
}
