-- ===== src/Controllers/Deployment/Compare.antt =====
-- controllers/deployment.go: `reflect.DeepEqual` on the parts of a Deployment. Slices for which
-- every compared Deployment has a fixed number of elements are compared as lists.
pub mod Containers
pub mod Pods
pub mod Difference
use argo_rollouts_manager.Kube.Workload.{Slice}
use argo_rollouts_manager.Go.StringMaps.{deep_equal, StringMap, same_entries_iff}
use argo_rollouts_manager.Base.{
  ◌≡◌, ℕ, String, Bool, nat_eq, Option, List, not, true, ◌==◌, [], ◌∷◌, false, arith, refl, ◌&&◌,
}
use mathlib.Core.Option.{none, some}

module _ {A : Type 0} (same : A → A → Bool) where
  abbrev pub lists_alike : List A → List A → Bool
  lists_alike [] [] = true
  lists_alike [] (_ ∷ _) = false
  lists_alike (_ ∷ _) [] = false
  lists_alike (x ∷ xs) (y ∷ ys) = same x y && lists_alike xs ys

  -- Two pointers: both nil, or to equal values.
  abbrev pub options_alike : Option A → Option A → Bool
  options_alike none none = true
  options_alike none (some _) = false
  options_alike (some _) none = false
  options_alike (some x) (some y) = same x y

  pub lists_alike_refl : ((a : A) → same a a ≡ true) → (xs : List A) → lists_alike xs xs ≡ true
  lists_alike_refl h [] = refl
  lists_alike_refl h (x ∷ xs) = rw (h x, lists_alike_refl h xs) refl

  pub options_alike_refl : ((a : A) → same a a ≡ true) → (o : Option A) → options_alike o o ≡ true
  options_alike_refl h none = refl
  options_alike_refl h (some x) = h x

abbrev pub texts_alike : String → String → Bool
texts_alike s t = s == t

abbrev pub flags_alike : Bool → Bool → Bool
flags_alike true b = b
flags_alike false b = not b

pub flags_alike_refl : (b : Bool) → flags_alike b b ≡ true
flags_alike_refl true = refl
flags_alike_refl false = refl

pub nat_eq_refl : (n : ℕ) → nat_eq n n ≡ true
nat_eq_refl n = ground arith

-- A nil slice is not equal to an empty one.
abbrev pub slices_alike : {A : Type 0} → (A → A → Bool) → Slice A → Slice A → Bool
slices_alike same = options_alike (lists_alike same)

pub deep_equal_refl : (m : StringMap) → deep_equal m m ≡ true
unfolding deep_equal
deep_equal_refl none = refl
deep_equal_refl (some m) = (same_entries_iff m m).1 (λ k. refl)
