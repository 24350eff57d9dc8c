-- ===== src/Go/StringMaps.antt =====
-- Go's `map[string]string`: nil or a table, compared as `reflect.DeepEqual` compares maps.
use argo_rollouts_manager.Base.{
  String, ◌≡◌, refl, ap, ◌↔◌, ◌⊎◌, inl, Bool, true, false, ◌&&◌, Option, none, some, List, [], ◌∷◌,
  arith, ◌==◌, eq_iff,
}
use argo_rollouts_manager.Go.Maps.{lookup}

abbrev pub Entries : Type 0
Entries = List (String × String)

-- `none` is the nil map.
abbrev pub StringMap : Type 0
StringMap = Option Entries

-- Reading a nil map finds nothing, and a range over it does nothing.
abbrev pub entries : StringMap → Entries
entries none = []
entries (some m) = m

-- `m[k]`, with the `ok` of the two-value form.
abbrev pub get : String → StringMap → Option String
get k m = lookup k (entries m)

abbrev pub same_value : Option String → Option String → Bool
same_value none none = true
same_value none (some _) = false
same_value (some _) none = false
same_value (some v) (some w) = v == w

pub same_value_iff : (o p : Option String) → (same_value o p ≡ true) ↔ (o ≡ p)
same_value_iff none none = (λ _. refl, λ _. refl)
same_value_iff none (some _) = (λ h. cc, λ h. cc)
same_value_iff (some _) none = (λ h. cc, λ h. cc)
same_value_iff (some v) (some w) =
    (λ h. ap some ((eq_iff v w).0 h), λ h. (eq_iff v w).1 (ground arith))

-- Every key of `keys` has one value in `a` and `b`.
agree_on : Entries → Entries → Entries → Bool
agree_on [] a b = true
agree_on ((k, _) ∷ keys) a b = same_value (lookup k a) (lookup k b) && agree_on keys a b

-- Two tables have the same keys with the same values.
unfoldable pub same_entries : Entries → Entries → Bool
unfolding agree_on
same_entries a b = agree_on a a b && agree_on b a b

-- `reflect.DeepEqual` tells a nil map from an empty one.
unfoldable pub deep_equal : StringMap → StringMap → Bool
deep_equal none none = true
deep_equal none (some _) = false
deep_equal (some _) none = false
deep_equal (some a) (some b) = same_entries a b

-- The same look-ups, which is all that a reader of two maps can compare.
abbrev pub SameLookups : Entries → Entries → Type 0
SameLookups a b = (k : String) → lookup k a ≡ lookup k b

agree_on-of-SameLookups : (keys a b : Entries) → SameLookups a b → agree_on keys a b ≡ true
unfolding agree_on
agree_on-of-SameLookups [] a b h = refl
agree_on-of-SameLookups ((k, _) ∷ keys) a b h =
    ground (
      arith,
      (same_value_iff (lookup k a) (lookup k b)).1 (h k),
      agree_on-of-SameLookups keys a b h,
    )

agree_on-lookup :
    (keys a b : Entries) (k : String)
    → agree_on keys a b ≡ true
    → (lookup k keys ≡ none) ⊎ (lookup k a ≡ lookup k b)
unfolding agree_on lookup
agree_on-lookup [] a b k h = inl refl
agree_on-lookup ((j, v) ∷ keys) a b k h =
    ground (arith, eq_iff j k, same_value_iff (lookup j a) (lookup j b), agree_on-lookup keys a b k)

pub same_entries_iff : (a b : Entries) → (same_entries a b ≡ true) ↔ SameLookups a b
unfolding same_entries
same_entries_iff a b = (
  λ h k. ground (arith, agree_on-lookup a a b k, agree_on-lookup b a b k),
  λ h. ground (arith, agree_on-of-SameLookups a a b h, agree_on-of-SameLookups b a b h),
)
