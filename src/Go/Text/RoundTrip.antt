-- ===== src/Go/Text/RoundTrip.antt =====
-- Splitting and trimming a list of names that was printed with ", " between them.
use argo_rollouts_manager.Go.Text.{
  split_comma, trim_space, trim_left, trim_right, is_space, put_back, push,
}
use argo_rollouts_manager.Base.{
  String, nat_eq, ◌≡◌, refl, ◌∷◌, false, ap, [], List, map, All, ap₂, ◌∙◌, ◌≢◌, Bool-cases, inl,
  inr,
}
use Prim.Native.Char.{Char, code}
use Prim.Native.String
use Prim.Native.String.append

-- No comma and no white space.
abbrev pub IsPlain : String → Type 0
IsPlain String.[] = Unit
IsPlain (String.◌∷◌ ch s) = (nat_eq (code ch) 44 ≡ false) × (is_space (code ch) ≡ false) × IsPlain s

trim_left_plain : (n : String) → IsPlain n → trim_left n ≡ n
unfolding trim_left
trim_left_plain String.[] h = refl
trim_left_plain (String.◌∷◌ ch s) h = rw h.1

trim_right_plain : (n : String) → IsPlain n → trim_right n ≡ n
unfolding trim_right
trim_right_plain String.[] h = refl
trim_right_plain (String.◌∷◌ ch String.[]) h = rw h.1
trim_right_plain (String.◌∷◌ ch (String.◌∷◌ d s)) h =
    ap (put_back ch) (trim_right_plain (String.◌∷◌ d s) h.2)

trim_space_plain : (n : String) → IsPlain n → trim_space n ≡ n
unfolding trim_space
trim_space_plain n h = rw (trim_left_plain n h) (trim_right_plain n h)

split_plain : (n : String) → IsPlain n → split_comma n ≡ n ∷ []
unfolding split_comma
split_plain String.[] h = refl
split_plain (String.◌∷◌ ch s) h = rw (h.0, split_plain s h.2)

-- A plain name, a comma and the rest.
split-append :
    (n t : String) → IsPlain n → split_comma (String.◌++◌ n (String.◌∷◌ "," t)) ≡ n ∷ split_comma t
unfolding split_comma
split-append String.[] t h = rw append.nil
split-append (String.◌∷◌ ch s) t h = rw (append.cons ch s, h.0, split-append s t h.2)

-- `strings.Join(names, ", ")`
unfoldable pub join_names : List String → String
join_names [] = String.[]
join_names (n ∷ []) = n
join_names (n ∷ m ∷ rest) = String.◌++◌ n (String.◌∷◌ "," (String.◌∷◌ " " (join_names (m ∷ rest))))

trim_space_led : (n : String) → trim_space (String.◌∷◌ " " n) ≡ trim_space n
unfolding trim_space trim_left
trim_space_led n = refl

trim_pushed : (ws : List String) → ws ≢ [] → map trim_space (push " " ws) ≡ map trim_space ws
trim_pushed [] h = absurd (h refl)
trim_pushed (w ∷ ws) h = ap (λ m. m ∷ map trim_space ws) (trim_space_led w)

push-ne-nil : (ch : Char) (ws : List String) → push ch ws ≢ []
push-ne-nil ch [] = cc
push-ne-nil ch (w ∷ ws) = cc

split-ne-nil : (t : String) → split_comma t ≢ []
unfolding split_comma
split-ne-nil String.[] = cc
split-ne-nil (String.◌∷◌ ch s) = elim (Bool-cases (nat_eq (code ch) 44)) [
  | inl e ↦ rw e (cc)
  | inr e ↦ rw e (push-ne-nil ch (split_comma s))
]

-- The white space after a comma ends up at the head of the next part.
split_space :
    (t : String) → map trim_space (split_comma (String.◌∷◌ " " t)) ≡ map trim_space (split_comma t)
unfolding split_comma
split_space t = trim_pushed (split_comma t) (split-ne-nil t)

-- What is printed with ", " between plain names is split and trimmed into the same names.
pub split-join_names :
    (n : String) (names : List String)
    → All IsPlain (n ∷ names)
    → map trim_space (split_comma (join_names (n ∷ names))) ≡ n ∷ names
unfolding join_names
split-join_names n [] h = rw (split_plain n h.0) (ap (λ m. m ∷ []) (trim_space_plain n h.0))
split-join_names n (m ∷ rest) h = rw (split-append n _ h.0) (
    ap₂ ◌∷◌ (trim_space_plain n h.0)
      (split_space (join_names (m ∷ rest)) ∙ split-join_names m rest h.1))
