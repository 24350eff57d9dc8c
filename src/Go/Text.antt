-- ===== src/Go/Text.antt =====
-- `strings.Split` by a comma and `strings.TrimSpace`.
pub mod RoundTrip
use argo_rollouts_manager.Base.{
  ℕ, List, String, ◌∷◌, Bool, if◌then◌else◌, leb, [], ◌&&◌, nat_eq, ◌||◌,
}
use Prim.Native.Char.{Char, code}
use Prim.Native.String

-- `unicode.IsSpace`
unfoldable pub is_space : ℕ → Bool
is_space n =
    (leb 9 n && leb n 13)
    || nat_eq n 32
    || nat_eq n 0x85
    || nat_eq n 0xa0
    || nat_eq n 0x1680
    || (leb 0x2000 n && leb n 0x200a)
    || nat_eq n 0x2028
    || nat_eq n 0x2029
    || nat_eq n 0x202f
    || nat_eq n 0x205f
    || nat_eq n 0x3000

abbrev pub push : Char → List String → List String
push ch [] = String.◌∷◌ ch String.[] ∷ []
push ch (w ∷ ws) = String.◌∷◌ ch w ∷ ws

-- `strings.Split(s, ",")`
unfoldable pub split_comma : String → List String
split_comma String.[] = String.[] ∷ []
split_comma (String.◌∷◌ ch s) =
    let rest = split_comma s in if nat_eq (code ch) 44 then String.[] ∷ rest else push ch rest

unfoldable pub trim_left : String → String
trim_left String.[] = String.[]
trim_left (String.◌∷◌ ch s) = if is_space (code ch) then trim_left s else String.◌∷◌ ch s

abbrev pub put_back : Char → String → String
put_back ch String.[] = if is_space (code ch) then String.[] else String.◌∷◌ ch String.[]
put_back ch (String.◌∷◌ d s) = String.◌∷◌ ch (String.◌∷◌ d s)

unfoldable pub trim_right : String → String
trim_right String.[] = String.[]
trim_right (String.◌∷◌ ch s) = put_back ch (trim_right s)

-- `strings.TrimSpace(s)`
unfoldable pub trim_space : String → String
unfolding trim_left trim_right is_space
trim_space s = trim_right (trim_left s)
