-- ===== src/Controllers/EnvVars.antt =====
-- controllers/utils.go: environment variables. `os.Getenv` is an argument; a variable that is not
-- set reads as the empty text.
pub mod Merging
pub mod Sorting
use argo_rollouts_manager.Go.Maps.{insert, lookup}
use argo_rollouts_manager.Controllers.ConfigMap.{text_leb}
use argo_rollouts_manager.Kube.Workload.{EnvVar}
use argo_rollouts_manager.Base.{
  List, String, Bool, ℕ, ◌∷◌, [], if◌then◌else◌, is_some, nat_eq, not, ◌==◌,
}
use Prim.Native.Char.{Char, char, code}
use mathlib.Core.Option.{none}

-- `strings.ToLower`, on ASCII letters.
abbrev lower_letters : List (ℕ × Char)
lower_letters =
    (65, char 97 tt)
    ∷ (66, char 98 tt)
    ∷ (67, char 99 tt)
    ∷ (68, char 100 tt)
    ∷ (69, char 101 tt)
    ∷ (70, char 102 tt)
    ∷ (71, char 103 tt)
    ∷ (72, char 104 tt)
    ∷ (73, char 105 tt)
    ∷ (74, char 106 tt)
    ∷ (75, char 107 tt)
    ∷ (76, char 108 tt)
    ∷ (77, char 109 tt)
    ∷ (78, char 110 tt)
    ∷ (79, char 111 tt)
    ∷ (80, char 112 tt)
    ∷ (81, char 113 tt)
    ∷ (82, char 114 tt)
    ∷ (83, char 115 tt)
    ∷ (84, char 116 tt)
    ∷ (85, char 117 tt)
    ∷ (86, char 118 tt)
    ∷ (87, char 119 tt)
    ∷ (88, char 120 tt)
    ∷ (89, char 121 tt)
    ∷ (90, char 122 tt)
    ∷ []

abbrev lower_from : List (ℕ × Char) → Char → Char
lower_from [] c = c
lower_from ((n, l) ∷ letters) c = if nat_eq (code c) n then l else lower_from letters c

abbrev pub to_lower : String → String
to_lower String.[] = String.[]
to_lower (String.◌∷◌ c s) = String.◌∷◌ (lower_from lower_letters c) (to_lower s)

-- `for _, e := range existing { final[e.Name] = e }`
unfoldable pub by_name : List EnvVar → List (String × EnvVar) → List (String × EnvVar)
by_name [] final = final
by_name (e ∷ existing) final = by_name existing (insert e.name e final)

-- The body of the loop over `merge`.
unfoldable pub merge_one : Bool → EnvVar → List (String × EnvVar) → List (String × EnvVar)
merge_one override m final =
    if is_some (lookup m.name final)
    then (if override then insert m.name m final else final)
    else insert m.name m final

-- The loop over `merge`.
unfoldable pub merge_all : Bool → List EnvVar → List (String × EnvVar) → List (String × EnvVar)
merge_all override [] final = final
merge_all override (m ∷ merge) final = merge_all override merge (merge_one override m final)

-- `ret[i].Name < ret[j].Name`, or not the other way round.
abbrev pub name_leb : EnvVar → EnvVar → Bool
name_leb a b = text_leb a.name b.name

unfoldable pub insert_env : EnvVar → List EnvVar → List EnvVar
insert_env e [] = e ∷ []
insert_env e (x ∷ xs) = let rest = insert_env e xs in if name_leb e x then e ∷ x ∷ xs else x ∷ rest

-- `sort.SliceStable` by name, on the values of the map in the order in which they are read.
unfoldable pub sort_env : List (String × EnvVar) → List EnvVar
sort_env [] = []
sort_env ((k, v) ∷ final) = insert_env v (sort_env final)

-- `envMerge`
unfoldable pub env_merge : List EnvVar → List EnvVar → Bool → List EnvVar
env_merge existing merge override = sort_env (merge_all override merge (by_name existing []))

-- `caseInsensitiveGetenv`
unfoldable pub case_insensitive_getenv : (String → String) → String → String × String
case_insensitive_getenv getenv s =
    let ls = to_lower s in
    if not (getenv s == "")
    then (s, getenv s)
    else if not (getenv ls == "")
    then (ls, getenv ls)
    else ("", "")

-- The loop over the keys.
unfoldable pub proxy_vars : (String → String) → List String → List EnvVar
proxy_vars getenv [] = []
proxy_vars getenv (p ∷ keys) =
    let found = case_insensitive_getenv getenv p in
    let rest = proxy_vars getenv keys in
    if not (found.0 == "")
    then record { name = found.0; value = found.1; value_from = none } ∷ rest
    else rest

-- `proxyEnvVars`, which is called without arguments.
unfoldable pub proxy_env_vars : (String → String) → List EnvVar
proxy_env_vars getenv = proxy_vars getenv ("HTTP_PROXY" ∷ "HTTPS_PROXY" ∷ "NO_PROXY" ∷ [])
