-- ===== src/Controllers/Container.antt =====
-- controllers/deployment.go and controllers/utils.go: the image, the pull policy and the arguments
-- of the Rollouts controller's container. `os.Getenv` is an argument.
pub mod Args
use argo_rollouts_manager.Controllers.Scope.{contains}
use argo_rollouts_manager.Go.Errors.{Response, refusal, GoError, answer, new_error, append}
use argo_rollouts_manager.Controllers.Defaults.{
  default_argo_rollouts_image, image_pull_policy, argo_rollouts_image_env_name,
  default_argo_rollouts_version,
}
use argo_rollouts_manager.Api.{RolloutManager, ha_enabled}
use Prim.Native.Char.{code}
use Prim.Native.String
use text.Mathlib.Text.{find?}
use mathlib.Core.Option.{none, some}
use argo_rollouts_manager.Base.{
  ◌≡◌, List, String, Option, Bool, if◌then◌else◌, ◌∷◌, is_some, false, ◌==◌, ◌++◌, not, nat_eq,
  ◌&&◌, [],
}

-- `contains(cmd, arg)` for an argument that has more than two bytes and begins with two dashes.
abbrev pub is_flag : String → Bool
is_flag String.[] = false
is_flag (String.◌∷◌ a String.[]) = false
is_flag (String.◌∷◌ a (String.◌∷◌ b String.[])) = false
is_flag (String.◌∷◌ a (String.◌∷◌ b (String.◌∷◌ d s))) = nat_eq (code a) 45 && nat_eq (code b) 45

-- `isMergable`
unfoldable pub is_mergable : List String → List String → Option GoError
is_mergable [] cmd = none
is_mergable (arg ∷ extra_args) cmd =
    let rest = is_mergable extra_args cmd in
    if is_flag arg && contains cmd arg then some (new_error "duplicate argument error") else rest

abbrev pub default_args : RolloutManager → List String
default_args cr =
    (if cr.spec.namespace_scoped then "--namespaced" ∷ [] else [])
    ++ (if ha_enabled cr then "--leader-elect" ∷ "true" ∷ [] else [])

-- `getRolloutsCommandArgs`; its callers pass over the arguments that come with an error.
unfoldable pub get_rollouts_command_args : RolloutManager → Response (List String)
get_rollouts_command_args cr = elim (is_mergable cr.spec.extra_command_args (default_args cr)) [
  | none ↦ answer (default_args cr ++ cr.spec.extra_command_args)
  | some e ↦ refusal e
]

-- `getImagePullPolicy`
unfoldable pub get_image_pull_policy : (String → String) → RolloutManager → Response String
get_image_pull_policy getenv cr =
    let env_val = getenv image_pull_policy in
    if not (cr.spec.image_pull_policy == "")
    then answer cr.spec.image_pull_policy
    else if env_val == ""
    then answer "IfNotPresent"
    else if contains ("Always" ∷ "IfNotPresent" ∷ "Never" ∷ []) env_val
    then answer env_val
    else refusal
        (new_error (append "Invalid IMAGE_PULL_POLICY environment variable value: " env_val))

-- `combineImageTag`
unfoldable pub combine_image_tag : String → String → String
combine_image_tag img tag =
    if is_some (find? tag ":")
    then append img (append "@" tag)
    else if tag == ""
    then img
    else append img (append ":" tag)

-- What `reference.Parse` makes of a text: an error, a reference without a name, or one with it.
abbrev pub Parser : Type 0
Parser = String → Response (Option String)

abbrev named_part : String → Response (Option String) → Response String
named_part image_ref (refusal e) = refusal e
named_part image_ref (answer none) =
    refusal (new_error (append "unable to extract base image name: " image_ref))
named_part image_ref (answer (some name)) = answer name

-- `extractBaseImageName`
unfoldable pub extract_base_image_name : Parser → String → Response String
extract_base_image_name parse image_ref = named_part image_ref (parse image_ref)

abbrev or_default : String → String → String
or_default s default = if s == "" then default else s

abbrev with_defaults : String → String → String
with_defaults image tag =
    combine_image_tag (or_default image default_argo_rollouts_image)
      (or_default tag default_argo_rollouts_version)

abbrev with_base : String → Response String → Response String
with_base tag (refusal e) = refusal e
with_base tag (answer base) = answer (with_defaults base tag)

-- `getRolloutsContainerImage`
unfoldable pub get_rollouts_container_image :
    (String → String) → Parser → RolloutManager → Response String
get_rollouts_container_image getenv parse cr =
    let env_val = getenv argo_rollouts_image_env_name in
    if env_val == ""
    then answer (with_defaults cr.spec.image cr.spec.version)
    else if (cr.spec.image == "") && (cr.spec.version == "")
    then answer env_val
    else if cr.spec.image == ""
    then with_base cr.spec.version (extract_base_image_name parse env_val)
    else answer (with_defaults cr.spec.image cr.spec.version)
