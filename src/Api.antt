-- ===== src/Api.antt =====
-- api/v1alpha1/argorollouts_types.go: the RolloutManager resource.
use argo_rollouts_manager.Base.{String, Bool, true, false, Option, none, some, List}
use argo_rollouts_manager.Go.StringMaps.{StringMap}
use argo_rollouts_manager.Kube.Meta.{Opaque, ObjectMeta, Condition}
use argo_rollouts_manager.Kube.Workload.{Slice, EnvVar}

pub record RolloutManagerNetworkPolicySpec : Type 0 where
  pub enabled : Option Bool

-- `IsEnabled`, on a pointer that may be nil.
unfoldable pub is_enabled : Option RolloutManagerNetworkPolicySpec → Bool
is_enabled none = true
is_enabled (some a) = elim a.enabled [ none ↦ true | some b ↦ b ]

pub record Plugin : Type 0 where
  pub name : String
  pub location : String
  pub sha256 : String

pub record Plugins : Type 0 where
  pub traffic_management : List Plugin
  pub metric : List Plugin

pub record RolloutManagerHaSpec : Type 0 where
  pub enabled : Bool

pub record RolloutsNodePlacementSpec : Type 0 where
  pub node_selector : StringMap
  pub tolerations : Slice Opaque

pub record ResourceMetadata : Type 0 where
  pub annotations : StringMap
  pub labels : StringMap

-- An empty text in `image`, `version` or `image_pull_policy` is a field that is not set.
pub record RolloutManagerSpec : Type 0 where
  pub network_policy : Option RolloutManagerNetworkPolicySpec
  pub env : List EnvVar
  pub extra_command_args : List String
  pub image : String
  pub node_placement : Option RolloutsNodePlacementSpec
  pub version : String
  pub namespace_scoped : Bool
  pub additional_metadata : Option ResourceMetadata
  pub controller_resources : Option Opaque
  pub skip_notification_secret_deployment : Bool
  pub plugins : Plugins
  pub ha : Option RolloutManagerHaSpec
  pub image_pull_policy : String

-- `unset` is the empty text, a status that was never written.
pub data RolloutControllerPhase : Type 0 where
  unset available pending unknown failure : RolloutControllerPhase

pub record RolloutManagerStatus : Type 0 where
  pub rollout_controller : RolloutControllerPhase
  pub phase : RolloutControllerPhase
  pub conditions : List Condition

pub record RolloutManager : Type 0 where
  pub meta : ObjectMeta
  pub spec : RolloutManagerSpec
  pub status : RolloutManagerStatus

-- `cr.Spec.HA != nil && cr.Spec.HA.Enabled`
unfoldable pub ha_enabled : RolloutManager → Bool
ha_enabled cr = elim cr.spec.ha [ none ↦ false | some h ↦ h.enabled ]

abbrev pub phase_eq : RolloutControllerPhase → RolloutControllerPhase → Bool
phase_eq unset unset = true
phase_eq available available = true
phase_eq pending pending = true
phase_eq unknown unknown = true
phase_eq failure failure = true
phase_eq _ _ = false
