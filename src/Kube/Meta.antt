-- ===== src/Kube/Meta.antt =====
-- `metav1.ObjectMeta` and `metav1.Condition`, by the fields that the operator uses.
use argo_rollouts_manager.Base.{ℕ, String, Option}
use argo_rollouts_manager.Go.StringMaps.{StringMap}

-- A value that the operator only copies and compares is a text that stands for its serialised
-- form; the empty text is Go's zero value.
abbrev pub Opaque : Type 0
Opaque = String

-- `controller` is the name in the owner reference that `metav1.GetControllerOf` finds.
pub record ObjectMeta : Type 0 where
  pub name : String
  pub namespace : String
  pub labels : StringMap
  pub annotations : StringMap
  pub controller : Option String
  pub deletion_timestamp : Option ℕ

-- `condition_unset` is the empty text.
pub data ConditionStatus : Type 0 where
  condition_unset condition_true condition_false condition_unknown : ConditionStatus

-- `condition_type` is the field `Type`.
pub record Condition : Type 0 where
  pub condition_type : String
  pub status : ConditionStatus
  pub last_transition_time : ℕ
  pub reason : String
  pub message : String
