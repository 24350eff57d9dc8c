-- ===== src/Controllers/Conditions/Updating.antt =====
-- controllers/utils.go: what `insertOrUpdateConditionsInSlice` and
-- `updateStatusConditionOfRolloutManager` leave in the status.
use argo_rollouts_manager.Go.Errors.{ok}
use argo_rollouts_manager.Kube.Client.{Client}
use argo_rollouts_manager.Api.{
  RolloutControllerPhase, phase_eq, RolloutManagerStatus, unset, available, pending, unknown,
  failure, RolloutManager,
}
use argo_rollouts_manager.Kube.Meta.{
  Condition, ConditionStatus, condition_unset, condition_true, condition_false, condition_unknown,
}
use argo_rollouts_manager.Controllers.Conditions.{
  insert_or_update, content_differs, apply_status, ReconcileStatusResult, set_phase, status_eq,
  update_status_condition,
}
use argo_rollouts_manager.Base.{
  ◌≡◌, String, ℕ, List, if◌then◌else◌, Option, some, none, ◌==◌, ◌∷◌, arith, [], eq_iff, false,
  eq_refl, true, refl, Bool, ◌||◌,
}

-- The first condition of a type.
unfoldable pub condition_of : String → List Condition → Option Condition
condition_of t [] = none
condition_of t (x ∷ rest) = if t == x.condition_type then some x else condition_of t rest

-- What is recorded for a new condition, beside the one that was recorded before.
unfoldable pub recorded : ℕ → Condition → Option Condition → Condition
recorded now new none = record new { last_transition_time = now }
recorded now new (some old) =
    if content_differs old new then record new { last_transition_time = now } else old

-- Inserting a condition makes it the one of its type, dated now when it is new or differs from the
-- old one in its message, its reason or its status, and otherwise leaves the old one with its date;
-- the condition of every other type stays.
pub condition_of-insert_or_update :
    (now : ℕ) (new : Condition) (l : List Condition) (t : String)
    → condition_of t (insert_or_update now new l).1 ≡ (
        if t == new.condition_type
        then some (recorded now new (condition_of t l))
        else condition_of t l)
unfolding condition_of insert_or_update recorded
condition_of-insert_or_update now new [] t = ground arith
condition_of-insert_or_update now new (old ∷ rest) t = ground (
  arith,
  eq_iff t old.condition_type,
  eq_iff t new.condition_type,
  eq_iff old.condition_type new.condition_type,
  condition_of-insert_or_update now new rest t,
)

status_eq_refl : (x : ConditionStatus) → status_eq x x ≡ true
status_eq_refl condition_unset = refl
status_eq_refl condition_true = refl
status_eq_refl condition_false = refl
status_eq_refl condition_unknown = refl

content_differs_refl :
    (x : Condition) (now : ℕ) → content_differs (record x { last_transition_time = now }) x ≡ false
unfolding content_differs
content_differs_refl x now =
    ground (arith, eq_refl x.message, eq_refl x.reason, status_eq_refl x.status)

-- Inserting a condition a second time changes nothing.
pub insert_or_update_again :
    (now later : ℕ) (new : Condition) (l : List Condition)
    → insert_or_update later new (insert_or_update now new l).1
      ≡ (false, (insert_or_update now new l).1)
unfolding insert_or_update
insert_or_update_again now later new [] =
    ground (arith, eq_refl new.condition_type, content_differs_refl new now)
insert_or_update_again now later new (old ∷ rest) = ground (
  arith,
  eq_refl new.condition_type,
  content_differs_refl new now,
  eq_iff old.condition_type new.condition_type,
  insert_or_update_again now later new rest,
)

unchanged :
    (now : ℕ) (new : Condition) (l : List Condition)
    → (insert_or_update now new l).0 ≡ false
    → (insert_or_update now new l).1 ≡ l
unfolding insert_or_update
unchanged now new [] h = ground arith
unchanged now new (old ∷ rest) h = ground (arith, unchanged now new rest)

pub phase_eq_refl : (p : RolloutControllerPhase) → phase_eq p p ≡ true
phase_eq_refl unset = refl
phase_eq_refl available = refl
phase_eq_refl pending = refl
phase_eq_refl unknown = refl
phase_eq_refl failure = refl

set_phase_again :
    (p : Option RolloutControllerPhase) (q : RolloutControllerPhase)
    → set_phase p (set_phase p q).0 ≡ ((set_phase p q).0, false)
set_phase_again none q = refl
set_phase_again (some p) q = ground (arith, phase_eq_refl p)

chosen :
    (now : ℕ) (new : Condition) (l : List Condition) (a b : Bool)
    → (if (insert_or_update now new l).0 || a || b then (insert_or_update now new l).1 else l)
      ≡ (insert_or_update now new l).1
chosen now new l a b = ground (arith, unchanged now new l)

-- Applying a result to the status a second time, at any time, changes nothing and asks for no
-- write.
pub apply_status_again :
    (now later : ℕ) (rr : ReconcileStatusResult) (status : RolloutManagerStatus)
    → apply_status later rr (apply_status now rr status).0 ≡ ((apply_status now rr status).0, false)
unfolding apply_status
apply_status_again now later rr status =
    let inserted =
      chosen now rr.condition status.conditions (set_phase rr.phase status.phase).1
        (set_phase rr.rollout_controller status.rollout_controller).1 in
    rw
      (
        inserted,
        insert_or_update_again now later rr.condition status.conditions,
        set_phase_again rr.phase status.phase,
        set_phase_again rr.rollout_controller status.rollout_controller,
      )
      refl

module _ (c : Client) where
  -- When the status of the manager already is what an earlier update with the same result has made
  -- of it, the update writes nothing.
  pub update_status_condition_again :
      (now later : ℕ) (rr : ReconcileStatusResult) (rm : RolloutManager) (s : c.State)
      → update_status_condition c later rr
          (record rm { status = (apply_status now rr rm.status).0 })
          s
        ≡ (ok tt, s)
  unfolding update_status_condition
  update_status_condition_again now later rr rm s =
      rw (apply_status_again now later rr rm.status) refl
