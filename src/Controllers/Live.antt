-- ===== src/Controllers/Live.antt =====
-- The way in which the `reconcile` functions of controllers/resources.go bring one live object to
-- its expected state: fetch it, create it if it is absent, and otherwise update what is out of date.
pub mod Settling
pub mod Frame
use argo_rollouts_manager.Controllers.Metadata.{metadata_differs, merge_metadata}
use argo_rollouts_manager.Kube.Meta.{ObjectMeta}
use argo_rollouts_manager.Go.Errors.{Response, GoError, answer, refusal}
use argo_rollouts_manager.Api.{RolloutManager}
use argo_rollouts_manager.Base.{String, Bool, if◌then◌else◌, ◌||◌, ◌==◌}
use argo_rollouts_manager.Kube.Client.{Client}
use argo_rollouts_manager.Kube.Objects.{Kind, Object, Body}
use argo_rollouts_manager.Go.Exec.{◌>>=◌, Exec, ask, send, or_raise, pure, raise}

-- `fetchObject`
unfoldable pub fetch_object :
    (c : Client) (k : Kind) → String → String → c.State → Response (Object k)
fetch_object c k ns name s = if ns == "" then c.get k "" name s else c.get k ns name s

-- What one `reconcile` function expects, and what it compares beside labels and annotations.
pub record Target (k : Kind) : Type 0 where
  pub expected : Object k
  -- `SetControllerReference` is called before the object is created
  pub owned : Bool
  -- the part of the body that is compared is out of date
  pub body_differs : Body k → Bool
  -- the live body with the compared part replaced
  pub fix_body : Body k → Body k
  -- the errors that the function returns for those of the API
  pub fetch_error : GoError → GoError
  pub reference_error : GoError → GoError
  pub create_error : GoError → GoError
  pub update_error : GoError → GoError

-- The live object with all that is out of date replaced.
unfoldable pub repaired : {k : Kind} → RolloutManager → Target k → Object k → Object k
repaired cr t live = record {
  meta =
      if metadata_differs cr live.meta t.expected.meta
      then merge_metadata live.meta t.expected.meta
      else live.meta;
  body = if t.body_differs live.body then t.fix_body live.body else live.body;
}

unfoldable pub update_needed : {k : Kind} → RolloutManager → Target k → Object k → Bool
update_needed cr t live = t.body_differs live.body || metadata_differs cr live.meta t.expected.meta

module _ (c : Client) {k : Kind} where
  open c use {State, create, update, set_controller_reference}

  -- `SetControllerReference(&cr, expected, r.Scheme)`, where the function calls it
  abbrev pub own : RolloutManager → Target k → Exec State ObjectMeta
  own cr t =
      if t.owned
      then or_raise t.reference_error (set_controller_reference cr.meta t.expected.meta)
      else pure t.expected.meta

  unfoldable pub create_expected : RolloutManager → Target k → Exec State (Object k)
  create_expected cr t = do
    meta ← own cr t
    created ← send (create k (record t.expected { meta = meta }))
    or_raise t.create_error created

  unfoldable pub update_live : RolloutManager → Target k → Object k → Exec State (Object k)
  update_live cr t live =
      if update_needed cr t live
      then (do updated ← send (update k (repaired cr t live)); or_raise t.update_error updated)
      else pure live

  unfoldable pub create_or_update :
      RolloutManager → Target k → Response (Object k) → Exec State (Object k)
  create_or_update cr t (answer live) = update_live cr t live
  create_or_update cr t (refusal e) =
      if e.is_not_found then create_expected cr t else raise (t.fetch_error e)

  unfoldable pub ensure : RolloutManager → Target k → Exec State (Object k)
  ensure cr t = do
    found ← ask (fetch_object c k t.expected.meta.namespace t.expected.meta.name)
    create_or_update cr t found
