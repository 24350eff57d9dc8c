-- ===== src/Controllers/Live/Frame.antt =====
-- controllers/resources.go: what the fetch, create or update of one object leaves alone.
use argo_rollouts_manager.Kube.Laws.{Isolates}
use argo_rollouts_manager.Kube.Meta.{ObjectMeta}
use argo_rollouts_manager.Controllers.Live.{
  Target, ensure, create_or_update, update_live, create_expected, fetch_object, update_needed,
  repaired,
}
use argo_rollouts_manager.Api.{RolloutManager}
use argo_rollouts_manager.Go.Exec.{or_raise, Exec, ◌>>=◌, send}
use argo_rollouts_manager.Base.{String, ◌≡◌, subst, ◌∙◌, Bool-cases, sym, inl, refl, inr}
use argo_rollouts_manager.Kube.Objects.{Kind, Object}
use argo_rollouts_manager.Kube.Client.{Client}
use argo_rollouts_manager.Go.Errors.{GoError, Response, answer, refusal}

pub send_state :
    {S A : Type 0} (g : GoError → GoError) (r : Response A) (s : S) → (or_raise g r s).1 ≡ s
send_state g (answer a) s = refl
send_state g (refusal e) s = refl

module _ (c : Client) {k : Kind} (cr : RolloutManager) (t : Target k) (P : c.State → Type 0)
    (creates : (o : Object k) (s : c.State) → P s → P (c.create k o s).1)
    (updates : (o : Object k) (s : c.State) → P s → P (c.update k o s).1) where
  abbrev send_new : ObjectMeta → Exec c.State (Object k)
  send_new m = send (c.create k (record t.expected { meta = m })) >>= or_raise t.create_error

  send_new_keeps : (m : ObjectMeta) (s : c.State) → P s → P (send_new m s).1
  send_new_keeps m s h =
      let o = record t.expected { meta = m } in
      subst P (sym (send_state t.create_error (c.create k o s).0 (c.create k o s).1))
        (creates o s h)

  own_keeps :
      (r : Response ObjectMeta) (s : c.State)
      → P s
      → P ((or_raise t.reference_error r >>= send_new) s).1
  own_keeps (answer m) s h = send_new_keeps m s h
  own_keeps (refusal e) s h = h

  pub create_keeps : (s : c.State) → P s → P (create_expected c cr t s).1
  unfolding create_expected
  create_keeps s h = elim (Bool-cases t.owned) [
    | inl e ↦ rw e (own_keeps (c.set_controller_reference cr.meta t.expected.meta) s h)
    | inr e ↦ rw e (send_new_keeps t.expected.meta s h)
  ]

  pub update_keeps : (live : Object k) (s : c.State) → P s → P (update_live c cr t live s).1
  unfolding update_live
  update_keeps live s h = elim (Bool-cases (update_needed cr t live)) [
    | inl e ↦
        let o = repaired cr t live in
        rw e (
          subst P (sym (send_state t.update_error (c.update k o s).0 (c.update k o s).1))
            (updates o s h))
    | inr e ↦ rw e h
  ]

  found_keeps : (r : Response (Object k)) (s : c.State) → P s → P (create_or_update c cr t r s).1
  unfolding create_or_update
  found_keeps (answer live) s h = update_keeps live s h
  found_keeps (refusal e) s h = elim (Bool-cases e.is_not_found) [
    | inl n ↦ rw n (create_keeps s h)
    | inr n ↦ rw n h
  ]

  -- Whatever both writes keep, `ensure` keeps, however it ends.
  pub ensure_keeps : (s : c.State) → P s → P (ensure c cr t s).1
  unfolding ensure
  ensure_keeps s h =
      found_keeps (fetch_object c k t.expected.meta.namespace t.expected.meta.name s) s h

-- `ensure` on one kind does not change what is read of another.
pub get-ensure :
    (c : Client) {k : Kind} (j : Kind) (cr : RolloutManager) (t : Target k) (ns name : String)
    (s : c.State)
    → Isolates c k j
    → c.get j ns name (ensure c cr t s).1 ≡ c.get j ns name s
get-ensure c {k} j cr t ns name s iso =
    ensure_keeps c cr t (λ st. c.get j ns name st ≡ c.get j ns name s)
      (λ o st h. iso.created o st ns name ∙ h) (λ o st h. iso.updated o st ns name ∙ h) s refl
