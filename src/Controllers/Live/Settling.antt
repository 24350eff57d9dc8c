-- ===== src/Controllers/Live/Settling.antt =====
-- controllers/resources.go: the cluster after a successful fetch, create or update of one object.
use argo_rollouts_manager.Kube.Laws.{StoredAs, ReferenceKeeps, ReadsWrites, Kept}
use argo_rollouts_manager.Go.Exec.{
  bind_inv, or_raise, pure, or_raise_inv, send_inv, Exec, send, ◌>>=◌,
}
use argo_rollouts_manager.Controllers.Metadata.{metadata_differs, merge_metadata}
use argo_rollouts_manager.Controllers.Metadata.Convergence.{
  NoForeignAggregate, IsStandard, IsSettled, metadata_differs_iff, merge-IsSettled,
  IsSettled-lookups,
}
use argo_rollouts_manager.Go.StringMaps.{get}
use argo_rollouts_manager.Go.Errors.{answer, ok, Result, Response, refusal}
use argo_rollouts_manager.Kube.Meta.{ObjectMeta}
use argo_rollouts_manager.Api.{RolloutManager}
use argo_rollouts_manager.Kube.Objects.{Kind, Object, Body}
use argo_rollouts_manager.Kube.Client.{Client}
use argo_rollouts_manager.Controllers.Live.{
  fetch_object, Target, ensure, create_or_update, update_live, update_needed, create_expected,
  repaired, own,
}
use argo_rollouts_manager.Base.{
  ◌≡◌, String, Bool-cases, ◌==◌, false, inl, ap, sym, eq_iff, inr, Bool, if◌then◌else◌, arith, true,
  ◌∙◌, subst,
}

-- The comparison of the body is settled by the repair, by the expected body and by what the server
-- keeps of a settled body.
pub record BodySettles {k : Kind} (t : Target k) : Type 0 where
  pub fixed : (b : Body k) → t.body_differs (t.fix_body b) ≡ false
  pub expected : t.body_differs t.expected.body ≡ false
  pub kept :
      (sent stored : Body k)
      → Kept k sent stored
      → t.body_differs sent ≡ false
      → t.body_differs stored ≡ false

-- No aggregate label of the live object is foreign to the expected ones.
abbrev pub LiveIsClean : (c : Client) {k : Kind} → Target k → c.State → Type 0
LiveIsClean c {k} t s =
    (live : Object k)
    → c.get k t.expected.meta.namespace t.expected.meta.name s ≡ answer live
    → NoForeignAggregate live.meta t.expected.meta

pub fetch_object-get :
    (c : Client) (k : Kind) (ns name : String) (s : c.State)
    → fetch_object c k ns name s ≡ c.get k ns name s
unfolding fetch_object
fetch_object-get c k ns name s = elim (Bool-cases (ns == "")) [
  | inl e ↦ rw e (ap (λ n. c.get k n name s) (sym ((eq_iff ns "").0 e)))
  | inr e ↦ rw e
]

module _ (c : Client) {k : Kind} (cr : RolloutManager) (t : Target k) where
  -- An object that is as expected is left alone.
  pub ensure_settled :
      (o : Object k) (s : c.State)
      → c.get k t.expected.meta.namespace t.expected.meta.name s ≡ answer o
      → t.body_differs o.body ≡ false
      → metadata_differs cr o.meta t.expected.meta ≡ false
      → ensure c cr t s ≡ (ok o, s)
  unfolding ensure create_or_update update_live update_needed
  ensure_settled o s found body meta =
      rw (fetch_object-get c k t.expected.meta.namespace t.expected.meta.name s, found, body, meta)

  -- The target is settled: its object is stored, and nothing of it is out of date.
  pub record IsSettledAt (s : c.State) : Type 0 where
    pub stored : Object k
    pub found : c.get k t.expected.meta.namespace t.expected.meta.name s ≡ answer stored
    pub body_same : t.body_differs stored.body ≡ false
    pub metadata_same : metadata_differs cr stored.meta t.expected.meta ≡ false

  -- On a settled target `ensure` writes nothing.
  pub ensure-IsSettledAt : (s : c.State) (h : IsSettledAt s) → ensure c cr t s ≡ (ok h.stored, s)
  ensure-IsSettledAt s h = ensure_settled h.stored s h.found h.body_same h.metadata_same

  -- The metadata that is sent at creation: the expected one, perhaps with an owner.
  abbrev SameMeta : ObjectMeta → Type 0
  SameMeta m =
      (m.name ≡ t.expected.meta.name)
      × (m.namespace ≡ t.expected.meta.namespace)
      × (m.labels ≡ t.expected.meta.labels)
      × (m.annotations ≡ t.expected.meta.annotations)

  abbrev send_new : ObjectMeta → Exec c.State (Object k)
  send_new m = send (c.create k (record t.expected { meta = m })) >>= or_raise t.create_error

  own_inv :
      ReferenceKeeps c
      → (b : Bool) (s s1 : c.State) (m : ObjectMeta)
      → ◌≡◌ {A = Result ObjectMeta × c.State}
          ((if b
              then or_raise t.reference_error (c.set_controller_reference cr.meta t.expected.meta)
              else pure t.expected.meta)
            s)
          (ok m, s1)
      → (s ≡ s1) × SameMeta m
  own_inv keeps true s s1 m h =
      let (e, same) = or_raise_inv t.reference_error _ s s1 m h in
      (same, keeps.kept cr.meta t.expected.meta m e)
  own_inv keeps false s s1 m h = ground arith

  create_inv :
      ReferenceKeeps c
      → (s s' : c.State) (o : Object k) → create_expected c cr t s ≡ (ok o, s')
      → (m : ObjectMeta) × (c.create k (record t.expected { meta = m }) s ≡ (answer o, s'))
        × (SameMeta m)
  unfolding create_expected
  create_inv keeps s s' o h =
      let (m, s1, owned, sent) = bind_inv (own c cr t) (send_new) s o s' h in
      let (same, kept) = own_inv keeps t.owned s s1 m owned in
      (
        m,
        rw same
            (send_inv t.create_error (c.create k (record t.expected { meta = m })) s1 s' o sent),
        kept,
      )

  module _ (std : IsStandard cr t.expected.meta) (settles : BodySettles t) where
    -- A stored copy of settled metadata and of a settled body.
    stored_settled :
        (sent o : Object k) (s' : c.State)
        → (c.get k sent.meta.namespace sent.meta.name s' ≡ answer o) × StoredAs sent o
        → sent.meta.name ≡ t.expected.meta.name
        → sent.meta.namespace ≡ t.expected.meta.namespace
        → t.body_differs sent.body ≡ false
        → IsSettled cr sent.meta t.expected.meta
        → IsSettledAt s'
    stored_settled sent o s' (got, same) name ns body settled = record {
      stored = o;
      found = rw (← name, ← ns) got;
      body_same = settles.kept sent.body o.body same.body body;
      metadata_same =
          (metadata_differs_iff cr o.meta t.expected.meta std).1
            (IsSettled-lookups o.meta same.labels same.annotations settled);
    }

    create-IsSettledAt :
        ReferenceKeeps c
        → ReadsWrites c k
        → (s s' : c.State) (o : Object k) → create_expected c cr t s ≡ (ok o, s')
        → IsSettledAt s'
    create-IsSettledAt keeps reads s s' o h =
        let (m, sent, (name, ns, l, a)) = create_inv keeps s s' o h in
        stored_settled (record t.expected { meta = m }) o s'
          (reads.created (record t.expected { meta = m }) o s s' sent) name ns settles.expected
          (record { labels = λ j d. ap (get j) l; annotations = λ j d. ap (get j) a })

    -- The repaired object is settled.
    repaired_body : (live : Object k) → t.body_differs (repaired cr t live).body ≡ false
    unfolding repaired
    repaired_body live = elim (Bool-cases (t.body_differs live.body)) [
      | inl e ↦ rw e (settles.fixed live.body)
      | inr e ↦ rw (e, e)
    ]

    repaired_meta :
        (live : Object k)
        → NoForeignAggregate live.meta t.expected.meta
        → IsSettled cr (repaired cr t live).meta t.expected.meta
    unfolding repaired
    repaired_meta live clean = elim (Bool-cases (metadata_differs cr live.meta t.expected.meta)) [
      | inl e ↦ rw e (merge-IsSettled cr live.meta t.expected.meta std clean)
      | inr e ↦ rw e ((metadata_differs_iff cr live.meta t.expected.meta std).0 e)
    ]

    repaired_name :
        (live : Object k)
        → ((repaired cr t live).meta.name ≡ live.meta.name)
          × ((repaired cr t live).meta.namespace ≡ live.meta.namespace)
    unfolding repaired merge_metadata
    repaired_name live = ground arith

    update_needed_parts :
        (live : Object k)
        → update_needed cr t live ≡ false
        → (t.body_differs live.body ≡ false)
          × (metadata_differs cr live.meta t.expected.meta ≡ false)
    unfolding update_needed
    update_needed_parts live h = ground arith

    unchanged :
        {s s' : c.State} (live o : Object k)
        → c.get k t.expected.meta.namespace t.expected.meta.name s ≡ answer live
        → (t.body_differs live.body ≡ false)
          × (metadata_differs cr live.meta t.expected.meta ≡ false)
        → ◌≡◌ {A = Result (Object k) × c.State} (ok live, s) (ok o, s')
        → IsSettledAt s'
    unchanged live o found (body, meta) h = record {
      stored = live;
      found =
          subst (λ st. c.get k t.expected.meta.namespace t.expected.meta.name st ≡ answer live)
            (ap (λ p. p.1) h) found;
      body_same = body;
      metadata_same = meta;
    }

    update-IsSettledAt :
        ReadsWrites c k
        → (s s' : c.State) (live o : Object k)
        → c.get k t.expected.meta.namespace t.expected.meta.name s ≡ answer live
        → NoForeignAggregate live.meta t.expected.meta
        → update_live c cr t live s ≡ (ok o, s')
        → IsSettledAt s'
    unfolding update_live
    update-IsSettledAt reads s s' live o found clean h =
        let (named, housed) = reads.named _ _ s live found in
        let (name, ns) = repaired_name live in
        elim (Bool-cases (update_needed cr t live)) [
          | inl e ↦
              stored_settled (repaired cr t live) o s'
                (reads.updated (repaired cr t live) o s s' (
                  send_inv t.update_error (c.update k (repaired cr t live)) s s' o
                    (rw (e, update_live) at h)))
                (name ∙ named) (ns ∙ housed) (repaired_body live) (repaired_meta live clean)
          | inr e ↦ unchanged live o found (update_needed_parts live e) (rw (e, update_live) at h)
        ]

    settles_from :
        ReferenceKeeps c
        → ReadsWrites c k
        → (s s' : c.State) (o : Object k) → LiveIsClean c t s
        → (r : Response (Object k)) → c.get k t.expected.meta.namespace t.expected.meta.name s ≡ r
        → create_or_update c cr t r s ≡ (ok o, s')
        → IsSettledAt s'
    unfolding create_or_update
    settles_from keeps reads s s' o clean (answer live) found h =
        update-IsSettledAt reads s s' live o found (clean live found) h
    settles_from keeps reads s s' o clean (refusal e) found h = elim (Bool-cases e.is_not_found) [
      | inl absent ↦ create-IsSettledAt keeps reads s s' o (ground arith)
      | inr failed ↦ ground arith
    ]

    -- After a successful `ensure` the target is settled.
    pub ensure-settles :
        ReferenceKeeps c
        → ReadsWrites c k
        → (s s' : c.State) (o : Object k) → LiveIsClean c t s
        → ensure c cr t s ≡ (ok o, s')
        → IsSettledAt s'
    unfolding ensure
    ensure-settles keeps reads s s' o clean h =
        settles_from keeps reads s s' o clean _
          (sym (fetch_object-get c k t.expected.meta.namespace t.expected.meta.name s)) h
