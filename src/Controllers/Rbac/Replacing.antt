-- ===== src/Controllers/Rbac/Replacing.antt =====
-- controllers/resources.go: the functions that first delete the object of the other scope.
use argo_rollouts_manager.Kube.Laws.{
  ReferenceKeeps, Isolates, ReadsWrites, Deletes, Readable, Absent,
}
use argo_rollouts_manager.Controllers.Metadata.Convergence.{IsStandard}
use argo_rollouts_manager.Api.{RolloutManager}
use argo_rollouts_manager.Controllers.Live.{fetch_object, Target, ensure}
use argo_rollouts_manager.Go.Exec.{send_inv, Exec, bind_returned, pure, ◌>>=◌}
use argo_rollouts_manager.Controllers.Live.Frame.{send_state, get-ensure}
use argo_rollouts_manager.Go.Errors.{GoError, Response, ok, refusal, answer, wrap, Result}
use argo_rollouts_manager.Controllers.Live.Settling.{
  fetch_object-get, BodySettles, LiveIsClean, IsSettledAt, ensure-IsSettledAt, ensure-settles,
}
use argo_rollouts_manager.Controllers.Rbac.{delete_existing, delete_answered}
use argo_rollouts_manager.Kube.Objects.{Kind, Object}
use argo_rollouts_manager.Kube.Client.{Client}
use argo_rollouts_manager.Go.Exec.{◌>>◌, bind_inv}
use argo_rollouts_manager.Base.{◌≡◌, String, refl, subst, ap, sym, ◌∙◌}

module _ (c : Client) (k : Kind) (ns name msg : String) where
  live_deleted :
      ReadsWrites c k
      → Deletes c k
      → (r : Response (Object k)) (s s' : c.State) → Readable c k ns name s
      → c.get k ns name s ≡ r
      → delete_answered c k msg r s ≡ (ok tt, s')
      → Absent c k ns name s'
  unfolding delete_answered
  live_deleted reads del (answer live) s s' readable found h =
      let (same_name, same_ns) = reads.named ns name s live found in
      let sent = send_inv (wrap msg) (c.delete k live.meta.namespace live.meta.name) s s' tt h in
      rw (← same_name, ← same_ns) (del.gone live.meta.namespace live.meta.name s s' sent)
  live_deleted reads del (refusal e) s s' readable found h =
      subst (Absent c k ns name) (ap (λ p. p.1) h) (e, found, readable e found)

  -- When `delete_existing` returns, there is nothing to read under the name.
  pub delete_existing_gone :
      ReadsWrites c k
      → Deletes c k
      → (s s' : c.State) → Readable c k ns name s
      → delete_existing c k ns name msg s ≡ (ok tt, s')
      → Absent c k ns name s'
  unfolding delete_existing
  delete_existing_gone reads del s s' readable h =
      live_deleted reads del _ s s' readable (sym (fetch_object-get c k ns name s)) h

  -- Where there is nothing to read, it does nothing.
  pub delete_existing_absent :
      (s : c.State) (e : GoError)
      → c.get k ns name s ≡ refusal e
      → delete_existing c k ns name msg s ≡ (ok tt, s)
  unfolding delete_existing delete_answered
  delete_existing_absent s e absent = rw (fetch_object-get c k ns name s, absent)

  keeps_from :
      (P : c.State → Type 0)
      → ((kns kname : String) (s : c.State) → P s → P (c.delete k kns kname s).1)
      → (r : Response (Object k)) (s : c.State) → P s
      → P (delete_answered c k msg r s).1
  unfolding delete_answered
  keeps_from P deletes (answer live) s h =
      let (r, s') = c.delete k live.meta.namespace live.meta.name s in
      subst P (sym (send_state (wrap msg) r s')) (deletes live.meta.namespace live.meta.name s h)
  keeps_from P deletes (refusal e) s h = h

  -- What the delete keeps, `delete_existing` keeps, however it ends.
  pub delete_existing_keeps :
      (P : c.State → Type 0)
      → ((kns kname : String) (s : c.State) → P s → P (c.delete k kns kname s).1)
      → (s : c.State) → P s
      → P (delete_existing c k ns name msg s).1
  unfolding delete_existing
  delete_existing_keeps P deletes s h = keeps_from P deletes (fetch_object c k ns name s) s h

-- First delete the object of kind `k`, then ensure the target.
module _ (c : Client) (k : Kind) (ns name msg : String) {j : Kind} (cr : RolloutManager)
    (t : Target j) where
  abbrev pub replace : Exec c.State (Object j)
  replace = do delete_existing c k ns name msg; ensure c cr t

  still_clean :
      (s s1 : c.State)
      → LiveIsClean c t s
      → Isolates c k j
      → delete_existing c k ns name msg s ≡ (ok tt, s1)
      → LiveIsClean c t s1
  still_clean s s1 clean iso deleted live found =
      let read : c.State → Response (Object j) =
        λ st. c.get j t.expected.meta.namespace t.expected.meta.name st in
      let same : read (delete_existing c k ns name msg s).1 ≡ read s =
        delete_existing_keeps c k ns name msg (λ st. read st ≡ read s)
          (λ kns kname st g. iso.deleted kns kname st _ _ ∙ g) s refl in
      clean live (sym same ∙ (ap (λ (p : Result (Unit {0}) × c.State). read p.1) deleted ∙ found))

  gone_after :
      (s1 s' : c.State) (o : Object j) (e : GoError)
      → Isolates c j k
      → ensure c cr t s1 ≡ (ok o, s')
      → c.get k ns name s1 ≡ refusal e
      → c.get k ns name s' ≡ refusal e
  gone_after s1 s' o e iso ensured gone =
      sym (ap (λ (p : Result (Object j) × c.State). c.get k ns name p.1) ensured)
      ∙ (get-ensure c k cr t ns name s1 iso ∙ gone)

  again :
      (s' : c.State) (e : GoError)
      → c.get k ns name s' ≡ refusal e
      → (h : IsSettledAt c cr t s') → replace s' ≡ (ok h.stored, s')
  again s' e absent h =
      bind_returned (delete_existing c k ns name msg) (λ _. ensure c cr t) s' s' tt
        (delete_existing_absent c k ns name msg s' e absent)
      ∙ ensure-IsSettledAt c cr t s' h

  -- Once `replace` has returned, the other object is gone, the target is settled, and a second
  -- run writes nothing.
  pub replace-settles :
      IsStandard cr t.expected.meta
      → BodySettles t
      → ReferenceKeeps c
      → ReadsWrites c k
      → ReadsWrites c j
      → Deletes c k
      → Isolates c k j
      → Isolates c j k
      → (s s' : c.State) (o : Object j) → LiveIsClean c t s
      → Readable c k ns name s
      → replace s ≡ (ok o, s')
      → (h : IsSettledAt c cr t s') × Absent c k ns name s' × (replace s' ≡ (ok h.stored, s'))
  replace-settles std settles keeps rk rj del kj jk s s' o clean readable h =
      let (u, s1, deleted, ensured) =
        bind_inv (delete_existing c k ns name msg) (λ _. ensure c cr t) s o s' h in
      let (e, gone, missing) = delete_existing_gone c k ns name msg rk del s s1 readable deleted in
      let settled =
        ensure-settles c cr t std settles keeps rj s1 s' o (still_clean s s1 clean kj deleted)
          ensured in
      let absent = gone_after s1 s' o e jk ensured gone in
      (settled, (e, absent, missing), again s' e absent settled)

  -- The bindings' functions return nothing: `replace`, its object dropped.
  abbrev pub replace_quietly : Exec c.State (Unit {0})
  replace_quietly = do delete_existing c k ns name msg; ensure c cr t; pure tt

  abbrev finish : Exec c.State (Unit {0})
  finish = ensure c cr t >>= λ _. pure tt

  dropped :
      (s s' : c.State) → replace_quietly s ≡ (ok tt, s') → (o : Object j) × (replace s ≡ (ok o, s'))
  dropped s s' h =
      let (u, s1, deleted, rest) =
        bind_inv (delete_existing c k ns name msg) (λ _. finish) s tt s' h in
      let (o, s2, ensured, last) = bind_inv (ensure c cr t) (λ _. pure tt) s1 tt s' rest in
      (
        o,
        bind_returned (delete_existing c k ns name msg) (λ _. ensure c cr t) s s1 tt deleted
            ∙ (ensured ∙ ap (λ (p : Result (Unit {0}) × c.State). (ok o, p.1)) last),
      )

  restored :
      (s s' : c.State) (o : Object j) → replace s ≡ (ok o, s') → replace_quietly s ≡ (ok tt, s')
  restored s s' o h =
      let (u, s1, deleted, ensured) =
        bind_inv (delete_existing c k ns name msg) (λ _. ensure c cr t) s o s' h in
      bind_returned (delete_existing c k ns name msg) (λ _. finish) s s1 tt deleted
      ∙ bind_returned (ensure c cr t) (λ _. pure tt) s1 s' o ensured

  pub replace_quietly-settles :
      IsStandard cr t.expected.meta
      → BodySettles t
      → ReferenceKeeps c
      → ReadsWrites c k
      → ReadsWrites c j
      → Deletes c k
      → Isolates c k j
      → Isolates c j k
      → (s s' : c.State) → LiveIsClean c t s
      → Readable c k ns name s
      → replace_quietly s ≡ (ok tt, s')
      → IsSettledAt c cr t s' × Absent c k ns name s' × (replace_quietly s' ≡ (ok tt, s'))
  replace_quietly-settles std settles keeps rk rj del kj jk s s' clean readable h =
      let (o, ran) = dropped s s' h in
      let (settled, gone, repeated) =
        replace-settles std settles keeps rk rj del kj jk s s' o clean readable ran in
      (settled, gone, restored s' s' settled.stored repeated)
