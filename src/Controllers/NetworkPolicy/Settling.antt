-- ===== src/Controllers/NetworkPolicy/Settling.antt =====
-- controllers/resources.go: after a successful reconciliation of the NetworkPolicy.
use argo_rollouts_manager.Kube.Defaults.{with_protocols}
use argo_rollouts_manager.Controllers.Rbac.{named}
use argo_rollouts_manager.Controllers.Metadata.Lookups.{set_labels_and_annotations_to_object-named}
use argo_rollouts_manager.Controllers.Metadata.Convergence.{set-IsStandard}
use argo_rollouts_manager.Go.Maps.{lookup}
use argo_rollouts_manager.Controllers.Live.{ensure}
use argo_rollouts_manager.Go.StringMaps.{
  deep_equal, same_entries, StringMap, get, Entries, same_entries_iff,
}
use argo_rollouts_manager.Controllers.Defaults.{
  default_rollouts_network_policy, default_rollouts_selector_key,
  default_argo_rollouts_resource_name,
}
use argo_rollouts_manager.Controllers.Live.Settling.{
  LiveIsClean, fetch_object-get, IsSettledAt, ensure-settles, ensure-IsSettledAt,
}
use argo_rollouts_manager.Go.Errors.{ok, answer, Response, refusal, Result}
use argo_rollouts_manager.Kube.Objects.{NetworkPolicyBody, Object, Kind}
use argo_rollouts_manager.Api.{RolloutManager, is_enabled}
use argo_rollouts_manager.Kube.Laws.{IsApi, Absent, Kept}
use argo_rollouts_manager.Kube.Client.{Client}
use argo_rollouts_manager.Controllers.NetworkPolicy.{
  network_policy_differs, desired_network_policy, fix_network_policy,
  reconcile_rollouts_network_policy, delete_rollouts_network_policies, network_policy_target,
  delete_network_policy, selectors_eq, tcp,
}
use argo_rollouts_manager.Go.DeepEqual.{
  ingress_rule_deep_eq, list_deep_eq, string_deep_eq, deep_eq, lists_eq_iff,
}
use argo_rollouts_manager.Go.Exec.{bind_inv, send_inv, pure, bind_returned}
use argo_rollouts_manager.Base.{
  ◌∷◌, ◌≡◌, false, refl, true, Bool, if◌then◌else◌, Bool-cases, ap, inl, arith, inr, subst, String,
  eq_iff, some, none, [], ◌∙◌, map,
}

desired_same : network_policy_differs desired_network_policy ≡ false
unfolding network_policy_differs deep_equal same_entries lookup
desired_same = refl

picked : {A : Type 0} (t : A → Bool) (x d : A) → t d ≡ true → t (if t x then x else d) ≡ true
picked t x d h = elim (Bool-cases (t x)) [ inl e ↦ rw (e, e) refl | inr e ↦ rw (e, h) refl ]

selector_same :
    selectors_eq desired_network_policy.pod_selector desired_network_policy.pod_selector ≡ true
unfolding deep_equal same_entries lookup
selector_same = refl

fix_network_policy-same :
    (b : NetworkPolicyBody) → network_policy_differs (fix_network_policy b) ≡ false
unfolding network_policy_differs fix_network_policy
fix_network_policy-same b =
    let d = desired_network_policy in
    rw
      (
        picked (λ x. selectors_eq x d.pod_selector) b.pod_selector d.pod_selector selector_same,
        picked (λ x. deep_eq x d.policy_types) b.policy_types d.policy_types refl,
        picked (λ x. deep_eq x d.ingress) b.ingress d.ingress refl,
      )
      refl

-- The specification that the operator wants, by what is read of it.
abbrev pub AsDesired : NetworkPolicyBody → Type 0
AsDesired b =
    ((k : String)
      → get k b.pod_selector.match_labels
        ≡ get k (some ((default_rollouts_selector_key, default_argo_rollouts_resource_name) ∷ [])))
    × (b.pod_selector.other ≡ "")
    × (b.policy_types ≡ "Ingress" ∷ [])
    × (b.ingress ≡ record { ports = tcp 8080 ∷ tcp 8090 ∷ []; from = none } ∷ [])

deep_equal-some :
    (m : StringMap) (n : Entries)
    → deep_equal m (some n) ≡ true
    → (k : String) → get k m ≡ get k (some n)
unfolding deep_equal
deep_equal-some none n h k = cc h
deep_equal-some (some m) n h k = (same_entries_iff m n).0 h k

network_policy_differs-AsDesired :
    (b : NetworkPolicyBody) → network_policy_differs b ≡ false → AsDesired b
unfolding network_policy_differs
network_policy_differs-AsDesired b h =
    let d = desired_network_policy in
    (
      deep_equal-some b.pod_selector.match_labels _ (ground arith),
      (eq_iff b.pod_selector.other "").0 (ground arith),
      (lists_eq_iff b.policy_types d.policy_types).0 (ground arith),
      (lists_eq_iff b.ingress d.ingress).0 (ground arith),
    )

-- The server's defaults change nothing of the desired ports.
network_policy_differs-Kept :
    (sent stored : NetworkPolicyBody)
    → Kept Kind.network_policy sent stored
    → network_policy_differs sent ≡ false
    → network_policy_differs stored ≡ false
unfolding network_policy_differs with_protocols
network_policy_differs-Kept sent stored (selector, types, ingress) h =
    let d = desired_network_policy in
    let same : sent.ingress ≡ d.ingress = (lists_eq_iff sent.ingress d.ingress).0 (ground arith) in
    let stays : deep_eq stored.ingress d.ingress ≡ true =
      (lists_eq_iff stored.ingress d.ingress).1 (ingress ∙ ap (map with_protocols) same) in
    rw (selector, types, stays) (ground arith)

module _ (c : Client) (api : IsApi c) (cr : RolloutManager) where
  settled_policy :
      (s : c.State)
      → is_enabled cr.spec.network_policy ≡ true
      → IsSettledAt c cr (network_policy_target cr) s
      → (stored : Object Kind.network_policy) × (c.get Kind.network_policy cr.meta.namespace
            default_rollouts_network_policy s
          ≡ answer stored)
        × AsDesired stored.body
        × (reconcile_rollouts_network_policy c cr s ≡ (ok tt, s))
  unfolding reconcile_rollouts_network_policy network_policy_target
  settled_policy s on settled =
      let t = network_policy_target cr in
      let (name, ns) =
        set_labels_and_annotations_to_object-named
          (named default_rollouts_network_policy cr.meta.namespace) cr in
      (
        settled.stored,
        (rw (ns, name) at settled.found),
        network_policy_differs-AsDesired settled.stored.body settled.body_same,
        rw on (
            bind_returned (ensure c cr t) (λ _. pure tt) s s settled.stored
              (ensure-IsSettledAt c cr t s settled)),
      )

  -- With an API server that keeps the laws of IsApi, while the NetworkPolicy is enabled, and where
  -- the live one, if there is one, has no aggregate label that the expected one lacks: after a
  -- successful reconciliation there is a NetworkPolicy in the namespace of the RolloutManager that
  -- selects the pods of the operator's label, has Ingress as its one policy type and one ingress
  -- rule, for TCP on the ports 8080 and 8090 from any peer, and a second reconciliation changes
  -- nothing.
  pub reconcile_rollouts_network_policy-settles :
      (s s' : c.State)
      → is_enabled cr.spec.network_policy ≡ true
      → LiveIsClean c (network_policy_target cr) s
      → reconcile_rollouts_network_policy c cr s ≡ (ok tt, s')
      → (stored : Object Kind.network_policy) × (c.get Kind.network_policy cr.meta.namespace
            default_rollouts_network_policy s'
          ≡ answer stored)
        × AsDesired stored.body
        × (reconcile_rollouts_network_policy c cr s' ≡ (ok tt, s'))
  unfolding reconcile_rollouts_network_policy network_policy_target
  reconcile_rollouts_network_policy-settles s s' on clean h =
      let t = network_policy_target cr in
      let (o, s1, ran, last) = bind_inv (ensure c cr t) (λ _. pure tt) s tt s' (rw on at h) in
      let same = ap (λ (p : Result (Unit {0}) × c.State). p.1) last in
      let settled = subst (IsSettledAt c cr t) same (
        ensure-settles c cr t (set-IsStandard _ cr)
          (record {
            fixed = fix_network_policy-same;
            expected = desired_same;
            kept = network_policy_differs-Kept;
          })
          api.reference (api.reads _) s s1 o clean ran) in
      settled_policy s' on settled

  disabled :
      (s s' : c.State) (r : Response (Object Kind.network_policy))
      → c.get Kind.network_policy cr.meta.namespace default_rollouts_network_policy s ≡ r
      → delete_network_policy c r s ≡ (ok tt, s')
      → Absent c Kind.network_policy cr.meta.namespace default_rollouts_network_policy s'
  unfolding delete_network_policy
  disabled s s' (answer live) found h =
      let (name, ns) = (api.reads Kind.network_policy).named _ _ s live found in
      let gone = (api.deletes Kind.network_policy).gone live.meta.namespace live.meta.name s s' (
        send_inv (λ e. e) (c.delete Kind.network_policy live.meta.namespace live.meta.name) s s' tt
          h) in
      (rw (name, ns) at gone)
  disabled s s' (refusal e) found h = elim (Bool-cases e.is_not_found) [
    | inl m ↦
        let same : s ≡ s' = ground (arith, h, m) in
        subst (Absent c Kind.network_policy cr.meta.namespace default_rollouts_network_policy) same
          (e, found, m)
    | inr m ↦ ground (arith, h, m)
  ]

  -- With an API server that keeps the laws of IsApi, while the NetworkPolicy is disabled: after a
  -- successful reconciliation there is none to read.
  pub reconcile_rollouts_network_policy-Absent :
      (s s' : c.State)
      → is_enabled cr.spec.network_policy ≡ false
      → reconcile_rollouts_network_policy c cr s ≡ (ok tt, s')
      → Absent c Kind.network_policy cr.meta.namespace default_rollouts_network_policy s'
  unfolding reconcile_rollouts_network_policy delete_rollouts_network_policies
  reconcile_rollouts_network_policy-Absent s s' off h = disabled s s' _ refl (
      rw
        (
          off,
          fetch_object-get c Kind.network_policy cr.meta.namespace default_rollouts_network_policy
              s,
        )
        at h)
