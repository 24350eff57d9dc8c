-- ===== src/Kube/Memory/Laws.antt =====
-- The API server in memory, and what the operator relies on.
use argo_rollouts_manager.Kube.Defaults.{bare_spec}
use argo_rollouts_manager.Kube.Laws.{
  Isolates, IsApi, ReadsWrites, Deletes, StoredAs, Absent, Kept, Readable,
}
use argo_rollouts_manager.Go.Errors.{GoError, answer, refusal, Response}
use argo_rollouts_manager.Kube.Memory.{
  change, find_object, without, has_name, Cluster, memory, changing, as_stored, with_defaults,
}
use argo_rollouts_manager.Kube.Objects.{Kind, Object, Body}
use argo_rollouts_manager.Base.{
  ◌≡◌, List, String, ◌∷◌, ◌≢◌, refl, eq_refl, [], arith, true, Bool-cases, false, inl, inr, ap,
  subst, sym, eq_iff, if◌then◌else◌, ◌∙◌,
}

find-change :
    (k : Kind) (f : List (Object k) → List (Object k)) (s : (j : Kind) → List (Object j))
    → change k f s k ≡ f (s k)
unfolding change
find-change Kind.namespace f s = refl
find-change Kind.service_account f s = refl
find-change Kind.role f s = refl
find-change Kind.cluster_role f s = refl
find-change Kind.role_binding f s = refl
find-change Kind.cluster_role_binding f s = refl
find-change Kind.secret f s = refl
find-change Kind.config_map f s = refl
find-change Kind.deployment f s = refl
find-change Kind.pod f s = refl
find-change Kind.service f s = refl
find-change Kind.service_monitor f s = refl
find-change Kind.network_policy f s = refl
find-change Kind.custom_resource_definition f s = refl

change_other :
    (k j : Kind) (f : List (Object k) → List (Object k)) (s : (j : Kind) → List (Object j))
    → k ≢ j
    → change k f s j ≡ s j
unfolding change
change_other Kind.namespace Kind.namespace f s h = absurd (h refl)
change_other Kind.service_account Kind.service_account f s h = absurd (h refl)
change_other Kind.role Kind.role f s h = absurd (h refl)
change_other Kind.cluster_role Kind.cluster_role f s h = absurd (h refl)
change_other Kind.role_binding Kind.role_binding f s h = absurd (h refl)
change_other Kind.cluster_role_binding Kind.cluster_role_binding f s h = absurd (h refl)
change_other Kind.secret Kind.secret f s h = absurd (h refl)
change_other Kind.config_map Kind.config_map f s h = absurd (h refl)
change_other Kind.deployment Kind.deployment f s h = absurd (h refl)
change_other Kind.pod Kind.pod f s h = absurd (h refl)
change_other Kind.service Kind.service f s h = absurd (h refl)
change_other Kind.service_monitor Kind.service_monitor f s h = absurd (h refl)
change_other Kind.network_policy Kind.network_policy f s h = absurd (h refl)
change_other Kind.custom_resource_definition Kind.custom_resource_definition f s h = absurd (h refl)
change_other _ _ f s h = refl

module _ {k : Kind} where
  pub answered : (x o : Object k) → ◌≡◌ {A = Response (Object k)} (answer x) (answer o) → x ≡ o
  answered x o h = ground (arith, h)

  find_object-named :
      (ns name : String) (os : List (Object k)) (o : Object k)
      → find_object ns name os ≡ answer o
      → (o.meta.name ≡ name) × (o.meta.namespace ≡ ns)
  unfolding find_object
  find_object-named ns name [] o h = ground arith
  find_object-named ns name (x ∷ os) o h = elim (Bool-cases (has_name ns name x)) [
    | inl e ↦
        subst (λ (y : Object k). (y.meta.name ≡ name) × (y.meta.namespace ≡ ns))
          (answered x o (rw (find_object, e) at h))
          (ground (arith, e, eq_iff x.meta.namespace ns, eq_iff x.meta.name name))
    | inr e ↦ find_object-named ns name os o (rw (find_object, e) at h)
  ]

  find_first :
      (o : Object k) (os : List (Object k))
      → find_object o.meta.namespace o.meta.name (o ∷ os) ≡ answer o
  unfolding find_object
  find_first o os = rw (eq_refl o.meta.namespace, eq_refl o.meta.name) refl

  find_object-without :
      (ns name : String) (os : List (Object k))
      → (e : GoError) × (find_object ns name (without ns name os) ≡ refusal e)
        × (e.is_not_found ≡ true)
  unfolding find_object without
  find_object-without ns name [] = (_, refl, refl)
  find_object-without ns name (x ∷ os) = elim (Bool-cases (has_name ns name x)) [
    | inl e ↦ rw e (find_object-without ns name os)
    | inr e ↦ rw (e, find_object, e) (find_object-without ns name os)
  ]

  other_name :
      (ns name ns' name' : String) (x : Object k)
      → name ≢ name'
      → has_name ns name x ≡ true
      → has_name ns' name' x ≡ false
  other_name ns name ns' name' x n h = elim (Bool-cases (has_name ns' name' x)) [
    | inl e ↦ absurd (
        n (
          sym ((eq_iff x.meta.name name).0 (ground (arith, h)))
          ∙ (eq_iff x.meta.name name').0 (ground (arith, e))))
    | inr e ↦ e
  ]

  find_object-without_other :
      (ns name ns' name' : String) (os : List (Object k))
      → name ≢ name'
      → find_object ns' name' (without ns name os) ≡ find_object ns' name' os
  unfolding find_object without
  find_object-without_other ns name ns' name' [] n = refl
  find_object-without_other ns name ns' name' (x ∷ os) n = elim (Bool-cases (has_name ns name x)) [
    | inl e ↦
        rw (e, other_name ns name ns' name' x n e)
          (find_object-without_other ns name ns' name' os n)
    | inr e ↦
        rw (e, find_object)
          (ap (λ r. if has_name ns' name' x then answer x else r)
            (find_object-without_other ns name ns' name' os n))
  ]

with_defaults-Kept : (k : Kind) (b : Body k) → Kept k b (with_defaults k b)
unfolding bare_spec
with_defaults-Kept Kind.namespace b = tt
with_defaults-Kept Kind.service_account b = tt
with_defaults-Kept Kind.role b = refl
with_defaults-Kept Kind.cluster_role b = refl
with_defaults-Kept Kind.role_binding b = refl
with_defaults-Kept Kind.cluster_role_binding b = refl
with_defaults-Kept Kind.secret b = tt
with_defaults-Kept Kind.config_map b = tt
with_defaults-Kept Kind.deployment b = refl
with_defaults-Kept Kind.pod b = tt
with_defaults-Kept Kind.service b = tt
with_defaults-Kept Kind.service_monitor b = tt
with_defaults-Kept Kind.network_policy b = (refl, refl, refl)
with_defaults-Kept Kind.custom_resource_definition b = tt

abbrev Stored : (k : Kind) → Object k → Object k → Cluster → Type 0
Stored k o o' s' =
    (find_object o.meta.namespace o.meta.name (s'.objects k) ≡ answer o') × StoredAs o o'

stored_itself :
    (k : Kind) (o : Object k) (s : Cluster)
    → Stored k o (as_stored k o) (changing k (λ os. as_stored k o ∷ os) s)
stored_itself k o s = (
  ap (find_object o.meta.namespace o.meta.name) (find-change k (λ os. as_stored k o ∷ os) s.objects)
      ∙ find_first (as_stored k o) (s.objects k),
  record {
    name = refl;
    namespace = refl;
    labels = λ j. refl;
    annotations = λ j. refl;
    body = with_defaults-Kept k o.body;
  },
)

stored :
    (k : Kind) (o o' : Object k) (s s' : Cluster)
    → ◌≡◌ {A = Response (Object k) × Cluster}
        (answer (as_stored k o), changing k (λ os. as_stored k o ∷ os) s)
        (answer o', s')
    → Stored k o o' s'
stored k o o' s s' h =
    let same = answered (as_stored k o) o' (ap (λ p. p.0) h) in
    subst (λ x. Stored k o x s') same
      (subst (Stored k o (as_stored k o)) (ap (λ p. p.1) h) (stored_itself k o s))

memory_reads : (k : Kind) → ReadsWrites memory k
memory_reads k = record {
  named = λ ns name s o h. find_object-named ns name (s.objects k) o h;
  created = λ o o' s s' h. stored k o o' s s' h;
  updated = λ o o' s s' h. stored k o o' s s' h;
}

gone :
    (k : Kind) (ns name : String) (s : Cluster)
    → Absent memory k ns name (changing k (without ns name) s)
gone k ns name s =
    subst (λ os. (e : GoError) × (find_object ns name os ≡ refusal e) × (e.is_not_found ≡ true))
      (sym (find-change k (without ns name) s.objects)) (find_object-without ns name (s.objects k))

memory-Deletes : (k : Kind) → Deletes memory k
memory-Deletes k = record {
  gone = λ ns name s s' h. subst (Absent memory k ns name) (ap (λ p. p.1) h) (gone k ns name s);
  missing = λ ns name s s' e h m. ground (arith, h);
  others = λ ns name ns' name' s n.
      ap (find_object ns' name') (find-change k (without ns name) s.objects)
      ∙ find_object-without_other ns name ns' name' (s.objects k) n;
}

memory-Isolates : (k j : Kind) → k ≢ j → Isolates memory k j
memory-Isolates k j n = record {
  created = λ o s ns name. ap (find_object ns name) (change_other k j _ s.objects n);
  updated = λ o s ns name. ap (find_object ns name) (change_other k j _ s.objects n);
  deleted = λ kns kname s ns name. ap (find_object ns name) (change_other k j _ s.objects n);
}

-- The API server in memory is one.
pub memory-IsApi : IsApi memory
memory-IsApi = record {
  reference = record { kept = λ owner m m' h. ground (arith, h) };
  reads = memory_reads;
  deletes = memory-Deletes;
  isolates = memory-Isolates;
}

find_object_readable :
    {k : Kind} (ns name : String) (os : List (Object k)) (e : GoError)
    → find_object ns name os ≡ refusal e
    → e.is_not_found ≡ true
unfolding find_object
find_object_readable ns name [] e h = ground arith
find_object_readable ns name (o ∷ os) e h = elim (Bool-cases (has_name ns name o)) [
  | inl y ↦ cc (rw y at h)
  | inr n ↦ find_object_readable ns name os e (rw (n, find_object) at h)
]

pub memory-Readable : (k : Kind) (ns name : String) (s : Cluster) → Readable memory k ns name s
memory-Readable k ns name s = find_object_readable ns name (s.objects k)
