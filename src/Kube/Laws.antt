-- ===== src/Kube/Laws.antt =====
-- What the operator relies on of the API server, as named properties of a client.
use argo_rollouts_manager.Kube.Defaults.{bare_spec, with_group, with_protocols}
use argo_rollouts_manager.Go.StringMaps.{get}
use argo_rollouts_manager.Go.Errors.{answer, GoError, refusal}
use argo_rollouts_manager.Kube.Meta.{ObjectMeta}
use argo_rollouts_manager.Kube.Objects.{Kind, Object, Body}
use argo_rollouts_manager.Kube.Client.{Client}
use argo_rollouts_manager.Base.{◌≡◌, ◌≢◌, String, true, map}

-- How a stored body agrees with the one that was sent, for the kinds of which the operator relies on
-- it: rules and pod selectors as they are, subjects and ports with their defaults, and the
-- specification of a Deployment up to what the server fills in; its status is not written with it.
abbrev pub Kept : (k : Kind) → Body k → Body k → Type 0
Kept Kind.deployment sent stored = bare_spec stored.spec ≡ bare_spec sent.spec
Kept Kind.role sent stored = stored ≡ sent
Kept Kind.cluster_role sent stored = stored ≡ sent
Kept Kind.role_binding sent stored = stored.subjects ≡ map with_group sent.subjects
Kept Kind.cluster_role_binding sent stored = stored.subjects ≡ map with_group sent.subjects
Kept Kind.network_policy sent stored =
    (stored.pod_selector ≡ sent.pod_selector)
    × (stored.policy_types ≡ sent.policy_types)
    × (stored.ingress ≡ map with_protocols sent.ingress)
Kept _ sent stored = Unit {0}

-- What the server stores of what it is sent: the name, the labels and annotations that a reader
-- finds, and the body.
pub record StoredAs {k : Kind} (sent stored : Object k) : Type 0 where
  pub name : stored.meta.name ≡ sent.meta.name
  pub namespace : stored.meta.namespace ≡ sent.meta.namespace
  pub labels : (j : String) → get j stored.meta.labels ≡ get j sent.meta.labels
  pub annotations : (j : String) → get j stored.meta.annotations ≡ get j sent.meta.annotations
  pub body : Kept k sent.body stored.body

-- The API serves an object under its name, and a read after a write sees the write.
pub record ReadsWrites (c : Client) (k : Kind) : Type 0 where
  pub named :
      (ns name : String) (s : c.State) (o : Object k)
      → c.get k ns name s ≡ answer o
      → (o.meta.name ≡ name) × (o.meta.namespace ≡ ns)
  pub created :
      (o o' : Object k) (s s' : c.State)
      → c.create k o s ≡ (answer o', s')
      → (c.get k o.meta.namespace o.meta.name s' ≡ answer o') × StoredAs o o'
  pub updated :
      (o o' : Object k) (s s' : c.State)
      → c.update k o s ≡ (answer o', s')
      → (c.get k o.meta.namespace o.meta.name s' ≡ answer o') × StoredAs o o'

-- Setting the owner changes only the owner references.
pub record ReferenceKeeps (c : Client) : Type 0 where
  pub kept :
      (owner m m' : ObjectMeta)
      → c.set_controller_reference owner m ≡ answer m'
      → (m'.name ≡ m.name)
        × (m'.namespace ≡ m.namespace)
        × (m'.labels ≡ m.labels)
        × (m'.annotations ≡ m.annotations)

-- Writes of one kind do not change what is read of another.
pub record Isolates (c : Client) (k j : Kind) : Type 0 where
  pub created :
      (o : Object k) (s : c.State) (ns name : String)
      → c.get j ns name (c.create k o s).1 ≡ c.get j ns name s
  pub updated :
      (o : Object k) (s : c.State) (ns name : String)
      → c.get j ns name (c.update k o s).1 ≡ c.get j ns name s
  pub deleted :
      (kns kname : String) (s : c.State) (ns name : String)
      → c.get j ns name (c.delete k kns kname s).1 ≡ c.get j ns name s

-- A kind has no object of a name to read.
abbrev pub Absent : (c : Client) → Kind → String → String → c.State → Type 0
Absent c k ns name s = (e : GoError) × (c.get k ns name s ≡ refusal e) × (e.is_not_found ≡ true)

-- A read of a name fails only when there is no object of the name.
abbrev pub Readable : (c : Client) → Kind → String → String → c.State → Type 0
Readable c k ns name s = (e : GoError) → c.get k ns name s ≡ refusal e → e.is_not_found ≡ true

-- An answered delete leaves nothing to read under the name, and so does one that finds nothing to
-- delete; objects of other names stay.
pub record Deletes (c : Client) (k : Kind) : Type 0 where
  pub gone :
      (ns name : String) (s s' : c.State)
      → c.delete k ns name s ≡ (answer tt, s')
      → Absent c k ns name s'
  pub missing :
      (ns name : String) (s s' : c.State) (e : GoError)
      → c.delete k ns name s ≡ (refusal e, s')
      → e.is_not_found ≡ true
      → Absent c k ns name s'
  pub others :
      (ns name ns' name' : String) (s : c.State)
      → name ≢ name'
      → c.get k ns' name' (c.delete k ns name s).1 ≡ c.get k ns' name' s

-- A server that does all this for every kind.
pub record IsApi (c : Client) : Type 0 where
  pub reference : ReferenceKeeps c
  pub reads : (k : Kind) → ReadsWrites c k
  pub deletes : (k : Kind) → Deletes c k
  pub isolates : (k j : Kind) → k ≢ j → Isolates c k j
