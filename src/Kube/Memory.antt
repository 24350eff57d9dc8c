-- ===== src/Kube/Memory.antt =====
-- An API server that keeps its objects in memory, with some defaults filled in: every call succeeds,
-- and the latest write of an object is the one that is read.
pub mod Laws
use argo_rollouts_manager.Kube.Defaults.{with_group, with_protocols}
use argo_rollouts_manager.Api.{RolloutManager}
use argo_rollouts_manager.Go.Errors.{answer, Response, refusal}
use argo_rollouts_manager.Kube.Objects.{Kind, Object, Body}
use argo_rollouts_manager.Kube.Client.{Client}
use argo_rollouts_manager.Base.{
  ◌≡◌, String, List, ◌∷◌, Bool, some, ◌==◌, if◌then◌else◌, true, [], ◌&&◌, map,
}

-- The objects of each kind, the latest first, and the RolloutManagers.
pub record Cluster : Type 0 where
  pub objects : (k : Kind) → List (Object k)
  pub managers : List RolloutManager

abbrev pub has_name : {k : Kind} → String → String → Object k → Bool
has_name ns name o = (o.meta.namespace == ns) && (o.meta.name == name)

unfoldable pub find_object : {k : Kind} → String → String → List (Object k) → Response (Object k)
find_object ns name [] = refusal (record { message = "not found"; is_not_found = true })
find_object ns name (o ∷ rest) = if has_name ns name o then answer o else find_object ns name rest

unfoldable pub without : {k : Kind} → String → String → List (Object k) → List (Object k)
without ns name [] = []
without ns name (o ∷ rest) =
    let others = without ns name rest in if has_name ns name o then others else o ∷ others

-- One kind's objects are changed, those of the other kinds stay.
unfoldable pub change :
    (k : Kind)
    → (List (Object k) → List (Object k))
    → ((j : Kind) → List (Object j))
    → (j : Kind) → List (Object j)
change Kind.namespace f s Kind.namespace = f (s Kind.namespace)
change Kind.service_account f s Kind.service_account = f (s Kind.service_account)
change Kind.role f s Kind.role = f (s Kind.role)
change Kind.cluster_role f s Kind.cluster_role = f (s Kind.cluster_role)
change Kind.role_binding f s Kind.role_binding = f (s Kind.role_binding)
change Kind.cluster_role_binding f s Kind.cluster_role_binding = f (s Kind.cluster_role_binding)
change Kind.secret f s Kind.secret = f (s Kind.secret)
change Kind.config_map f s Kind.config_map = f (s Kind.config_map)
change Kind.deployment f s Kind.deployment = f (s Kind.deployment)
change Kind.pod f s Kind.pod = f (s Kind.pod)
change Kind.service f s Kind.service = f (s Kind.service)
change Kind.service_monitor f s Kind.service_monitor = f (s Kind.service_monitor)
change Kind.network_policy f s Kind.network_policy = f (s Kind.network_policy)
change Kind.custom_resource_definition f s Kind.custom_resource_definition =
    f (s Kind.custom_resource_definition)
change _ f s j = s j

abbrev pub changing : (k : Kind) → (List (Object k) → List (Object k)) → Cluster → Cluster
changing k f s = record s { objects = change k f s.objects }

unfoldable pub find_manager : String → String → List RolloutManager → Response RolloutManager
find_manager ns name [] = refusal (record { message = "not found"; is_not_found = true })
find_manager ns name (rm ∷ rest) =
    if (rm.meta.namespace == ns) && (rm.meta.name == name)
    then answer rm
    else find_manager ns name rest

-- The server fills in the parameters of a rolling update and the defaults of subjects and ports.
abbrev pub with_defaults : (k : Kind) → Body k → Body k
with_defaults Kind.deployment b = record b {
  spec = record b.spec {
    strategy = record b.spec.strategy { rolling_update = some "25%" };
    other = "progressDeadlineSeconds: 600";
  };
}
with_defaults Kind.role_binding b = record b { subjects = map with_group b.subjects }
with_defaults Kind.cluster_role_binding b = record b { subjects = map with_group b.subjects }
with_defaults Kind.network_policy b = record b { ingress = map with_protocols b.ingress }
with_defaults _ b = b

abbrev pub as_stored : (k : Kind) → Object k → Object k
as_stored k o = record { meta = o.meta; body = with_defaults k o.body }

abbrev pub memory : Client
memory = record {
  State = Cluster;
  get = λ k ns name s. find_object ns name (s.objects k);
  create = λ k o s. (answer (as_stored k o), changing k (λ os. as_stored k o ∷ os) s);
  update = λ k o s. (answer (as_stored k o), changing k (λ os. as_stored k o ∷ os) s);
  delete = λ k ns name s. (answer tt, changing k (without ns name) s);
  list_pods = λ ns labels s. answer (s.objects Kind.pod);
  get_rollout_manager = λ ns name s. find_manager ns name s.managers;
  list_rollout_managers = λ s. answer s.managers;
  update_status = λ rm s. (answer tt, record s { managers = rm ∷ s.managers });
  set_controller_reference = λ owner m. answer (record m { controller = some owner.name });
}
