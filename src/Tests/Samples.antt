-- ===== src/Tests/Samples.antt =====
-- A RolloutManager and a cluster that the tests start from.
use argo_rollouts_manager.Kube.Memory.{Cluster}
use argo_rollouts_manager.Kube.Meta.{ObjectMeta}
use argo_rollouts_manager.Api.{RolloutManager, Plugin, unset}
use argo_rollouts_manager.Kube.Workload.{PodSpec}
use argo_rollouts_manager.Kube.Objects.{Object, Kind}
use argo_rollouts_manager.Base.{String, Bool, List, none, ◌∷◌, some, [], true}

abbrev pub sample_meta : String → String → ObjectMeta
sample_meta namespace name = record {
  name = name;
  namespace = namespace;
  labels = none;
  annotations = none;
  controller = none;
  deletion_timestamp = none;
}

abbrev pub sample_plugins : List Plugin
sample_plugins =
    record { name = "b"; location = "here"; sha256 = "" }
    ∷ record { name = "a"; location = "there"; sha256 = "" }
    ∷ record { name = "b"; location = "elsewhere"; sha256 = "" }
    ∷ []

-- A RolloutManager `rollouts` in the namespace `argo` with two metric plugins of one name.
abbrev pub sample_manager : Bool → RolloutManager
sample_manager namespaced = record {
  meta = sample_meta "argo" "rollouts";
  spec = record {
    network_policy = none;
    env = [];
    extra_command_args = "--loglevel" ∷ "debug" ∷ [];
    image = "";
    node_placement = none;
    version = "";
    namespace_scoped = namespaced;
    additional_metadata = none;
    controller_resources = none;
    skip_notification_secret_deployment = true;
    plugins = record { traffic_management = sample_plugins; metric = sample_plugins };
    ha = some (record { enabled = true });
    image_pull_policy = "";
  };
  status = record { rollout_controller = unset; phase = unset; conditions = [] };
}

abbrev sample_pod_spec : PodSpec
sample_pod_spec = record {
  node_selector = none;
  tolerations = none;
  service_account_name = "argo-rollouts";
  security_context = none;
  containers = [];
  volumes = [];
  affinity = none;
  other = "";
}

-- A Deployment of one replica that is ready.
abbrev pub sample_deployment : Object Kind.deployment
sample_deployment = record {
  meta = sample_meta "argo" "argo-rollouts";
  body = record {
    spec = record {
      replicas = some 1;
      selector = none;
      template = record { labels = none; annotations = none; spec = sample_pod_spec };
      strategy = record { strategy_type = ""; rolling_update = none };
      other = "";
    };
    ready_replicas = 1;
  };
}

-- Roles of the name that the operator uses, left behind by another configuration.
abbrev pub sample_role : Object Kind.role
sample_role = record { meta = sample_meta "argo" "argo-rollouts"; body = [] }

abbrev pub sample_cluster_role : Object Kind.cluster_role
sample_cluster_role = record { meta = sample_meta "" "argo-rollouts"; body = [] }

abbrev pub sample_account : Object Kind.service_account
sample_account = record { meta = sample_meta "argo" "argo-rollouts"; body = tt }

-- A notification Secret, owned by the RolloutManager of the given name.
abbrev pub sample_secret : String → Object Kind.secret
sample_secret owner = record {
  meta = record (sample_meta "argo" "argo-rollouts-notification-secret") {
    controller = some owner;
  };
  body = "Opaque";
}

unfoldable pub sample_objects : String → (k : Kind) → List (Object k)
sample_objects owner Kind.deployment = sample_deployment ∷ []
sample_objects owner Kind.role = sample_role ∷ []
sample_objects owner Kind.cluster_role = sample_cluster_role ∷ []
sample_objects owner Kind.secret = sample_secret owner ∷ []
sample_objects owner _ = []

abbrev pub sample_cluster : String → Bool → Cluster
sample_cluster owner namespaced = record {
  objects = sample_objects owner;
  managers = sample_manager namespaced ∷ [];
}
