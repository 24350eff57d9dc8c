-- ===== src/Controllers/Defaults.antt =====
-- controllers/default.go, and the key names that the other files of the package declare.
use argo_rollouts_manager.Base.{String}

abbrev pub argo_rollouts_image_env_name : String
argo_rollouts_image_env_name = "ARGO_ROLLOUTS_IMAGE"

abbrev pub default_argo_rollouts_metrics_service_name : String
default_argo_rollouts_metrics_service_name = "argo-rollouts-metrics"

abbrev pub default_argo_rollouts_image : String
default_argo_rollouts_image = "quay.io/argoproj/argo-rollouts"

abbrev pub default_argo_rollouts_version : String
default_argo_rollouts_version = "v1.9.1"

abbrev pub default_argo_rollouts_resource_name : String
default_argo_rollouts_resource_name = "argo-rollouts"

abbrev pub default_rollouts_notification_secret_name : String
default_rollouts_notification_secret_name = "argo-rollouts-notification-secret"

abbrev pub default_rollouts_selector_key : String
default_rollouts_selector_key = "app.kubernetes.io/name"

abbrev pub open_shift_rollout_plugin_name : String
open_shift_rollout_plugin_name = "argoproj-labs/openshift"

abbrev pub default_rollouts_config_map_name : String
default_rollouts_config_map_name = "argo-rollouts-config"

abbrev pub cluster_scoped_argo_rollouts_namespaces : String
cluster_scoped_argo_rollouts_namespaces = "CLUSTER_SCOPED_ARGO_ROLLOUTS_NAMESPACES"

abbrev pub kubernetes_hostname_label : String
kubernetes_hostname_label = "kubernetes.io/hostname"

abbrev pub topology_kubernetes_zone_label : String
topology_kubernetes_zone_label = "topology.kubernetes.io/zone"

abbrev pub image_pull_policy : String
image_pull_policy = "IMAGE_PULL_POLICY"

abbrev pub default_rollouts_network_policy : String
default_rollouts_network_policy = "argo-rollouts-network-policy"

abbrev pub part_of_key : String
part_of_key = "app.kubernetes.io/part-of"

abbrev pub component_key : String
component_key = "app.kubernetes.io/component"

abbrev pub service_monitors_crd_name : String
service_monitors_crd_name = "servicemonitors.monitoring.coreos.com"

abbrev pub traffic_router_plugin_config_map_key : String
traffic_router_plugin_config_map_key = "trafficRouterPlugins"

abbrev pub previous_invalid_key : String
previous_invalid_key = "metricPlugins"

abbrev pub metric_plugin_config_map_key : String
metric_plugin_config_map_key = "metricProviderPlugins"
