-- ===== src/Controllers/Metrics.antt =====
-- controllers/resources.go: the metrics Service and its ServiceMonitor.
pub mod Frame
use argo_rollouts_manager.Controllers.Rbac.{named}
use argo_rollouts_manager.Controllers.Metadata.{set_labels_and_annotations_to_object}
use argo_rollouts_manager.Go.StringMaps.{get, entries}
use argo_rollouts_manager.Go.Maps.{insert}
use argo_rollouts_manager.Controllers.Defaults.{
  default_rollouts_selector_key, component_key, default_argo_rollouts_metrics_service_name,
  default_argo_rollouts_resource_name, service_monitors_crd_name,
}
use argo_rollouts_manager.Go.Errors.{Response, refusal, answer, wrap, reword, append}
use argo_rollouts_manager.Controllers.Live.{Target, fetch_object, update_live, create_expected}
use argo_rollouts_manager.Kube.Client.{Client}
use argo_rollouts_manager.Kube.Meta.{ObjectMeta}
use argo_rollouts_manager.Kube.Objects.{ServicePort, ServiceMonitorBody, Kind, Object}
use argo_rollouts_manager.Api.{RolloutManager}
use argo_rollouts_manager.Base.{
  none, some, List, String, some, Bool, [], true, ◌∷◌, if◌then◌else◌, ◌==◌, not, ◌&&◌, nat_eq,
  false,
}
use argo_rollouts_manager.Go.Exec.{◌>>=◌, ◌>>◌, Exec, or_raise, wrapping, ask, send, pure, raise}

abbrev service_ports_eq : List ServicePort → List ServicePort → Bool
service_ports_eq [] [] = true
service_ports_eq (a ∷ xs) (b ∷ ys) =
    (a.name == b.name)
    && nat_eq a.port b.port
    && (a.protocol == b.protocol)
    && nat_eq a.target_port b.target_port
    && (a.other == b.other)
    && service_ports_eq xs ys
service_ports_eq _ _ = false

abbrev pub metrics_port : ServicePort
metrics_port = record {
  name = "metrics";
  port = 8090;
  protocol = "TCP";
  target_port = 8090;
  other = "";
}

-- The two labels are written over those that every object gets.
abbrev server_labelled : ObjectMeta → ObjectMeta
server_labelled m = record m {
  labels = some (
      insert component_key "server" (
        insert default_rollouts_selector_key default_argo_rollouts_metrics_service_name
          (entries m.labels)));
}

unfoldable pub metrics_service_target : RolloutManager → Target Kind.service
metrics_service_target cr = record {
  expected = record {
    meta = server_labelled (
        set_labels_and_annotations_to_object
          (named default_argo_rollouts_metrics_service_name cr.meta.namespace) cr);
    body = record {
      ports = metrics_port ∷ [];
      selector = some ((default_rollouts_selector_key, default_argo_rollouts_resource_name) ∷ []);
    };
  };
  owned = true;
  body_differs = λ b. not (service_ports_eq b.ports (metrics_port ∷ []));
  fix_body = λ b. record b { ports = metrics_port ∷ [] };
  fetch_error = wrap "failed to get the Service argo-rollouts-metrics: ";
  reference_error = λ e. e;
  create_error = λ e. e;
  update_error = λ e. e;
}

-- After a creation, the Service that is compared with is the one that the API server answered.
abbrev pub created_target : RolloutManager → Object Kind.service → Target Kind.service
created_target cr created = record (metrics_service_target cr) {
  expected = created;
  body_differs = λ b. not (service_ports_eq b.ports created.body.ports);
  fix_body = λ b. record b { ports = created.body.ports };
}

-- `serviceMonitorMatches`
unfoldable pub service_monitor_matches : ServiceMonitorBody → String → Bool
service_monitor_matches sm match_label = elim (get default_rollouts_selector_key sm.match_labels) [
  | none ↦ false
  | some val ↦
      (val == match_label) && elim sm.endpoints [ [] ↦ false | port ∷ _ ↦ port == "metrics" ]
]

abbrev pub monitor_of : String → ServiceMonitorBody
monitor_of label = record {
  match_labels = some ((default_rollouts_selector_key, label) ∷ []);
  endpoints = "metrics" ∷ [];
}

module _ (c : Client) where
  open c use {State, create, update, set_controller_reference}

  -- Once created, the Service that is compared is the expected one itself, as the API server has
  -- answered it.
  unfoldable pub reconcile_service :
      RolloutManager → Response (Object Kind.service) → Exec State (Object Kind.service)
  reconcile_service cr (answer live) = update_live c cr (metrics_service_target cr) live
  reconcile_service cr (refusal e) =
      if not e.is_not_found then raise ((metrics_service_target cr).fetch_error e) else (do
        created ← create_expected c cr (metrics_service_target cr)
        update_live c cr (created_target cr created) created)

  -- `reconcileRolloutsMetricsService`
  unfoldable pub reconcile_rollouts_metrics_service :
      RolloutManager → Exec State (Object Kind.service)
  reconcile_rollouts_metrics_service cr = do
    found ←
        ask
          (fetch_object c Kind.service cr.meta.namespace default_argo_rollouts_metrics_service_name)
    reconcile_service cr found

  -- `createServiceMonitorIfAbsent`
  unfoldable pub create_service_monitor_if_absent :
      String → RolloutManager → String → String → Exec State (Unit {0})
  create_service_monitor_if_absent namespace cr name label = do
    meta ← or_raise (λ e. e) (set_controller_reference cr.meta (named name namespace))
    created ← send (create Kind.service_monitor (record { meta = meta; body = monitor_of label }))
    or_raise (λ e. e) created
    pure tt

  unfoldable pub reconcile_service_monitor :
      RolloutManager → String → Response (Object Kind.service_monitor) → Exec State (Unit {0})
  reconcile_service_monitor cr label (refusal e) =
      if e.is_not_found
      then create_service_monitor_if_absent cr.meta.namespace cr default_argo_rollouts_resource_name
          label
      else raise e
  reconcile_service_monitor cr label (answer existing) =
      if service_monitor_matches existing.body label then pure tt else (do
        updated ← send (update Kind.service_monitor (record existing { body = monitor_of label }))
        or_raise (λ e. e) updated
        pure tt)

  unfoldable pub monitor_if_defined :
      RolloutManager
      → String
      → Response (Object Kind.custom_resource_definition)
      → Exec State (Unit {0})
  monitor_if_defined cr label (refusal e) =
      if not e.is_not_found
      then raise (
          reword
            (append "failed to get the ServiceMonitor " (append service_monitors_crd_name " : ")) e)
      else pure tt
  monitor_if_defined cr label (answer crd) = do
    found ←
        ask (
          fetch_object c Kind.service_monitor cr.meta.namespace default_argo_rollouts_resource_name)
    reconcile_service_monitor cr label found

  -- `reconcileRolloutsMetricsServiceAndMonitor`
  unfoldable pub reconcile_rollouts_metrics_service_and_monitor :
      RolloutManager → Exec State (Unit {0})
  reconcile_rollouts_metrics_service_and_monitor cr = do
    service ←
        wrapping "unable to reconcile metrics service: " (reconcile_rollouts_metrics_service cr)
    crd ← ask (fetch_object c Kind.custom_resource_definition "" service_monitors_crd_name)
    monitor_if_defined cr service.meta.name crd
