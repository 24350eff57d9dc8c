-- ===== src/Controllers/Metrics/Frame.antt =====
-- controllers/resources.go: what the reconciliation of the metrics Service and of its ServiceMonitor
-- leaves alone.
use argo_rollouts_manager.Controllers.Rbac.{named}
use argo_rollouts_manager.Controllers.Defaults.{
  default_argo_rollouts_resource_name, service_monitors_crd_name,
  default_argo_rollouts_metrics_service_name,
}
use argo_rollouts_manager.Controllers.Live.Frame.{update_keeps, create_keeps}
use argo_rollouts_manager.Controllers.Live.{fetch_object, create_expected, update_live}
use argo_rollouts_manager.Go.Keeping.{
  Keeps, bind-Keeps, if-Keeps, wrapping-Keeps, or_raise-Keeps, done-Keeps,
}
use argo_rollouts_manager.Go.Errors.{Response, answer, refusal, reword, append}
use argo_rollouts_manager.Controllers.Metrics.{
  reconcile_rollouts_metrics_service_and_monitor, create_service_monitor_if_absent,
  reconcile_service, reconcile_service_monitor, monitor_if_defined,
  reconcile_rollouts_metrics_service, service_monitor_matches, metrics_service_target, monitor_of,
  created_target,
}
use argo_rollouts_manager.Kube.Objects.{Kind, Object}
use argo_rollouts_manager.Api.{RolloutManager}
use argo_rollouts_manager.Kube.Client.{Client}
use argo_rollouts_manager.Base.{◌≢◌, String, not}
use argo_rollouts_manager.Go.Exec.{◌>>=◌, or_raise, wrapping, ask, pure, send, raise}

module _ (c : Client) (cr : RolloutManager) (P : c.State → Type 0)
    (creates : (k : Kind)
      → k ≢ Kind.deployment
      → (o : Object k) (s : c.State) → P s
      → P (c.create k o s).1)
    (updates : (k : Kind)
      → k ≢ Kind.deployment
      → (o : Object k) (s : c.State) → P s
      → P (c.update k o s).1) where
  service_updates : (o : Object Kind.service) (s : c.State) → P s → P (c.update Kind.service o s).1
  service_updates = updates Kind.service cc

  service_creates : (o : Object Kind.service) (s : c.State) → P s → P (c.create Kind.service o s).1
  service_creates = creates Kind.service cc

  monitor_updates :
      (o : Object Kind.service_monitor) (s : c.State)
      → P s
      → P (c.update Kind.service_monitor o s).1
  monitor_updates = updates Kind.service_monitor cc

  monitor_creates :
      (o : Object Kind.service_monitor) (s : c.State)
      → P s
      → P (c.create Kind.service_monitor o s).1
  monitor_creates = creates Kind.service_monitor cc

  created_monitor-Keeps :
      (ns name label : String) → Keeps P (create_service_monitor_if_absent c ns cr name label)
  unfolding create_service_monitor_if_absent
  created_monitor-Keeps ns name label =
      bind-Keeps P (or_raise (λ e. e) (c.set_controller_reference cr.meta (named name ns)))
        (λ m.
          send (c.create Kind.service_monitor (record { meta = m; body = monitor_of label }))
          >>= λ r. or_raise (λ e. e) r >>= λ _. pure tt)
        (or_raise-Keeps P (λ e. e) (c.set_controller_reference cr.meta (named name ns)))
        (λ m.
          done-Keeps P
            (c.create Kind.service_monitor (record { meta = m; body = monitor_of label })) (λ e. e)
            (monitor_creates (record { meta = m; body = monitor_of label })))

  monitor-Keeps :
      (label : String) (r : Response (Object Kind.service_monitor))
      → Keeps P (reconcile_service_monitor c cr label r)
  unfolding reconcile_service_monitor
  monitor-Keeps label (answer m) =
      if-Keeps P (service_monitor_matches m.body label) (pure tt)
        (send (c.update Kind.service_monitor (record m { body = monitor_of label })) >>= λ r.
          or_raise (λ e. e) r >>= λ _. pure tt)
        (λ s h. h)
        (done-Keeps P (c.update Kind.service_monitor (record m { body = monitor_of label }))
          (λ e. e) (monitor_updates (record m { body = monitor_of label })))
  monitor-Keeps label (refusal e) =
      if-Keeps P e.is_not_found
        (create_service_monitor_if_absent c cr.meta.namespace cr default_argo_rollouts_resource_name
          label)
        (raise e) (created_monitor-Keeps _ _ label) (λ s h. h)

  defined-Keeps :
      (label : String) (r : Response (Object Kind.custom_resource_definition))
      → Keeps P (monitor_if_defined c cr label r)
  unfolding monitor_if_defined
  defined-Keeps label (answer crd) = λ s h.
      monitor-Keeps label
        (fetch_object c Kind.service_monitor cr.meta.namespace default_argo_rollouts_resource_name
          s)
        s h
  defined-Keeps label (refusal e) =
      if-Keeps P (not e.is_not_found)
        (raise (
          reword
            (append "failed to get the ServiceMonitor " (append service_monitors_crd_name " : "))
            e))
        (pure tt) (λ s h. h) (λ s h. h)

  service-Keeps : (r : Response (Object Kind.service)) → Keeps P (reconcile_service c cr r)
  unfolding reconcile_service
  service-Keeps (answer live) =
      update_keeps c cr (metrics_service_target cr) P service_creates service_updates live
  service-Keeps (refusal e) =
      if-Keeps P (not e.is_not_found) (raise ((metrics_service_target cr).fetch_error e))
        (create_expected c cr (metrics_service_target cr)
          >>= (λ o. update_live c cr (created_target cr o) o))
        (λ s h. h)
        (bind-Keeps P (create_expected c cr (metrics_service_target cr))
          (λ o. update_live c cr (created_target cr o) o)
          (create_keeps c cr (metrics_service_target cr) P service_creates service_updates)
          (λ o. update_keeps c cr (created_target cr o) P service_creates service_updates o))

  -- Whatever the writes of services and service monitors keep, their reconciliation keeps.
  pub reconcile_rollouts_metrics_service_and_monitor-Keeps :
      Keeps P (reconcile_rollouts_metrics_service_and_monitor c cr)
  unfolding reconcile_rollouts_metrics_service_and_monitor reconcile_rollouts_metrics_service
  reconcile_rollouts_metrics_service_and_monitor-Keeps =
      bind-Keeps P
        (wrapping "unable to reconcile metrics service: " (reconcile_rollouts_metrics_service c cr))
        (λ service.
          ask (fetch_object c Kind.custom_resource_definition "" service_monitors_crd_name)
          >>= λ crd. monitor_if_defined c cr service.meta.name crd)
        (wrapping-Keeps P "unable to reconcile metrics service: "
          (reconcile_rollouts_metrics_service c cr)
          (λ s h.
            service-Keeps
              (fetch_object c Kind.service cr.meta.namespace
                default_argo_rollouts_metrics_service_name s)
              s h))
        (λ service s h.
          defined-Keeps service.meta.name
            (fetch_object c Kind.custom_resource_definition "" service_monitors_crd_name s) s h)
