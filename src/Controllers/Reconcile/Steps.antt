-- ===== src/Controllers/Reconcile/Steps.antt =====
-- controllers/reconcile.go: the steps behind the two checks, when none of them has failed.
use argo_rollouts_manager.Controllers.Metrics.{reconcile_rollouts_metrics_service_and_monitor}
use argo_rollouts_manager.Controllers.Deployment.Reconcile.{reconcile_rollouts_deployment}
use argo_rollouts_manager.Controllers.NetworkPolicy.{reconcile_rollouts_network_policy}
use argo_rollouts_manager.Controllers.ConfigMap.Reconcile.{reconcile_config_map}
use argo_rollouts_manager.Controllers.Secrets.{reconcile_rollouts_secrets}
use argo_rollouts_manager.Controllers.Status.{determine_status_phase}
use argo_rollouts_manager.Go.Errors.{ok, Result, ok_inj}
use argo_rollouts_manager.Base.{
  ◌≡◌, false, true, ◌⊎◌, Bool-cases, ◌∙◌, inl, ap, some, [], none, subst, sym, inr, Bool, Option,
  if◌then◌else◌,
}
use argo_rollouts_manager.Controllers.Rbac.{
  reconcile_aggregate_to_admin_cluster_role, reconcile_aggregate_to_edit_cluster_role,
  reconcile_rollouts_service_account, reconcile_aggregate_to_view_cluster_role,
  reconcile_rollouts_role, reconcile_rollouts_cluster_role, reconcile_rollouts_cluster_role_binding,
  reconcile_rollouts_role_binding,
}
use argo_rollouts_manager.Kube.Objects.{Object, Kind}
use argo_rollouts_manager.Controllers.Conditions.{ReconcileStatusResult, create_condition}
use argo_rollouts_manager.Controllers.Reconcile.{
  reconcile_access, reconcile_resources, reconcile_services, role_or_cluster_role, binding_of,
}
use argo_rollouts_manager.Api.{RolloutManager}
use argo_rollouts_manager.Controllers.ConfigMap.{Yaml, Config}
use argo_rollouts_manager.Controllers.Deployment.{Environment}
use argo_rollouts_manager.Kube.Client.{Client}
use argo_rollouts_manager.Go.Exec.{◌>>=◌, Exec, pure, bind_inv}

module _ (c : Client) (env : Environment) (yaml : Yaml) (config : Config)
    (cr : RolloutManager) where
  open c use {State}

  -- The aggregated cluster roles, from one state to another.
  pub record AggregatesDone (s s' : State) : Type 0 where
    pub with_admin : State
    pub with_edit : State
    pub admin : reconcile_aggregate_to_admin_cluster_role c cr s ≡ (ok tt, with_admin)
    pub edit : reconcile_aggregate_to_edit_cluster_role c cr with_admin ≡ (ok tt, with_edit)
    pub view : reconcile_aggregate_to_view_cluster_role c cr with_edit ≡ (ok tt, s')

  -- The Role and its binding in namespace scope.
  pub record NamespacedAccess (sa : Object Kind.service_account) (s s' : State) : Type 0 where
    pub scoped : cr.spec.namespace_scoped ≡ true
    pub role : Object Kind.role
    pub with_role : State
    pub with_aggregates : State
    pub made : reconcile_rollouts_role c cr s ≡ (ok role, with_role)
    pub aggregates : AggregatesDone with_role with_aggregates
    pub bound :
        reconcile_rollouts_role_binding c cr (some role) (some sa) with_aggregates ≡ (ok tt, s')

  -- The ClusterRole and its binding in cluster scope.
  pub record ClusterAccess (sa : Object Kind.service_account) (s s' : State) : Type 0 where
    pub scoped : cr.spec.namespace_scoped ≡ false
    pub role : Object Kind.cluster_role
    pub with_role : State
    pub with_aggregates : State
    pub made : reconcile_rollouts_cluster_role c cr s ≡ (ok role, with_role)
    pub aggregates : AggregatesDone with_role with_aggregates
    pub bound :
        reconcile_rollouts_cluster_role_binding c cr (some role) (some sa) with_aggregates
        ≡ (ok tt, s')

  -- Every step has returned without an error, one after the other, and the condition is that of
  -- success.
  pub record AllDone (rr : ReconcileStatusResult) (s s' : State) : Type 0 where
    pub account : Object Kind.service_account
    pub with_account : State
    pub with_access : State
    pub with_secret : State
    pub with_config_map : State
    pub with_deployment : State
    pub with_metrics : State
    pub with_policy : State
    pub phase : ReconcileStatusResult
    pub account_done : reconcile_rollouts_service_account c cr s ≡ (ok account, with_account)
    pub access_done :
        NamespacedAccess account with_account with_access
        ⊎ ClusterAccess account with_account with_access
    pub secret_done :
        reconcile_rollouts_secrets c config.resource_labels cr with_access ≡ (ok tt, with_secret)
    pub config_map_done :
        reconcile_config_map c yaml config cr with_secret ≡ (ok tt, with_config_map)
    pub deployment_done :
        reconcile_rollouts_deployment c cr env account with_config_map ≡ (ok tt, with_deployment)
    pub metrics_done :
        reconcile_rollouts_metrics_service_and_monitor c cr with_deployment ≡ (ok tt, with_metrics)
    pub policy_done : reconcile_rollouts_network_policy c cr with_metrics ≡ (ok tt, with_policy)
    pub phase_done : determine_status_phase c cr with_policy ≡ (ok phase, s')
    pub result : rr ≡ record phase { condition = create_condition "" [] }

  abbrev aggregates_then : {A : Type 0} → Exec State A → Exec State A
  aggregates_then m = reconcile_aggregate_to_admin_cluster_role c cr >>= λ _.
      reconcile_aggregate_to_edit_cluster_role c cr >>= λ _.
      reconcile_aggregate_to_view_cluster_role c cr >>= λ _. m

  aggregates_inv :
      (m : Exec State (Unit {0})) (s s' : State)
      → aggregates_then m s ≡ (ok tt, s')
      → (s1 : State) × AggregatesDone s s1 × (m s1 ≡ (ok tt, s'))
  aggregates_inv m s s' h =
      let admin = reconcile_aggregate_to_admin_cluster_role c cr in
      let edit = reconcile_aggregate_to_edit_cluster_role c cr in
      let view = reconcile_aggregate_to_view_cluster_role c cr in
      let (_, s1, a, h1) = bind_inv admin (λ _. edit >>= λ _. view >>= λ _. m) s tt s' h in
      let (_, s2, e, h2) = bind_inv edit (λ _. view >>= λ _. m) s1 tt s' h1 in
      let (_, s3, v, h3) = bind_inv view (λ _. m) s2 tt s' h2 in
      (s3, record { with_admin = s1; with_edit = s2; admin = a; edit = e; view = v }, h3)

  role_inv :
      {A B : Type 0} (m : Exec State A) (f : A → B) (s s' : State) (b : B)
      → (m >>= λ a. pure (f a)) s ≡ (ok b, s')
      → (a : A) × (m s ≡ (ok a, s')) × (f a ≡ b)
  role_inv {A = A} {B = B} m f s s' b h =
      let (a, s1, ran, h1) = bind_inv m (λ a. pure (f a)) s b s' h in
      (
        a,
        ran ∙ ap (λ (p : Result B × State). (ok a, p.1)) h1,
        ok_inj (ap (λ (p : Result B × State). p.0) h1),
      )

  at_true :
      {A : Type 0} (b : Bool) (x y : Exec State A) (s : State) (r : Result A × State)
      → b ≡ true
      → (if b then x else y) s ≡ r
      → x s ≡ r
  at_true true x y s r e h = h
  at_true false x y s r e h = cc e

  at_false :
      {A : Type 0} (b : Bool) (x y : Exec State A) (s : State) (r : Result A × State)
      → b ≡ false
      → (if b then x else y) s ≡ r
      → y s ≡ r
  at_false true x y s r e h = cc e
  at_false false x y s r e h = h

  abbrev namespaced_role :
      Exec State (Option (Object Kind.role) × Option (Object Kind.cluster_role))
  namespaced_role = reconcile_rollouts_role c cr >>= λ role. pure (some role, none)

  abbrev cluster_wide_role :
      Exec State (Option (Object Kind.role) × Option (Object Kind.cluster_role))
  cluster_wide_role = reconcile_rollouts_cluster_role c cr >>= λ role. pure (none, some role)

  access_inv :
      (sa : Object Kind.service_account) (s s' : State)
      → reconcile_access c env yaml config cr sa s ≡ (ok tt, s')
      → NamespacedAccess sa s s' ⊎ ClusterAccess sa s s'
  unfolding reconcile_access
  access_inv sa s s' h =
      let (roles, s1, ran, h1) =
        bind_inv (role_or_cluster_role c env yaml config cr)
          (λ roles. aggregates_then (binding_of c env yaml config cr roles.0 roles.1 sa)) s tt s'
          h in
      let (s2, done, bound) =
        aggregates_inv (binding_of c env yaml config cr roles.0 roles.1 sa) s1 s' h1 in
      let namespaced = reconcile_rollouts_role_binding c cr roles.0 (some sa) in
      let cluster_wide = reconcile_rollouts_cluster_role_binding c cr roles.1 (some sa) in
      elim (Bool-cases cr.spec.namespace_scoped) [
        | inl e ↦
            let (role, made, same) =
              role_inv (reconcile_rollouts_role c cr) (λ role. (some role, none)) s s1 roles
                (at_true cr.spec.namespace_scoped namespaced_role cluster_wide_role s (ok roles, s1)
                  e ran) in
            inl (record {
              scoped = e;
              role = role;
              with_role = s1;
              with_aggregates = s2;
              made = made;
              aggregates = done;
              bound =
                  subst (λ r. reconcile_rollouts_role_binding c cr r.0 (some sa) s2 ≡ (ok tt, s'))
                    (sym same)
                    (at_true cr.spec.namespace_scoped namespaced cluster_wide s2 (ok tt, s') e
                      bound);
            })
        | inr e ↦
            let (role, made, same) =
              role_inv (reconcile_rollouts_cluster_role c cr) (λ role. (none, some role)) s s1 roles
                (at_false cr.spec.namespace_scoped namespaced_role cluster_wide_role s
                  (ok roles, s1) e ran) in
            inr (record {
              scoped = e;
              role = role;
              with_role = s1;
              with_aggregates = s2;
              made = made;
              aggregates = done;
              bound =
                  subst
                    (λ r.
                      reconcile_rollouts_cluster_role_binding c cr r.1 (some sa) s2 ≡ (ok tt, s'))
                    (sym same)
                    (at_false cr.spec.namespace_scoped namespaced cluster_wide s2 (ok tt, s') e
                      bound);
            })
      ]

  pub reconcile_resources-AllDone :
      (s s' : State) (rr : ReconcileStatusResult)
      → reconcile_resources c env yaml config cr s ≡ (ok rr, s')
      → AllDone rr s s'
  unfolding reconcile_resources reconcile_services
  reconcile_resources-AllDone s s' rr h =
      let phase_of : Exec State ReconcileStatusResult = determine_status_phase c cr >>= λ p.
      pure (record p { condition = create_condition "" [] }) in
      let policy : Exec State ReconcileStatusResult =
        reconcile_rollouts_network_policy c cr >>= λ _. phase_of in
      let metrics : Exec State ReconcileStatusResult =
        reconcile_rollouts_metrics_service_and_monitor c cr >>= λ _. policy in
      let deployed : Object Kind.service_account → Exec State ReconcileStatusResult =
        λ sa. reconcile_rollouts_deployment c cr env sa >>= λ _. metrics in
      let configured : Object Kind.service_account → Exec State ReconcileStatusResult =
        λ sa. reconcile_config_map c yaml config cr >>= λ _. deployed sa in
      let secret : Object Kind.service_account → Exec State ReconcileStatusResult =
        λ sa. reconcile_rollouts_secrets c config.resource_labels cr >>= λ _. configured sa in
      let (sa, s1, r1, h1) =
        bind_inv (reconcile_rollouts_service_account c cr)
          (λ sa. reconcile_access c env yaml config cr sa >>= λ _. secret sa) s rr s' h in
      let (_, s2, r2, h2) =
        bind_inv (reconcile_access c env yaml config cr sa) (λ _. secret sa) s1 rr s' h1 in
      let (_, s3, r3, h3) =
        bind_inv (reconcile_rollouts_secrets c config.resource_labels cr) (λ _. configured sa) s2 rr
          s' h2 in
      let (_, s4, r4, h4) =
        bind_inv (reconcile_config_map c yaml config cr) (λ _. deployed sa) s3 rr s' h3 in
      let (_, s5, r5, h5) =
        bind_inv (reconcile_rollouts_deployment c cr env sa) (λ _. metrics) s4 rr s' h4 in
      let (_, s6, r6, h6) =
        bind_inv (reconcile_rollouts_metrics_service_and_monitor c cr) (λ _. policy) s5 rr s' h5 in
      let (_, s7, r7, h7) =
        bind_inv (reconcile_rollouts_network_policy c cr) (λ _. phase_of) s6 rr s' h6 in
      let (phase, r8, same) =
        role_inv (determine_status_phase c cr)
          (λ p. record p { condition = create_condition "" [] }) s7 s' rr h7 in
      record {
        account = sa;
        with_account = s1;
        with_access = s2;
        with_secret = s3;
        with_config_map = s4;
        with_deployment = s5;
        with_metrics = s6;
        with_policy = s7;
        phase = phase;
        account_done = r1;
        access_done = access_inv sa s1 s2 r2;
        secret_done = r3;
        config_map_done = r4;
        deployment_done = r5;
        metrics_done = r6;
        policy_done = r7;
        phase_done = r8;
        result = sym same;
      }
