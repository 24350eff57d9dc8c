-- ===== src/Controllers/ConfigMap/Settling.antt =====
-- controllers/configmap.go: the ConfigMap after an update.
use argo_rollouts_manager.Go.Errors.{answer, panic, ok, Result}
use argo_rollouts_manager.Controllers.Defaults.{
  metric_plugin_config_map_key, previous_invalid_key, traffic_router_plugin_config_map_key,
}
use argo_rollouts_manager.Kube.Objects.{Object, Kind}
use argo_rollouts_manager.Go.Maps.{insert, lookup, retain, lookup-insert, lookup-retain}
use argo_rollouts_manager.Go.StringMaps.{Entries, StringMap, get}
use argo_rollouts_manager.Controllers.ConfigMap.Reconcile.{
  Desired, write_plugins, update_config_map, config_map_differs, without_old_key,
}
use argo_rollouts_manager.Api.{RolloutManager}
use argo_rollouts_manager.Controllers.ConfigMap.{PluginItem, Yaml, plugins_eq, data_at}
use argo_rollouts_manager.Kube.Client.{Client}
use argo_rollouts_manager.Base.{
  ◌≡◌, List, true, ◌∷◌, arith, eq_refl, some, [], none, not, refl, ◌==◌, Option-cases, inl, inr,
  subst,
}

plugins_eq_refl : (ps : List PluginItem) → plugins_eq ps ps ≡ true
plugins_eq_refl [] = refl
plugins_eq_refl (p ∷ ps) =
    ground (arith, eq_refl p.name, eq_refl p.location, eq_refl p.sha256, plugins_eq_refl ps)

result_ok :
    {A S : Type 0} {a b : A} {s s' : S} → ◌≡◌ {A = Result A × S} (ok a, s) (ok b, s') → a ≡ b
result_ok h = ground arith

module _ (c : Client) (yaml : Yaml) (cr : RolloutManager) (d : Desired) where
  -- The entries that an update writes over those of the live ConfigMap.
  abbrev pub written : Entries → Entries
  written m = insert metric_plugin_config_map_key d.metric_text (
      insert traffic_router_plugin_config_map_key d.traffic_text
        (retain (λ k. not (k == previous_invalid_key)) m))

  written_traffic :
      (m : Entries) → lookup traffic_router_plugin_config_map_key (written m) ≡ some d.traffic_text
  written_traffic m =
      rw
        (
          lookup-insert metric_plugin_config_map_key traffic_router_plugin_config_map_key
              d.metric_text
              (insert traffic_router_plugin_config_map_key d.traffic_text
                (retain (λ k. not (k == previous_invalid_key)) m)),
          lookup-insert traffic_router_plugin_config_map_key traffic_router_plugin_config_map_key
              d.traffic_text (retain (λ k. not (k == previous_invalid_key)) m),
        )
        refl

  written_metric :
      (m : Entries) → lookup metric_plugin_config_map_key (written m) ≡ some d.metric_text
  written_metric m =
      lookup-insert metric_plugin_config_map_key metric_plugin_config_map_key d.metric_text _

  written_old : (m : Entries) → lookup previous_invalid_key (written m) ≡ none
  written_old m =
      rw
        (
          lookup-insert metric_plugin_config_map_key previous_invalid_key d.metric_text (
              insert traffic_router_plugin_config_map_key d.traffic_text
                (retain (λ k. not (k == previous_invalid_key)) m)),
          lookup-insert traffic_router_plugin_config_map_key previous_invalid_key d.traffic_text
              (retain (λ k. not (k == previous_invalid_key)) m),
          lookup-retain (λ k. not (k == previous_invalid_key)) previous_invalid_key m,
        )
        refl

  traffic_data :
      (m : Entries)
      → data_at traffic_router_plugin_config_map_key (some (written m)) ≡ d.traffic_text
  traffic_data m = rw (data_at, written_traffic m) refl

  metric_data :
      (m : Entries) → data_at metric_plugin_config_map_key (some (written m)) ≡ d.metric_text
  metric_data m = rw (data_at, written_metric m) refl

  old_data : (m : Entries) → get previous_invalid_key (some (written m)) ≡ none
  old_data m = written_old m

  settled_at :
      (live : Object Kind.config_map) (m : Entries) (t : c.State)
      → yaml.unmarshal d.traffic_text ≡ answer (some d.traffic)
      → yaml.unmarshal d.metric_text ≡ answer (some d.metric)
      → update_config_map c yaml cr d (record live { body = some (written m) }) t ≡ (ok tt, t)
  unfolding update_config_map config_map_differs
  settled_at live m t traffic metric =
      rw
        (
          traffic_data m,
          traffic,
          metric_data m,
          metric,
          plugins_eq_refl d.traffic,
          plugins_eq_refl d.metric,
          old_data m,
        )
        refl

  -- Where the two texts read back as the lists of plugins that they were made from: once the two
  -- texts are written over the data of a ConfigMap, with the key of the earlier version dropped,
  -- the ConfigMap is not updated again and no pod is restarted.
  pub update_config_map-settled :
      (live : Object Kind.config_map) (table : StringMap) (s s' t : c.State)
      → yaml.unmarshal d.traffic_text ≡ answer (some d.traffic)
      → yaml.unmarshal d.metric_text ≡ answer (some d.metric)
      → write_plugins c d.traffic_text d.metric_text (without_old_key c live.body) s
        ≡ (ok table, s')
      → update_config_map c yaml cr d (record live { body = table }) t ≡ (ok tt, t)
  unfolding write_plugins update_config_map config_map_differs
  update_config_map-settled live table s s' t traffic metric h = elim (Option-cases live.body) [
    | inl e ↦ ground (arith, h, e)
    | inr (m, e) ↦
        let same = result_ok (rw e at h) in
        subst (λ b. update_config_map c yaml cr d (record live { body = b }) t ≡ (ok tt, t)) same
          (settled_at live m t traffic metric)
  ]

  -- A live ConfigMap without any data makes the reconciliation panic, where an empty text reads
  -- back as no list of plugins.
  pub update_config_map-panics :
      (live : Object Kind.config_map) (s : c.State)
      → yaml.unmarshal "" ≡ answer none
      → live.body ≡ none
      → update_config_map c yaml cr d live s ≡ (panic, s)
  unfolding update_config_map write_plugins config_map_differs lookup
  update_config_map-panics live s empty bare = rw (bare, empty) refl
