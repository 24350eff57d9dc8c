-- ===== src/Controllers/ConfigMap/Plugins.antt =====
-- controllers/configmap.go: which plugins the ConfigMap lists.
use argo_rollouts_manager.Controllers.Defaults.{open_shift_rollout_plugin_name}
use argo_rollouts_manager.Go.Errors.{GoError, refusal, answer}
use argo_rollouts_manager.Go.Maps.{lookup, or_else, lookup-insert}
use argo_rollouts_manager.Api.{Plugin}
use argo_rollouts_manager.Controllers.ConfigMap.{
  add_plugin, add_traffic_plugins, add_metric_plugins, PluginItem, item_of,
}
use argo_rollouts_manager.Base.{
  ◌≡◌, List, String, Option, true, Bool, any, none, if◌then◌else◌, ◌∷◌, ◌==◌, ◌⊎◌, some, [], false,
  text_cases, inr, inl, Bool-cases, refl, arith, eq_iff, ==-eq_false,
}

-- The first plugin of a name in the specification.
unfoldable pub declared : String → List Plugin → Option PluginItem
declared k [] = none
declared k (p ∷ ps) = if p.name == k then some (item_of p) else declared k ps

lookup-add_plugin :
    (k : String) (p : Plugin) (m : List (String × PluginItem))
    → lookup k (add_plugin p m)
      ≡ or_else (lookup k m) (if p.name == k then some (item_of p) else none)
unfolding add_plugin
lookup-add_plugin k p m = elim (text_cases p.name k) [
  | inl e ↦ ground (arith, e, eq_iff p.name k, lookup-insert p.name k (item_of p) m)
  | inr n ↦ ground (arith, ==-eq_false p.name k n, lookup-insert p.name k (item_of p) m)
]

-- Under every name the metric plugins have the item that was there before, and otherwise the first
-- plugin of that name in the specification.
pub lookup-add_metric_plugins :
    (k : String) (m : List (String × PluginItem)) (ps : List Plugin)
    → lookup k (add_metric_plugins m ps) ≡ or_else (lookup k m) (declared k ps)
unfolding add_metric_plugins declared
lookup-add_metric_plugins k m [] = ground arith
lookup-add_metric_plugins k m (p ∷ ps) =
    ground (arith, lookup-add_plugin k p m, lookup-add_metric_plugins k (add_plugin p m) ps)

-- No plugin of the specification has the name that only the operator may set.
unfoldable pub reserved : List Plugin → Bool
reserved ps = any (λ p. p.name == open_shift_rollout_plugin_name) ps

-- The traffic plugins are refused when one of them has the name that only the operator may set;
-- otherwise they are what the loop over the metric plugins makes of the same plugins.
pub add_traffic_plugins-lookup :
    (m : List (String × PluginItem)) (ps : List Plugin)
    → ((reserved ps ≡ true) × ((e : GoError) × (add_traffic_plugins m ps ≡ refusal e)))
      ⊎ ((reserved ps ≡ false) × (add_traffic_plugins m ps ≡ answer (add_metric_plugins m ps)))
unfolding add_traffic_plugins add_metric_plugins reserved
add_traffic_plugins-lookup m [] = inr (refl, refl)
add_traffic_plugins-lookup m (p ∷ ps) =
    elim (Bool-cases (p.name == open_shift_rollout_plugin_name)) [
      | inl e ↦ rw e (inl (refl, (_, refl)))
      | inr e ↦ rw e (add_traffic_plugins-lookup (add_plugin p m) ps)
    ]
