-- ===== src/Controllers/Deployment/Forms.antt =====
-- controllers/deployment.go: what two normal forms tell about the Deployments that they were made of.
use argo_rollouts_manager.Controllers.Deployment.Settling.{Response-cases}
use argo_rollouts_manager.Controllers.Deployment.Compare.{options_alike}
use argo_rollouts_manager.Controllers.Deployment.Compare.Pods.{selectors_alike}
use argo_rollouts_manager.Controllers.Deployment.Compare.Difference.{
  identify_deployment_difference, rest_alike, deployments_alike, identify_deployment_difference_iff,
}
use argo_rollouts_manager.Go.StringMaps.{deep_equal, StringMap, get, same_entries_iff}
use argo_rollouts_manager.Controllers.Deployment.Reconcile.{
  updated_deployment, copy_spec, selector_differs,
}
use argo_rollouts_manager.Controllers.Deployment.Generating.{
  then_inv, answer_inj, normalize_deployment-generate,
}
use argo_rollouts_manager.Kube.Objects.{Object, Kind}
use argo_rollouts_manager.Go.Errors.{answer}
use argo_rollouts_manager.Kube.Workload.{DeploymentSpec, LabelSelector}
use argo_rollouts_manager.Api.{RolloutManager}
use argo_rollouts_manager.Controllers.Deployment.Normal.{
  normal_spec, normalize_deployment, required, Parts, normal_meta, assembled, normal_parts,
  normalize_map, normal_selector,
}
use argo_rollouts_manager.Base.{
  ◌≡◌, String, Option, arith, ap, ◌∙◌, not, ◌↔◌, true, eq_iff, refl, ap₂, false, sym, inr, inl,
}
use mathlib.Core.Option.{none, some}
use argo_rollouts_manager.Controllers.Deployment.{
  ◌then◌, Environment, generate_desired_rollouts_deployment,
}

pub selected :
    {A : Type 0} (text : String) (o : Option A) (a : A) → required text o ≡ answer a → o ≡ some a
selected text none a h = ground arith
selected text (some b) a h = ap some (answer_inj h)

-- The specification of a normal form, and the selector that it was made of.
pub normal_spec_inv :
    (d e : DeploymentSpec)
    → normal_spec d ≡ answer e
    → (s : LabelSelector) × (parts : Parts) × (d.selector ≡ some s) × (assembled d s parts ≡ e)
unfolding normal_spec
normal_spec_inv d e h =
    let (s, found, h1) =
      then_inv (required "missing .spec.selector" d.selector)
        (λ s. normal_parts d s then λ parts. answer (assembled d s parts)) e h in
    let (parts, _, h2) = then_inv (normal_parts d s) (λ parts. answer (assembled d s parts)) e h1 in
    (s, parts, selected "missing .spec.selector" d.selector s found, answer_inj h2)

-- A normal form, by its parts.
pub normalize_inv :
    (cr : RolloutManager) (a x : Object Kind.deployment)
    → normalize_deployment a cr ≡ answer x
    → (spec : DeploymentSpec) × (normal_spec a.body.spec ≡ answer spec)
      × (record { meta = normal_meta cr a.meta; body = record { spec = spec; ready_replicas = 0 } }
          ≡ x)
unfolding normalize_deployment
normalize_inv cr a x h =
    let (spec, made, h1) =
      then_inv (normal_spec a.body.spec)
        (λ spec. answer (record {
          meta = normal_meta cr a.meta;
          body = record { spec = spec; ready_replicas = 0 };
        }))
        x h in
    (spec, made, answer_inj h1)

abbrev formed :
    RolloutManager → Object Kind.deployment → LabelSelector → Parts → Object Kind.deployment
formed cr a s parts = record {
  meta = normal_meta cr a.meta;
  body = record { spec = assembled a.body.spec s parts; ready_replicas = 0 };
}

normal_form :
    (cr : RolloutManager) (a x : Object Kind.deployment)
    → normalize_deployment a cr ≡ answer x
    → (s : LabelSelector) × (parts : Parts) × (a.body.spec.selector ≡ some s)
      × (formed cr a s parts ≡ x)
normal_form cr a x h =
    let (spec, made, same) = normalize_inv cr a x h in
    let (s, parts, found, built) = normal_spec_inv a.body.spec spec made in
    (
      s,
      parts,
      found,
      ap
            (λ e. record {
              meta = normal_meta cr a.meta;
              body = record { spec = e; ready_replicas = 0 };
            })
            built
          ∙ same,
    )

rest_alike-formed :
    (cr : RolloutManager) (a b : Object Kind.deployment) (s t : LabelSelector) (p q : Parts)
    → a.meta.name ≡ b.meta.name
    → a.meta.namespace ≡ b.meta.namespace
    → rest_alike (formed cr a s p) (formed cr b t q) ≡ true
unfolding rest_alike normal_meta assembled
rest_alike-formed cr a b s t p q name ns =
    rw ((eq_iff a.meta.name b.meta.name).1 name, (eq_iff a.meta.namespace b.meta.namespace).1 ns)
      refl

-- For the normal forms of two Deployments of one name and namespace, no difference is named exactly
-- when reflect.DeepEqual finds the two normal forms equal.
pub identify_deployment_difference-normal :
    (cr : RolloutManager) (a b x y : Object Kind.deployment)
    → normalize_deployment a cr ≡ answer x
    → normalize_deployment b cr ≡ answer y
    → a.meta.name ≡ b.meta.name
    → a.meta.namespace ≡ b.meta.namespace
    → (identify_deployment_difference x y ≡ "") ↔ (deployments_alike x y ≡ true)
identify_deployment_difference-normal cr a b x y left right name ns =
    let (s, p, _, first) = normal_form cr a x left in
    let (t, q, _, second) = normal_form cr b y right in
    identify_deployment_difference_iff x y
      (ap₂ rest_alike (sym first) (sym second) ∙ rest_alike-formed cr a b s t p q name ns)

deep_equal-get : (m n : StringMap) → deep_equal m n ≡ true → (k : String) → get k m ≡ get k n
unfolding deep_equal
deep_equal-get none none h k = refl
deep_equal-get none (some n) h k = cc h
deep_equal-get (some m) none h k = cc h
deep_equal-get (some m) (some n) h k = (same_entries_iff m n).0 h k

get-normalize_map : (m : StringMap) (k : String) → get k (normalize_map m) ≡ get k m
unfolding normalize_map
get-normalize_map none k = refl
get-normalize_map (some m) k = refl

same_selector :
    (s t : LabelSelector)
    → not (options_alike selectors_alike (some (normal_selector s)) (some t)) ≡ false
    → (k : String) → get k t.match_labels ≡ get k s.match_labels
unfolding selectors_alike
same_selector s t h k =
    sym (deep_equal-get (normalize_map s.match_labels) t.match_labels (ground arith) k)
    ∙ get-normalize_map s.match_labels k

pub selector-assembled :
    (d : DeploymentSpec) (s : LabelSelector) (p : Parts)
    → (assembled d s p).selector ≡ some (normal_selector s)
unfolding assembled
selector-assembled d s p = refl

-- The selectors of two Deployments do not differ when those of their normal forms do not.
compared_selectors :
    (cr : RolloutManager) (desired actual : Object Kind.deployment) (t : LabelSelector)
    → normalize_deployment desired cr ≡ answer desired
    → desired.body.spec.selector ≡ some t
    → selector_differs cr actual desired ≡ false
    → (s : LabelSelector) × (actual.body.spec.selector ≡ some s)
      × ((k : String) → get k t.match_labels ≡ get k s.match_labels)
unfolding selector_differs
compared_selectors cr desired actual t own want h =
    elim (Response-cases (normalize_deployment actual cr)) [
      | inr (e, refused) ↦ cc (rw (own, want, refused) at h)
      | inl (x, normal) ↦
          let (s, p, found, same) = normal_form cr actual x normal in
          let picked : x.body.spec.selector ≡ some (normal_selector s) =
            ap (λ d. d.body.spec.selector) (sym same) ∙ selector-assembled actual.body.spec s p in
          (s, found, same_selector s t (rw (own, want, normal, picked) at h))
    ]

-- Where the Deployment is generated and the selector of the live one is not found to differ from
-- the generated one's, the update that is sent for the live Deployment has a selector, and so has
-- the live Deployment, and the two have the same labels under every key.
pub selector-updated_deployment :
    (env : Environment) (cr : RolloutManager) (sa : Object Kind.service_account)
    (desired actual : Object Kind.deployment)
    → generate_desired_rollouts_deployment env cr sa ≡ answer desired
    → selector_differs cr actual desired ≡ false
    → (s t : LabelSelector) × (actual.body.spec.selector ≡ some s)
      × ((updated_deployment actual desired).body.spec.selector ≡ some t)
      × ((k : String) → get k t.match_labels ≡ get k s.match_labels)
unfolding updated_deployment copy_spec
selector-updated_deployment env cr sa desired actual generated h =
    let own = normalize_deployment-generate env cr sa desired generated in
    let (t, p, _, same) = normal_form cr desired desired own in
    let want : desired.body.spec.selector ≡ some (normal_selector t) =
      ap (λ d. d.body.spec.selector) (sym same) ∙ selector-assembled desired.body.spec t p in
    let (s, found, alike) = compared_selectors cr desired actual (normal_selector t) own want h in
    (s, normal_selector t, found, want, alike)
