-- ===== src/Tests/Deployments.antt =====
-- The Deployment of the sample RolloutManager.
use argo_rollouts_manager.Go.Maps.{or_else}
use argo_rollouts_manager.Controllers.Deployment.Again.{normalize_deployment_again}
use argo_rollouts_manager.Go.StringMaps.{get}
use argo_rollouts_manager.Kube.Workload.{LabelSelector}
use argo_rollouts_manager.Controllers.Deployment.Forms.{
  identify_deployment_difference-normal, selector-updated_deployment,
}
use argo_rollouts_manager.Controllers.Deployment.Reconcile.{selector_differs, updated_deployment}
use argo_rollouts_manager.Controllers.Deployment.Replicas.{generate-replicas}
use argo_rollouts_manager.Controllers.EnvVars.Merging.{first_named, last_named}
use argo_rollouts_manager.Api.{ha_enabled}
use argo_rollouts_manager.Controllers.Deployment.Generating.{normalize_deployment-generate}
use argo_rollouts_manager.Kube.Objects.{Object, Kind}
use argo_rollouts_manager.Controllers.EnvVars.{env_merge}
use argo_rollouts_manager.Kube.Workload.{EnvVar}
use argo_rollouts_manager.Controllers.EnvVars.Sorting.{is_sorted, env_merge-sorted}
use argo_rollouts_manager.Controllers.Deployment.Normal.{normalize_deployment}
use argo_rollouts_manager.Go.Errors.{Response, answer, refusal}
use argo_rollouts_manager.Controllers.Deployment.Compare.Difference.{
  identify_deployment_difference, deployments_alike,
}
use argo_rollouts_manager.Controllers.Deployment.{Environment, generate_desired_rollouts_deployment}
use argo_rollouts_manager.Base.{
  ◌≡◌, String, Bool, ℕ, true, if◌then◌else◌, ◌∷◌, ◌↔◌, ◌==◌, ◌≤◌, [], refl, false, is_some,
}
use argo_rollouts_manager.Tests.Samples.{sample_manager, sample_account, sample_deployment}
use mathlib.Core.Option.{none, some}

-- An environment with one proxy variable.
abbrev pub sample_environment : Environment
sample_environment = record {
  getenv = λ key. if key == "http_proxy" then "proxy:80" else "";
  parse = λ image. answer (some image);
}

abbrev pub or_sample : Response (Object Kind.deployment) → Object Kind.deployment
or_sample r = elim r [ answer d ↦ d | refusal e ↦ sample_deployment ]

-- What is generated for the sample RolloutManager.
abbrev pub generated : Bool → Object Kind.deployment
generated namespaced = or_sample (
    generate_desired_rollouts_deployment sample_environment (sample_manager namespaced)
      sample_account)

pub generated_run :
    generate_desired_rollouts_deployment sample_environment (sample_manager true) sample_account
    ≡ answer (generated true)
unfolding generate_desired_rollouts_deployment
    argo_rollouts_manager.Controllers.Deployment.rollouts_container
    argo_rollouts_manager.Controllers.Container.get_rollouts_command_args
    argo_rollouts_manager.Controllers.Container.is_mergable
    argo_rollouts_manager.Controllers.Scope.contains ha_enabled
    argo_rollouts_manager.Controllers.Container.get_rollouts_container_image
    argo_rollouts_manager.Controllers.Container.get_image_pull_policy
generated_run = refl

normalize_deployment-generate_example :
    normalize_deployment (generated true) (sample_manager true) ≡ answer (generated true)
normalize_deployment-generate_example =
    normalize_deployment-generate sample_environment (sample_manager true) sample_account
      (generated true) generated_run

generated_normal :
    normalize_deployment (generated true) (sample_manager true) ≡ answer (generated true)
generated_normal =
    normalize_deployment-generate sample_environment (sample_manager true) sample_account
      (generated true) generated_run

-- The Deployment as it is when two pods run.
abbrev running : Object Kind.deployment
running = record {
  meta = (generated true).meta;
  body = record { spec = (generated true).body.spec; ready_replicas = 2 };
}

running_normal : normalize_deployment running (sample_manager true) ≡ answer (generated true)
unfolding normalize_deployment
running_normal = generated_normal

normalize_deployment_again_example :
    normalize_deployment (generated true) (sample_manager true) ≡ answer (generated true)
normalize_deployment_again_example =
    normalize_deployment_again (sample_manager true) running (generated true) running_normal

identify_deployment_difference-normal_example :
    (identify_deployment_difference (generated true) (generated true) ≡ "")
    ↔ (deployments_alike (generated true) (generated true) ≡ true)
identify_deployment_difference-normal_example =
    identify_deployment_difference-normal (sample_manager true) (generated true) (generated true)
      (generated true) (generated true) generated_normal generated_normal refl refl

same_selectors : selector_differs (sample_manager true) (generated true) (generated true) ≡ false
unfolding selector_differs generate_desired_rollouts_deployment
    argo_rollouts_manager.Controllers.Deployment.rollouts_container
    argo_rollouts_manager.Controllers.Container.get_rollouts_command_args
    argo_rollouts_manager.Controllers.Container.is_mergable
    argo_rollouts_manager.Controllers.Scope.contains ha_enabled
    argo_rollouts_manager.Controllers.Container.get_rollouts_container_image
    argo_rollouts_manager.Controllers.Container.get_image_pull_policy
    argo_rollouts_manager.Controllers.Deployment.deployment_spec
    argo_rollouts_manager.Controllers.Deployment.Compare.Pods.selectors_alike
    argo_rollouts_manager.Go.StringMaps.deep_equal argo_rollouts_manager.Go.StringMaps.same_entries
    argo_rollouts_manager.Controllers.Deployment.pod_labels argo_rollouts_manager.Go.Maps.lookup
same_selectors = rw generated_normal refl

selector-updated_deployment_example :
    (s t : LabelSelector) × ((generated true).body.spec.selector ≡ some s)
    × ((updated_deployment (generated true) (generated true)).body.spec.selector ≡ some t)
    × ((k : String) → get k t.match_labels ≡ get k s.match_labels)
selector-updated_deployment_example =
    selector-updated_deployment sample_environment (sample_manager true) sample_account
      (generated true) (generated true) generated_run same_selectors

generate-replicas_example :
    (n : ℕ) × ((generated true).body.spec.replicas ≡ some n)
    × (1 ≤ n)
    × (n ≤ 2)
    × ((n ≡ 2) ↔ (ha_enabled (sample_manager true) ≡ true))
    × (is_some (generated true).body.spec.template.spec.affinity ≡ ha_enabled (sample_manager true))
generate-replicas_example =
    generate-replicas sample_environment (sample_manager true) sample_account (generated true)
      generated_run

abbrev variable : String → String → EnvVar
variable name value = record { name = name; value = value; value_from = none }

env_merge-sorted_example :
    (is_sorted (env_merge (variable "b" "1" ∷ variable "a" "2" ∷ []) (variable "b" "3" ∷ []) false)
      ≡ true)
    × ((n : String)
        → first_named n
            (env_merge (variable "b" "1" ∷ variable "a" "2" ∷ []) (variable "b" "3" ∷ []) false)
          ≡ or_else
              (last_named n (variable "b" "1" ∷ variable "a" "2" ∷ []))
              (first_named n (variable "b" "3" ∷ [])))
env_merge-sorted_example =
    env_merge-sorted (variable "b" "1" ∷ variable "a" "2" ∷ []) (variable "b" "3" ∷ [])
