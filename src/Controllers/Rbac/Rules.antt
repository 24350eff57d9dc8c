-- ===== src/Controllers/Rbac/Rules.antt =====
-- controllers/resources.go: the policy rules of the roles that the operator creates.
pub mod Grants
use argo_rollouts_manager.Kube.Objects.{PolicyRule}
use argo_rollouts_manager.Base.{List, String, ◌∷◌, []}

abbrev rule : List String → List String → List String → PolicyRule
rule api_groups resources verbs = record {
  api_groups = api_groups;
  resources = resources;
  verbs = verbs;
  other = "";
}

-- `GetPolicyRules`
unfoldable pub get_policy_rules : List PolicyRule
get_policy_rules =
    rule ("argoproj.io" ∷ []) ("rollouts" ∷ "rollouts/status" ∷ "rollouts/finalizers" ∷ [])
      ("get" ∷ "list" ∷ "watch" ∷ "update" ∷ "patch" ∷ [])
    ∷ rule ("argoproj.io" ∷ [])
        ("analysisruns" ∷ "analysisruns/finalizers" ∷ "experiments" ∷ "experiments/finalizers" ∷ [])
        ("create" ∷ "get" ∷ "list" ∷ "watch" ∷ "update" ∷ "patch" ∷ "delete" ∷ [])
    ∷ rule ("argoproj.io" ∷ []) ("analysistemplates" ∷ "clusteranalysistemplates" ∷ [])
        ("get" ∷ "list" ∷ "watch" ∷ [])
    ∷ rule ("apps" ∷ []) ("replicasets" ∷ [])
        ("create" ∷ "get" ∷ "list" ∷ "watch" ∷ "update" ∷ "patch" ∷ "delete" ∷ [])
    ∷ rule ("" ∷ "apps" ∷ []) ("deployments" ∷ "podtemplates" ∷ [])
        ("get" ∷ "list" ∷ "watch" ∷ "update" ∷ "patch" ∷ [])
    ∷ rule ("" ∷ []) ("services" ∷ [])
        ("get" ∷ "list" ∷ "watch" ∷ "patch" ∷ "create" ∷ "delete" ∷ [])
    ∷ rule ("coordination.k8s.io" ∷ []) ("leases" ∷ []) ("create" ∷ "get" ∷ "update" ∷ [])
    ∷ rule ("" ∷ []) ("secrets" ∷ "configmaps" ∷ []) ("get" ∷ "list" ∷ "watch" ∷ [])
    ∷ rule ("" ∷ []) ("pods" ∷ []) ("list" ∷ "update" ∷ "watch" ∷ [])
    ∷ rule ("" ∷ []) ("pods/eviction" ∷ []) ("create" ∷ [])
    ∷ rule ("" ∷ []) ("events" ∷ []) ("create" ∷ "update" ∷ "patch" ∷ [])
    ∷ rule ("networking.k8s.io" ∷ "extensions" ∷ []) ("ingresses" ∷ [])
        ("create" ∷ "get" ∷ "list" ∷ "watch" ∷ "patch" ∷ [])
    ∷ rule ("batch" ∷ []) ("jobs" ∷ [])
        ("create" ∷ "get" ∷ "list" ∷ "watch" ∷ "update" ∷ "patch" ∷ "delete" ∷ [])
    ∷ rule ("networking.istio.io" ∷ []) ("virtualservices" ∷ "destinationrules" ∷ [])
        ("watch" ∷ "get" ∷ "update" ∷ "patch" ∷ "list" ∷ [])
    ∷ rule ("split.smi-spec.io" ∷ []) ("trafficsplits" ∷ [])
        ("create" ∷ "watch" ∷ "get" ∷ "update" ∷ "patch" ∷ [])
    ∷ rule ("getambassador.io" ∷ "x.getambassador.io" ∷ []) ("mappings" ∷ "ambassadormappings" ∷ [])
        ("create" ∷ "watch" ∷ "get" ∷ "update" ∷ "list" ∷ "delete" ∷ [])
    ∷ rule ("" ∷ []) ("endpoints" ∷ []) ("get" ∷ [])
    ∷ rule ("elbv2.k8s.aws" ∷ "eks.amazonaws.com" ∷ []) ("targetgroupbindings" ∷ [])
        ("list" ∷ "get" ∷ [])
    ∷ rule ("appmesh.k8s.aws" ∷ []) ("virtualservices" ∷ []) ("watch" ∷ "get" ∷ "list" ∷ [])
    ∷ rule ("appmesh.k8s.aws" ∷ []) ("virtualnodes" ∷ "virtualrouters" ∷ [])
        ("watch" ∷ "get" ∷ "list" ∷ "update" ∷ "patch" ∷ [])
    ∷ rule ("traefik.containo.us" ∷ "traefik.io" ∷ []) ("traefikservices" ∷ [])
        ("watch" ∷ "get" ∷ "update" ∷ [])
    ∷ rule ("apisix.apache.org" ∷ []) ("apisixroutes" ∷ []) ("watch" ∷ "get" ∷ "update" ∷ [])
    ∷ rule ("route.openshift.io" ∷ []) ("routes" ∷ [])
        ("create" ∷ "watch" ∷ "get" ∷ "update" ∷ "patch" ∷ "list" ∷ [])
    ∷ []

-- `GetAggregateToAdminPolicyRules`
unfoldable pub get_aggregate_to_admin_policy_rules : List PolicyRule
get_aggregate_to_admin_policy_rules =
    rule ("argoproj.io" ∷ [])
      ("rollouts" ∷ "rollouts/scale" ∷ "rollouts/status" ∷ "experiments" ∷ "analysistemplates"
        ∷ "clusteranalysistemplates" ∷ "analysisruns" ∷ [])
      ("create" ∷ "delete" ∷ "deletecollection" ∷ "get" ∷ "list" ∷ "patch" ∷ "update" ∷ "watch"
        ∷ [])
    ∷ []

-- `GetAggregateToEditPolicyRules`
unfoldable pub get_aggregate_to_edit_policy_rules : List PolicyRule
get_aggregate_to_edit_policy_rules =
    rule ("argoproj.io" ∷ [])
      ("rollouts" ∷ "rollouts/scale" ∷ "rollouts/status" ∷ "experiments" ∷ "analysistemplates"
        ∷ "clusteranalysistemplates" ∷ "analysisruns" ∷ [])
      ("create" ∷ "delete" ∷ "deletecollection" ∷ "get" ∷ "list" ∷ "patch" ∷ "update" ∷ "watch"
        ∷ [])
    ∷ []

-- `GetAggregateToViewPolicyRules`
unfoldable pub get_aggregate_to_view_policy_rules : List PolicyRule
get_aggregate_to_view_policy_rules =
    rule ("argoproj.io" ∷ [])
      ("rollouts" ∷ "rollouts/scale" ∷ "experiments" ∷ "analysistemplates"
        ∷ "clusteranalysistemplates" ∷ "analysisruns" ∷ [])
      ("get" ∷ "list" ∷ "watch" ∷ [])
    ∷ []
