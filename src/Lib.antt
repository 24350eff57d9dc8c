-- ===== src/Lib.antt =====
-- Verification library of the Argo Rollouts Manager, a Kubernetes operator: it watches
-- RolloutManager resources and brings the objects that an Argo Rollouts installation needs to their
-- expected state.
--
-- Parts, and the files that model them:
--   api/v1alpha1/argorollouts_types.go        Api: the RolloutManager, its specification and status
--   controllers/default.go                    Controllers/Defaults: names and keys
--   controllers/utils.go                      Controllers/Metadata: labels and annotations
--                                             Controllers/Scope: which RolloutManagers are let through
--                                             Controllers/Conditions: conditions and the status
--                                             Controllers/Container: isMergable, combineImageTag
--                                             Controllers/EnvVars: environment variables
--   controllers/resources.go                  Controllers/Live: the fetch, create or update pattern that
--                                             the functions share, as a Target that says what each
--                                             function expects and compares
--                                             Controllers/Rbac: service account, roles and bindings,
--                                             and the policy rules (Rbac/Rules)
--                                             Controllers/Cleanup: removeClusterScopedResources...
--                                             Controllers/Secrets, NetworkPolicy, Metrics
--   controllers/configmap.go                  Controllers/ConfigMap
--   controllers/status.go                     Controllers/Status
--   controllers/deployment.go                 Controllers/Container: image, pull policy, arguments
--                                             Controllers/Deployment: the generated Deployment, its
--                                             normal form (Deployment/Normal), the comparison
--                                             (Deployment/Compare) and the reconciliation
--                                             (Deployment/Reconcile)
--   controllers/reconcile.go                  Controllers/Reconcile: the order of the steps
--   controllers/argorollouts_controller.go    Controllers/Entry: requests and events
--   hack/verify-rollouts-e2e-tests/main.go    Hack/Results: the log of the end-to-end tests
--
-- A function keeps its Go name in this library's spelling: reconcileRolloutsRole is
-- reconcile_rollouts_role. A function that calls the API is an Exec: it takes the state of the cluster
-- and gives back a value, an error or a panic, and the state that its calls have left (Go/Exec). Maps
-- may be nil (Go/StringMaps); an error is its text and whether errors.IsNotFound finds it (Go/Errors).
--
-- The parts meet in the state of the cluster. The Kubernetes API, as controller-runtime serves it,
-- is a parameter (Kube/Client). What is relied on of it is named in Kube/Laws: a read after an
-- answered write sees the write, a write to one kind does not change another, a deleted object is
-- gone, and setting the controller reference changes only the owner. The stored body is that which
-- was sent up to defaults (Kube/Defaults): the API group of a subject, the protocol of a port, and
-- in a Deployment the parameters of a rolling update, the fields that the operator does not set,
-- and nil for empty slices and maps; defaults inside the opaque texts are not considered.
-- Kube/Memory is a server that does all this and fills in defaults, and Tests uses it. os.Getenv,
-- yaml and the parser of image references are parameters as well. Fields of Kubernetes objects
-- that the operator only copies or compares are opaque texts (Kube/Workload).
--
-- Bounds: numbers are natural numbers, as the operator only compares replica counts and ports; there is
-- no arithmetic that could wrap. All loops run over lists, so no fuel is needed.
--
-- The slices of a Deployment of which the operator only accepts a fixed number of elements are lists;
-- where the code tells a nil slice or map from an empty one, the model does too.
--
-- Not modelled: logging; SetupWithManager and doesCRDExist of
-- controllers/argorollouts_controller.go, which register watches and ask a discovery client; the
-- start of the process (cmd), the script hack/upgrade-rollouts-script and, of the check of the
-- test log, its output and the reading of the file, generated code
-- (api/v1alpha1/zz_generated.deepcopy.go) and tests.
pub mod Base
pub mod Go
pub mod Kube
pub mod Api
pub mod Controllers
pub mod Hack
pub mod Tests
