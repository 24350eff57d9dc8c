-- ===== src/Controllers.antt =====
-- The package controllers/, by its files.
pub mod Defaults
pub mod Metadata
pub mod Live
pub mod Rbac
pub mod Conditions
pub mod Scope
pub mod Status
pub mod Cleanup
pub mod Secrets
pub mod NetworkPolicy
pub mod Metrics
pub mod ConfigMap
pub mod Container
pub mod EnvVars
pub mod Deployment
pub mod Reconcile
pub mod Entry
