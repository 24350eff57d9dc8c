-- ===== src/Tests.antt =====
-- The theorems at concrete inputs.
mod Samples
mod Access
mod Roles
mod Objects
mod Admission
mod Statuses
mod Plugins
mod Deployments
mod Logs
mod Reconciling
mod Requests
mod Whole
