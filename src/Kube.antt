-- ===== src/Kube.antt =====
-- The Kubernetes objects that the operator reads and writes, and the client that it calls.
pub mod Meta
pub mod Workload
pub mod Objects
pub mod Client
pub mod Defaults
pub mod Laws
pub mod Memory
