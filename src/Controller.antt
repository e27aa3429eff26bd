-- ===== src/Controller.antt =====
-- internal/controller: the reconciler of workloads that the webhook's annotations mark.
pub mod Cluster
pub mod Api
pub mod Workload
pub mod Services
pub mod Source
pub mod Ingresses
pub mod PublicUrl
pub mod Reconcile
pub mod Manager
