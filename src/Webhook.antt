-- ===== src/Webhook.antt =====
-- internal/webhook/v1: the mutating webhook that injects the sidecar and the proxy into pods.
pub mod Annotations
pub mod Pod
pub mod Inject
pub mod Gate
pub mod Env
