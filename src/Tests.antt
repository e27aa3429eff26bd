-- ===== src/Tests.antt =====
-- Small surroundings, and the theorems at concrete inputs in them.
mod World
mod Links
mod Serving
mod Minting
mod Injection
mod Added
mod Starting
mod Mirroring
mod Kubernetes
mod Reconciling
mod Codec
mod Tools
mod Probing
