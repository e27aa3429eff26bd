-- ===== src/Sidecar.antt =====
-- cmd/media-sidecar/main.go
pub mod Config
pub mod Start
pub mod Main
pub mod Injected
