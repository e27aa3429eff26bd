-- ===== src/Mint.antt =====
-- internal/mint/handler.go: the configuration of the mint API and its handler.
pub mod Config
pub mod Ttl
pub mod Lifetime
pub mod Handler
pub mod Link
pub mod Signed
pub mod RoundTrip
