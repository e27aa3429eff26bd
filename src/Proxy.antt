-- ===== src/Proxy.antt =====
-- The MCP proxy: internal/proxy and cmd/mcp-media-proxy.
pub mod Mode
pub mod Config
pub mod Injected
pub mod Upstream
pub mod Session
pub mod MintClient
pub mod Tools
pub mod Enrich
pub mod Guard
pub mod Start
