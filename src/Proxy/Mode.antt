-- ===== src/Proxy/Mode.antt =====
-- internal/proxy/mode.go
use mcp_media.Prelude.{Bool, true, false}
use mcp_media.Names.{String}

pub data Mode : Type 0 where
  full standalone : Mode

abbrev pub mode_name : Mode → String
mode_name full = "full"
mode_name standalone = "standalone"

pub record Wiring : Type 0 where
  pub mirror_upstream : Bool
  pub enrich : Bool

-- `WiringForMode`; its default case cannot be reached.
unfoldable pub wiring_for_mode : Mode → Wiring
wiring_for_mode full = record { mirror_upstream = true; enrich = true }
wiring_for_mode standalone = record { mirror_upstream = false; enrich = false }
