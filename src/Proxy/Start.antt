-- ===== src/Proxy/Start.antt =====
-- `run` and `main` of cmd/mcp-media-proxy/main.go: what `run` builds from a configuration, and the code
-- with which the program ends.
pub mod Laws
use mcp_media.Prelude.{
  ◌≡◌, Bool, true, false, not, ◌&&◌, Option, none, some, List, [], ◌∷◌, if◌then◌else◌, ℕ,
}
use mcp_media.Names.{String, ◌==◌}
use mcp_media.Text.{Bytes, codes}
use mcp_media.Checked.{Result, ok, err, ◌>>=◌}
use mcp_media.Prelude.Int.{pos}
use mcp_media.Platform
use mcp_media.Proxy.Mode.{Wiring, wiring_for_mode}
use mcp_media.Proxy.Config.{Config, Parsers, Url, load_config}
use mcp_media.Proxy.MintClient.{MintClient, ClientError, new_mint_client}
use mcp_media.Proxy.Enrich.{EnricherError, new_enricher}
use mcp_media.Proxy.Tools.{MediaToolOptions}
use mcp_media.Shutdown.{Ended, serve_until, exit_code}

-- The URL parser and the compiler of regular expressions; `none` is an error.
pub record Libraries : Type 0 where
  pub parse : String → Option Url
  pub compile : String → Option (String → Bool)

abbrev pub compiles : Option (String → Bool) → Bool
compiles none = false
compiles (some matches) = true

abbrev pub parsers : Libraries → Parsers
parsers lib = record { parse_url = lib.parse; compiles = λ s. compiles (lib.compile s) }

-- `UpstreamOptions`, with the endpoint
pub record UpstreamOptions : Type 0 where
  pub endpoint : String
  pub reserved_tools : List String
  pub auth_token : String

-- What serves: the mint client and the options of the generic tools, the matcher of the enriching
-- middleware if there is one, the connected upstream if there is one, and what guards the handler.
pub record Downstream : Type 0 where
  pub client : MintClient
  pub tools : MediaToolOptions
  pub enricher : Option (String → Bool)
  pub mirror : Option UpstreamOptions
  pub auth_token : String
  pub listen_addr : String

pub data RunError : Type 0 where
  bad_client : ClientError → RunError
  bad_enricher : EnricherError → RunError
  upstream_failed : RunError

unfoldable pub because : {E A : Type 0} → (E → RunError) → Result E A → Result RunError A
because wrap (ok a) = ok a
because wrap (err e) = err (wrap e)

-- A URL of the configuration, by its bytes.
unfoldable pub in_bytes : Option Url → Option Platform.Url
in_bytes none = none
in_bytes (some u) =
    some (record { scheme = codes u.scheme; host = codes u.host; has_user = u.has_user })

abbrev pub generic_stream_media : String
generic_stream_media = "stream_media"

abbrev pub generic_download : String
generic_download = "download_file"

abbrev pub upstream_options : Config → UpstreamOptions
upstream_options cfg = record {
  endpoint = cfg.upstream_url;
  reserved_tools = generic_stream_media ∷ generic_download ∷ [];
  auth_token = cfg.auth_token;
}

unfoldable pub media_options : Config → MediaToolOptions
media_options cfg = record {
  fetch_base_url = codes cfg.fetch_base_url;
  inline_max_bytes = pos cfg.inline_max_bytes;
}

module _ (lib : Libraries) where
  unfoldable pub start_client : Config → Result ClientError MintClient
  start_client cfg =
      new_mint_client (in_bytes (lib.parse cfg.mint_url)) (codes cfg.mint_url) (codes cfg.token)

  unfoldable pub start_enricher : Wiring → String → Result EnricherError (Option (String → Bool))
  start_enricher wiring tool_match =
      if wiring.enrich && not (tool_match == "")
      then new_enricher lib.compile true tool_match
      else ok none

  -- Told whether `Connect` gives no error.
  unfoldable pub start_upstream :
      (UpstreamOptions → Bool) → Wiring → UpstreamOptions → Result RunError (Option UpstreamOptions)
  start_upstream connects wiring options =
      if wiring.mirror_upstream
      then if connects options then ok (some options) else err upstream_failed
      else ok none

  -- `run` up to the server that it starts
  unfoldable pub start_proxy : (UpstreamOptions → Bool) → Config → Result RunError Downstream
  start_proxy connects cfg = do
    client ← because bad_client (start_client cfg)
    enricher ← because bad_enricher (start_enricher (wiring_for_mode cfg.mode) cfg.tool_match)
    mirror ← start_upstream connects (wiring_for_mode cfg.mode) (upstream_options cfg)
    ok (record {
      client = client;
      tools = media_options cfg;
      enricher = enricher;
      mirror = mirror;
      auth_token = cfg.auth_token;
      listen_addr = cfg.listen_addr;
    })

  -- `run` behind its start, and the end of `main`
  unfoldable pub code_of : Ended → Bool → Result RunError Downstream → ℕ
  code_of ended graceful (err e) = 1
  code_of ended graceful (ok d) = exit_code (serve_until ended (("downstream", graceful) ∷ []))

  unfoldable pub code_with :
      {E : Type 0} → (UpstreamOptions → Bool) → Ended → Bool → Result E Config → ℕ
  code_with connects ended graceful (err e) = 1
  code_with connects ended graceful (ok cfg) = code_of ended graceful (start_proxy connects cfg)

  -- `main`, told whether the upstream server can be connected, how serving ends and whether the
  -- shutdown is graceful
  unfoldable pub proxy_main : (UpstreamOptions → Bool) → (String → String) → Ended → Bool → ℕ
  proxy_main connects getenv ended graceful =
      code_with connects ended graceful (load_config (parsers lib) getenv)
