-- ===== src/Tests/Starting.antt =====
-- The theorems on the configuration of the proxy, at concrete environments.
use mcp_media.Prelude.{◌≡◌, refl, some, [], ◌∷◌, true, false, if◌then◌else◌, Bool, ◌↔◌, All}
use mcp_media.Names.{◌==◌, String, StringMap, get}
use mcp_media.Webhook.Annotations.{read_annotations, inject_proxy_key}
use mcp_media.Webhook.Inject.{default_images, proxy_env, mode_of}
use mcp_media.Proxy.Mode.{full}
use mcp_media.Checked.{ok, err}
use mcp_media.Proxy.Config.{
  check_url, Parsers, Config, load_config, missing_url, load_mode, choose_mode, load_upstream,
  http_url_env, load_auth_token, load_tool_match, load_inline_max,
}
use mcp_media.Proxy.Config.Laws.{IsUsable, load_config-IsUsable}
use mcp_media.Proxy.Start
use mcp_media.Webhook.Env.{getenv_in}
use mcp_media.Proxy.Injected.{proxy_env-no_upstream}
use mcp_media.Proxy.Start.{Libraries, UpstreamOptions, start_proxy, proxy_main}
use mcp_media.Proxy.Start.Laws.{started, start-started, EndsWell, proxy_main_iff}
use mcp_media.Shutdown.{cancelled}
use mcp_media.Controller.Manager.{
  SetupCall, controller_main, default_flags, needed_calls, controller_main_iff,
}

abbrev parsers : Parsers
parsers = record {
  parse_url = λ s. some (record { scheme = "http"; host = s; has_user = false });
  compiles = λ s. true;
}

abbrev environment : String → String
environment key =
    if key == "UPSTREAM_MCP_URL"
    then "http://localhost:8080"
    else if key == "MINT_URL"
    then "http://localhost:8091"
    else if key == "MEDIA_INTERNAL_TOKEN"
    then "token"
    else ""

abbrev loaded : Config
loaded = record {
  mode = full;
  upstream_url = "http://localhost:8080";
  mint_url = "http://localhost:8091";
  token = "token";
  auth_token = "";
  tool_match = "";
  listen_addr = ":5780";
  inline_max_bytes = 102400;
  fetch_base_url = "";
  auto_detected = false;
}

load_config-environment : load_config parsers environment ≡ ok loaded
unfolding load_config load_mode choose_mode load_upstream http_url_env check_url load_auth_token
    load_tool_match load_inline_max
load_config-environment = refl

load_config-IsUsable_example : IsUsable parsers loaded
load_config-IsUsable_example =
    load_config-IsUsable parsers environment loaded load_config-environment

-- A pod that only asks for the proxy.
abbrev bare_annotations : StringMap
bare_annotations = (inject_proxy_key, "true") ∷ []

bare-mode : mode_of (read_annotations bare_annotations) ≡ "full"
unfolding read_annotations get
bare-mode = refl

bare-port : (read_annotations bare_annotations).upstream_port ≡ ""
unfolding read_annotations get
bare-port = refl

proxy_env-no_upstream_example :
    load_config parsers
      (getenv_in (λ s. "token") (proxy_env default_images (read_annotations bare_annotations)))
    ≡ err (missing_url "UPSTREAM_MCP_URL")
proxy_env-no_upstream_example =
    proxy_env-no_upstream parsers (λ s. "token") default_images (read_annotations bare_annotations)
      bare-mode bare-port

abbrev libraries : Libraries
libraries = record {
  parse = λ s. some (record { scheme = "http"; host = s; has_user = false });
  compile = λ s. some (λ name. true);
}

abbrev reachable : UpstreamOptions → Bool
reachable opts = true

start-started_example :
    start_proxy libraries reachable loaded ≡ started libraries reachable full loaded
start-started_example = start-started libraries reachable environment loaded load_config-environment

proxy_main_iff_example :
    (proxy_main libraries reachable environment cancelled true ≡ 0)
    ↔ EndsWell reachable (load_config (Start.parsers libraries) environment) cancelled true
proxy_main_iff_example = proxy_main_iff libraries reachable environment cancelled true

abbrev every_call : SetupCall → Bool
every_call call = true

controller_main_iff_example :
    (controller_main every_call default_flags environment ≡ 0)
    ↔ All
        (λ call. every_call call ≡ true)
        (needed_calls every_call default_flags (environment "ENABLE_WEBHOOKS" == "false"))
controller_main_iff_example = controller_main_iff every_call default_flags environment
