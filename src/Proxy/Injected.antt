-- ===== src/Proxy/Injected.antt =====
-- What cmd/mcp-media-proxy/main.go reads in a container that internal/webhook/v1/inject.go added.
use mcp_media.Prelude.{◌≡◌, refl, ◌++◌, Bool, arith, ◌∙◌}
use mcp_media.Names.{String}
use mcp_media.Webhook.Annotations.{InjectionRequest}
use mcp_media.Webhook.Env.{getenv_in}
use mcp_media.Webhook.Inject.{
  Images, proxy_env, upstream_env, mode_of, when_set, plain_var, resolve_mint_url, secret_var,
}
use mcp_media.Checked.{err}
use mcp_media.Proxy.Config.{
  Parsers, load_config, missing_url, load_mode, load_upstream, choose_mode, http_url_env,
}

-- Without an upstream, full mode is refused.
load_config-full :
    (p : Parsers) (getenv : String → String)
    → getenv "PROXY_MODE" ≡ "full"
    → getenv "UPSTREAM_MCP_URL" ≡ ""
    → load_config p getenv ≡ err (missing_url "UPSTREAM_MCP_URL")
unfolding load_config load_mode load_upstream choose_mode http_url_env
load_config-full p getenv mode upstream = rw (mode, upstream) refl

module _ (secrets : String → String) where
  -- The variables that may follow say nothing about the upstream.
  options-getenv :
      (a b c d : Bool) (v w x y : String)
      → getenv_in secrets
          (when_set a (plain_var "TOOL_MATCH" v)
            ++ (when_set b (plain_var "INLINE_MAX_BYTES" w)
                ++ (when_set c (plain_var "MINT_URL" x)
                    ++ when_set d (secret_var "MEDIA_AUTH_TOKEN" y))))
          "UPSTREAM_MCP_URL"
        ≡ ""
  unfolding getenv_in
  options-getenv a b c d v w x y = ground arith

  proxy_mode-getenv :
      (im : Images) (req : InjectionRequest)
      → getenv_in secrets (proxy_env im req) "PROXY_MODE" ≡ mode_of req
  unfolding proxy_env getenv_in
  proxy_mode-getenv im req = refl

  no_port-getenv :
      (im : Images) (req : InjectionRequest)
      → req.upstream_port ≡ ""
      → getenv_in secrets (proxy_env im req) "UPSTREAM_MCP_URL" ≡ ""
  unfolding proxy_env upstream_env getenv_in resolve_mint_url
  no_port-getenv im req no_port = rw no_port (
      options-getenv _ _ _ _ req.tool_match req.inline_max_bytes (resolve_mint_url req)
        req.auth_token_secret)

-- A proxy that is added in full mode without an upstream port does not start.
pub proxy_env-no_upstream :
    (p : Parsers) (secrets : String → String) (im : Images) (req : InjectionRequest)
    → mode_of req ≡ "full"
    → req.upstream_port ≡ ""
    → load_config p (getenv_in secrets (proxy_env im req)) ≡ err (missing_url "UPSTREAM_MCP_URL")
proxy_env-no_upstream p secrets im req full no_port =
    load_config-full p (getenv_in secrets (proxy_env im req))
      (proxy_mode-getenv secrets im req ∙ full) (no_port-getenv secrets im req no_port)
