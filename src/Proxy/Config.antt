-- ===== src/Proxy/Config.antt =====
-- `config`, `loadConfig` and `httpURLEnv` of cmd/mcp-media-proxy/main.go. The parser of URLs and the
-- compiler of regular expressions are those of the standard library.
pub mod Laws
use Prim.Native.String.{len}
use mcp_media.Prelude.{
  ℕ, Bool, true, false, not, ◌&&◌, ◌||◌, Option, none, some, if◌then◌else◌, ltb,
}
use mcp_media.Text.{codes}
use mcp_media.Proxy.Mode.{Mode, full, standalone}
use mcp_media.Names.{String, ◌==◌}
use mcp_media.Prelude.Int.{ℤ, pos, negsuc}
use mcp_media.Sign.Decimal.{parse_int}
use mcp_media.Checked.{Result, ok, err, guard, ◌>>=◌, ◌>>◌}

pub record Url : Type 0 where
  pub scheme : String
  pub host : String
  pub has_user : Bool

pub record Parsers : Type 0 where
  -- url.Parse; `none` is an error
  pub parse_url : String → Option Url
  -- regexp.Compile gives no error
  pub compiles : String → Bool

pub record Config : Type 0 where
  pub mode : Mode
  pub upstream_url : String
  pub mint_url : String
  pub token : String
  pub auth_token : String
  pub tool_match : String
  pub listen_addr : String
  pub inline_max_bytes : ℕ
  pub fetch_base_url : String
  pub auto_detected : Bool

-- The errors of `loadConfig` and, with the variable's name, of `httpURLEnv`.
pub data StartError : Type 0 where
  invalid_mode upstream_in_standalone tool_match_in_standalone : StartError
  no_token short_auth_token invalid_regex invalid_inline_max : StartError
  missing_url invalid_url bad_scheme no_host has_userinfo : String → StartError

abbrev pub default_listen_addr : String
default_listen_addr = ":5780"

abbrev pub inline_max_bytes_default : ℕ
inline_max_bytes_default = 102400

-- The mode, and whether it was detected by the absence of an upstream.
unfoldable pub choose_mode : String → String → Result StartError (Mode × Bool)
choose_mode mode_env upstream_env =
    if mode_env == ""
    then ok (if upstream_env == "" then (standalone, true) else (full, false))
    else if mode_env == "full"
    then ok (full, false)
    else if mode_env == "standalone"
    then ok (standalone, false)
    else err invalid_mode

unfoldable pub check_url : String → String → Option Url → Result StartError String
check_url key v none = err (invalid_url key)
check_url key v (some u) =
    if not (u.scheme == "http" || u.scheme == "https")
    then err (bad_scheme key)
    else if u.host == ""
    then err (no_host key)
    else if u.has_user
    then err (has_userinfo key)
    else ok v

-- strconv.ParseInt of INLINE_MAX_BYTES, which must be positive
unfoldable pub positive_int : Option ℤ → Result StartError ℕ
positive_int none = err invalid_inline_max
positive_int (some (pos n)) = if ltb 0 n then ok n else err invalid_inline_max
positive_int (some (negsuc _)) = err invalid_inline_max

module _ (p : Parsers) (getenv : String → String) where
  -- `httpURLEnv`
  unfoldable pub http_url_env : String → Bool → Result StartError String
  http_url_env key required =
      if getenv key == ""
      then (if required then err (missing_url key) else ok "")
      else check_url key (getenv key) (p.parse_url (getenv key))

  -- The upstream URL: none in standalone mode, where neither it nor TOOL_MATCH may be set.
  unfoldable pub load_upstream : Mode → Result StartError String
  load_upstream standalone = do
    guard (getenv "UPSTREAM_MCP_URL" == "") upstream_in_standalone
    guard (getenv "TOOL_MATCH" == "") tool_match_in_standalone
    ok ""
  load_upstream full = http_url_env "UPSTREAM_MCP_URL" true

  unfoldable pub load_auth_token : Result StartError String
  load_auth_token =
      if not (getenv "MEDIA_AUTH_TOKEN" == "") && ltb (len (getenv "MEDIA_AUTH_TOKEN")) 32
      then err short_auth_token
      else ok (getenv "MEDIA_AUTH_TOKEN")

  unfoldable pub load_tool_match : Mode → Result StartError String
  load_tool_match standalone = ok ""
  load_tool_match full =
      if not (getenv "TOOL_MATCH" == "") && not (p.compiles (getenv "TOOL_MATCH"))
      then err invalid_regex
      else ok (getenv "TOOL_MATCH")

  unfoldable pub load_inline_max : Result StartError ℕ
  load_inline_max =
      if getenv "INLINE_MAX_BYTES" == ""
      then ok inline_max_bytes_default
      else positive_int (parse_int (codes (getenv "INLINE_MAX_BYTES")))

  -- What follows the choice of the mode.
  unfoldable pub load_mode : Mode → Bool → Result StartError Config
  load_mode mode detected = do
    upstream_url ← load_upstream mode
    mint_url ← http_url_env "MINT_URL" true
    guard (not (getenv "MEDIA_INTERNAL_TOKEN" == "")) no_token
    auth_token ← load_auth_token
    tool_match ← load_tool_match mode
    inline_max_bytes ← load_inline_max
    fetch_base_url ← http_url_env "MEDIA_FETCH_BASE_URL" false
    ok (record {
      mode = mode;
      upstream_url = upstream_url;
      mint_url = mint_url;
      token = getenv "MEDIA_INTERNAL_TOKEN";
      auth_token = auth_token;
      tool_match = tool_match;
      listen_addr =
          if getenv "PROXY_LISTEN_ADDR" == ""
          then default_listen_addr
          else getenv "PROXY_LISTEN_ADDR";
      inline_max_bytes = inline_max_bytes;
      fetch_base_url = fetch_base_url;
      auto_detected = detected;
    })

  -- `loadConfig`
  unfoldable pub load_config : Result StartError Config
  load_config = do
    (mode, detected) ← choose_mode (getenv "PROXY_MODE") (getenv "UPSTREAM_MCP_URL")
    load_mode mode detected
