-- ===== src/Proxy/Config/Laws.antt =====
-- What a configuration that was loaded satisfies.
use mcp_media.Prelude.{
  ◌≡◌, some, ◌≢◌, Option, ◌⊎◌, true, ℕ, Bool, ◌≤◌, arith, ◌<◌, not, none, false, subst, sym, ◌||◌,
  Bool-cases, inl, inr, refl,
}
use mcp_media.Names.{String, str_eq_iff, ◌==◌}
use mcp_media.Proxy.Config.{
  Config, check_url, positive_int, Parsers, http_url_env, load_auth_token, load_inline_max,
  load_upstream, load_mode, load_config, Url, load_tool_match, choose_mode, no_token,
  upstream_in_standalone, tool_match_in_standalone,
}
use mcp_media.Checked.{ok, guard, >>=-ok, ok_injective}
use mcp_media.Proxy.Mode.{Mode, standalone, full}
use mcp_media.Prelude.Int.{ℤ, pos, negsuc}
use Prim.Native.String.{len}
use mcp_media.Sign.Decimal.{parse_int}
use mcp_media.Text.{codes}

-- Standalone mode has no upstream and matches no tools; full mode has an upstream.
abbrev pub FitsMode : Mode → String → String → Type 0
FitsMode standalone upstream match = (upstream ≡ "") × (match ≡ "")
FitsMode full upstream match = upstream ≢ ""

-- A URL with a host, for HTTP.
pub record IsHttpUrl (p : Parsers) (v : String) : Type 0 where
  pub url : Url
  pub parsed : p.parse_url v ≡ some url
  pub scheme_fits : (url.scheme == "http" || url.scheme == "https") ≡ true
  pub has_host : (url.host == "") ≡ false

pub record IsUsable (p : Parsers) (cfg : Config) : Type 0 where
  pub fits_mode : FitsMode cfg.mode cfg.upstream_url cfg.tool_match
  pub upstream_url : (cfg.upstream_url ≡ "") ⊎ IsHttpUrl p cfg.upstream_url
  pub mint_url : IsHttpUrl p cfg.mint_url
  pub match_compiles : (cfg.tool_match ≡ "") ⊎ (p.compiles cfg.tool_match ≡ true)
  pub has_token : cfg.token ≢ ""
  pub strong_auth : (cfg.auth_token ≡ "") ⊎ (32 ≤ len cfg.auth_token)
  pub positive_max : 0 < cfg.inline_max_bytes

check_url_sound : (key v : String) (u : Option Url) {w : String} → check_url key v u ≡ ok w → w ≡ v
unfolding check_url
check_url_sound key v u h = ground arith

check_url-IsHttpUrl :
    (p : Parsers) (key v : String) (u : Option Url) {w : String}
    → p.parse_url v ≡ u
    → check_url key v u ≡ ok w
    → IsHttpUrl p w
unfolding check_url
check_url-IsHttpUrl p key v none parsed h = absurd (ground arith)
check_url-IsHttpUrl p key v (some u) {w} parsed h =
    subst (IsHttpUrl p) (sym (check_url_sound key v (some u) h))
      (record { url = u; parsed = parsed; scheme_fits = ground arith; has_host = ground arith })

positive_int_sound : (z : Option ℤ) {n : ℕ} → positive_int z ≡ ok n → 0 < n
unfolding positive_int
positive_int_sound none h = absurd (ground arith)
positive_int_sound (some (pos m)) h = ground arith
positive_int_sound (some (negsuc m)) h = absurd (ground arith)

module _ (p : Parsers) (getenv : String → String) where
  required_url : (key : String) {v : String} → http_url_env p getenv key true ≡ ok v → v ≢ ""
  unfolding http_url_env
  required_url key {v} h = ground (
    arith,
    str_eq_iff (getenv key) "",
    check_url_sound key (getenv key) (p.parse_url (getenv key)) {w = v},
  )

  http_url_env-IsHttpUrl :
      (key : String) {v : String} → http_url_env p getenv key true ≡ ok v → IsHttpUrl p v
  unfolding http_url_env
  http_url_env-IsHttpUrl key h = elim (Bool-cases (getenv key == "")) [
    | inl missing ↦ cc (rw missing at h)
    | inr given ↦ check_url-IsHttpUrl p key (getenv key) _ refl (rw given at h)
  ]

  load_upstream-IsHttpUrl :
      (mode : Mode) {u : String} → load_upstream p getenv mode ≡ ok u → (u ≡ "") ⊎ IsHttpUrl p u
  unfolding load_upstream
  load_upstream-IsHttpUrl standalone h =
      >>=-ok (guard (getenv "UPSTREAM_MCP_URL" == "") upstream_in_standalone) _ h (λ _ _ h.
        >>=-ok (guard (getenv "TOOL_MATCH" == "") tool_match_in_standalone) _ h
          (λ _ _ h. inl (sym (ok_injective h))))
  load_upstream-IsHttpUrl full h = inr (http_url_env-IsHttpUrl "UPSTREAM_MCP_URL" h)

  load_tool_match-compiles :
      (mode : Mode) {m : String}
      → load_tool_match p getenv mode ≡ ok m
      → (m ≡ "") ⊎ (p.compiles m ≡ true)
  unfolding load_tool_match
  load_tool_match-compiles standalone h = inl (sym (ok_injective h))
  load_tool_match-compiles full h = ground (arith, str_eq_iff (getenv "TOOL_MATCH") "")

  load_auth_token_sound : {t : String} → load_auth_token p getenv ≡ ok t → (t ≡ "") ⊎ (32 ≤ len t)
  unfolding load_auth_token
  load_auth_token_sound {t} h = ground (arith, str_eq_iff (getenv "MEDIA_AUTH_TOKEN") "")

  load_inline_max_sound : {n : ℕ} → load_inline_max p getenv ≡ ok n → 0 < n
  unfolding load_inline_max
  load_inline_max_sound {n} h =
      ground (arith, positive_int_sound (parse_int (codes (getenv "INLINE_MAX_BYTES"))) {n = n})

  load_upstream_sound :
      (mode : Mode) {u m : String}
      → load_upstream p getenv mode ≡ ok u
      → load_tool_match p getenv mode ≡ ok m
      → FitsMode mode u m
  unfolding load_upstream load_tool_match
  load_upstream_sound standalone h k =
      >>=-ok (guard (getenv "UPSTREAM_MCP_URL" == "") upstream_in_standalone) _ h (λ _ _ h.
        >>=-ok (guard (getenv "TOOL_MATCH" == "") tool_match_in_standalone) _ h
          (λ _ _ h. (sym (ok_injective h), sym (ok_injective k))))
  load_upstream_sound full h k = required_url "UPSTREAM_MCP_URL" h

  given_token :
      {u : Unit {0}}
      → guard (not (getenv "MEDIA_INTERNAL_TOKEN" == "")) no_token ≡ ok u
      → getenv "MEDIA_INTERNAL_TOKEN" ≢ ""
  given_token h = ground (arith, str_eq_iff (getenv "MEDIA_INTERNAL_TOKEN") "")

  load_mode-IsUsable :
      (mode : Mode) (detected : Bool) {cfg : Config}
      → load_mode p getenv mode detected ≡ ok cfg
      → IsUsable p cfg
  unfolding load_mode
  load_mode-IsUsable mode detected h =
      >>=-ok (load_upstream p getenv mode) _ h (λ upstream has_upstream h.
        >>=-ok (http_url_env p getenv "MINT_URL" true) _ h (λ mint has_mint h.
          >>=-ok (guard (not (getenv "MEDIA_INTERNAL_TOKEN" == "")) no_token) _ h (λ _ has_token h.
            >>=-ok (load_auth_token p getenv) _ h (λ auth has_auth h.
              >>=-ok (load_tool_match p getenv mode) _ h (λ match has_match h.
                >>=-ok (load_inline_max p getenv) _ h (λ most has_most h.
                  >>=-ok (http_url_env p getenv "MEDIA_FETCH_BASE_URL" false) _ h (λ fetch _ h.
                    subst (IsUsable p) (ok_injective h) (record {
                      fits_mode = load_upstream_sound mode has_upstream has_match;
                      upstream_url = load_upstream-IsHttpUrl mode has_upstream;
                      mint_url = http_url_env-IsHttpUrl "MINT_URL" has_mint;
                      match_compiles = load_tool_match-compiles mode has_match;
                      has_token = given_token has_token;
                      strong_auth = load_auth_token_sound has_auth;
                      positive_max = load_inline_max_sound has_most;
                    }))))))))

  -- A configuration is loaded only if it is usable: standalone mode has no upstream and matches no
  -- tools, full mode has an upstream URL; that URL and the mint URL are for HTTP and have a host; the
  -- expression for tool names compiles; there is a token; the token for clients is missing or has 32
  -- bytes at least; the limit for inline data is positive.
  pub load_config-IsUsable : (cfg : Config) → load_config p getenv ≡ ok cfg → IsUsable p cfg
  unfolding load_config
  load_config-IsUsable cfg h =
      >>=-ok (choose_mode _ _) _ h
        (λ (mode, detected) _ loaded. load_mode-IsUsable mode detected loaded)
