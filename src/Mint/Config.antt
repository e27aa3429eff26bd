-- ===== src/Mint/Config.antt =====
-- `Config`, `handler` and `NewHandler` of internal/mint/handler.go.
use mcp_media.Prelude.{
  ◌≡◌, Bool, not, Option, none, some, List, [], ◌∷◌, if◌then◌else◌, ltb, length, ◌||◌, ◌≤◌, ◌≢◌,
  arith,
}
use mcp_media.Text.{Bytes, codes, text_eq, is_empty, trim_right}
use mcp_media.Prelude.Int.{ℤ, ltb_ℤ, pos, ◌<ℤ◌, ◌≤ℤ◌}
use mcp_media.Platform.{Url, Library}
use mcp_media.Text.Laws.{is_empty_iff}

-- Durations are integers of nanoseconds.
pub record Config : Type 0 where
  pub secret : Bytes
  pub token : Bytes
  pub public_base_url : Bytes
  pub roots : List Bytes
  pub default_ttl : ℤ
  pub max_ttl : ℤ

pub record MintHandler : Type 0 where
  pub secret : Bytes
  pub token : Bytes
  pub base_url : Bytes
  pub roots : List Bytes
  pub def_ttl : ℤ
  pub max_ttl : ℤ

-- The errors of `NewHandler`, one for each `return`.
pub data ConfigError : Type 0 where
  short_secret empty_token invalid_url bad_scheme no_host ttl_not_positive : ConfigError
  max_below_default no_roots : ConfigError

pub data Built : Type 0 where
  built : MintHandler → Built
  refused : ConfigError → Built

unfoldable pub is_http : Bytes → Bool
is_http scheme = text_eq scheme (codes "http") || text_eq scheme (codes "https")

-- The checks behind that of the URL.
unfoldable pub check_ttls : Config → Built
check_ttls cfg =
    if not (ltb_ℤ (pos 0) cfg.default_ttl)
    then refused ttl_not_positive
    else if ltb_ℤ cfg.max_ttl cfg.default_ttl
    then refused max_below_default
    else elim cfg.roots [
      | [] ↦ refused no_roots
      | root ∷ roots ↦ built (record {
        secret = cfg.secret;
        token = cfg.token;
        base_url = trim_right b'/' cfg.public_base_url;
        roots = root ∷ roots;
        def_ttl = cfg.default_ttl;
        max_ttl = cfg.max_ttl;
      })
    ]

unfoldable pub check_url : Config → Option Url → Built
check_url cfg none = refused invalid_url
check_url cfg (some u) =
    if not (is_http u.scheme)
    then refused bad_scheme
    else if is_empty u.host
    then refused no_host
    else check_ttls cfg

-- `NewHandler`
unfoldable pub new_handler : Library → Config → Built
new_handler lib cfg =
    if ltb (length cfg.secret) 32
    then refused short_secret
    else if is_empty cfg.token
    then refused empty_token
    else check_url cfg (lib.parse_url cfg.public_base_url)

-- What a handler that was built keeps.
pub record IsValid (h : MintHandler) : Type 0 where
  pub strong_secret : 32 ≤ length h.secret
  pub has_token : h.token ≢ []
  pub positive : pos 0 <ℤ h.def_ttl
  pub ordered : h.def_ttl ≤ℤ h.max_ttl
  pub has_root : h.roots ≢ []

abbrev pub of_config : Config → MintHandler
of_config cfg = record {
  secret = cfg.secret;
  token = cfg.token;
  base_url = trim_right b'/' cfg.public_base_url;
  roots = cfg.roots;
  def_ttl = cfg.default_ttl;
  max_ttl = cfg.max_ttl;
}

check_ttls_sound :
    (cfg : Config) {h : MintHandler}
    → check_ttls cfg ≡ built h
    → (pos 0 <ℤ cfg.default_ttl)
      × (cfg.default_ttl ≤ℤ cfg.max_ttl)
      × (cfg.roots ≢ [])
      × (h ≡ of_config cfg)
unfolding check_ttls
check_ttls_sound cfg e = (ground arith, ground arith, ground arith, ground arith)

check_url_sound :
    (cfg : Config) (u : Option Url) {h : MintHandler}
    → check_url cfg u ≡ built h
    → check_ttls cfg ≡ built h
unfolding check_url
check_url_sound cfg u e = ground arith

-- A handler is built only from a configuration whose secret has 32 bytes, whose token is not empty,
-- whose lifetimes are positive and ordered, and which names a root. It keeps all but the trailing
-- slashes of the base URL.
pub new_handler-IsValid :
    (lib : Library) (cfg : Config) (h : MintHandler)
    → new_handler lib cfg ≡ built h
    → IsValid h × (h ≡ of_config cfg)
unfolding new_handler
new_handler-IsValid lib cfg h e =
    let url_fine : check_url cfg (lib.parse_url cfg.public_base_url) ≡ built h = ground arith in
    let strong : 32 ≤ length cfg.secret = ground arith in
    let given : cfg.token ≢ [] = ground (arith, is_empty_iff cfg.token) in
    let (positive, ordered, rooted, same) =
      check_ttls_sound cfg (check_url_sound cfg (lib.parse_url cfg.public_base_url) url_fine) in
    let valid : IsValid (of_config cfg) = record {
      strong_secret = strong;
      has_token = given;
      positive = positive;
      ordered = ordered;
      has_root = rooted;
    } in
    (rw same valid, same)
