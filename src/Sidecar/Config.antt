-- ===== src/Sidecar/Config.antt =====
-- `config`, `loadConfig` and `durationEnv` of cmd/media-sidecar/main.go, and what `run` builds of it.
pub mod Laws
use mcp_media.Prelude.{
  Bool, not, ◌||◌, Option, none, some, List, [], ◌∷◌, if◌then◌else◌, ltb, length, true, false,
}
use mcp_media.Names.{String}
use mcp_media.Prelude.Int.{ℤ, pos, ltb_ℤ}
use mcp_media.Text.{Bytes, codes, is_empty, split}
use mcp_media.FilePath.{is_abs}
use mcp_media.Platform.{Library, Url}
use mcp_media.Mint.Config.{is_http}
use mcp_media.Mint.Config.{Config as MintConfig}
use mcp_media.Serve.Handler.{MediaHandler}
use mcp_media.Checked.{Result, ok, err, guard, ◌>>=◌, ◌>>◌}

pub record SidecarConfig : Type 0 where
  pub secret : Bytes
  pub token : Bytes
  pub public_base_url : Bytes
  pub roots : List Bytes
  pub serve_addr : Bytes
  pub mint_addr : Bytes
  pub default_ttl : ℤ
  pub max_ttl : ℤ

-- The errors of `loadConfig`, one for each `return`; the two durations share one.
pub data SidecarError : Type 0 where
  no_secret weak_secret missing_token no_base_url malformed_url wrong_scheme : SidecarError
  hostless userinfo relative_root rootless invalid_duration bad_default bad_max : SidecarError

-- More functions of the standard library.
pub record Parsing : Type 0 where
  -- time.ParseDuration, in nanoseconds; `none` is an error
  pub parse_duration : Bytes → Option ℤ
  -- strings.TrimSpace
  pub trim_space : Bytes → Bytes

abbrev pub or_bytes : Bytes → Bytes → Bytes
or_bytes s d = if is_empty s then d else s

unfoldable pub check_base_url : Option Url → Result SidecarError (Unit {0})
check_base_url none = err malformed_url
check_base_url (some u) = do
  guard (is_http u.scheme) wrong_scheme
  guard (not (is_empty u.host)) hostless
  guard (not u.has_user) userinfo

abbrev pub is_nil : List Bytes → Bool
is_nil [] = true
is_nil (_ ∷ _) = false

module _ (lib : Library) (parsing : Parsing) (getenv : String → Bytes) where
  -- The loop over the entries of MEDIA_ROOTS, which passes over the empty ones.
  unfoldable pub read_roots : List Bytes → Result SidecarError (List Bytes)
  read_roots [] = ok []
  read_roots (part ∷ parts) =
      let later = read_roots parts in
      let root = parsing.trim_space part in
      if is_empty root
      then later
      else if not (is_abs root)
      then err relative_root
      else (do roots ← later; ok (root ∷ roots))

  unfoldable pub read_duration : Bytes → ℤ → Option ℤ → Result SidecarError ℤ
  read_duration v d none = if is_empty v then ok d else err invalid_duration
  read_duration v d (some z) = if is_empty v then ok d else ok z

  -- `durationEnv`
  unfoldable pub duration_env : String → ℤ → Result SidecarError ℤ
  duration_env key d = read_duration (getenv key) d (parsing.parse_duration (getenv key))

  -- `loadConfig`
  unfoldable pub load_sidecar : Result SidecarError SidecarConfig
  load_sidecar = do
    guard (not (is_empty (getenv "MEDIA_SIGNING_SECRET"))) no_secret
    guard (not (ltb (length (getenv "MEDIA_SIGNING_SECRET")) 32)) weak_secret
    guard (not (is_empty (getenv "MEDIA_INTERNAL_TOKEN"))) missing_token
    guard (not (is_empty (getenv "MEDIA_PUBLIC_BASE_URL"))) no_base_url
    check_base_url (lib.parse_url (getenv "MEDIA_PUBLIC_BASE_URL"))
    roots ← read_roots (split b',' (or_bytes (getenv "MEDIA_ROOTS") (codes "/data")))
    guard (not (is_nil roots)) rootless
    default_ttl ← duration_env "MEDIA_DEFAULT_TTL" (pos 300000000000)
    max_ttl ← duration_env "MEDIA_MAX_TTL" (pos 900000000000)
    guard (ltb_ℤ (pos 0) default_ttl) bad_default
    guard (not (ltb_ℤ max_ttl default_ttl)) bad_max
    ok (record {
      secret = getenv "MEDIA_SIGNING_SECRET";
      token = getenv "MEDIA_INTERNAL_TOKEN";
      public_base_url = getenv "MEDIA_PUBLIC_BASE_URL";
      roots = roots;
      serve_addr = or_bytes (getenv "MEDIA_SERVE_ADDR") (codes ":8090");
      mint_addr = or_bytes (getenv "MEDIA_MINT_ADDR") (codes ":8091");
      default_ttl = default_ttl;
      max_ttl = max_ttl;
    })

-- The configuration that `run` hands to mint.NewHandler.
abbrev pub mint_config : SidecarConfig → MintConfig
mint_config cfg = record {
  secret = cfg.secret;
  token = cfg.token;
  public_base_url = cfg.public_base_url;
  roots = cfg.roots;
  default_ttl = cfg.default_ttl;
  max_ttl = cfg.max_ttl;
}

-- The handler of the file server that `run` starts.
abbrev pub media_handler : SidecarConfig → MediaHandler
media_handler cfg = record { secret = cfg.secret; roots = cfg.roots }
