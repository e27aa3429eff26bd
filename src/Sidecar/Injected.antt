-- ===== src/Sidecar/Injected.antt =====
-- What cmd/media-sidecar/main.go loads in a container that internal/webhook/v1/inject.go added.
use mcp_media.Prelude.{
  ◌≡◌, refl, [], ◌∷◌, true, false, arith, if◌then◌else◌, ltb, length, some, none, Option,
  Bool-cases, inl, inr, ℕ,
}
use mathlib.Core.List.{map}
use text.Mathlib.TextLemmas.{cons-append}
use mcp_media.Names.{String, ◌<>◌, ◌==◌}
use mcp_media.Prelude.Int.{ℤ, pos}
use mcp_media.Text.{Bytes, codes, is_empty, split, Lacks}
use mcp_media.FilePath.{is_abs}
use mcp_media.Platform.{Library, Url}
use mcp_media.Mint.Config.{is_http}
use mcp_media.Checked.{ok, err}
use mcp_media.Webhook.Pod.{Pod}
use mcp_media.Webhook.Env.{getenv_in}
use mcp_media.Webhook.Annotations.{InjectionRequest}
use mcp_media.Webhook.Inject.{Images, sidecar_container, media_path, public_url_of, or_else}
use mcp_media.Sidecar.Config.{
  Parsing, SidecarConfig, load_sidecar, relative_root, check_base_url, read_roots, read_duration,
  duration_env,
}

split-Lacks : (c : ℕ) (s : Bytes) → Lacks c s → split c s ≡ s ∷ []
unfolding split
split-Lacks c [] h = refl
split-Lacks c (a ∷ s) (other, h) = rw (split-Lacks c s h) ground arith

is_empty-or_else :
    (s d : String) → is_empty (codes d) ≡ false → is_empty (codes (or_else s d)) ≡ false
unfolding is_empty
is_empty-or_else String.[] d h = h
is_empty-or_else (String.◌∷◌ c s) d h = elim (Bool-cases (String.◌∷◌ c s == "")) [
  | inl missing ↦ rw missing h
  | inr given ↦ rw given refl
]

url_filled : (x : String) → is_empty (codes ("http://" <> x)) ≡ false
unfolding is_empty
url_filled x =
    let first : "http://" <> x ≡ String.◌∷◌ "h" ("ttp://" <> x) = cons-append "h" "ttp://" x in
    rw first refl

strong_filled : (secret : Bytes) → ltb (length secret) 32 ≡ false → is_empty secret ≡ false
unfolding is_empty
strong_filled [] h = absurd (ground arith)
strong_filled (_ ∷ _) h = refl

check_base_url-accepted :
    (u : Url)
    → is_http u.scheme ≡ true
    → is_empty u.host ≡ false
    → u.has_user ≡ false
    → check_base_url (some u) ≡ ok tt
unfolding check_base_url
check_base_url-accepted u http host user = rw (http, host, user) refl

module _ (lib : Library) (parsing : Parsing) (getenv : String → Bytes) where
  -- A duration that is not set has its default.
  read_duration-unset :
      (d : ℤ) (parsed : Option ℤ) → read_duration lib parsing getenv [] d parsed ≡ ok d
  unfolding read_duration is_empty
  read_duration-unset d none = refl
  read_duration-unset d (some z) = refl

  -- One root is taken if it is absolute.
  read_roots-one :
      (root : Bytes)
      → parsing.trim_space root ≡ root
      → is_empty root ≡ false
      → read_roots lib parsing getenv (root ∷ [])
        ≡ (if is_abs root then ok (root ∷ []) else err relative_root)
  unfolding read_roots
  read_roots-one root trimmed filled =
      rw (trimmed, filled)
        (elim (Bool-cases (is_abs root)) [
          | inl rooted ↦ rw rooted refl
          | inr relative ↦ rw relative refl
        ])

  -- What is loaded where one root and no address and lifetime is set.
  load_sidecar-one :
      (u : Url) (root : Bytes)
      → ltb (length (getenv "MEDIA_SIGNING_SECRET")) 32 ≡ false
      → is_empty (getenv "MEDIA_INTERNAL_TOKEN") ≡ false
      → is_empty (getenv "MEDIA_PUBLIC_BASE_URL") ≡ false
      → lib.parse_url (getenv "MEDIA_PUBLIC_BASE_URL") ≡ some u
      → check_base_url (some u) ≡ ok tt
      → getenv "MEDIA_ROOTS" ≡ root
      → Lacks b',' root
      → parsing.trim_space root ≡ root
      → is_empty root ≡ false
      → getenv "MEDIA_SERVE_ADDR" ≡ []
      → getenv "MEDIA_MINT_ADDR" ≡ []
      → getenv "MEDIA_DEFAULT_TTL" ≡ []
      → getenv "MEDIA_MAX_TTL" ≡ []
      → load_sidecar lib parsing getenv ≡ (
          if is_abs root
          then ok (record {
            secret = getenv "MEDIA_SIGNING_SECRET";
            token = getenv "MEDIA_INTERNAL_TOKEN";
            public_base_url = getenv "MEDIA_PUBLIC_BASE_URL";
            roots = root ∷ [];
            serve_addr = codes ":8090";
            mint_addr = codes ":8091";
            default_ttl = pos 300000000000;
            max_ttl = pos 900000000000;
          })
          else err relative_root)
  unfolding load_sidecar duration_env is_empty
  load_sidecar-one u root strong given based parsed accepted here lacks trimmed filled serve mint
        default_ttl max_ttl =
      rw
        (
          strong_filled _ strong,
          strong,
          given,
          based,
          parsed,
          accepted,
          here,
          filled,
          split-Lacks b',' root lacks,
          read_roots-one root trimmed filled,
          default_ttl,
          max_ttl,
          serve,
          mint,
        )
        (elim (Bool-cases (is_abs root)) [
          | inl rooted ↦ rw (rooted, read_duration-unset _ _, read_duration-unset _ _) refl
          | inr relative ↦ rw relative refl
        ])

module _ (secrets : String → String) (im : Images) (pod : Pod) (req : InjectionRequest) where
  -- The environment of the added container.
  abbrev injected : String → Bytes
  injected key = codes (getenv_in secrets (sidecar_container im pod req).env key)

  -- The values that the webhook wrote, as the one root the place where the container has the media
  -- volume, and the defaults.
  abbrev pub injected_config : SidecarConfig
  injected_config = record {
    secret = codes (secrets im.signing_secret_name);
    token = codes (secrets im.internal_token_secret);
    public_base_url = codes (public_url_of pod req);
    roots = map (λ m. codes m.mount_path) (sidecar_container im pod req).volume_mounts;
    serve_addr = codes ":8090";
    mint_addr = codes ":8091";
    default_ttl = pos 300000000000;
    max_ttl = pos 900000000000;
  }

  -- Where the signing secret has 32 bytes or more, the token is not empty, the public URL is an http or
  -- https URL with a host and no user, and the volume path has no comma and no space around it, the
  -- added sidecar loads the values that the webhook wrote, with the path where the media volume is
  -- mounted as its one root, and defaults for the rest. If that path is not absolute, it ends with the
  -- error for a relative root instead.
  pub injected-loaded :
      (lib : Library) (parsing : Parsing) (u : Url)
      → ltb (length (codes (secrets im.signing_secret_name))) 32 ≡ false
      → is_empty (codes (secrets im.internal_token_secret)) ≡ false
      → lib.parse_url (codes (public_url_of pod req)) ≡ some u
      → is_http u.scheme ≡ true
      → is_empty u.host ≡ false
      → u.has_user ≡ false
      → Lacks b',' (codes (media_path req))
      → parsing.trim_space (codes (media_path req)) ≡ codes (media_path req)
      → load_sidecar lib parsing injected
        ≡ (if is_abs (codes (media_path req)) then ok injected_config else err relative_root)
  unfolding getenv_in is_empty
  injected-loaded lib parsing u strong given parsed http host user lacks trimmed =
      load_sidecar-one lib parsing injected u (codes (media_path req)) strong given
        (is_empty-or_else req.public_url _ (url_filled _)) parsed
        (check_base_url-accepted u http host user) refl lacks trimmed
        (is_empty-or_else req.volume_path "/data" refl) refl refl refl refl
