-- ===== src/Proxy/Start/Laws.antt =====
-- A configuration that was loaded is one that the proxy can run with.
use mcp_media.Prelude.{
  ◌≡◌, ◌≢◌, refl, Bool, true, false, ◌||◌, Option, none, some, [], ◌∷◌, if◌then◌else◌, arith, inl,
  inr, Bool-cases, ◌↔◌, sym, Option-cases, subst,
}
use mcp_media.Names.{String, ◌==◌, str_eq_iff}
use mcp_media.Text.{codes, trim_right, is_empty, text_eq}
use mcp_media.Checked.{Result, ok, err, ok_injective}
use mcp_media.Proxy.Mode.{Mode, full, standalone, wiring_for_mode}
use mcp_media.Proxy.Config.Laws.{IsUsable, load_config-IsUsable}
use mcp_media.Mint.Config.{is_http}
use mcp_media.Proxy.Config.{Config, load_config, StartError}
use mcp_media.Proxy.Start.{
  Libraries, UpstreamOptions, parsers, Downstream, RunError, start_client, start_enricher,
  media_options, upstream_options, upstream_failed, in_bytes, code_of, because, start_upstream,
  code_with, start_proxy, proxy_main,
}
use mcp_media.Proxy.MintClient.{MintClient, new_mint_client}
use mcp_media.Proxy.Enrich.{new_enricher}
use mcp_media.Shutdown.{Ended, cancelled, serve_until_iff}
use mcp_media.Prelude.Int.{pos}

codes-nonempty : (s : String) → (s == "") ≡ false → is_empty (codes s) ≡ false
codes-nonempty String.[] h = cc
codes-nonempty (String.◌∷◌ c s) h = unfold is_empty in refl

codes-given : (s : String) → s ≢ "" → is_empty (codes s) ≡ false
codes-given s given = elim (Bool-cases (s == "")) [
  | inl missing ↦ absurd (given ((str_eq_iff s "").0 missing))
  | inr other ↦ codes-nonempty s other
]

is_http-codes : (s : String) → (s == "http" || s == "https") ≡ true → is_http (codes s) ≡ true
unfolding is_http text_eq
is_http-codes s h = elim (Bool-cases (s == "http")) [
  | inl plain ↦ rw ((str_eq_iff s "http").0 plain) refl
  | inr other ↦ rw ((str_eq_iff s "https").0 (rw other at h)) refl
]

-- The client as it is set up.
abbrev pub client_of : Config → MintClient
client_of cfg = record { mint_url = trim_right b'/' (codes cfg.mint_url); token = codes cfg.token }

-- The upstream server of a configuration, with the names of the two generic tools kept from it.
abbrev pub upstream_of : Config → UpstreamOptions
upstream_of cfg = record {
  endpoint = cfg.upstream_url;
  reserved_tools = "stream_media" ∷ "download_file" ∷ [];
  auth_token = cfg.auth_token;
}

abbrev pub serving : Config → Option (String → Bool) → Option UpstreamOptions → Downstream
serving cfg enricher mirror = record {
  client = client_of cfg;
  tools = record {
    fetch_base_url = codes cfg.fetch_base_url;
    inline_max_bytes = pos cfg.inline_max_bytes;
  };
  enricher = enricher;
  mirror = mirror;
  auth_token = cfg.auth_token;
  listen_addr = cfg.listen_addr;
}

-- What a loaded configuration comes to, by its mode.
unfoldable pub started :
    Libraries → (UpstreamOptions → Bool) → Mode → Config → Result RunError Downstream
started lib connects standalone cfg = ok (serving cfg none none)
started lib connects full cfg =
    if connects (upstream_of cfg)
    then ok (
        serving cfg (if cfg.tool_match == "" then none else lib.compile cfg.tool_match)
          (some (upstream_of cfg)))
    else err upstream_failed

module _ (lib : Libraries) (cfg : Config) (usable : IsUsable (parsers lib) cfg) where
  start_client-usable : start_client lib cfg ≡ ok (client_of cfg)
  unfolding start_client new_mint_client in_bytes
  start_client-usable =
      let url = usable.mint_url in
      let scheme = is_http-codes url.url.scheme url.scheme_fits in
      let host = codes-nonempty url.url.host url.has_host in
      let token = codes-given cfg.token usable.has_token in
      rw (url.parsed, host, scheme, token) refl

  start_enricher-full :
      start_enricher lib (wiring_for_mode full) cfg.tool_match
      ≡ ok (if cfg.tool_match == "" then none else lib.compile cfg.tool_match)
  unfolding start_enricher wiring_for_mode new_enricher
  start_enricher-full = elim (Bool-cases (cfg.tool_match == "")) [
    | inl missing ↦ rw missing refl
    | inr given ↦ rw given (elim (Option-cases (lib.compile cfg.tool_match)) [
      | inl bad ↦ elim usable.match_compiles [
        | inl missing ↦ cc (given, (str_eq_iff cfg.tool_match "").1 missing)
        | inr good ↦ cc (rw bad at good)
      ]
      | inr (matches, good) ↦ rw good refl
    ])
  ]

  start-mode :
      (connects : UpstreamOptions → Bool) (mode : Mode)
      → cfg.mode ≡ mode
      → start_proxy lib connects cfg ≡ started lib connects mode cfg
  unfolding start_proxy because start_upstream started media_options
  start-mode connects standalone same =
      rw (start_client-usable, same) (unfold start_enricher wiring_for_mode in refl)
  start-mode connects full same =
      rw (start_client-usable, same, start_enricher-full)
        (unfold wiring_for_mode in
          elim (Bool-cases (connects (upstream_options cfg))) [
            | inl there ↦ rw there refl
            | inr away ↦ rw away refl
          ])

-- With a configuration that was loaded, `run` comes to serve, unless the proxy is in full mode and the
-- upstream server cannot be connected: neither the mint client nor the enricher refuses it. It serves
-- with the two generic tools reserved, and enriches exactly if a match of tool names is set.
pub start-started :
    (lib : Libraries) (connects : UpstreamOptions → Bool) (getenv : String → String) (cfg : Config)
    → load_config (parsers lib) getenv ≡ ok cfg
    → start_proxy lib connects cfg ≡ started lib connects cfg.mode cfg
start-started lib connects getenv cfg loaded =
    start-mode lib cfg (load_config-IsUsable (parsers lib) getenv cfg loaded) connects cfg.mode refl

-- Whether the upstream server matters, it can be connected.
abbrev pub IsReachable : (UpstreamOptions → Bool) → Mode → Config → Type 0
IsReachable connects standalone cfg = Unit
IsReachable connects full cfg = connects (upstream_options cfg) ≡ true

code_of-started :
    (lib : Libraries) (connects : UpstreamOptions → Bool) (mode : Mode) (cfg : Config)
    (ended : Ended) (graceful : Bool)
    → (code_of lib ended graceful (started lib connects mode cfg) ≡ 0)
      ↔ (IsReachable connects mode cfg × (ended ≡ cancelled) × (graceful ≡ true))
unfolding code_of started
code_of-started lib connects standalone cfg ended graceful =
    let (there, back) = serve_until_iff ended (("downstream", graceful) ∷ []) in
    ((λ h. let (e, (g, _)) = there h in (tt, e, g)), (λ (_, e, g). back (e, (g, tt))))
code_of-started lib connects full cfg ended graceful =
    let (there, back) = serve_until_iff ended (("downstream", graceful) ∷ []) in
    elim (Bool-cases (connects (upstream_options cfg))) [
      | inl up ↦
          rw up ((λ h. let (e, (g, _)) = there h in (refl, e, g)), (λ (_, e, g). back (e, (g, tt))))
      | inr down ↦ rw down ((λ h. absurd (omega arith)), (λ (h, _, _). cc))
    ]

abbrev pub EndsWell : (UpstreamOptions → Bool) → Result StartError Config → Ended → Bool → Type 0
EndsWell connects loaded ended graceful =
    (cfg : Config) × (loaded ≡ ok cfg)
    × IsReachable connects cfg.mode cfg
    × (ended ≡ cancelled)
    × (graceful ≡ true)

code_with-EndsWell :
    (lib : Libraries) (connects : UpstreamOptions → Bool) (getenv : String → String) (ended : Ended)
    (graceful : Bool) (r : Result StartError Config)
    → load_config (parsers lib) getenv ≡ r
    → (code_with lib connects ended graceful r ≡ 0) ↔ EndsWell connects r ended graceful
unfolding code_with
code_with-EndsWell lib connects getenv ended graceful (err e) loaded =
    ((λ h. absurd (omega arith)), (λ (cfg, h, _, _, _). absurd (ground arith)))
code_with-EndsWell lib connects getenv ended graceful (ok cfg) loaded =
    let (there, back) = code_of-started lib connects cfg.mode cfg ended graceful in
    rw (start-started lib connects getenv cfg loaded) (
      (λ h. let (up, e, g) = there h in (cfg, refl, up, e, g)),
      (λ (other, same, up, e, g).
          back (subst (λ c. IsReachable connects c.mode c) (sym (ok_injective same)) up, e, g)),
    )

-- The program ends with code 0 exactly if its configuration loads, in full mode the upstream server can
-- be connected, serving is ended from outside and not by an error, and the shutdown is graceful.
pub proxy_main_iff :
    (lib : Libraries) (connects : UpstreamOptions → Bool) (getenv : String → String) (ended : Ended)
    (graceful : Bool)
    → (proxy_main lib connects getenv ended graceful ≡ 0)
      ↔ EndsWell connects (load_config (parsers lib) getenv) ended graceful
unfolding proxy_main
proxy_main_iff lib connects getenv ended graceful =
    code_with-EndsWell lib connects getenv ended graceful (load_config (parsers lib) getenv) refl
