-- ===== src/Sidecar/Config/Laws.antt =====
-- The configurations that `loadConfig` of cmd/media-sidecar/main.go returns.
use mcp_media.Prelude.{
  ◌≡◌, refl, All, true, false, not, arith, List, Option, ◌∷◌, Bool-cases, some, inl, inr, [], none,
  Bool, ltb, length, subst,
}
use mcp_media.Text.{Bytes, is_empty}
use mcp_media.FilePath.{is_abs}
use mcp_media.Mint.Config.{Config as MintConfig, check_url}
use mcp_media.Mint.Config.{new_handler, check_ttls, built, of_config, is_http}
use mcp_media.Sidecar.Config.{
  SidecarConfig, mint_config, load_sidecar, read_roots, check_base_url, Parsing, wrong_scheme,
  hostless, no_secret, is_nil, weak_secret, missing_token, no_base_url, rootless, duration_env,
  bad_default, bad_max, relative_root,
}
use mcp_media.Checked.{ok, >>=-ok, guard-ok, ok_injective, guard, ◌>>=◌, err}
use mcp_media.Platform.{Library, Url}
use Prim.Native.String.{String}
use mcp_media.Prelude.Int.{ltb_ℤ, pos}

false_of_not : {b : Bool} → not b ≡ true → b ≡ false
false_of_not {b} h = ground arith

refused_root : {roots : List Bytes} → ¬ (err relative_root ≡ ok roots)
refused_root h = ground arith

module _ (lib : Library) (parsing : Parsing) (getenv : String → Bytes) where
  read_roots-is_abs :
      (parts roots : List Bytes)
      → read_roots lib parsing getenv parts ≡ ok roots
      → All (λ root. is_abs root ≡ true) roots
  unfolding read_roots
  read_roots-is_abs [] roots h = rw (← ok_injective h) tt
  read_roots-is_abs (part ∷ parts) roots h =
      elim (Bool-cases (is_empty (parsing.trim_space part))) [
        | inl blank ↦ read_roots-is_abs parts roots (rw blank at h)
        | inr filled ↦ elim (Bool-cases (is_abs (parsing.trim_space part))) [
          | inr relative ↦ absurd (refused_root (rw (filled, relative) at h))
          | inl rooted ↦
              let chain : (read_roots lib parsing getenv parts >>= λ rest.
              ok (parsing.trim_space part ∷ rest))
                  ≡ ok roots =
                rw (filled, rooted) at h in
              >>=-ok (read_roots lib parsing getenv parts) _ chain (λ rest read done.
                rw (← ok_injective done) (rooted, read_roots-is_abs parts rest read))
        ]
      ]

  check_base_url_sound :
      (u : Option Url) {x : Unit {0}}
      → check_base_url u ≡ ok x
      → (url : Url) × (u ≡ some url) × (is_http url.scheme ≡ true) × (is_empty url.host ≡ false)
  unfolding check_base_url
  check_base_url_sound none h = absurd (ground arith)
  check_base_url_sound (some url) h =
      >>=-ok (guard (is_http url.scheme) wrong_scheme) _ h (λ _ http h.
        >>=-ok (guard (not (is_empty url.host)) hostless) _ h
          (λ _ host _. (url, refl, guard-ok _ _ http, ground arith)))

  check_ttls-built :
      (cfg : MintConfig)
      → ltb_ℤ (pos 0) cfg.default_ttl ≡ true
      → ltb_ℤ cfg.max_ttl cfg.default_ttl ≡ false
      → is_nil cfg.roots ≡ false
      → check_ttls cfg ≡ built (of_config cfg)
  unfolding check_ttls
  check_ttls-built cfg positive ordered rooted = ground arith

  new_handler-built :
      (cfg : MintConfig) (u : Url)
      → ltb (length cfg.secret) 32 ≡ false
      → is_empty cfg.token ≡ false
      → lib.parse_url cfg.public_base_url ≡ some u
      → is_http u.scheme ≡ true
      → is_empty u.host ≡ false
      → check_ttls cfg ≡ built (of_config cfg)
      → new_handler lib cfg ≡ built (of_config cfg)
  unfolding new_handler check_url
  new_handler-built cfg u strong given parsed http host ttls =
      rw (strong, given, parsed, http, host) ttls

  -- Every configuration that `loadConfig` returns has absolute roots, and mint.NewHandler accepts it.
  pub load_sidecar-new_handler :
      (cfg : SidecarConfig)
      → load_sidecar lib parsing getenv ≡ ok cfg
      → All (λ root. is_abs root ≡ true) cfg.roots
        × (new_handler lib (mint_config cfg) ≡ built (of_config (mint_config cfg)))
  unfolding load_sidecar
  load_sidecar-new_handler cfg h =
      >>=-ok (guard (not (is_empty (getenv "MEDIA_SIGNING_SECRET"))) no_secret) _ h (λ _ _ h.
        >>=-ok (guard (not (ltb (length (getenv "MEDIA_SIGNING_SECRET")) 32)) weak_secret) _ h
          (λ _ strong h.
            >>=-ok (guard (not (is_empty (getenv "MEDIA_INTERNAL_TOKEN"))) missing_token) _ h
              (λ _ given h.
                >>=-ok (guard (not (is_empty (getenv "MEDIA_PUBLIC_BASE_URL"))) no_base_url) _ h
                  (λ _ _ h.
                    >>=-ok (check_base_url (lib.parse_url (getenv "MEDIA_PUBLIC_BASE_URL"))) _ h
                      (λ _ based h. >>=-ok (read_roots lib parsing getenv _) _ h (λ roots read h.
                        >>=-ok (guard (not (is_nil roots)) rootless) _ h (λ _ rooted h.
                          >>=-ok (duration_env lib parsing getenv "MEDIA_DEFAULT_TTL" _) _ h
                            (λ default_ttl _ h.
                              >>=-ok (duration_env lib parsing getenv "MEDIA_MAX_TTL" _) _ h
                                (λ max_ttl _ h.
                                  >>=-ok (guard (ltb_ℤ (pos 0) default_ttl) bad_default) _ h
                                    (λ _ positive h.
                                      >>=-ok (guard (not (ltb_ℤ max_ttl default_ttl)) bad_max) _ h
                                        (λ _ ordered h.
                                          let (u, parsed, http, host) =
                                            check_base_url_sound _ based in
                                          subst
                                            (λ c.
                                              All (λ root. is_abs root ≡ true) c.roots
                                              × (new_handler lib (mint_config c)
                                                  ≡ built (of_config (mint_config c))))
                                            (ok_injective h)
                                            (
                                              read_roots-is_abs _ roots read,
                                              new_handler-built _ u
                                                  (false_of_not (guard-ok _ _ strong))
                                                  (false_of_not (guard-ok _ _ given)) parsed http
                                                  host
                                                  (check_ttls-built _ (guard-ok _ _ positive)
                                                    (false_of_not (guard-ok _ _ ordered))
                                                    (false_of_not (guard-ok _ _ rooted))),
                                            ))))))))))))
