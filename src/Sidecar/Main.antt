-- ===== src/Sidecar/Main.antt =====
-- The end of `run` and `main` of cmd/media-sidecar/main.go.
use mcp_media.Prelude.{◌≡◌, ◌↔◌, refl, ℕ, Bool, List, All, arith, subst, sym, ◌∷◌, true, [], false}
use mcp_media.Names.{String}
use mcp_media.Text.{Bytes}
use mcp_media.Checked.{Result, ok, err, ok_injective}
use mcp_media.Platform.{Library, FileSystem}
use mcp_media.Sidecar.Config.{SidecarConfig, SidecarError, Parsing, load_sidecar}
use mcp_media.Sidecar.Start.{StartError, Servers, start, start_iff, IsDirectory, start-IsDirectory}
use mcp_media.Shutdown.{Ended, cancelled, serve_until, serve_until_iff, exit_code, IsGraceful}

-- How the two servers end: whether one of them dies, which is shut down first (they stand in a Go map),
-- and which shut down gracefully.
pub record Ending : Type 0 where
  pub ended : Ended
  pub serve_first : Bool
  pub serve_graceful : Bool
  pub mint_graceful : Bool

unfoldable pub in_order : Bool → Bool → Bool → List (String × Bool)
in_order true serve mint = ("serve", serve) ∷ ("mint", mint) ∷ []
in_order false serve mint = ("mint", mint) ∷ ("serve", serve) ∷ []

in_order_iff :
    (first serve mint : Bool)
    → All IsGraceful (in_order first serve mint) ↔ ((serve ≡ true) × (mint ≡ true))
unfolding in_order
in_order_iff true serve mint = ((λ (s, (m, _)). (s, m)), (λ (s, m). (s, (m, tt))))
in_order_iff false serve mint = ((λ (m, (s, _)). (s, m)), (λ (s, m). (m, (s, tt))))

unfoldable pub code_of_run : Ending → Result StartError Servers → ℕ
code_of_run e (err _) = 1
code_of_run e (ok servers) =
    exit_code (serve_until e.ended (in_order e.serve_first e.serve_graceful e.mint_graceful))

unfoldable pub code_of_config :
    Library → FileSystem → Ending → Result SidecarError SidecarConfig → ℕ
code_of_config lib fs e (err _) = 1
code_of_config lib fs e (ok cfg) = code_of_run e (start lib fs cfg)

-- `main`
unfoldable pub sidecar_main : Library → Parsing → FileSystem → (String → Bytes) → Ending → ℕ
sidecar_main lib parsing fs getenv e = code_of_config lib fs e (load_sidecar lib parsing getenv)

abbrev pub Served : FileSystem → Ending → Result SidecarError SidecarConfig → Type 0
Served fs e loaded =
    (cfg : SidecarConfig) × (loaded ≡ ok cfg)
    × All (IsDirectory fs) cfg.roots
    × (e.ended ≡ cancelled)
    × (e.serve_graceful ≡ true)
    × (e.mint_graceful ≡ true)

module _ (lib : Library) (parsing : Parsing) (fs : FileSystem) (getenv : String → Bytes)
    (e : Ending) where
  code_of_run-Served :
      (cfg : SidecarConfig) (r : Result StartError Servers)
      → load_sidecar lib parsing getenv ≡ ok cfg
      → start lib fs cfg ≡ r
      → (code_of_run e r ≡ 0) ↔ Served fs e (ok cfg)
  unfolding code_of_run
  code_of_run-Served cfg (err x) loaded started = (
    (λ h. absurd (omega arith)),
    (λ (other, same, dirs, _, _, _). cc (
      started,
      (start_iff lib parsing getenv fs cfg loaded).1 (
          subst (λ (c : SidecarConfig). All (IsDirectory fs) c.roots) (sym (ok_injective same))
            dirs),
    )),
  )
  code_of_run-Served cfg (ok servers) loaded started =
      let (there, back) =
        serve_until_iff e.ended (in_order e.serve_first e.serve_graceful e.mint_graceful) in
      let (each, both) = in_order_iff e.serve_first e.serve_graceful e.mint_graceful in
      (
        (λ h.
            let (stop, good) = there h in
            let (s, m) = each good in
            (cfg, refl, start-IsDirectory lib fs cfg servers started, stop, s, m)),
        (λ (_, _, _, stop, s, m). back (stop, both (s, m))),
      )

  code_of_config-Served :
      (r : Result SidecarError SidecarConfig)
      → load_sidecar lib parsing getenv ≡ r
      → (code_of_config lib fs e r ≡ 0) ↔ Served fs e r
  unfolding code_of_config
  code_of_config-Served (err x) loaded =
      ((λ h. absurd (omega arith)), (λ (cfg, h, _, _, _, _). absurd (ground arith)))
  code_of_config-Served (ok cfg) loaded = code_of_run-Served cfg (start lib fs cfg) loaded refl

  -- The sidecar ends with code 0 exactly if its configuration loads, every root is a directory, serving
  -- is ended from outside and not by an error of a server, and every server shuts down gracefully.
  pub sidecar_main_iff :
      (sidecar_main lib parsing fs getenv e ≡ 0) ↔ Served fs e (load_sidecar lib parsing getenv)
  unfolding sidecar_main
  sidecar_main_iff = code_of_config-Served (load_sidecar lib parsing getenv) refl
