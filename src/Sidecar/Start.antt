-- ===== src/Sidecar/Start.antt =====
-- The start of `run` of cmd/media-sidecar/main.go, up to the two servers it serves.
use mcp_media.Prelude.{
  ◌≡◌, ◌↔◌, refl, true, List, [], ◌∷◌, All, Bool-cases, inl, inr, arith, if◌then◌else◌,
}
use mcp_media.Names.{String}
use mcp_media.Text.{Bytes}
use mcp_media.Checked.{Result, ok, err, ◌>>=◌, >>=-ok}
use mcp_media.Platform.{Library, FileSystem, FileResult, FileError, FileInfo, failed, ok as found}
use mcp_media.Serve.Handler.{MediaHandler}
use mcp_media.Mint.Config.{MintHandler, ConfigError, Built, built, refused, new_handler, of_config}
use mcp_media.Sidecar.Config.{SidecarConfig, Parsing, load_sidecar, mint_config, media_handler}
use mcp_media.Sidecar.Config.Laws.{load_sidecar-new_handler}

pub data StartError : Type 0 where
  unreadable_root : FileError → StartError
  file_root : StartError
  refused_config : ConfigError → StartError

-- The handlers of the two servers.
pub record Servers : Type 0 where
  pub serve : MediaHandler
  pub mint : MintHandler

-- What os.Stat says of a root, and the check of the later ones.
unfoldable pub check_stat :
    FileResult FileInfo → Result StartError (Unit {0}) → Result StartError (Unit {0})
check_stat (failed e) later = err (unreadable_root e)
check_stat (found info) later = if info.is_dir then later else err file_root

unfoldable pub check_roots_at_start : FileSystem → List Bytes → Result StartError (Unit {0})
check_roots_at_start fs [] = ok tt
check_roots_at_start fs (root ∷ roots) = check_stat (fs.stat root) (check_roots_at_start fs roots)

unfoldable pub with_mint : SidecarConfig → Built → Result StartError Servers
with_mint cfg (refused e) = err (refused_config e)
with_mint cfg (built h) = ok (record { serve = media_handler cfg; mint = h })

unfoldable pub start : Library → FileSystem → SidecarConfig → Result StartError Servers
start lib fs cfg =
    check_roots_at_start fs cfg.roots >>= λ _. with_mint cfg (new_handler lib (mint_config cfg))

abbrev pub IsDirectory : FileSystem → Bytes → Type 0
IsDirectory fs root = (info : FileInfo) × (fs.stat root ≡ found info) × (info.is_dir ≡ true)

check_stat_iff :
    (fs : FileSystem) (root : Bytes) (r : FileResult FileInfo)
    (later : Result StartError (Unit {0}))
    → fs.stat root ≡ r
    → (check_stat r later ≡ ok tt) ↔ (IsDirectory fs root × (later ≡ ok tt))
unfolding check_stat
check_stat_iff fs root (failed e) later read =
    ((λ h. absurd (ground arith)), (λ ((info, there, dir), rest). absurd (ground arith)))
check_stat_iff fs root (found info) later read = elim (Bool-cases info.is_dir) [
  | inl dir ↦ rw dir ((λ h. ((info, read, dir), h)), (λ (is, rest). rest))
  | inr file ↦ rw file (
    (λ h. absurd (ground arith)),
    (λ ((info', there, dir), rest).
        let same : info ≡ info' = ground arith in absurd (ground (arith, same))),
  )
]

check_roots_at_start_iff :
    (fs : FileSystem) (roots : List Bytes)
    → (check_roots_at_start fs roots ≡ ok tt) ↔ All (IsDirectory fs) roots
unfolding check_roots_at_start
check_roots_at_start_iff fs [] = ((λ h. tt), (λ h. refl))
check_roots_at_start_iff fs (root ∷ roots) =
    let here = check_stat_iff fs root (fs.stat root) (check_roots_at_start fs roots) refl in
    let later = check_roots_at_start_iff fs roots in
    (
      (λ h. let (is, rest) = here.0 h in (is, later.0 rest)),
      (λ (is, rest). here.1 (is, later.1 rest)),
    )

pub start-IsDirectory :
    (lib : Library) (fs : FileSystem) (cfg : SidecarConfig) (servers : Servers)
    → start lib fs cfg ≡ ok servers
    → All (IsDirectory fs) cfg.roots
unfolding start
start-IsDirectory lib fs cfg servers h =
    >>=-ok (check_roots_at_start fs cfg.roots) _ h
      (λ u checked _. (check_roots_at_start_iff fs cfg.roots).0 checked)

-- With a configuration that `loadConfig` returned, `run` goes on to serve, with handlers of that
-- configuration, exactly if every root is a directory.
pub start_iff :
    (lib : Library) (parsing : Parsing) (getenv : String → Bytes) (fs : FileSystem)
    (cfg : SidecarConfig)
    → load_sidecar lib parsing getenv ≡ ok cfg
    → (start lib fs cfg
        ≡ ok (record { serve = media_handler cfg; mint = of_config (mint_config cfg) }))
      ↔ All (IsDirectory fs) cfg.roots
unfolding start with_mint
start_iff lib parsing getenv fs cfg loaded =
    let (_, accepted) = load_sidecar-new_handler lib parsing getenv cfg loaded in
    (
      start-IsDirectory lib fs cfg _,
      (λ h. rw ((check_roots_at_start_iff fs cfg.roots).1 h, accepted) refl),
    )
