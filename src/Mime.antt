-- ===== src/Mime.antt =====
-- internal/mime/mime.go
use mcp_media.Prelude.{Option, none, some, List, [], ◌∷◌, if◌then◌else◌, ◌==◌}
use mcp_media.Text.{Bytes, codes, text_eq, is_empty, to_lower}
use mcp_media.FilePath.{slash}
use mcp_media.Platform.{FileSystem, FileResult, File, Library, ok, failed}

abbrev fallback_type : Bytes
fallback_type = codes "application/octet-stream"

-- `extTypes`
unfoldable pub ext_types : List (Bytes × Bytes)
ext_types =
    (codes ".ogg", codes "audio/ogg")
    ∷ (codes ".opus", codes "audio/opus")
    ∷ (codes ".mp3", codes "audio/mpeg")
    ∷ (codes ".wav", codes "audio/wav")
    ∷ (codes ".m4a", codes "audio/mp4")
    ∷ (codes ".flac", codes "audio/flac")
    ∷ (codes ".mp4", codes "video/mp4")
    ∷ (codes ".webm", codes "video/webm")
    ∷ (codes ".mkv", codes "video/x-matroska")
    ∷ (codes ".mov", codes "video/quicktime")
    ∷ (codes ".jpg", codes "image/jpeg")
    ∷ (codes ".jpeg", codes "image/jpeg")
    ∷ (codes ".png", codes "image/png")
    ∷ (codes ".gif", codes "image/gif")
    ∷ (codes ".webp", codes "image/webp")
    ∷ (codes ".svg", codes "image/svg+xml")
    ∷ (codes ".bmp", codes "image/bmp")
    ∷ (codes ".pdf", codes "application/pdf")
    ∷ (codes ".txt", codes "text/plain; charset=utf-8")
    ∷ (codes ".md", codes "text/markdown; charset=utf-8")
    ∷ (codes ".json", codes "application/json")
    ∷ (codes ".csv", codes "text/csv; charset=utf-8")
    ∷ (codes ".html", codes "text/html; charset=utf-8")
    ∷ []

unfoldable pub lookup_ext : Bytes → List (Bytes × Bytes) → Option Bytes
lookup_ext ext [] = none
lookup_ext ext ((key, typ) ∷ table) = if text_eq key ext then some typ else lookup_ext ext table

-- filepath.Ext: from the last dot of the last element on, or nothing.
unfoldable pub ext_from : Bytes → Bytes → Bytes
ext_from found [] = found
ext_from found (c ∷ s) = ext_from (if c == slash then [] else if c == b'.' then c ∷ s else found) s

abbrev pub ext : Bytes → Bytes
ext p = ext_from [] p

module _ (lib : Library) (fs : FileSystem) where
  -- What sniffing makes of an opened file.
  unfoldable pub sniff_content : FileResult Bytes → Bytes
  sniff_content (ok bytes) = lib.detect_content_type bytes
  sniff_content (failed _) = fallback_type

  unfoldable pub sniff_opened : FileResult File → Bytes
  sniff_opened (ok file) = sniff_content file.leading_bytes
  sniff_opened (failed _) = fallback_type

  -- `sniff`
  unfoldable pub sniff : Bytes → Bytes
  sniff path = sniff_opened (fs.open_file path)

  -- The type by extension, else by content.
  unfoldable pub type_for : Bytes → Bytes → Bytes
  type_for path e = if is_empty e then sniff path else elim (lookup_ext e ext_types) [
    | some typ ↦ typ
    | none ↦ if is_empty (lib.type_by_extension e) then sniff path else lib.type_by_extension e
  ]

  -- `For`
  unfoldable pub mime_for : Bytes → Bytes
  mime_for path = type_for path (to_lower (ext path))
