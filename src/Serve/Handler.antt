-- ===== src/Serve/Handler.antt =====
-- `ServeHTTP` of internal/serve/handler.go.
pub mod Laws
pub mod Refused
use Prim.Native.String.{String}
use mcp_media.Prelude.{
  ℕ, Bool, not, ◌&&◌, Option, none, some, List, ◌∷◌, ◌++◌, if◌then◌else◌, ◌||◌, [],
}
use mcp_media.Text.{Bytes, codes, text_eq, is_empty}
use mcp_media.Sign.Clock.{Time}
use mcp_media.Platform.{
  Library, FileSystem, FileResult, FileInfo, File, failed, ok, not_exist, other_error,
}
use mcp_media.Mime.{mime_for}
use mcp_media.Serve.Resolve.{Resolved, rejected, resolve, file_error, resolved, out_of_fuel, escape}
use mcp_media.Prelude.Int.{ℤ}
use mcp_media.Sign.Decimal.{parse_int}
use mcp_media.Serve.Filename.{sanitize_filename}
use mcp_media.Sign.{verify}
use mcp_media.Base64.{decode}
use mcp_media.FilePath.{base}

-- The path values and the query parameters of a request; an absent parameter is empty.
pub record Request : Type 0 where
  pub path_b64 : Bytes
  pub filename : Bytes
  pub exp : Bytes
  pub sig : Bytes
  pub d : Bytes

pub record Headers : Type 0 where
  pub content_type : Bytes
  pub content_disposition : Bytes
  pub cache_control : Bytes
  pub content_type_options : Bytes

-- An error of http.Error, or what is handed to http.ServeContent: the headers and the file's path.
pub data Response : Type 0 where
  http_error : ℕ → String → Response
  content : Headers → Bytes → Response

pub record MediaHandler : Type 0 where
  pub secret : Bytes
  pub roots : List Bytes

abbrev pub inline : Bytes
inline = codes "inline"

abbrev pub attachment : Bytes
attachment = codes "attachment"

-- An omitted disposition is "attachment".
unfoldable pub or_attachment : Bytes → Bytes
or_attachment d = if is_empty d then attachment else d

unfoldable pub is_disposition : Bytes → Bool
is_disposition d = text_eq d inline || text_eq d attachment

module _ (lib : Library) (fs : FileSystem) (now : Time) (h : MediaHandler) where
  abbrev pub headers : Bytes → Bytes → Bytes → Headers
  headers resolved_path filename disposition = record {
    content_type = mime_for lib fs resolved_path;
    content_disposition =
        disposition
        ++ (codes "; filename=\""
            ++ (sanitize_filename lib.valid_utf8
                  (if is_empty filename then base resolved_path else filename)
                ++ (0x22 ∷ [])));
    cache_control = codes "private, no-store";
    content_type_options = codes "nosniff";
  }

  -- What follows a successful Stat.
  unfoldable pub serve_stat : Bytes → Bytes → Bytes → FileResult FileInfo → Response
  serve_stat path filename disposition (failed _) = http_error 500 "internal error"
  serve_stat path filename disposition (ok info) =
      if info.is_dir
      then http_error 404 "not found"
      else content (headers path filename disposition) path

  unfoldable pub serve_open : Bytes → Bytes → Bytes → FileResult File → Response
  serve_open path filename disposition (failed not_exist) = http_error 404 "not found"
  serve_open path filename disposition (failed other_error) = http_error 500 "internal error"
  serve_open path filename disposition (ok file) = serve_stat path filename disposition file.info

  -- The switch on the error of `Resolve`. A call that does not return gives no response.
  unfoldable pub serve_resolved : Bytes → Bytes → Resolved → Option Response
  serve_resolved filename disposition out_of_fuel = none
  serve_resolved filename disposition (rejected escape) = some (http_error 403 "forbidden")
  serve_resolved filename disposition (rejected (file_error not_exist)) =
      some (http_error 404 "not found")
  serve_resolved filename disposition (rejected (file_error other_error)) =
      some (http_error 500 "internal error")
  serve_resolved filename disposition (resolved path) =
      some (serve_open path filename disposition (fs.open_file path))

  -- The steps behind the checks of the parameters.
  unfoldable pub serve_path : ℕ → Request → ℤ → Bytes → Bytes → Option Response
  serve_path fuel r exp disposition path =
      elim (verify lib.mac h.secret r.path_b64 exp disposition r.sig now) [
        | some _ ↦ some (http_error 403 "forbidden")
        | none ↦ serve_resolved r.filename disposition (resolve fs fuel h.roots path)
      ]

  unfoldable pub serve_exp : ℕ → Request → ℤ → Option Response
  serve_exp fuel r exp =
      if is_empty r.sig
      then some (http_error 400 "missing sig parameter")
      else if not (is_disposition (or_attachment r.d))
      then some (http_error 400 "invalid d parameter")
      else elim (decode r.path_b64) [
        | none ↦ some (http_error 400 "invalid path encoding")
        | some path ↦ serve_path fuel r exp (or_attachment r.d) path
      ]

  -- `ServeHTTP`, with the fuel of `Resolve`. The parse of an empty `exp` is an error by itself.
  unfoldable pub serve_http : ℕ → Request → Option Response
  serve_http fuel r = elim (parse_int r.exp) [
    | none ↦ some (http_error 400 "missing or invalid exp parameter")
    | some exp ↦
        if is_empty r.exp
        then some (http_error 400 "missing or invalid exp parameter")
        else serve_exp fuel r exp
  ]
