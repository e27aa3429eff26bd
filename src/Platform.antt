-- ===== src/Platform.antt =====
-- What the program takes from its surroundings: the file system as one request sees it, and the
-- functions of Go's standard library whose tables and ciphers are not modelled.
use mcp_media.Prelude.{ℕ, Bool, Option}
use mcp_media.Prelude.Int.{ℤ}
use mcp_media.Text.{Bytes}

-- An error of package os; the program only asks whether it is os.ErrNotExist.
pub data FileError : Type 0 where
  not_exist other_error : FileError

pub data FileResult {ℓ} (A : Type ℓ) : Type ℓ where
  ok : A → FileResult A
  failed : FileError → FileResult A

-- os.FileInfo
pub record FileInfo : Type 0 where
  pub is_dir : Bool
  pub size : ℕ

-- An open file: what its Stat returns, and what reading up to 512 bytes returns.
pub record File : Type 0 where
  pub info : FileResult FileInfo
  pub leading_bytes : FileResult Bytes

pub record FileSystem : Type 0 where
  -- filepath.EvalSymlinks
  pub eval_symlinks : Bytes → FileResult Bytes
  -- os.Open
  pub open_file : Bytes → FileResult File
  -- os.Stat
  pub stat : Bytes → FileResult FileInfo

-- url.URL, as far as it is read
pub record Url : Type 0 where
  pub scheme : Bytes
  pub host : Bytes
  pub has_user : Bool

pub record Library : Type 0 where
  -- HMAC-SHA256 of a key and a message
  pub mac : Bytes → Bytes → Bytes
  -- mime.TypeByExtension of the standard library, which reads tables of the system
  pub type_by_extension : Bytes → Bytes
  -- http.DetectContentType
  pub detect_content_type : Bytes → Bytes
  -- A text with each invalid UTF-8 byte replaced by U+FFFD, as strings.Map reads it
  pub valid_utf8 : Bytes → Bytes
  -- url.Parse; `none` is an error
  pub parse_url : Bytes → Option Url
  -- The media type that mime.ParseMediaType finds; `none` is an error
  pub parse_media_type : Bytes → Option Bytes
  -- url.PathEscape
  pub path_escape : Bytes → Bytes
  -- The RFC 3339 form of a Unix time in UTC
  pub rfc3339 : ℤ → Bytes
