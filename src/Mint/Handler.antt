-- ===== src/Mint/Handler.antt =====
-- `ServeHTTP`, `authorized` and `mint` of internal/mint/handler.go.
pub mod Laws
use Prim.Native.String.{String}
use mcp_media.Prelude.{
  ℕ, Bool, not, ◌&&◌, Option, none, some, List, ◌∷◌, ◌++◌, if◌then◌else◌, false, ltb, true, length,
}
use mcp_media.Text.{Bytes, codes, text_eq, is_empty, cut, equal_fold}
use mcp_media.Prelude.Int.{ℤ, negsuc, pos}
use mcp_media.Mint.Config.{MintHandler}
use mcp_media.Platform.{
  Library, FileSystem, FileResult, FileInfo, failed, ok, not_exist, other_error,
}
use mcp_media.Sign.Clock.{Time, to_unix, add}
use mcp_media.Base64.{encode}
use mcp_media.Serve.Resolve.{Resolved, rejected, resolve, file_error, resolved, out_of_fuel, escape}
use mcp_media.Serve.Handler.{is_disposition, or_attachment}
use mcp_media.FilePath.{slash, base}
use mcp_media.Mint.Ttl.{clamp_ttl}
use mcp_media.Sign.Decimal.{format_int}
use mcp_media.Sign.{sign}
use mcp_media.Mime.{mime_for}

-- `mintRequest`
pub record MintRequest : Type 0 where
  pub path : Bytes
  pub disposition : Bytes
  pub ttl_seconds : ℤ

-- What the handler reads of a request.
pub record HttpRequest : Type 0 where
  pub url_path : Bytes
  pub method : Bytes
  pub authorization : Bytes
  pub content_type : Bytes
  pub body : Bytes

-- `mintResponse`
pub record MintResponse : Type 0 where
  pub url : Bytes
  pub expires_at : Bytes
  pub size_bytes : ℕ
  pub mime_type : Bytes

-- The header that comes with a refusal of the method, and with one of the token.
pub data ExtraHeader : Type 0 where
  no_header allow_post challenge_bearer : ExtraHeader

-- Both kinds are JSON that must not be stored.
pub data Reply : Type 0 where
  error : ℕ → String → ExtraHeader → Reply
  minted : MintResponse → Reply

abbrev fails : ℕ → String → Option Reply
fails status message = some (error status message no_header)

abbrev max_request_bytes : ℕ
max_request_bytes = 4096

-- `authorized`, on the Authorization header
unfoldable pub authorized_parts : MintHandler → Option (Bytes × Bytes) → Bool
authorized_parts h none = false
authorized_parts h (some (scheme, token)) =
    equal_fold scheme (codes "Bearer") && text_eq token h.token

unfoldable pub authorized : MintHandler → Bytes → Bool
authorized h header = authorized_parts h (cut 0x20 header)

module _ (lib : Library) (fs : FileSystem) (now : Time) (h : MintHandler) where
  -- The signed URL of a file.
  unfoldable pub minted_url : Bytes → Bytes → ℤ → Bytes
  minted_url resolved_path disposition exp =
      let path_b64 = encode resolved_path in
      h.base_url
      ++ (codes "/media/"
          ++ (path_b64
              ++ (slash
                  ∷ (lib.path_escape (base resolved_path)
                      ++ (codes "?exp="
                          ++ (format_int exp
                              ++ (codes "&d="
                                  ++ (disposition
                                      ++ (codes "&sig="
                                          ++ sign lib.mac h.secret path_b64 exp disposition)))))))))

  abbrev pub expiry : ℕ → ℤ
  expiry ttl_seconds = to_unix (add now (clamp_ttl h ttl_seconds))

  abbrev pub answer : Bytes → Bytes → ℕ → FileInfo → MintResponse
  answer path disposition ttl_seconds info = record {
    url = minted_url path disposition (expiry ttl_seconds);
    expires_at = lib.rfc3339 (expiry ttl_seconds);
    size_bytes = info.size;
    mime_type = mime_for lib fs path;
  }

  unfoldable pub mint_stat : Bytes → Bytes → ℕ → FileResult FileInfo → Reply
  mint_stat path disposition ttl_seconds (failed not_exist) = error 404 "not found" no_header
  mint_stat path disposition ttl_seconds (failed other_error) = error 500 "internal error" no_header
  mint_stat path disposition ttl_seconds (ok info) =
      if info.is_dir
      then error 400 "path is a directory" no_header
      else minted (answer path disposition ttl_seconds info)

  unfoldable pub mint_resolved : Bytes → ℕ → Resolved → Option Reply
  mint_resolved disposition ttl_seconds out_of_fuel = none
  mint_resolved disposition ttl_seconds (rejected escape) = fails 403 "forbidden"
  mint_resolved disposition ttl_seconds (rejected (file_error not_exist)) = fails 404 "not found"
  mint_resolved disposition ttl_seconds (rejected (file_error other_error)) =
      fails 500 "internal error"
  mint_resolved disposition ttl_seconds (resolved path) =
      some (mint_stat path disposition ttl_seconds (fs.stat path))

  unfoldable pub mint_path : ℕ → MintRequest → ℤ → Option Reply
  mint_path fuel req (negsuc _) = fails 400 "ttl_seconds must not be negative"
  mint_path fuel req (pos n) =
      mint_resolved (or_attachment req.disposition) n (resolve fs fuel h.roots req.path)

  -- The checks of the decoded body.
  unfoldable pub mint_request : ℕ → MintRequest → Option Reply
  mint_request fuel req =
      if not (is_disposition (or_attachment req.disposition))
      then fails 400 "disposition must be \"inline\" or \"attachment\""
      else if is_empty req.path
      then fails 400 "path is required"
      else mint_path fuel req req.ttl_seconds

  module _ (decode_body : Bytes → Option (MintRequest × Bool)) where
    -- The two calls of the decoder, the first for the value and the second for the end of the body.
    unfoldable pub mint_decoded : ℕ → Option (MintRequest × Bool) → Option Reply
    mint_decoded fuel none = fails 400 "invalid request body"
    mint_decoded fuel (some (req, false)) = fails 400 "invalid request body"
    mint_decoded fuel (some (req, true)) = mint_request fuel req

    -- A body above the limit makes one of the two calls fail.
    unfoldable pub mint : ℕ → HttpRequest → Option Reply
    mint fuel r = elim (lib.parse_media_type r.content_type) [
      | none ↦ fails 415 "content type must be application/json"
      | some media_type ↦
          if not (text_eq media_type (codes "application/json"))
          then fails 415 "content type must be application/json"
          else if ltb max_request_bytes (length r.body)
          then fails 400 "invalid request body"
          else mint_decoded fuel (decode_body r.body)
    ]

    -- `ServeHTTP`
    unfoldable pub mint_http : ℕ → HttpRequest → Option Reply
    mint_http fuel r =
        if not (text_eq r.url_path (codes "/mint"))
        then fails 404 "not found"
        else if not (text_eq r.method (codes "POST"))
        then some (error 405 "method not allowed" allow_post)
        else if not (authorized h r.authorization)
        then some (error 401 "unauthorized" challenge_bearer)
        else mint fuel r
