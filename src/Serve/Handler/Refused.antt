-- ===== src/Serve/Handler/Refused.antt =====
-- What a request without a valid signature learns.
use mcp_media.Prelude.{◌≡◌, ◌≢◌, some, none, ℕ, Option-cases, inl, inr, arith, if◌then◌else◌, not}
use mcp_media.Text.{Bytes, IsBytes, is_empty}
use mcp_media.Prelude.Int.{ℤ}
use mcp_media.Platform.{Library, FileSystem}
use mcp_media.Sign.{sign, verify, VerifyError}
use mcp_media.Sign.Laws.{verify_accepts_iff}
use mcp_media.Sign.Clock.{Time}
use mcp_media.Sign.Decimal.{parse_int}
use mcp_media.Base64.{decode}
use mcp_media.Serve.Handler.{
  Request, Response, MediaHandler, http_error, or_attachment, serve_http, serve_exp, serve_path,
  is_disposition,
}

-- The reply to a request that is not signed for: which one it is depends on the request alone.
abbrev pub refusal : Request → Response
refusal r =
    if is_empty r.exp
    then http_error 400 "missing or invalid exp parameter"
    else if is_empty r.sig
    then http_error 400 "missing sig parameter"
    else if not (is_disposition (or_attachment r.d))
    then http_error 400 "invalid d parameter"
    else elim (decode r.path_b64) [
      | none ↦ http_error 400 "invalid path encoding"
      | some _ ↦ http_error 403 "forbidden"
    ]

module _ (lib : Library) (mac-IsBytes : (k m : Bytes) → IsBytes (lib.mac k m)) where
  verify_forged :
      (secret p : Bytes) (exp : ℤ) (d sig : Bytes) (now : Time)
      → sig ≢ sign lib.mac secret p exp d
      → (e : VerifyError) × (verify lib.mac secret p exp d sig now ≡ some e)
  verify_forged secret p exp d sig now forged =
      elim (Option-cases (verify lib.mac secret p exp d sig now)) [
        | inl accepted ↦
            absurd (
              forged ((verify_accepts_iff lib.mac mac-IsBytes secret p exp d sig now).0 accepted).0)
        | inr refused ↦ refused
      ]

  -- A request whose signature is not the one of the server's secret gets a reply that depends on
  -- the request alone, so neither on the files nor on the time.
  pub serve_http-refusal :
      (fs : FileSystem) (now : Time) (h : MediaHandler) (fuel : ℕ) (r : Request) (exp : ℤ)
      → parse_int r.exp ≡ some exp
      → r.sig ≢ sign lib.mac h.secret r.path_b64 exp (or_attachment r.d)
      → serve_http lib fs now h fuel r ≡ some (refusal r)
  unfolding serve_http serve_exp serve_path
  serve_http-refusal fs now h fuel r exp read forged =
      let (e, refused) =
        verify_forged h.secret r.path_b64 exp (or_attachment r.d) r.sig now forged in
      elim (Option-cases (decode r.path_b64)) [
        | inl bad ↦ ground (arith, read, bad)
        | inr (p, name) ↦ ground (arith, read, name, refused)
      ]
