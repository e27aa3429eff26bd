-- ===== src/Sign.antt =====
-- internal/sign/sign.go: the signature of a media URL. HMAC-SHA256 of package crypto is the
-- parameter `mac`, a function of the key and the message.
pub mod Hex
pub mod Decimal
pub mod Clock
pub mod Laws
use mcp_media.Prelude.{ℕ, Bool, true, Option, none, some, ◌∷◌, ◌++◌, if◌then◌else◌, not}
use mcp_media.Prelude.Int.{ℤ}
use mcp_media.Text.{Bytes, text_eq}
use mcp_media.Sign.Hex.{encode_hex, decode_hex}
use mcp_media.Sign.Decimal.{format_int}
use mcp_media.Sign.Clock.{Time, unix, after}

-- The errors of `Verify`, one for each `return`.
pub data VerifyError : Type 0 where
  malformed_hex non_canonical mismatch expired : VerifyError

-- The sentinels that the errors wrap.
pub data Sentinel : Type 0 where
  invalid_signature_error expired_error : Sentinel

unfoldable pub sentinel : VerifyError → Sentinel
sentinel expired = expired_error
sentinel _ = invalid_signature_error

unfoldable pub canonical : Bytes → ℤ → Bytes → Bytes
canonical path_b64 exp disposition = path_b64 ++ (0x0a ∷ (format_int exp ++ (0x0a ∷ disposition)))

module _ (mac : Bytes → Bytes → Bytes) where
  unfoldable pub sign : Bytes → Bytes → ℤ → Bytes → Bytes
  sign secret path_b64 exp disposition =
      encode_hex (mac secret (canonical path_b64 exp disposition))

  -- `Verify`; `none` is a nil error.
  unfoldable pub verify : Bytes → Bytes → ℤ → Bytes → Bytes → Time → Option VerifyError
  verify secret path_b64 exp disposition sig now = elim (decode_hex sig) [
    | none ↦ some malformed_hex
    | some got ↦
        if not (text_eq (encode_hex got) sig)
        then some non_canonical
        else if not (text_eq got (mac secret (canonical path_b64 exp disposition)))
        then some mismatch
        else if after now (unix exp)
        then some expired
        else none
  ]
