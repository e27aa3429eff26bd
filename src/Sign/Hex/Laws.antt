-- ===== src/Sign/Hex/Laws.antt =====
-- Decoding undoes encoding.
use mcp_media.Prelude.{ℕ, ◌/◌, ◌%◌, ◌<◌, ◌≡◌, refl, some, [], ◌∷◌, arith}
use mcp_media.Text.{Bytes, IsBytes}
use mcp_media.Sign.Hex.{hex_digit, encode_hex, hex_value, decode_hex}

hex_value-hex_digit : (n : ℕ) → n < 16 → hex_value (hex_digit n) ≡ some n
unfolding hex_value hex_digit
hex_value-hex_digit n h = ground arith

-- Every byte string is read back from its hex form.
pub decode_hex-encode_hex : (bs : Bytes) → IsBytes bs → decode_hex (encode_hex bs) ≡ some bs
unfolding encode_hex decode_hex
decode_hex-encode_hex [] h = refl
decode_hex-encode_hex (b ∷ bs) (p, h) =
    rw
      (
        hex_value-hex_digit (b / 16) (omega arith),
        hex_value-hex_digit (b % 16) (omega arith),
        decode_hex-encode_hex bs h,
      )
      (ground arith)
