-- ===== src/Sign/Hex.antt =====
-- encoding/hex as internal/sign uses it: lower-case encoding, decoding of either case.
pub mod Laws
use mcp_media.Prelude.{
  ℕ, ◌+◌, ◌-◌, ◌*◌, ◌/◌, ◌%◌, Option, none, some, List, [], ◌∷◌, ◌&&◌, leb, ltb, if◌then◌else◌,
}
use mcp_media.Text.{Bytes}

unfoldable pub hex_digit : ℕ → ℕ
hex_digit n = if ltb n 10 then b'0' + n else b'a' + (n - 10)

-- hex.EncodeToString
unfoldable pub encode_hex : Bytes → Bytes
encode_hex [] = []
encode_hex (b ∷ bs) = hex_digit (b / 16) ∷ hex_digit (b % 16) ∷ encode_hex bs

unfoldable pub hex_value : ℕ → Option ℕ
hex_value c =
    if leb b'0' c && leb c b'9'
    then some (c - b'0')
    else if leb b'a' c && leb c b'f'
    then some (c - b'a' + 10)
    else if leb b'A' c && leb c b'F'
    then some (c - b'A' + 10)
    else none

abbrev hex_pair : Option ℕ → Option ℕ → Option Bytes → Option Bytes
hex_pair (some hi) (some lo) (some bs) = some ((hi * 16 + lo) ∷ bs)
hex_pair none _ _ = none
hex_pair (some hi) none _ = none
hex_pair (some hi) (some lo) none = none

-- hex.DecodeString; `none` is a byte that is no digit, or an odd length.
unfoldable pub decode_hex : Bytes → Option Bytes
decode_hex [] = some []
decode_hex (c ∷ []) = none
decode_hex (c ∷ d ∷ s) = hex_pair (hex_value c) (hex_value d) (decode_hex s)
