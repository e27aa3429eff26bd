-- ===== src/Base64.antt =====
-- base64.RawURLEncoding of package encoding/base64.
pub mod Laws
use mcp_media.Prelude.{
  ℕ, ◌+◌, ◌-◌, ◌*◌, ◌/◌, ◌%◌, Option, none, some, List, [], ◌∷◌, ◌&&◌, ◌||◌, ◌==◌, leb, ltb,
  if◌then◌else◌,
}
use mcp_media.Text.{Bytes}

-- The character of a 6-bit value in the URL alphabet.
unfoldable pub sextet_char : ℕ → ℕ
sextet_char n =
    if ltb n 26
    then b'A' + n
    else if ltb n 52
    then b'a' + (n - 26)
    else if ltb n 62
    then b'0' + (n - 52)
    else if n == 62
    then b'-'
    else b'_'

unfoldable pub sextet_value : ℕ → Option ℕ
sextet_value c =
    if leb b'A' c && leb c b'Z'
    then some (c - b'A')
    else if leb b'a' c && leb c b'z'
    then some (c - b'a' + 26)
    else if leb b'0' c && leb c b'9'
    then some (c - b'0' + 52)
    else if c == b'-'
    then some 62
    else if c == b'_'
    then some 63
    else none

-- EncodeToString
unfoldable pub encode : Bytes → Bytes
encode [] = []
encode (a ∷ []) = sextet_char (a / 4) ∷ sextet_char (a % 4 * 16) ∷ []
encode (a ∷ b ∷ []) =
    sextet_char (a / 4) ∷ sextet_char (a % 4 * 16 + b / 16) ∷ sextet_char (b % 16 * 4) ∷ []
encode (a ∷ b ∷ c ∷ s) =
    sextet_char (a / 4)
    ∷ sextet_char (a % 4 * 16 + b / 16)
    ∷ sextet_char (b % 16 * 4 + c / 64)
    ∷ sextet_char (c % 64)
    ∷ encode s

-- The values of the characters. The decoder passes over carriage returns and newlines.
unfoldable pub sextets : Bytes → Option (List ℕ)
sextets [] = some []
sextets (c ∷ s) =
    let rest = sextets s in
    if c == 0x0a || c == 0x0d then rest else elim (sextet_value c) [
      | none ↦ none
      | some v ↦ elim rest [ none ↦ none | some vs ↦ some (v ∷ vs) ]
    ]

abbrev prepend : ℕ → ℕ → ℕ → Option Bytes → Option Bytes
prepend a b c none = none
prepend a b c (some s) = some (a ∷ b ∷ c ∷ s)

-- Groups of four values to three bytes. Bits left over in a last group are ignored, as the decoder
-- is not strict; a group of one value is an error.
unfoldable pub quantums : List ℕ → Option Bytes
quantums [] = some []
quantums (p ∷ []) = none
quantums (p ∷ q ∷ []) = some ((p * 4 + q / 16) ∷ [])
quantums (p ∷ q ∷ r ∷ []) = some ((p * 4 + q / 16) ∷ (q % 16 * 16 + r / 4) ∷ [])
quantums (p ∷ q ∷ r ∷ t ∷ s) =
    prepend (p * 4 + q / 16) (q % 16 * 16 + r / 4) (r % 4 * 64 + t) (quantums s)

abbrev decoded : Option (List ℕ) → Option Bytes
decoded none = none
decoded (some vs) = quantums vs

-- DecodeString; `none` is a CorruptInputError.
unfoldable pub decode : Bytes → Option Bytes
decode s = decoded (sextets s)
