-- ===== src/Sign/Decimal.antt =====
-- strconv.FormatInt and strconv.ParseInt at base 10 and 64 bits.
pub mod Laws
use mcp_media.Prelude.{
  ℕ, zero, suc, ◌+◌, ◌-◌, ◌*◌, ◌/◌, ◌%◌, ◌^◌, Option, none, some, List, [], ◌∷◌, ◌++◌, ◌&&◌, Bool,
  true, false, ◌==◌, leb, ltb, if◌then◌else◌,
}
use mcp_media.Prelude.Int.{ℤ, pos, negsuc}
use mcp_media.Text.{Bytes}

-- The digits of `n`, most significant first. More than `n` rounds are never needed.
unfoldable pub digits : ℕ → ℕ → Bytes
digits zero n = []
digits (suc fuel) n =
    let more = digits fuel (n / 10) ++ ((b'0' + n % 10) ∷ []) in
    if ltb n 10 then (b'0' + n) ∷ [] else more

abbrev format_ℕ : ℕ → Bytes
format_ℕ n = digits (suc n) n

-- strconv.FormatInt(z, 10)
unfoldable pub format_int : ℤ → Bytes
format_int (pos n) = format_ℕ n
format_int (negsuc n) = b'-' ∷ format_ℕ (suc n)

-- The value of the digits read so far is `acc`; `none` is a byte that is no digit.
unfoldable pub read_digits : ℕ → Bytes → Option ℕ
read_digits acc [] = some acc
read_digits acc (c ∷ s) =
    let rest = read_digits (acc * 10 + (c - b'0')) s in
    if leb b'0' c && leb c b'9' then rest else none

-- strconv.ParseUint(s, 10, 64), whose range check is left to the caller below: both errors are one.
unfoldable pub parse_uint : Bytes → Option ℕ
unfolding read_digits
parse_uint [] = none
parse_uint (c ∷ s) = read_digits 0 (c ∷ s)

-- The range check of strconv.ParseInt, and the sign.
abbrev in_range : Bool → Option ℕ → Option ℤ
in_range _ none = none
in_range false (some n) = if ltb n (2 ^ 63) then some (pos n) else none
in_range true (some zero) = some (pos 0)
in_range true (some (suc n)) = if ltb n (2 ^ 63) then some (negsuc n) else none

-- strconv.ParseInt(s, 10, 64); `none` is any error.
unfoldable pub parse_int : Bytes → Option ℤ
unfolding parse_uint
parse_int [] = none
parse_int (c ∷ s) =
    if c == b'+'
    then in_range false (parse_uint s)
    else if c == b'-'
    then in_range true (parse_uint s)
    else in_range false (parse_uint (c ∷ s))
