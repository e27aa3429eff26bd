-- ===== src/Probe/Found.antt =====
-- The URL that the probe finds in a text.
use mcp_media.Prelude.{
  ◌≡◌, refl, ℕ, Bool, true, false, some, [], ◌∷◌, ◌++◌, All, arith, ◌/◌, All-imp, ◌%◌, suc,
}
use mcp_media.Prelude.Int.{ℤ, pos, negsuc}
use mcp_media.Text.{Bytes, codes, is_empty}
use mcp_media.Probe.{is_stop, url_run, find_string, match_here, strip, behind}
use mcp_media.Base64.{sextet_char, encode}
use mcp_media.Sign.Hex.{hex_digit, encode_hex}
use mcp_media.Sign.{sign}
use mcp_media.Sign.Decimal.{format_int, digits}
use mcp_media.Base64.Laws.{encode-All}
use mcp_media.Sign.Decimal.Laws.{IsDigit, digits-IsDigit}

abbrev pub IsUrlChar : ℕ → Type 0
IsUrlChar c = is_stop c ≡ false

url_run_readable : (s : Bytes) → All IsUrlChar s → url_run s ≡ s
unfolding url_run
url_run_readable [] h = refl
url_run_readable (c ∷ s) (p, h) = rw (p, url_run_readable s h) refl

-- http or https.
abbrev pub scheme_of : Bool → Bytes
scheme_of true = codes "https://"
scheme_of false = codes "http://"

match_here_of_url :
    (secure : Bool) (c : ℕ) (s : Bytes)
    → All IsUrlChar (c ∷ s)
    → match_here (scheme_of secure ++ c ∷ s) ≡ some (scheme_of secure ++ c ∷ s)
unfolding match_here strip
match_here_of_url true c s h =
    rw (match_here, url_run_readable (c ∷ s) h) (unfold behind is_empty in refl)
match_here_of_url false c s h =
    rw (match_here, url_run_readable (c ∷ s) h) (unfold behind is_empty in refl)

-- A text that is a URL is found whole.
pub find_string_of_url :
    (secure : Bool) (c : ℕ) (s : Bytes)
    → All IsUrlChar (c ∷ s)
    → find_string (scheme_of secure ++ c ∷ s) ≡ some (scheme_of secure ++ c ∷ s)
unfolding find_string
find_string_of_url true c s h = rw (find_string, match_here_of_url true c s h) refl
find_string_of_url false c s h = rw (find_string, match_here_of_url false c s h) refl

sextet_char-IsUrlChar : (n : ℕ) → IsUrlChar (sextet_char n)
unfolding sextet_char is_stop
sextet_char-IsUrlChar n = ground arith

pub encode-IsUrlChar : (s : Bytes) → All IsUrlChar (encode s)
encode-IsUrlChar = encode-All IsUrlChar sextet_char-IsUrlChar

hex_digit-IsUrlChar : (n : ℕ) → IsUrlChar (hex_digit n)
unfolding hex_digit is_stop
hex_digit-IsUrlChar n = ground arith

encode_hex-IsUrlChar : (s : Bytes) → All IsUrlChar (encode_hex s)
unfolding encode_hex
encode_hex-IsUrlChar [] = tt
encode_hex-IsUrlChar (b ∷ s) =
    (hex_digit-IsUrlChar (b / 16), (hex_digit-IsUrlChar (b % 16), encode_hex-IsUrlChar s))

pub sign-IsUrlChar :
    (mac : Bytes → Bytes → Bytes) (secret path_b64 : Bytes) (exp : ℤ) (d : Bytes)
    → All IsUrlChar (sign mac secret path_b64 exp d)
unfolding sign
sign-IsUrlChar mac secret path_b64 exp d = encode_hex-IsUrlChar _

digit-IsUrlChar : (c : ℕ) → IsDigit c → IsUrlChar c
unfolding is_stop
digit-IsUrlChar c h = ground arith

pub format_int-IsUrlChar : (z : ℤ) → All IsUrlChar (format_int z)
unfolding format_int
format_int-IsUrlChar (pos n) = All-imp digit-IsUrlChar (digits (suc n) n) (digits-IsDigit (suc n) n)
format_int-IsUrlChar (negsuc n) = (
  unfold is_stop in refl,
  All-imp digit-IsUrlChar (digits (suc (suc n)) (suc n)) (digits-IsDigit (suc (suc n)) (suc n)),
)
