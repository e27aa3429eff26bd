-- ===== src/Mint/Link.antt =====
-- The URL of a file as internal/mint/handler.go writes it, and what the mux of
-- internal/serve/handler.go and url.Query read from one.
use mcp_media.Prelude.{
  ◌≡◌, ◌≢◌, refl, ℕ, Bool, true, ◌&&◌, ◌||◌, ◌==◌, leb, Option, some, [], ◌∷◌, ◌++◌, All, All-imp,
  arith, suc, ◌<◌, ◌/◌, ◌%◌, Bool-cases, inl, inr,
}
use mcp_media.Prelude.Int.{ℤ, pos, negsuc}
use mcp_media.Text.{Bytes, IsBytes, codes, text_eq}
use mcp_media.Text.Laws.{text_eq_iff}
use mcp_media.Base64.{encode, sextet_char}
use mcp_media.Base64.Laws.{encode-All}
use mcp_media.Sign.Hex.{hex_digit, encode_hex}
use mcp_media.Sign.{sign}
use mcp_media.Sign.Decimal.{format_int, digits}
use mcp_media.Sign.Decimal.Laws.{IsDigit, digits-IsDigit}
use mcp_media.Serve.Handler.{Request, is_disposition, inline, attachment}

-- A URL of these parts.
abbrev pub link : Bytes → Bytes → Bytes → Bytes → Bytes → Bytes → Bytes
link base_url path_b64 name exp disposition sig =
    base_url
    ++ (codes "/media/"
        ++ (path_b64
            ++ (b'/'
                ∷ (name
                    ++ (codes "?exp="
                        ++ (exp ++ (codes "&d=" ++ (disposition ++ (codes "&sig=" ++ sig)))))))))

-- A letter, a digit, "-" or "_": a byte that means itself everywhere in a URL.
abbrev pub is_plain : ℕ → Bool
is_plain c =
    (leb b'0' c && leb c b'9')
    || (leb b'a' c && leb c b'z')
    || (leb b'A' c && leb c b'Z')
    || c == b'-'
    || c == b'_'

abbrev pub IsPlainByte : ℕ → Type 0
IsPlainByte c = is_plain c ≡ true

-- A name that stays one element of a path.
pub record IsFileName (name : Bytes) : Type 0 where
  pub bytes : IsBytes name
  pub given : name ≢ []
  pub not_dot : name ≢ codes "."
  pub not_dot_dot : name ≢ codes ".."

-- What http.ServeMux, at the pattern "GET /media/{pathB64}/{filename}", and url.Query read from a URL
-- whose parts need no escape, but for the name, which url.PathEscape wrote.
pub record ReadsUrl (escape : Bytes → Bytes) (base_url : Bytes) (read_url : Bytes → Option Request)
    : Type 0 where
  pub reads :
      (path_b64 name exp disposition sig : Bytes)
      → path_b64 ≢ []
      → All IsPlainByte path_b64
      → IsFileName name
      → All IsPlainByte exp
      → All IsPlainByte disposition
      → All IsPlainByte sig
      → read_url (link base_url path_b64 (escape name) exp disposition sig)
        ≡ some
            (record { path_b64 = path_b64; filename = name; exp = exp; sig = sig; d = disposition })

sextet_char-IsPlainByte : (n : ℕ) → IsPlainByte (sextet_char n)
unfolding sextet_char
sextet_char-IsPlainByte n = ground arith

pub encode-IsPlainByte : (s : Bytes) → All IsPlainByte (encode s)
encode-IsPlainByte = encode-All IsPlainByte sextet_char-IsPlainByte

hex_digit-IsPlainByte : (n : ℕ) → n < 16 → IsPlainByte (hex_digit n)
unfolding hex_digit
hex_digit-IsPlainByte n h = ground arith

pub encode_hex-IsPlainByte : (s : Bytes) → IsBytes s → All IsPlainByte (encode_hex s)
unfolding encode_hex
encode_hex-IsPlainByte [] h = tt
encode_hex-IsPlainByte (b ∷ s) (small, h) = (
  hex_digit-IsPlainByte (b / 16) (omega (arith, small)),
  (hex_digit-IsPlainByte (b % 16) (omega arith), encode_hex-IsPlainByte s h),
)

pub sign-IsPlainByte :
    (mac : Bytes → Bytes → Bytes)
    → ((k m : Bytes) → IsBytes (mac k m))
    → (secret path_b64 : Bytes) (exp : ℤ) (d : Bytes)
    → All IsPlainByte (sign mac secret path_b64 exp d)
unfolding sign
sign-IsPlainByte mac gives secret path_b64 exp d = encode_hex-IsPlainByte _ (gives _ _)

digit-IsPlainByte : (c : ℕ) → IsDigit c → IsPlainByte c
digit-IsPlainByte c h = ground arith

pub format_int-IsPlainByte : (z : ℤ) → All IsPlainByte (format_int z)
unfolding format_int
format_int-IsPlainByte (pos n) =
    All-imp digit-IsPlainByte (digits (suc n) n) (digits-IsDigit (suc n) n)
format_int-IsPlainByte (negsuc n) = (
  refl,
  All-imp digit-IsPlainByte (digits (suc (suc n)) (suc n)) (digits-IsDigit (suc (suc n)) (suc n)),
)

pub is_disposition-IsPlainByte : (d : Bytes) → is_disposition d ≡ true → All IsPlainByte d
unfolding is_disposition
is_disposition-IsPlainByte d shown = elim (Bool-cases (text_eq d inline)) [
  | inl shown_inline ↦
      rw ((text_eq_iff d inline).0 shown_inline) (refl, (refl, (refl, (refl, (refl, (refl, tt))))))
  | inr other ↦
      rw ((text_eq_iff d attachment).0 (rw other at shown))
        (refl, (refl, (refl, (refl, (refl, (refl, (refl, (refl, (refl, (refl, tt))))))))))
]

pub encode_nonempty : (s : Bytes) → s ≢ [] → encode s ≢ []
unfolding encode
encode_nonempty [] h e = h refl
encode_nonempty (a ∷ []) h e = absurd (ground arith)
encode_nonempty (a ∷ b ∷ []) h e = absurd (ground arith)
encode_nonempty (a ∷ b ∷ c ∷ s) h e = absurd (ground arith)
