-- ===== src/Base64/Laws.antt =====
-- Decoding undoes encoding, and encoded text holds no separator.
use mcp_media.Prelude.{ℕ, ◌+◌, ◌*◌, ◌/◌, ◌%◌, ◌<◌, ◌≡◌, refl, ◌≢◌, some, List, [], ◌∷◌, arith, All}
use mcp_media.Text.{Bytes, IsBytes}
use mcp_media.Base64.{sextet_char, sextet_value, encode, sextets, quantums, decode}

sextet_value-sextet_char : (n : ℕ) → n < 64 → sextet_value (sextet_char n) ≡ some n
unfolding sextet_value sextet_char
sextet_value-sextet_char n h = ground arith

abbrev pub IsUrlSafe : ℕ → Type 0
IsUrlSafe c = (c ≢ 0x0a) × (c ≢ 0x0d) × (c ≢ b'/') × (c ≢ b'&') × (c ≢ b'?')

sextet_char-IsUrlSafe : (n : ℕ) → IsUrlSafe (sextet_char n)
unfolding sextet_char
sextet_char-IsUrlSafe n = ground arith

-- One character is read to its value.
sextets-sextet_char :
    (n : ℕ) (s : Bytes) {vs : List ℕ}
    → n < 64
    → sextets s ≡ some vs
    → sextets (sextet_char n ∷ s) ≡ some (n ∷ vs)
unfolding sextets
sextets-sextet_char n s h e = ground (arith, sextet_char-IsUrlSafe n, sextet_value-sextet_char n)

-- The values that a byte string is encoded by.
values : Bytes → List ℕ
values [] = []
values (a ∷ []) = a / 4 ∷ (a % 4 * 16) ∷ []
values (a ∷ b ∷ []) = a / 4 ∷ (a % 4 * 16 + b / 16) ∷ (b % 16 * 4) ∷ []
values (a ∷ b ∷ c ∷ s) = a / 4 ∷ (a % 4 * 16 + b / 16) ∷ (b % 16 * 4 + c / 64) ∷ (c % 64) ∷ values s

sextets_nil : sextets [] ≡ some []
unfolding sextets
sextets_nil = refl

sextets-encode : (s : Bytes) → IsBytes s → sextets (encode s) ≡ some (values s)
unfolding encode values
sextets-encode [] h = sextets_nil
sextets-encode (a ∷ []) h =
    sextets-sextet_char _ _ (ground arith) (sextets-sextet_char _ _ (ground arith) sextets_nil)
sextets-encode (a ∷ b ∷ []) h =
    sextets-sextet_char _ _ (ground arith)
      (sextets-sextet_char _ _ (ground arith) (sextets-sextet_char _ _ (ground arith) sextets_nil))
sextets-encode (a ∷ b ∷ c ∷ s) (p, (q, (r, h))) = sextets-sextet_char _ _ (ground arith) (
    sextets-sextet_char _ _ (ground arith) (
      sextets-sextet_char _ _ (ground arith)
        (sextets-sextet_char _ _ (ground arith) (sextets-encode s h))))

quantums-values : (s : Bytes) → IsBytes s → quantums (values s) ≡ some s
unfolding quantums values
quantums-values [] h = refl
quantums-values (a ∷ []) h = ground arith
quantums-values (a ∷ b ∷ []) h = ground arith
quantums-values (a ∷ b ∷ c ∷ s) (p, (q, (r, h))) = rw (quantums-values s h) (ground arith)

-- Every byte string is read back from its encoding.
pub decode-encode : (s : Bytes) → IsBytes s → decode (encode s) ≡ some s
unfolding decode
decode-encode s h = rw (sextets-encode s h) (quantums-values s h)

-- What holds of the characters of the alphabet holds of an encoded text.
pub encode-All : (P : ℕ → Type 0) → ((n : ℕ) → P (sextet_char n)) → (s : Bytes) → All P (encode s)
unfolding encode
encode-All P h [] = tt
encode-All P h (a ∷ []) = (h _, (h _, tt))
encode-All P h (a ∷ b ∷ []) = (h _, (h _, (h _, tt)))
encode-All P h (a ∷ b ∷ c ∷ s) = (h _, (h _, (h _, (h _, encode-All P h s))))
