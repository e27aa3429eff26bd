-- ===== src/Tests/Codec.antt =====
-- A stand-in for JSON: fields with their lengths in front.
use mcp_media.Prelude.{
  ◌≡◌, refl, ap, ℕ, zero, suc, Bool, true, Option, some, [], ◌∷◌, ◌++◌, length, take,
}
use mcp_media.Prelude.Int.{ℤ, pos, negsuc}
use mcp_media.Text.{Bytes}
use mcp_media.Mint.Handler.{MintRequest, MintResponse}
use mcp_media.Proxy.MintClient.{MintAnswer}

abbrev put_field : Bytes → Bytes → Bytes
put_field f s = length f ∷ (f ++ s)

abbrev drop : ℕ → Bytes → Bytes
drop zero xs = xs
drop (suc n) [] = []
drop (suc n) (x ∷ xs) = drop n xs

take-append : (xs ys : Bytes) → take (length xs) (xs ++ ys) ≡ xs
take-append [] ys = refl
take-append (x ∷ xs) ys = ap (◌∷◌ x) (take-append xs ys)

drop-append : (xs ys : Bytes) → drop (length xs) (xs ++ ys) ≡ ys
drop-append [] ys = refl
drop-append (x ∷ xs) ys = drop-append xs ys

-- The number behind a sign.
abbrev put_number : ℤ → Bytes
put_number (pos n) = 0 ∷ n ∷ []
put_number (negsuc n) = 1 ∷ n ∷ []

abbrev get_number : Bytes → ℤ
get_number (zero ∷ n ∷ _) = pos n
get_number (suc _ ∷ n ∷ _) = negsuc n
get_number _ = pos 0

get-put_number : (z : ℤ) → get_number (put_number z) ≡ z
get-put_number (pos n) = refl
get-put_number (negsuc n) = refl

abbrev head : Bytes → Bytes
head [] = []
head (n ∷ s) = take n s

abbrev tail : Bytes → Bytes
tail [] = []
tail (n ∷ s) = drop n s

abbrev pub encode_request : MintRequest → Bytes
encode_request r = put_field r.path (put_field r.disposition (put_number r.ttl_seconds))

abbrev pub decode_body : Bytes → Option (MintRequest × Bool)
decode_body s = some (
  record { path = head s; disposition = head (tail s); ttl_seconds = get_number (tail (tail s)) },
  true,
)

pub decode_body-encode_request : (r : MintRequest) → decode_body (encode_request r) ≡ some (r, true)
decode_body-encode_request r =
    rw
      (
        take-append r.path (put_field r.disposition (put_number r.ttl_seconds)),
        drop-append r.path (put_field r.disposition (put_number r.ttl_seconds)),
        take-append r.disposition (put_number r.ttl_seconds),
        drop-append r.disposition (put_number r.ttl_seconds),
        get-put_number r.ttl_seconds,
      )
      refl

abbrev pub encode_answer : MintResponse → Bytes
encode_answer m =
    put_field m.url (put_field m.expires_at (put_field m.mime_type (m.size_bytes ∷ [])))

abbrev first : Bytes → ℕ
first [] = 0
first (n ∷ _) = n

abbrev pub decode_answer : Bytes → Option MintAnswer
decode_answer s = some (record {
  url = head s;
  expires_at = head (tail s);
  mime_type = head (tail (tail s));
  size_bytes = pos (first (tail (tail (tail s))));
})

pub decode_answer-encode_answer :
    (m : MintResponse)
    → decode_answer (encode_answer m)
      ≡ some (record {
        url = m.url;
        expires_at = m.expires_at;
        size_bytes = pos m.size_bytes;
        mime_type = m.mime_type;
      })
decode_answer-encode_answer m =
    let types : Bytes = put_field m.mime_type (m.size_bytes ∷ []) in
    rw
      (
        take-append m.url (put_field m.expires_at types),
        drop-append m.url (put_field m.expires_at types),
        take-append m.expires_at types,
        drop-append m.expires_at types,
        take-append m.mime_type (m.size_bytes ∷ []),
        drop-append m.mime_type (m.size_bytes ∷ []),
      )
      refl
