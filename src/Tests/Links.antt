-- ===== src/Tests/Links.antt =====
-- A reader of the links of the toy mint API.
use mcp_media.Prelude.{◌≡◌, refl, ℕ, zero, suc, false, Option, some, none, [], ◌∷◌, ◌++◌, All}
use mcp_media.Text.{Bytes, codes, cut, Lacks}
use mcp_media.Text.Laws.{cut-append}
use mcp_media.Sign.Hex.{decode_hex, encode_hex}
use mcp_media.Sign.Hex.Laws.{decode_hex-encode_hex}
use mcp_media.Serve.Handler.{Request}
use mcp_media.Mint.Link.{is_plain, IsPlainByte, ReadsUrl, encode_hex-IsPlainByte}

abbrev skip : ℕ → Bytes → Bytes
skip zero s = s
skip (suc n) [] = []
skip (suc n) (_ ∷ s) = skip n s

abbrev name_of : Option Bytes → Bytes
name_of none = []
name_of (some name) = name

-- Whatever follows "http://media/media/", cut at its separators. The names are in hexadecimal.
unfoldable pub read_link : Bytes → Option Request
read_link url = elim (cut b'/' (skip 19 url)) [
  | none ↦ none
  | some (path_b64, a) ↦ elim (cut b'?' a) [
    | none ↦ none
    | some (name, b) ↦ elim (cut b'&' (skip 4 b)) [
      | none ↦ none
      | some (exp, c) ↦ elim (cut b'&' (skip 2 c)) [
        | none ↦ none
        | some (disposition, d) ↦ some (record {
          path_b64 = path_b64;
          filename = name_of (decode_hex name);
          exp = exp;
          sig = skip 4 d;
          d = disposition;
        })
      ]
    ]
  ]
]

plain-Lacks : (c : ℕ) → is_plain c ≡ false → (s : Bytes) → All IsPlainByte s → Lacks c s
plain-Lacks c h [] all_plain = tt
plain-Lacks c h (b ∷ s) (p, all_plain) = ((λ e. cc), plain-Lacks c h s all_plain)

pub read_link-ReadsUrl : ReadsUrl encode_hex (codes "http://media") read_link
unfolding read_link
read_link-ReadsUrl = record {
  reads = λ path_b64 name exp d sig given plain_path named plain_exp plain_d plain_sig.
      rw
        (
          read_link,
          cut-append b'/' path_b64
              (encode_hex name
                ++ (codes "?exp=" ++ (exp ++ (codes "&d=" ++ (d ++ (codes "&sig=" ++ sig))))))
              (plain-Lacks b'/' refl path_b64 plain_path),
          cut-append b'?' (encode_hex name)
              (codes "exp=" ++ (exp ++ (codes "&d=" ++ (d ++ (codes "&sig=" ++ sig)))))
              (plain-Lacks b'?' refl (encode_hex name) (encode_hex-IsPlainByte name named.bytes)),
          cut-append b'&' exp (codes "d=" ++ (d ++ (codes "&sig=" ++ sig)))
              (plain-Lacks b'&' refl exp plain_exp),
          cut-append b'&' d (codes "sig=" ++ sig) (plain-Lacks b'&' refl d plain_d),
          decode_hex-encode_hex name named.bytes,
        )
        refl;
}
