-- ===== src/Probe/Minted.antt =====
-- A minted URL in a text that the probe reads.
use mcp_media.Prelude.{
  ◌≡◌, refl, ◌∙◌, ap, ℕ, Bool, true, some, [], ◌∷◌, ◌++◌, All, All-append, Bool-cases, inl, inr,
  append_assoc, all, not,
}
use mcp_media.Prelude.Int.{ℤ}
use mcp_media.Text.{Bytes, codes, text_eq}
use mcp_media.Text.Laws.{text_eq_iff}
use mcp_media.Platform.{Library}
use mcp_media.Serve.Handler.{is_disposition, inline, attachment}
use mcp_media.Mint.Config.{MintHandler}
use mcp_media.Probe.Found.{
  scheme_of, IsUrlChar, find_string_of_url, encode-IsUrlChar, format_int-IsUrlChar, sign-IsUrlChar,
}
use mcp_media.Base64.{encode}
use mcp_media.FilePath.{slash, base}
use mcp_media.Probe.{is_stop, find_string}
use mcp_media.Sign.Decimal.{format_int}
use mcp_media.Sign.{sign}
use mcp_media.Mint.Link.{link}

-- The public base URL of the mint API: http or https, and a rest that the probe reads as part of a URL.
pub record IsWebBase (base_url : Bytes) : Type 0 where
  pub secure : Bool
  pub first : ℕ
  pub rest : Bytes
  pub same : base_url ≡ scheme_of secure ++ first ∷ rest
  pub readable : All IsUrlChar (first ∷ rest)

plain : (s : Bytes) → all (λ c. not (is_stop c)) s ≡ true → All IsUrlChar s
plain [] h = tt
plain (c ∷ s) h = elim (Bool-cases (is_stop c)) [
  | inl stops ↦ cc (rw stops at h)
  | inr goes ↦ (goes, plain s (rw goes at h))
]

pub is_disposition-IsUrlChar : (d : Bytes) → is_disposition d ≡ true → All IsUrlChar d
unfolding is_disposition
is_disposition-IsUrlChar d shown = elim (Bool-cases (text_eq d inline)) [
  | inl shown_inline ↦
      rw ((text_eq_iff d inline).0 shown_inline) (plain inline (unfold is_stop in refl))
  | inr other ↦
      rw ((text_eq_iff d attachment).0 (rw other at shown))
        (plain attachment (unfold is_stop in refl))
]

module _ (lib : Library) (h : MintHandler) where
  -- The parts of a minted URL behind the base URL.
  minted_tail : Bytes → Bytes → ℤ → Bytes
  minted_tail path d exp =
      codes "/media/"
      ++ (encode path
          ++ (slash
              ∷ (lib.path_escape (base path)
                  ++ (codes "?exp="
                      ++ (format_int exp
                          ++ (codes "&d="
                              ++ (d
                                  ++ (codes "&sig="
                                      ++ sign lib.mac h.secret (encode path) exp d))))))))

  minted_tail-IsUrlChar :
      (path d : Bytes) (exp : ℤ)
      → All IsUrlChar (lib.path_escape (base path))
      → All IsUrlChar d
      → All IsUrlChar (minted_tail path d exp)
  unfolding minted_tail is_stop
  minted_tail-IsUrlChar path d exp escaped shown =
      let join = All-append IsUrlChar in
      join (codes "/media/") _ (plain (codes "/media/") refl) (
        join (encode path) _ (encode-IsUrlChar path) (
          refl,
          join (lib.path_escape (base path)) _ escaped (
              join (codes "?exp=") _ (plain (codes "?exp=") refl) (
                join (format_int exp) _ (format_int-IsUrlChar exp) (
                  join (codes "&d=") _ (plain (codes "&d=") refl) (
                    join d _ shown (
                      join (codes "&sig=") _ (plain (codes "&sig=") refl)
                        (sign-IsUrlChar lib.mac h.secret (encode path) exp d)))))),
        ))

  -- The probe finds a minted URL whole.
  pub find_string-link :
      IsWebBase h.base_url
      → (path d : Bytes) (exp : ℤ) → All IsUrlChar (lib.path_escape (base path))
      → All IsUrlChar d
      → let url =
          link h.base_url
            (encode path)
            (lib.path_escape (base path))
            (format_int exp)
            d
            (sign lib.mac h.secret (encode path) exp d) in
        find_string url ≡ some url
  unfolding minted_tail
  find_string-link web path d exp escaped shown =
      let whole : h.base_url ++ minted_tail path d exp
          ≡ scheme_of web.secure ++ web.first ∷ (web.rest ++ minted_tail path d exp) =
        ap (λ b. b ++ minted_tail path d exp) web.same
        ∙ append_assoc (scheme_of web.secure) (web.first ∷ web.rest) (minted_tail path d exp) in
      rw whole (
        find_string_of_url web.secure web.first (web.rest ++ minted_tail path d exp) (
          All-append IsUrlChar (web.first ∷ web.rest) _ web.readable
            (minted_tail-IsUrlChar path d exp escaped shown)))
