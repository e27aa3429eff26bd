-- ===== src/Sign/Laws.antt =====
-- The checks of `Verify` of internal/sign/sign.go, and the text that is signed.
use mcp_media.Prelude.{
  ◌≡◌, sym, ◌∙◌, ◌≢◌, ◌↔◌, false, Option, none, some, ◌∷◌, ◌++◌, arith, append_assoc, Bool-cases,
  Option-cases, inl, inr, if◌then◌else◌,
}
use mcp_media.Prelude.Int.{ℤ, IsInt64}
use mcp_media.Text.{Bytes, IsBytes, Lacks, text_eq}
use mathlib.Core.Option
use mcp_media.Text.Laws.{text_eq_iff, text_eq_refl, separator_inj_right}
use mcp_media.Sign.{
  VerifyError, expired, invalid_signature_error, sentinel, canonical, sign, verify,
}
use mcp_media.Sign.Hex.{encode_hex, decode_hex}
use mcp_media.Sign.Hex.Laws.{decode_hex-encode_hex}
use mcp_media.Sign.Decimal.{format_int}
use mcp_media.Sign.Decimal.Laws.{format_int-Lacks, format_int_injective}
use mcp_media.Sign.Clock.{Time, unix, after}

map-none : (o : Option VerifyError) → o ≡ none → Option.map sentinel o ≡ none
map-none o e = ground arith

format_int-Lacks_newline : (z : ℤ) → Lacks 0x0a (format_int z)
format_int-Lacks_newline z = format_int-Lacks 0x0a z (λ d. omega arith) (omega arith)

-- Two requests with one canonical text are the same request, if neither disposition holds a
-- newline. The path may hold one.
pub canonical_injective :
    (p q : Bytes) (x y : ℤ) (d e : Bytes)
    → IsInt64 x
    → IsInt64 y
    → Lacks 0x0a d
    → Lacks 0x0a e
    → canonical p x d ≡ canonical q y e
    → (p ≡ q) × (x ≡ y) × (d ≡ e)
unfolding canonical
canonical_injective p q x y d e hx hy hd he same =
    let (front, e₁) =
      separator_inj_right 0x0a (p ++ 0x0a ∷ format_int x) (q ++ 0x0a ∷ format_int y) d e hd he
        (append_assoc p _ _ ∙ same ∙ sym (append_assoc q _ _)) in
    let (e₂, numbers) =
      separator_inj_right 0x0a p q (format_int x) (format_int y) (format_int-Lacks_newline x)
        (format_int-Lacks_newline y) front in
    (e₂, format_int_injective x y hx hy numbers, e₁)

module _ (mac : Bytes → Bytes → Bytes) (mac-IsBytes : (k m : Bytes) → IsBytes (mac k m)) where
  -- The result on the signature that `Sign` makes.
  pub verify-sign :
      (secret p : Bytes) (x : ℤ) (d : Bytes) (now : Time)
      → verify mac secret p x d (sign mac secret p x d) now
        ≡ (if after now (unix x) then some expired else none)
  unfolding verify sign
  verify-sign secret p x d now =
      let m = mac secret (canonical p x d) in
      ground (
        arith,
        decode_hex-encode_hex m (mac-IsBytes secret (canonical p x d)),
        text_eq_refl (encode_hex m),
        text_eq_refl m,
      )

  -- Every other signature is rejected as invalid, whatever the time.
  verify_other :
      (secret p : Bytes) (x : ℤ) (d sig : Bytes) (now : Time)
      → sig ≢ sign mac secret p x d
      → Option.map sentinel (verify mac secret p x d sig now) ≡ some invalid_signature_error
  unfolding verify sign sentinel
  verify_other secret p x d sig now h = elim (Option-cases (decode_hex sig)) [
    | inl bad ↦ ground arith
    | inr (got, read) ↦
        let m = mac secret (canonical p x d) in
        ground (arith, text_eq_iff (encode_hex got) sig, text_eq_iff got m)
  ]

  -- `Verify` accepts exactly the signature that `Sign` makes, until the expiry has passed.
  pub verify_accepts_iff :
      (secret p : Bytes) (x : ℤ) (d sig : Bytes) (now : Time)
      → (verify mac secret p x d sig now ≡ none)
        ↔ ((sig ≡ sign mac secret p x d) × (after now (unix x) ≡ false))
  verify_accepts_iff secret p x d sig now =
      elim (Bool-cases (text_eq sig (sign mac secret p x d))) [
        | inl same ↦
            let e = (text_eq_iff sig (sign mac secret p x d)).0 same in
            ground (arith, verify-sign secret p x d now)
        | inr other ↦ ground (
          arith,
          text_eq_iff sig (sign mac secret p x d),
          map-none (verify mac secret p x d sig now),
          verify_other secret p x d sig now,
        )
      ]
