-- ===== src/Serve/Filename.antt =====
-- `sanitizeFilename` of internal/serve/handler.go.
use mcp_media.Prelude.{
  ℕ, ◌≤◌, ◌≢◌, Bool, ◌||◌, [], ◌∷◌, All, arith, ltb, ◌==◌, Bool-cases, inl, inr, if◌then◌else◌,
}
use mcp_media.Text.Laws.{is_empty_iff}
use mcp_media.Text.{Bytes, codes, is_empty}

-- The bytes that the function takes out: a double quote, a backslash, and control characters.
abbrev breaks_out : ℕ → Bool
breaks_out c = c == 0x22 || c == 0x5c || ltb c 0x20 || c == 0x7f

unfoldable pub strip : Bytes → Bytes
strip [] = []
strip (c ∷ s) = if breaks_out c then strip s else c ∷ strip s

module _ (valid_utf8 : Bytes → Bytes) where
  -- strings.Map ranges over the text with its invalid bytes replaced.
  unfoldable pub sanitize_filename : Bytes → Bytes
  sanitize_filename name =
      if is_empty (strip (valid_utf8 name)) then codes "file" else strip (valid_utf8 name)

-- A byte that may stand in a quoted header parameter.
abbrev pub IsQuotable : ℕ → Type 0
IsQuotable c = (c ≢ 0x22) × (c ≢ 0x5c) × (0x20 ≤ c) × (c ≢ 0x7f)

strip-IsQuotable : (s : Bytes) → All IsQuotable (strip s)
unfolding strip
strip-IsQuotable [] = tt
strip-IsQuotable (c ∷ s) = elim (Bool-cases (breaks_out c)) [
  | inl out ↦ rw out (strip-IsQuotable s)
  | inr kept ↦ rw kept (ground arith, strip-IsQuotable s)
]

-- Whatever the name, the result is not empty and holds no quote, backslash or control character:
-- it cannot leave its quoted parameter or add a header.
pub sanitize_filename-IsQuotable :
    (valid_utf8 : Bytes → Bytes) (name : Bytes)
    → (sanitize_filename valid_utf8 name ≢ []) × All IsQuotable (sanitize_filename valid_utf8 name)
unfolding sanitize_filename
sanitize_filename-IsQuotable valid_utf8 name =
    elim (Bool-cases (is_empty (strip (valid_utf8 name)))) [
      | inl nothing ↦ rw nothing ((λ e. cc), omega arith)
      | inr usable ↦
          rw usable (ground (arith, is_empty_iff (strip (valid_utf8 name))), strip-IsQuotable _)
    ]
