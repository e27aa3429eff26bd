-- ===== src/FilePath/Joins.antt =====
-- Joining keeps a path below its first part absolute, or relative.
use mcp_media.Prelude.{[], ◌≡◌, refl, ◌∙◌, false, ◌∷◌, ◌++◌, arith, Bool-cases, inl, inr}
use mcp_media.Text.{Bytes, is_empty, has_prefix}
use mcp_media.FilePath.{slash, is_abs, or_dot, clean, join}
use mcp_media.FilePath.Laws.{is_abs-clean}

is_empty-or_dot : (s : Bytes) → is_empty (or_dot s) ≡ false
is_empty-or_dot s = elim (Bool-cases (is_empty s)) [
  | inl none_left ↦ rw none_left (unfold is_empty in refl)
  | inr some_left ↦ rw some_left some_left
]

-- A cleaned path is never empty.
pub is_empty-clean : (p : Bytes) → is_empty (clean p) ≡ false
unfolding clean
is_empty-clean p = elim (Bool-cases (is_abs p)) [
  | inl rooted ↦ rw rooted (unfold is_empty in refl)
  | inr relative ↦ rw relative (is_empty-or_dot _)
]

is_abs-append : (a b : Bytes) → is_empty a ≡ false → is_abs (a ++ b) ≡ is_abs a
unfolding is_abs has_prefix is_empty
is_abs-append [] b h = absurd (ground arith)
is_abs-append (_ ∷ a) b h = ground arith

pub is_abs-join : (a b : Bytes) → is_abs (join (clean a) (clean b)) ≡ is_abs a
unfolding join
is_abs-join a b =
    rw (is_empty-clean a, is_empty-clean b)
      (is_abs-clean (clean a ++ slash ∷ clean b)
        ∙ is_abs-append (clean a) (slash ∷ clean b) (is_empty-clean a)
        ∙ is_abs-clean a)
