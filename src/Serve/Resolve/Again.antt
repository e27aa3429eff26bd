-- ===== src/Serve/Resolve/Again.antt =====
-- Resolving a path that `Resolve` has returned.
use mcp_media.Prelude.{
  ◌≡◌, refl, List, true, [], ◌∷◌, inl, arith, ℕ, inr, ◌++◌, suc, if◌then◌else◌, ◌∙◌, sym,
  append_assoc, Bool-cases,
}
use mcp_media.Text.{Bytes, has_prefix}
use mcp_media.Serve.Resolve.{
  under_root, check_roots, resolve, resolved, resolve_absolute, check_candidate, in_some_root,
  rejected, escape,
}
use mcp_media.Platform.{FileSystem, ok}
use mcp_media.Serve.Resolve.Laws.{IsUnder, IsFenced, fences, in_first, in_later}
use mcp_media.Text.Laws.{text_eq_iff, has_prefix-append}
use mcp_media.FilePath.{is_abs, clean, slash}

under_root_complete : (path root : Bytes) → IsUnder path root → under_root path root ≡ true
unfolding under_root
under_root_complete path root (inl same) = ground (arith, text_eq_iff path root)
under_root_complete path root (inr (rest, same)) =
    let inside : has_prefix path (root ++ slash ∷ []) ≡ true =
      rw (same ∙ sym (append_assoc root (slash ∷ []) rest))
        (has_prefix-append (root ++ slash ∷ []) rest) in
    ground arith

module _ (fs : FileSystem) where
  check_roots_complete :
      {path : Bytes} {roots : List Bytes}
      → IsFenced fs path roots
      → check_roots fs roots path ≡ resolved path
  unfolding check_roots
  check_roots_complete {path} (in_first target found under) =
      ground (arith, found, under_root_complete path target under)
  check_roots_complete (in_later fenced) = ground (arith, check_roots_complete fenced)

  pub not-IsFenced-nil : {path : Bytes} → ¬ IsFenced fs path []
  not-IsFenced-nil f = elim f [ ]

  IsFenced-append :
      {path : Bytes} {first : List Bytes}
      → IsFenced fs path first
      → (rest : List Bytes) → IsFenced fs path (first ++ rest)
  IsFenced-append (in_first target found under) rest = in_first target found under
  IsFenced-append (in_later fenced) rest = in_later (IsFenced-append fenced rest)

  -- A path held against the first root alone is held against all.
  pub IsFenced-fences :
      (roots : List Bytes) (p : Bytes) {path : Bytes}
      → IsFenced fs path (fences roots p)
      → IsFenced fs path roots
  IsFenced-fences [] p f = f
  IsFenced-fences (root ∷ roots) p f = elim (Bool-cases (is_abs p)) [
    | inl absolute ↦ rw absolute at f
    | inr relative ↦ IsFenced-append (rw relative at f) roots
  ]

  -- A canonical path below a resolved root is found again exactly if it lies, as it is written, below
  -- a root as that is configured.
  pub resolve_canonical :
      (fuel : ℕ) (roots : List Bytes) (path : Bytes)
      → is_abs path ≡ true
      → clean path ≡ path
      → fs.eval_symlinks path ≡ ok path
      → IsFenced fs path roots
      → resolve fs (suc fuel) roots path
        ≡ (if in_some_root roots path then resolved path else rejected escape)
  unfolding resolve resolve_absolute check_candidate
  resolve_canonical fuel [] path absolute same found fenced = absurd (not-IsFenced-nil fenced)
  resolve_canonical fuel (root ∷ roots) path absolute same found fenced =
      rw (same, absolute, found) (rw (check_roots_complete fenced) refl)
