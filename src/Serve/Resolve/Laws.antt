-- ===== src/Serve/Resolve/Laws.antt =====
-- The fence of `Resolve`: what it lets through, when it returns, and what it never lets through.
use mcp_media.Prelude.{
  ℕ, zero, suc, ◌≡◌, refl, sym, ◌∙◌, ap, ◌≢◌, ◌⊎◌, inl, inr, true, false, List, [], ◌∷◌, ◌++◌,
  arith, All, Bool-cases, if◌then◌else◌, append_assoc,
}
use mcp_media.Text.{Bytes, text_eq, has_prefix, split, is_empty}
use mcp_media.FilePath.{slash, is_abs, clean, join, clean_elements, clean_step, join_elements}
use mcp_media.Serve.Resolve.{
  under_root, check_roots, resolve_absolute, resolve, resolved, check_candidate, out_of_fuel,
  in_some_root, rejected, escape,
}
use mcp_media.Platform.{FileSystem, FileResult, ok, FileError, failed}
use mcp_media.Text.Laws.{text_eq_iff, has_prefix_sound}
use mcp_media.FilePath.Laws.{is_abs-clean, clean_one_slash}
use mcp_media.FilePath.Joins.{is_abs-join}

-- `path` is `root`, or continues it behind a slash.
abbrev pub IsUnder : Bytes → Bytes → Type 0
IsUnder path root = (path ≡ root) ⊎ ((rest : Bytes) × (path ≡ root ++ slash ∷ rest))

under_root_sound : (path root : Bytes) → under_root path root ≡ true → IsUnder path root
unfolding under_root
under_root_sound path root h = elim (Bool-cases (text_eq path root)) [
  | inl same ↦ inl ((text_eq_iff path root).0 same)
  | inr other ↦
      let (rest, e) = has_prefix_sound path (root ++ slash ∷ []) (ground arith) in
      inr (rest, e ∙ append_assoc root (slash ∷ []) rest)
]

-- Some root of the list, with its links resolved, holds the path.
pub data IsFenced (fs : FileSystem) (path : Bytes) : List Bytes → Type 0 where
  in_first :
      {root : Bytes} {roots : List Bytes} (target : Bytes)
      → fs.eval_symlinks (clean root) ≡ ok target
      → IsUnder path target
      → IsFenced fs path (root ∷ roots)
  in_later :
      {root : Bytes} {roots : List Bytes} → IsFenced fs path roots → IsFenced fs path (root ∷ roots)

-- The roots that a path is held against: a relative path is held against the first alone.
abbrev pub fences : List Bytes → Bytes → List Bytes
fences [] p = []
fences (root ∷ roots) p = if is_abs p then root ∷ roots else root ∷ []

-- The path whose links are resolved.
abbrev pub candidate : List Bytes → Bytes → Bytes
candidate [] p = clean p
candidate (root ∷ roots) p = if is_abs p then clean p else clean (join (clean root) (clean p))

FileResult-cases :
    (r : FileResult Bytes) → ((a : Bytes) × (r ≡ ok a)) ⊎ ((e : FileError) × (r ≡ failed e))
FileResult-cases (ok a) = inl (a, refl)
FileResult-cases (failed e) = inr (e, refl)

has_prefix-two_slashes :
    (q rest : Bytes)
    → q ≡ slash ∷ rest
    → is_abs rest ≡ false
    → has_prefix q (slash ∷ slash ∷ []) ≡ false
unfolding has_prefix is_abs
has_prefix-two_slashes q rest e h = rw e (ground arith)

clean-slash : clean (slash ∷ []) ≡ slash ∷ []
unfolding clean is_abs has_prefix split clean_elements clean_step is_empty join_elements
clean-slash = refl

module _ (fs : FileSystem) where
  check_roots_sound :
      (roots : List Bytes) (path r : Bytes)
      → check_roots fs roots path ≡ resolved r
      → (r ≡ path) × IsFenced fs r roots
  unfolding check_roots
  check_roots_sound [] path r h = absurd (ground arith)
  check_roots_sound (root ∷ roots) path r h =
      elim (FileResult-cases (fs.eval_symlinks (clean root))) [
        | inr (e, lost) ↦
            let (same, fenced) = check_roots_sound roots path r (ground arith) in
            (same, in_later fenced)
        | inl (target, found) ↦ elim (Bool-cases (under_root path target)) [
          | inl inside ↦
              let same : path ≡ r = ground arith in
              (sym same, in_first target found (rw (← same) (under_root_sound path target inside)))
          | inr outside ↦
              let (same, fenced) = check_roots_sound roots path r (ground arith) in
              (same, in_later fenced)
        ]
      ]

  resolve_absolute_sound :
      (roots : List Bytes) (path r : Bytes)
      → resolve_absolute fs roots path ≡ resolved r
      → (fs.eval_symlinks path ≡ ok r) × IsFenced fs r roots
  unfolding resolve_absolute check_candidate
  resolve_absolute_sound roots path r h = elim (Bool-cases (in_some_root roots path)) [
    | inr outside ↦ absurd (ground arith)
    | inl inside ↦ elim (FileResult-cases (fs.eval_symlinks path)) [
      | inr (e, lost) ↦ absurd (ground arith)
      | inl (target, found) ↦
          let (same, fenced) = check_roots_sound roots target r (ground arith) in
          (found ∙ ap ok (sym same), fenced)
    ]
  ]

  -- With a relative first root and a relative path the call never returns.
  pub resolve_diverges :
      (fuel : ℕ) (root : Bytes) (roots : List Bytes) (p : Bytes)
      → is_abs root ≡ false
      → is_abs p ≡ false
      → resolve fs fuel (root ∷ roots) p ≡ out_of_fuel
  unfolding resolve
  resolve_diverges zero root roots p h k = refl
  resolve_diverges (suc fuel) root roots p h k =
      rw (is_abs-clean p, k)
        (resolve_diverges fuel root [] (join (clean root) (clean p)) h (is_abs-join root p ∙ h))

  -- Two calls are enough where the first root or the path is absolute.
  resolve_lem :
      (fuel : ℕ) (root : Bytes) (roots : List Bytes) (p : Bytes)
      → (is_abs root ≡ true) ⊎ (is_abs p ≡ true)
      → resolve fs (suc (suc fuel)) (root ∷ roots) p
        ≡ resolve_absolute fs (fences (root ∷ roots) p) (candidate (root ∷ roots) p)
  unfolding resolve
  resolve_lem fuel root roots p h = elim (Bool-cases (is_abs p)) [
    | inl absolute ↦ rw (is_abs-clean p, absolute) refl
    | inr relative ↦
        let joined = join (clean root) (clean p) in
        let below : is_abs joined ≡ true = is_abs-join root p ∙ ground arith in
        rw (is_abs-clean p, relative, is_abs-clean joined, below) refl
  ]

  check_roots_returns :
      (roots : List Bytes) (path : Bytes) → check_roots fs roots path ≢ out_of_fuel
  unfolding check_roots
  check_roots_returns [] path = ground arith
  check_roots_returns (root ∷ roots) path = ground (arith, check_roots_returns roots path)

  resolve_absolute_returns :
      (roots : List Bytes) (path : Bytes) → resolve_absolute fs roots path ≢ out_of_fuel
  unfolding resolve_absolute check_candidate
  resolve_absolute_returns roots path h = elim (FileResult-cases (fs.eval_symlinks path)) [
    | inl (target, found) ↦ ground (arith, check_roots_returns roots target)
    | inr (e, lost) ↦ ground arith
  ]

  -- With absolute roots `Resolve` returns, after two calls at most.
  pub resolve_returns :
      (fuel : ℕ) (roots : List Bytes) (p : Bytes)
      → All (λ root. is_abs root ≡ true) roots
      → resolve fs (suc (suc fuel)) roots p ≢ out_of_fuel
  unfolding resolve
  resolve_returns fuel [] p h = ground (arith, resolve_absolute_returns [] (clean p))
  resolve_returns fuel (root ∷ roots) p (h, _) =
      rw (resolve_lem fuel root roots p (inl h)) (resolve_absolute_returns _ _)

  -- A path that `Resolve` returns lies, with its links resolved, under a root with its links
  -- resolved; for a relative request that root is the first one.
  pub resolve_sound :
      (fuel : ℕ) (roots : List Bytes) (p r : Bytes)
      → resolve fs fuel roots p ≡ resolved r
      → (fs.eval_symlinks (candidate roots p) ≡ ok r) × IsFenced fs r (fences roots p)
  unfolding resolve
  resolve_sound zero roots p r h = absurd (ground arith)
  resolve_sound (suc fuel) [] p r h = elim (Bool-cases (is_abs (clean p))) [
    | inl absolute ↦ resolve_absolute_sound [] (clean p) r (ground arith)
    | inr relative ↦ absurd (ground arith)
  ]
  resolve_sound (suc fuel) (root ∷ roots) p r h = elim (Bool-cases (is_abs p)) [
    | inl absolute ↦
        rw absolute
          (resolve_absolute_sound (root ∷ roots) (clean p) r (rw (is_abs-clean p, absolute) at h))
    | inr relative ↦
        let joined = join (clean root) (clean p) in
        let again : resolve fs fuel (root ∷ []) joined ≡ resolved r =
          rw (is_abs-clean p, relative) at h in
        elim (Bool-cases (is_abs root)) [
          | inl anchored ↦ rw relative (
              rw (is_abs-join root p ∙ anchored) at (resolve_sound fuel (root ∷ []) joined r again))
          | inr loose ↦ absurd (
              ground (
                arith,
                again,
                resolve_diverges fuel root [] joined loose (is_abs-join root p ∙ loose),
              ))
        ]
  ]

  -- Below a root "/" nothing is found but "/" itself: the root is held against with a second slash.
  pub root_slash_rejects :
      (fuel : ℕ) (p : Bytes)
      → is_abs p ≡ true
      → clean p ≢ slash ∷ []
      → resolve fs (suc fuel) ((slash ∷ []) ∷ []) p ≡ rejected escape
  unfolding resolve resolve_absolute in_some_root under_root
  root_slash_rejects fuel p h k =
      let (rest, same, one) = clean_one_slash p h in
      rw (is_abs-clean p, h, clean-slash, has_prefix-two_slashes (clean p) rest same one)
        (ground (arith, text_eq_iff (clean p) (slash ∷ [])))
