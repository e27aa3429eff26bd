-- ===== src/Serve/Resolve.antt =====
-- internal/serve/resolve.go
pub mod Laws
pub mod Again
use mcp_media.Prelude.{ℕ, zero, suc, Bool, true, false, ◌||◌, List, [], ◌∷◌, ◌++◌, if◌then◌else◌}
use mcp_media.Text.{Bytes, text_eq, has_prefix}
use mcp_media.FilePath.{slash, is_abs, clean, join}
use mcp_media.Platform.{FileSystem, FileResult, FileError, ok, failed, not_exist}

-- The errors of `Resolve`: `ErrEscape`, or a wrapped error of the file system.
pub data ResolveError : Type 0 where
  escape : ResolveError
  file_error : FileError → ResolveError

-- The result of `Resolve`; `out_of_fuel` stands for a call that has not returned.
pub data Resolved : Type 0 where
  resolved : Bytes → Resolved
  rejected : ResolveError → Resolved
  out_of_fuel : Resolved

-- `underRoot`
unfoldable pub under_root : Bytes → Bytes → Bool
under_root path root = text_eq path root || has_prefix path (root ++ (slash ∷ []))

-- The lexical pre-check.
unfoldable pub in_some_root : List Bytes → Bytes → Bool
in_some_root [] path = false
in_some_root (root ∷ roots) path = under_root path (clean root) || in_some_root roots path

module _ (fs : FileSystem) where
  -- The loop over the resolved roots; a root that cannot be resolved is passed over.
  unfoldable pub check_roots : List Bytes → Bytes → Resolved
  check_roots [] path = rejected escape
  check_roots (root ∷ roots) path =
      let later = check_roots roots path in
      elim (fs.eval_symlinks (clean root)) [
        | ok resolved_root ↦ if under_root path resolved_root then resolved path else later
        | failed _ ↦ later
      ]

  -- What follows EvalSymlinks of the candidate.
  unfoldable pub check_candidate : List Bytes → FileResult Bytes → Resolved
  check_candidate roots (failed e) = rejected (file_error e)
  check_candidate roots (ok path) = check_roots roots path

  unfoldable pub resolve_absolute : List Bytes → Bytes → Resolved
  resolve_absolute roots path =
      if in_some_root roots path
      then check_candidate roots (fs.eval_symlinks path)
      else rejected escape

  -- `Resolve`. A relative path is joined to the first root, and the call made once more.
  unfoldable pub resolve : ℕ → List Bytes → Bytes → Resolved
  resolve zero roots p = out_of_fuel
  resolve (suc fuel) [] p =
      if is_abs (clean p) then resolve_absolute [] (clean p) else rejected escape
  resolve (suc fuel) (root ∷ roots) p =
      let again = resolve fuel (root ∷ []) (join (clean root) (clean p)) in
      if is_abs (clean p) then resolve_absolute (root ∷ roots) (clean p) else again
