-- ===== src/FilePath.antt =====
-- The functions of package path/filepath on Unix that do not touch the disk. A path is taken apart
-- at its slashes, where Go walks its bytes with a buffer.
pub mod Laws
pub mod Joins
use mcp_media.Prelude.{
  ℕ, ◌≢◌, Bool, true, false, not, ◌&&◌, ◌||◌, List, [], ◌∷◌, ◌++◌, if◌then◌else◌,
}
use mathlib.Core.List.{reverse}
use mcp_media.Text.{Bytes, codes, text_eq, is_empty, has_prefix, split, trim_right}

abbrev pub slash : ℕ
slash = b'/'

-- filepath.IsAbs
unfoldable pub is_abs : Bytes → Bool
is_abs p = has_prefix p (slash ∷ [])

abbrev dot : Bytes
dot = codes "."

abbrev dot_dot : Bytes
dot_dot = codes ".."

-- What ".." does to the elements before it, the last one at the head: it takes the last one off,
-- unless that is ".." itself; where there is none it is dropped below "/" and kept elsewhere.
unfoldable pub go_up : Bool → List Bytes → List Bytes
go_up rooted [] = if rooted then [] else dot_dot ∷ []
go_up rooted (e ∷ out) = if text_eq e dot_dot then dot_dot ∷ e ∷ out else out

-- One round of the loop of filepath.Clean.
unfoldable pub clean_step : Bool → List Bytes → Bytes → List Bytes
clean_step rooted out e =
    if is_empty e || text_eq e dot
    then out
    else if text_eq e dot_dot
    then go_up rooted out
    else e ∷ out

unfoldable pub clean_elements : Bool → List Bytes → List Bytes → List Bytes
clean_elements rooted out [] = reverse out
clean_elements rooted out (e ∷ es) = clean_elements rooted (clean_step rooted out e) es

-- The elements with a slash between each two.
unfoldable pub join_elements : List Bytes → Bytes
join_elements [] = []
join_elements (e ∷ []) = e
join_elements (e ∷ e' ∷ es) = e ++ (slash ∷ join_elements (e' ∷ es))

abbrev or_dot : Bytes → Bytes
or_dot p = if is_empty p then dot else p

-- filepath.Clean
unfoldable pub clean : Bytes → Bytes
clean p =
    let es = clean_elements (is_abs p) [] (split slash p) in
    if is_abs p then slash ∷ join_elements es else or_dot (join_elements es)

-- filepath.Join of two elements
unfoldable pub join : Bytes → Bytes → Bytes
join a b =
    if is_empty a
    then (if is_empty b then [] else clean b)
    else if is_empty b
    then clean a
    else clean (a ++ (slash ∷ b))

abbrev last_element : List Bytes → Bytes
last_element [] = []
last_element (e ∷ []) = e
last_element (_ ∷ e ∷ es) = last_element (e ∷ es)

-- filepath.Base, which agrees with path.Base on Unix.
unfoldable pub base : Bytes → Bytes
base p =
    if is_empty p
    then dot
    else if is_empty (trim_right slash p)
    then slash ∷ []
    else last_element (split slash (trim_right slash p))
