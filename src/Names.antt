-- ===== src/Names.antt =====
-- Texts that are compared and joined but not walked, and string maps. They are native strings, with
-- the library's test of equality.
use mcp_media.Prelude.{◌≡◌, refl, List, [], ◌∷◌, if◌then◌else◌, arith}
use text.Mathlib.TextEquality.{eq_iff}
pub use Prim.Native.String.{String, ◌++◌ as ◌<>◌}
pub use text.Mathlib.Text.{◌==◌}
pub use text.Mathlib.TextPositions.{eq_refl}
pub use text.Mathlib.TextEquality.{eq_iff as str_eq_iff}

-- map[string]string. A nil map is read like an empty one.
abbrev pub StringMap : Type 0
StringMap = List (String × String)

-- `m[k]`, the empty string if `k` is missing
unfoldable pub get : String → StringMap → String
get k [] = ""
get k ((j, v) ∷ m) = if j == k then v else get k m

-- `m[k] = v`
unfoldable pub put : String → String → StringMap → StringMap
put k v [] = (k, v) ∷ []
put k v ((j, w) ∷ m) = if j == k then (k, v) ∷ m else (j, w) ∷ put k v m

pub get-put : (k j v : String) (m : StringMap) → get j (put k v m) ≡ (if k == j then v else get j m)
unfolding get put
get-put k j v [] = refl
get-put k j v ((i, w) ∷ m) = ground (arith, eq_iff k j, eq_iff i k, eq_iff i j, get-put k j v m)

pub put-put : (k v w : String) (m : StringMap) → put k v (put k w m) ≡ put k v m
unfolding put
put-put k v w [] = ground (arith, eq_refl k)
put-put k v w ((i, x) ∷ m) = ground (arith, eq_refl k, put-put k v w m)
