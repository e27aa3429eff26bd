-- ===== src/Text.antt =====
-- Go strings as lists of bytes, with the functions of package strings that the program calls.
pub mod Laws
use Prim.Native.Char.{code}
use Prim.Native.String.{String}
use mcp_media.Prelude.{
  ℕ, ◌<◌, ◌≢◌, Bool, true, false, ◌&&◌, Option, none, some, List, [], ◌∷◌, All, ◌==◌, if◌then◌else◌,
  leb, ◌+◌,
}

abbrev pub Bytes : Type 0
Bytes = List ℕ

-- The code points of a text: its bytes, as every text of this development is ASCII.
abbrev pub codes : String → Bytes
codes String.[] = []
codes (String.◌∷◌ c s) = code c ∷ codes s

-- The values that a Go byte can take.
abbrev pub IsBytes : Bytes → Type 0
IsBytes = All (λ b. b < 256)

-- The byte `c` does not occur.
abbrev pub Lacks : ℕ → Bytes → Type 0
Lacks c = All (λ b. b ≢ c)

-- `==` on strings.
unfoldable pub text_eq : Bytes → Bytes → Bool
text_eq [] [] = true
text_eq [] (_ ∷ _) = false
text_eq (_ ∷ _) [] = false
text_eq (a ∷ as') (b ∷ bs) = a == b && text_eq as' bs

unfoldable pub is_empty : Bytes → Bool
is_empty [] = true
is_empty (_ ∷ _) = false

-- strings.HasPrefix
unfoldable pub has_prefix : Bytes → Bytes → Bool
has_prefix s [] = true
has_prefix [] (_ ∷ _) = false
has_prefix (a ∷ s) (b ∷ p) = a == b && has_prefix s p

-- strings.Cut at a one-byte separator: the parts before and after its first occurrence.
unfoldable pub cut : ℕ → Bytes → Option (Bytes × Bytes)
cut c [] = none
cut c (a ∷ s) =
    let later = cut c s in
    if a == c then some ([], s) else elim later [ none ↦ none | some (x, y) ↦ some (a ∷ x, y) ]

-- strings.Split at a one-byte separator.
unfoldable pub split : ℕ → Bytes → List Bytes
split c [] = [] ∷ []
split c (a ∷ s) = elim (split c s) [
  | [] ↦ []
  | part ∷ parts ↦ if a == c then [] ∷ part ∷ parts else (a ∷ part) ∷ parts
]

-- strings.TrimRight with a cutset of one byte.
unfoldable pub trim_right : ℕ → Bytes → Bytes
trim_right c [] = []
trim_right c (a ∷ s) =
    let rest = trim_right c s in
    if a == c then (if is_empty rest then [] else a ∷ rest) else a ∷ rest

-- strings.ToLower, for ASCII.
unfoldable pub to_lower : Bytes → Bytes
to_lower [] = []
to_lower (c ∷ s) = (if leb b'A' c && leb c b'Z' then c + 32 else c) ∷ to_lower s

-- strings.EqualFold, for an ASCII text on the right whose letters have no fold outside ASCII.
unfoldable pub equal_fold : Bytes → Bytes → Bool
equal_fold s t = text_eq (to_lower s) (to_lower t)
