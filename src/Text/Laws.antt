-- ===== src/Text/Laws.antt =====
-- Laws of byte strings: equality, prefixes and cuts.
use mcp_media.Prelude.{
  ℕ, ◌≡◌, refl, ◌↔◌, inl, inr, true, some, [], ◌∷◌, ◌++◌, arith, ◌==◌, Bool-cases, Option-cases,
}
use mcp_media.Text.{Bytes, Lacks, text_eq, is_empty, has_prefix, cut}

pub text_eq_iff : (a b : Bytes) → (text_eq a b ≡ true) ↔ (a ≡ b)
unfolding text_eq
text_eq_iff [] [] = ground arith
text_eq_iff [] (_ ∷ _) = ground arith
text_eq_iff (_ ∷ _) [] = ground arith
text_eq_iff (x ∷ a) (y ∷ b) = ground (arith, text_eq_iff a b)

pub text_eq_refl : (a : Bytes) → text_eq a a ≡ true
text_eq_refl a = (text_eq_iff a a).1 refl

pub is_empty_iff : (a : Bytes) → (is_empty a ≡ true) ↔ (a ≡ [])
unfolding is_empty
is_empty_iff [] = ground arith
is_empty_iff (_ ∷ _) = ground arith

pub has_prefix_sound : (s p : Bytes) → has_prefix s p ≡ true → (rest : Bytes) × (s ≡ p ++ rest)
unfolding has_prefix
has_prefix_sound s [] h = (s, refl)
has_prefix_sound [] (_ ∷ _) h = cc
has_prefix_sound (a ∷ s) (b ∷ p) h =
    let (rest, e) = has_prefix_sound s p (ground arith) in (rest, ground arith)

pub has_prefix-append : (p rest : Bytes) → has_prefix (p ++ rest) p ≡ true
unfolding has_prefix
has_prefix-append [] rest = refl
has_prefix-append (a ∷ p) rest = ground (arith, has_prefix-append p rest)

-- A cut at a byte that the left part lacks gives the two parts back.
pub cut-append : (c : ℕ) (x y : Bytes) → Lacks c x → cut c (x ++ c ∷ y) ≡ some (x, y)
unfolding cut
cut-append c [] y h = ground arith
cut-append c (a ∷ x) y (p, h) = ground (arith, cut-append c x y h)

pub cut_sound :
    (c : ℕ) (s : Bytes) {x y : Bytes} → cut c s ≡ some (x, y) → Lacks c x × (s ≡ x ++ c ∷ y)
unfolding cut
cut_sound c [] h = cc
cut_sound c (a ∷ s) {x} {y} h = elim (Bool-cases (a == c)) [
  | inl here ↦
      let (ex, ey) : ([] ≡ x) × (s ≡ y) = ground arith in rw (← ex, ← ey) (tt, ground arith)
  | inr away ↦ elim (Option-cases (cut c s)) [
    | inl missed ↦ absurd (ground arith)
    | inr ((u, v), found) ↦
        let (lacks, same) = cut_sound c s {x = u} {y = v} found in
        let ex : a ∷ u ≡ x = ground arith in rw (← ex) ((ground arith, lacks), ground arith)
  ]
]

-- Texts around a separator that both left parts lack are equal part by part.
pub separator_inj :
    (c : ℕ) (a b x y : Bytes) → Lacks c a → Lacks c b → a ++ c ∷ x ≡ b ++ c ∷ y → (a ≡ b) × (x ≡ y)
separator_inj c [] [] x y _ _ e = ground arith
separator_inj c [] (d ∷ b) x y _ (q, _) e = absurd (ground arith)
separator_inj c (d ∷ a) [] x y (p, _) _ e = absurd (ground arith)
separator_inj c (d ∷ a) (d' ∷ b) x y (_, h) (_, k) e = ground (arith, separator_inj c a b x y h k)

not-Lacks-middle : (c : ℕ) (b y : Bytes) → ¬ Lacks c (b ++ c ∷ y)
not-Lacks-middle c [] y (p, _) = p refl
not-Lacks-middle c (_ ∷ b) y (_, h) = not-Lacks-middle c b y h

-- The same from the right: the separator is the last one.
pub separator_inj_right :
    (c : ℕ) (a b x y : Bytes) → Lacks c x → Lacks c y → a ++ c ∷ x ≡ b ++ c ∷ y → (a ≡ b) × (x ≡ y)
separator_inj_right c [] [] x y h k e = ground arith
separator_inj_right c [] (d ∷ b) x y h k e =
    let same : x ≡ b ++ c ∷ y = ground arith in absurd (not-Lacks-middle c b y (rw same at h))
separator_inj_right c (d ∷ a) [] x y h k e =
    let same : y ≡ a ++ c ∷ x = ground arith in absurd (not-Lacks-middle c a x (rw same at k))
separator_inj_right c (d ∷ a) (d' ∷ b) x y h k e = ground (arith, separator_inj_right c a b x y h k)
