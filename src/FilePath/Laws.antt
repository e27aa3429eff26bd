-- ===== src/FilePath/Laws.antt =====
-- A cleaned path is canonical: a cleaned absolute path holds no empty, "." or ".." element.
use mcp_media.Prelude.{
  ℕ, ◌≢◌, true, List, [], ◌∷◌, arith, append-nil, append_assoc, ◌||◌, All, Bool-cases,
  All-reverse_aux, Bool, ◌≡◌, inl, inr, ◌++◌, ◌==◌, ◌∙◌, All-imp, refl, sym, ap, false,
}
use mcp_media.Text.{Bytes, Lacks, split, text_eq, is_empty, has_prefix}
use mcp_media.Text.Laws.{text_eq_iff, is_empty_iff}
use mcp_media.FilePath.{
  slash, dot, dot_dot, go_up, clean_step, clean_elements, clean, join_elements, is_abs, or_dot,
}
use mathlib.Core.List.{reverse, reverse-cons}

pub split-Lacks : (c : ℕ) (s : Bytes) → All (Lacks c) (split c s)
unfolding split
split-Lacks c [] = (tt, tt)
split-Lacks c (a ∷ s) = ground (arith, split-Lacks c s)

-- An element that names an entry of its directory.
abbrev pub IsPlain : Bytes → Type 0
IsPlain e = (e ≢ []) × (e ≢ dot) × (e ≢ dot_dot) × Lacks slash e

go_up-IsPlain : (out : List Bytes) → All IsPlain out → All IsPlain (go_up true out)
unfolding go_up
go_up-IsPlain [] h = tt
go_up-IsPlain (e ∷ out) (p, h) = elim (Bool-cases (text_eq e dot_dot)) [
  | inl up ↦ absurd (p.2 ((text_eq_iff e dot_dot).0 up))
  | inr down ↦ rw down h
]

clean_step-IsPlain :
    (out : List Bytes) (e : Bytes)
    → All IsPlain out
    → Lacks slash e
    → All IsPlain (clean_step true out e)
unfolding clean_step
clean_step-IsPlain out e h k = elim (Bool-cases (is_empty e || text_eq e dot)) [
  | inl skip ↦ rw skip h
  | inr named ↦ elim (Bool-cases (text_eq e dot_dot)) [
    | inl up ↦ rw (named, up) (go_up-IsPlain out h)
    | inr down ↦
        let plain : IsPlain e = (
          ground (arith, is_empty_iff e),
          ground (arith, text_eq_iff e dot),
          ground (arith, text_eq_iff e dot_dot),
          k,
        ) in
        rw (named, down) (plain, h)
  ]
]

clean_elements-IsPlain :
    (out es : List Bytes)
    → All IsPlain out
    → All (Lacks slash) es
    → All IsPlain (clean_elements true out es)
unfolding clean_elements
clean_elements-IsPlain out [] h k = All-reverse_aux IsPlain out [] h tt
clean_elements-IsPlain out (e ∷ es) h (k, ks) =
    clean_elements-IsPlain (clean_step true out e) es (clean_step-IsPlain out e h k) ks

-- The cleaned form of an absolute path: the elements below "/", each of which names an entry.
pub clean_of_is_abs :
    (p : Bytes)
    → is_abs p ≡ true
    → (es : List Bytes) × (clean p ≡ slash ∷ join_elements es) × All IsPlain es
unfolding clean
clean_of_is_abs p h = (
  clean_elements true [] (split slash p),
  rw h refl,
  clean_elements-IsPlain [] (split slash p) tt (split-Lacks slash p),
)

clean_step_of_IsPlain :
    (rooted : Bool) (out : List Bytes) (e : Bytes) → IsPlain e → clean_step rooted out e ≡ e ∷ out
unfolding clean_step
clean_step_of_IsPlain rooted out e (ne, not_dot, not_up, _) =
    ground (arith, is_empty_iff e, text_eq_iff e dot, text_eq_iff e dot_dot)

clean_elements_of_IsPlain :
    (rooted : Bool) (out es : List Bytes)
    → All IsPlain es
    → clean_elements rooted out es ≡ reverse out ++ es
unfolding clean_elements
clean_elements_of_IsPlain rooted out [] h = sym (append-nil _)
clean_elements_of_IsPlain rooted out (e ∷ es) (plain, h) =
    rw (clean_step_of_IsPlain rooted out e plain, clean_elements_of_IsPlain rooted (e ∷ out) es h)
      (simp (reverse-cons, append_assoc))

split-cons : (c : ℕ) (s : Bytes) → (p : Bytes) × (ps : List Bytes) × (split c s ≡ p ∷ ps)
unfolding split
split-cons c [] = ([], [], refl)
split-cons c (a ∷ s) =
    let (p, ps, e) = split-cons c s in
    elim (Bool-cases (a == c)) [
      | inl sep ↦ ([], p ∷ ps, ground arith)
      | inr other ↦ (a ∷ p, ps, ground arith)
    ]

split-append : (c : ℕ) (e t : Bytes) → Lacks c e → split c (e ++ c ∷ t) ≡ e ∷ split c t
unfolding split
split-append c [] t h = let (p, ps, e) = split-cons c t in ground arith
split-append c (a ∷ e) t (h, k) = ground (arith, split-append c e t k)

split_of_Lacks : (c : ℕ) (e : Bytes) → Lacks c e → split c e ≡ e ∷ []
unfolding split
split_of_Lacks c [] h = refl
split_of_Lacks c (a ∷ e) (h, k) = ground (arith, split_of_Lacks c e k)

split-join_elements :
    (e : Bytes) (es : List Bytes)
    → All (Lacks slash) (e ∷ es)
    → split slash (join_elements (e ∷ es)) ≡ e ∷ es
unfolding join_elements
split-join_elements e [] (h, _) = split_of_Lacks slash e h
split-join_elements e (e' ∷ es) (h, k) =
    split-append slash e (join_elements (e' ∷ es)) h ∙ ap (λ l. e ∷ l) (split-join_elements e' es k)

is_abs_cons : (s : Bytes) → is_abs (slash ∷ s) ≡ true
unfolding is_abs has_prefix
is_abs_cons s = refl

-- The elements that Clean finds in a path that it has cleaned.
clean_elements-slash :
    (es : List Bytes)
    → All IsPlain es
    → clean_elements true [] (split slash (slash ∷ join_elements es)) ≡ es
clean_elements-slash [] h = unfold clean_elements split clean_step join_elements is_empty in refl
clean_elements-slash (e ∷ es) h =
    rw
      (
        split-append slash [] (join_elements (e ∷ es)) tt,
        split-join_elements e es (All-imp (λ x p. p.3) (e ∷ es) h),
      )
      (unfold clean_elements clean_step is_empty in clean_elements_of_IsPlain true [] (e ∷ es) h)

-- Cleaning a cleaned absolute path changes nothing.
clean_idempotent : (p : Bytes) → is_abs p ≡ true → clean (clean p) ≡ clean p
clean_idempotent p h =
    let (es, same, plain) = clean_of_is_abs p h in
    rw same
      (unfold clean in rw (is_abs_cons (join_elements es), clean_elements-slash es plain) refl)

-- An element of a cleaned path, ".." in front included.
abbrev IsElement : Bytes → Type 0
IsElement e = (e ≢ []) × Lacks slash e

dot_dot-IsElement : IsElement dot_dot
dot_dot-IsElement = ((λ e. cc), ((omega arith), ((omega arith), tt)))

go_up-IsElement :
    (rooted : Bool) (out : List Bytes) → All IsElement out → All IsElement (go_up rooted out)
unfolding go_up
go_up-IsElement true [] h = tt
go_up-IsElement false [] h = (dot_dot-IsElement, tt)
go_up-IsElement rooted (e ∷ out) (p, h) = elim (Bool-cases (text_eq e dot_dot)) [
  | inl up ↦ rw up (dot_dot-IsElement, (p, h))
  | inr down ↦ rw down h
]

clean_step-IsElement :
    (rooted : Bool) (out : List Bytes) (e : Bytes)
    → All IsElement out
    → Lacks slash e
    → All IsElement (clean_step rooted out e)
unfolding clean_step
clean_step-IsElement rooted out e h k = elim (Bool-cases (is_empty e || text_eq e dot)) [
  | inl skip ↦ rw skip h
  | inr named ↦ elim (Bool-cases (text_eq e dot_dot)) [
    | inl up ↦ rw (named, up) (go_up-IsElement rooted out h)
    | inr down ↦ rw (named, down) ((ground (arith, is_empty_iff e), k), h)
  ]
]

clean_elements-IsElement :
    (rooted : Bool) (out es : List Bytes)
    → All IsElement out
    → All (Lacks slash) es
    → All IsElement (clean_elements rooted out es)
unfolding clean_elements
clean_elements-IsElement rooted out [] h k = All-reverse_aux IsElement out [] h tt
clean_elements-IsElement rooted out (e ∷ es) h (k, ks) =
    clean_elements-IsElement rooted (clean_step rooted out e) es
      (clean_step-IsElement rooted out e h k) ks

-- Elements joined do not begin with a slash.
is_abs-join_elements : (es : List Bytes) → All IsElement es → is_abs (join_elements es) ≡ false
unfolding is_abs has_prefix join_elements
is_abs-join_elements [] h = refl
is_abs-join_elements ([] ∷ es) ((p, _), _) = absurd (p refl)
is_abs-join_elements ((a ∷ e) ∷ []) ((_, (q, _)), _) = ground arith
is_abs-join_elements ((a ∷ e) ∷ e' ∷ es) ((_, (q, _)), _) = ground arith

is_abs-or_dot : (s : Bytes) → is_abs s ≡ false → is_abs (or_dot s) ≡ false
is_abs-or_dot s h = elim (Bool-cases (is_empty s)) [
  | inl none_left ↦ rw none_left (unfold is_abs has_prefix in refl)
  | inr some_left ↦ rw some_left h
]

is_abs-clean_relative : (p : Bytes) → is_abs p ≡ false → is_abs (clean p) ≡ false
unfolding clean
is_abs-clean_relative p h = rw h (
    is_abs-or_dot _ (
      is_abs-join_elements _
        (clean_elements-IsElement false [] (split slash p) tt (split-Lacks slash p))))

-- Cleaning keeps a path absolute, and keeps a relative path relative.
pub is_abs-clean : (p : Bytes) → is_abs (clean p) ≡ is_abs p
is_abs-clean p = elim (Bool-cases (is_abs p)) [
  | inl rooted ↦
      let (es, same, _) = clean_of_is_abs p rooted in rw same (is_abs_cons _ ∙ sym rooted)
  | inr relative ↦ is_abs-clean_relative p relative ∙ sym relative
]

-- A cleaned absolute path begins with one slash, not two.
pub clean_one_slash :
    (p : Bytes)
    → is_abs p ≡ true
    → (rest : Bytes) × (clean p ≡ slash ∷ rest) × (is_abs rest ≡ false)
clean_one_slash p h =
    let (es, same, plain) = clean_of_is_abs p h in
    (join_elements es, same, is_abs-join_elements es (All-imp (λ e q. (q.0, q.3)) es plain))
