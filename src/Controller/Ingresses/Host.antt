-- ===== src/Controller/Ingresses/Host.antt =====
-- The host of the media ingress.
use text.Mathlib.TextLemmas.{
  append_cancel_left, append-nil, nil-append, cons-append, head-eq_of_cons-eq, cons≢nil,
}
use text.Mathlib.TextEquality.{Char-path}
use Prim.Native.Char.{code, Char}
use mcp_media.Prelude.{
  ◌≡◌, ◌≢◌, sym, ap, ◌∙◌, true, some, Bool-cases, Option-cases, inl, inr, arith, ==_iff,
  ◌==◌ as nat_eq,
}
use mcp_media.Names.{String, ◌==◌, ◌<>◌, str_eq_iff}
use mcp_media.Controller.Ingresses.{cut_at_first_dot, inherited_host}

one_dot : (s : String) → "." <> s ≡ String.◌∷◌ "." s
one_dot s = cons-append "." "" s ∙ ap (String.◌∷◌ ".") (nil-append s)

is_dot : (c : Char) (s : String) → nat_eq (code c) b'.' ≡ true → String.◌∷◌ c s ≡ "." <> s
is_dot c s h =
    ap (λ d. String.◌∷◌ d s) (Char-path c "." ((==_iff (code c) b'.').0 h)) ∙ sym (one_dot s)

-- The parts, with a dot between them, are the text that was cut.
cut_at_first_dot-append :
    (s : String) (a b : String) → cut_at_first_dot s ≡ some (a, b) → s ≡ a <> "." <> b
unfolding cut_at_first_dot
cut_at_first_dot-append String.[] a b h = absurd (ground arith)
cut_at_first_dot-append (String.◌∷◌ c s) a b h = elim (Bool-cases (nat_eq (code c) b'.')) [
  | inl dot ↦
      let cut : some ("", s) ≡ some (a, b) = rw (cut_at_first_dot, dot) at h in
      let first : "" ≡ a = ground arith in
      let rest : s ≡ b = ground arith in
      rw (← first, ← rest) (is_dot c s dot ∙ sym (nil-append ("." <> s)))
  | inr other ↦ elim (Option-cases (cut_at_first_dot s)) [
    | inl undotted ↦ absurd (ground arith)
    | inr ((x, y), found) ↦
        let cut : some (String.◌∷◌ c x, y) ≡ some (a, b) =
          rw (cut_at_first_dot, other, found) at h in
        let first : String.◌∷◌ c x ≡ a = ground arith in
        let rest : y ≡ b = ground arith in
        rw (← first, ← rest)
          (ap (String.◌∷◌ c) (cut_at_first_dot-append s x y found)
            ∙ sym (cons-append c x ("." <> y)))
  ]
]

-- The inherited host is never the host of the source, if that has one.
inherited_host-fresh :
    (src_host name : String) → src_host ≢ "" → inherited_host src_host name ≢ src_host
unfolding inherited_host
inherited_host-fresh src_host name named same = elim (Bool-cases (src_host == "")) [
  | inl nameless ↦ named ((str_eq_iff src_host "").0 nameless)
  | inr given ↦ elim (Option-cases (cut_at_first_dot src_host)) [
    | inl undotted ↦
        let grown : src_host <> "-media" ≡ src_host = rw (given, undotted) at same in
        cons≢nil (append_cancel_left src_host "-media" "" (grown ∙ sym (append-nil src_host)))
    | inr ((a, b), cut) ↦
        let grown : a <> "-media" <> "." <> b ≡ src_host = rw (given, cut) at same in
        let longer : "-media" <> "." <> b ≡ "." <> b =
          append_cancel_left a ("-media" <> "." <> b) ("." <> b)
            (grown ∙ cut_at_first_dot-append src_host a b cut) in
        let heads : Path String (String.◌∷◌ "-" ("media" <> "." <> b)) (String.◌∷◌ "." b) =
          sym (cons-append "-" "media" ("." <> b)) ∙ longer ∙ one_dot b in
        absurd (ground (arith, ap code (head-eq_of_cons-eq heads)))
  ]
]
