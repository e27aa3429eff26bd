-- ===== src/Sign/Decimal/Laws.antt =====
-- Reading back a formatted integer, and the bytes that formatting can produce.
use mcp_media.Prelude.{
  ℕ, zero, suc, ◌+◌, ◌-◌, ◌*◌, ◌/◌, ◌%◌, ◌<◌, ◌≤◌, ◌≡◌, refl, sym, some, [], ◌∷◌, ◌++◌, true, false,
  ltb, arith, All, All-append, All-imp, Bool-cases, ◌≢◌, inl, inr,
}
use mcp_media.Prelude.Int.{ℤ, pos, negsuc, IsInt64}
use mcp_media.Text.{Bytes, Lacks}
use mcp_media.Sign.Decimal.{digits, format_int, read_digits, parse_uint, parse_int, in_range}

-- Reading goes on behind a text that was read.
read_digits-append :
    (acc : ℕ) (s t : Bytes) {n : ℕ}
    → read_digits acc s ≡ some n
    → read_digits acc (s ++ t) ≡ read_digits n t
unfolding read_digits
read_digits-append acc [] t e = ground arith
read_digits-append acc (c ∷ s) t {n} e =
    ground (arith, read_digits-append (acc * 10 + (c - b'0')) s t {n = n})

read_digits_one : (acc d : ℕ) → d < 10 → read_digits acc ((b'0' + d) ∷ []) ≡ some (acc * 10 + d)
unfolding read_digits
read_digits_one acc d h = ground arith

read_digits-digits : (fuel n : ℕ) → n < fuel → read_digits 0 (digits fuel n) ≡ some n
unfolding digits
read_digits-digits zero n h = absurd (omega arith)
read_digits-digits (suc fuel) n h = elim (Bool-cases (ltb n 10)) [
  | inl small ↦ rw small (ground (arith, read_digits_one 0 n))
  | inr large ↦
      rw
        (
          large,
          read_digits-append 0 (digits fuel (n / 10)) _
              (read_digits-digits fuel (n / 10) (ground arith)),
          read_digits_one (n / 10) (n % 10) (omega arith),
        )
        (ground arith)
]

abbrev pub IsDigit : ℕ → Type 0
IsDigit c = (b'0' ≤ c) × (c ≤ b'9')

pub digits-IsDigit : (fuel n : ℕ) → All IsDigit (digits fuel n)
unfolding digits
digits-IsDigit zero n = tt
digits-IsDigit (suc fuel) n = elim (Bool-cases (ltb n 10)) [
  | inl small ↦ rw small ((omega arith, ground arith), tt)
  | inr large ↦ rw large (
      All-append IsDigit (digits fuel (n / 10)) _ (digits-IsDigit fuel (n / 10))
        ((omega arith, omega arith), tt))
]

digits-Lacks : (c fuel n : ℕ) → ¬ IsDigit c → Lacks c (digits fuel n)
digits-Lacks c fuel n h = All-imp (λ b d e. h (rw e at d)) (digits fuel n) (digits-IsDigit fuel n)

append-ne-nil : (s : Bytes) (c : ℕ) → s ++ c ∷ [] ≢ []
append-ne-nil [] c e = cc
append-ne-nil (_ ∷ _) c e = cc

digits-ne-nil : (fuel n : ℕ) → n < fuel → digits fuel n ≢ []
unfolding digits
digits-ne-nil zero n h = absurd (omega arith)
digits-ne-nil (suc fuel) n h = ground (arith, append-ne-nil (digits fuel (n / 10)) (b'0' + n % 10))

parse_uint_of_digits :
    (s : Bytes) {n : ℕ} → s ≢ [] → read_digits 0 s ≡ some n → parse_uint s ≡ some n
unfolding parse_uint
parse_uint_of_digits [] h e = absurd (h refl)
parse_uint_of_digits (_ ∷ _) h e = e

parse_uint-digits : (fuel n : ℕ) → n < fuel → parse_uint (digits fuel n) ≡ some n
parse_uint-digits fuel n h =
    parse_uint_of_digits (digits fuel n) (digits-ne-nil fuel n h) (read_digits-digits fuel n h)

parse_int_of_digits :
    (s : Bytes) → s ≢ [] → All IsDigit s → parse_int s ≡ in_range false (parse_uint s)
unfolding parse_int
parse_int_of_digits [] h d = absurd (h refl)
parse_int_of_digits (c ∷ s) h (p, d) = ground arith

parse_int_minus : (s : Bytes) → parse_int (b'-' ∷ s) ≡ in_range true (parse_uint s)
unfolding parse_int
parse_int_minus s = refl

-- An `int64` is read back from its decimal form.
pub parse_int-format_int : (z : ℤ) → IsInt64 z → parse_int (format_int z) ≡ some z
unfolding format_int
parse_int-format_int (pos n) h =
    rw
      (
        parse_int_of_digits _ (digits-ne-nil (suc n) n (omega arith)) (digits-IsDigit (suc n) n),
        parse_uint-digits (suc n) n (omega arith),
      )
      (ground arith)
parse_int-format_int (negsuc n) h =
    rw (parse_int_minus, parse_uint-digits (suc (suc n)) (suc n) (omega arith)) (ground arith)

-- A decimal form holds digits and a sign: no other byte.
pub format_int-Lacks : (c : ℕ) (z : ℤ) → ¬ IsDigit c → c ≢ b'-' → Lacks c (format_int z)
unfolding format_int
format_int-Lacks c (pos n) h k = digits-Lacks c (suc n) n h
format_int-Lacks c (negsuc n) h k = (λ e. k (sym e), digits-Lacks c (suc (suc n)) (suc n) h)

pub format_int_injective : (y z : ℤ) → IsInt64 y → IsInt64 z → format_int y ≡ format_int z → y ≡ z
format_int_injective y z p q e = cc (parse_int-format_int y p, parse_int-format_int z q)
