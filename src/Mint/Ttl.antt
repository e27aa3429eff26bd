-- ===== src/Mint/Ttl.antt =====
-- The lifetime of a minted URL.
use mcp_media.Prelude.{
  ℕ, suc, ◌/◌, ◌*◌, ◌≡◌, if◌then◌else◌, arith, ltb, ◌<◌, ◌^◌, Bool-cases, zero, inr, inl, ltb→lt,
  true,
}
use mcp_media.Prelude.Int.{ℤ, wrap64, pos, ltb_ℤ, IsInt64, negsuc, ◌<ℤ◌, ◌≤ℤ◌, wrap64_of_IsInt64}
use mcp_media.Mint.Config.{MintHandler, IsValid}
use mcp_media.Sign.Clock.{nanos, negated}

-- Division of an `int64`, which rounds towards zero.
abbrev pub quotient : ℤ → ℕ → ℤ
quotient (pos n) d = pos (n / d)
quotient (negsuc n) d = negated (suc n / d)

-- time.Duration(n) * time.Second, which can overflow.
unfoldable pub seconds_of : ℕ → ℤ
seconds_of n = wrap64 (pos (n * nanos))

-- The lifetime for a request of `ttl_seconds`, which is not negative.
unfoldable pub clamp_ttl : MintHandler → ℕ → ℤ
clamp_ttl h n =
    if ltb 0 n
    then (if ltb_ℤ (pos n) (quotient h.max_ttl nanos) then seconds_of n else h.max_ttl)
    else h.def_ttl

seconds_of_small : (n : ℕ) → n * nanos < 2 ^ 63 → seconds_of n ≡ pos (n * nanos)
unfolding seconds_of
seconds_of_small n h = wrap64_of_IsInt64 (pos (n * nanos)) h

not-lt-negated : (n k : ℕ) → ¬ (pos n <ℤ negated k)
not-lt-negated n zero h = omega arith
not-lt-negated n (suc k) h = omega arith

-- Below the maximum in whole seconds the product is below the maximum, and does not wrap.
pub below_max :
    (n : ℕ) (m : ℤ)
    → IsInt64 m
    → pos n <ℤ quotient m nanos
    → (n * nanos < 2 ^ 63) × (pos (n * nanos) ≤ℤ m)
below_max n (pos m) fits h = omega arith
below_max n (negsuc m) fits h = absurd (not-lt-negated n (suc m / nanos) h)

-- With a valid configuration the lifetime is positive and at most the maximum, whatever is asked for.
pub clamp_ttl_bounds :
    (h : MintHandler) (n : ℕ)
    → IsValid h
    → IsInt64 h.max_ttl
    → (pos 0 <ℤ clamp_ttl h n) × (clamp_ttl h n ≤ℤ h.max_ttl)
unfolding clamp_ttl
clamp_ttl_bounds h n v fits = elim (Bool-cases (ltb 0 n)) [
  | inr unset ↦ rw unset (v.positive, v.ordered)
  | inl asked ↦ elim (Bool-cases (ltb_ℤ (pos n) (quotient h.max_ttl nanos))) [
    | inr long ↦
        rw (asked, long) (let p = v.positive in let o = v.ordered in omega arith, omega arith)
    | inl short ↦
        let below : pos n <ℤ quotient h.max_ttl nanos = ground arith in
        let (small, within) = below_max n h.max_ttl fits below in
        rw (asked, short, seconds_of_small n small) (omega (arith, ltb→lt 0 n asked), within)
  ]
]

-- A number of seconds that is positive and below the maximum in whole seconds is honoured as it is,
-- below the default too, and its product with a second does not wrap.
pub clamp_ttl_honours :
    (h : MintHandler) (n : ℕ)
    → IsInt64 h.max_ttl
    → 0 < n
    → pos n <ℤ quotient h.max_ttl nanos
    → clamp_ttl h n ≡ pos (n * nanos)
unfolding clamp_ttl
clamp_ttl_honours h n fits asked below =
    let given : ltb 0 n ≡ true = ground arith in
    let short : ltb_ℤ (pos n) (quotient h.max_ttl nanos) ≡ true = ground arith in
    rw (given, short) (seconds_of_small n (below_max n h.max_ttl fits below).0)
