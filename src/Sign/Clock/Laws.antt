-- ===== src/Sign/Clock/Laws.antt =====
-- Times for which no 64-bit sum wraps.
use mcp_media.Prelude.{
  ℕ, ◌+◌, ◌-◌, ◌/◌, ◌%◌, ◌^◌, ◌<◌, ◌≡◌, refl, ltb, arith, tests, Bool-cases, inl, inr, ◌∙◌, ap,
  ◌&&◌, ◌||◌, ◌==◌,
}
use mcp_media.Prelude.Int.{
  ℤ, pos, negsuc, ◌+ℤ◌, wrap64, +ℤ_pos, +ℤ_negsuc, wrap64_of_IsInt64, IsInt64, wrap64-IsInt64,
}
use mcp_media.Sign.Clock.{Time, unix, after, add, to_unix, unix_to_internal, nanos, add_nanos}

-- A reading between the epoch and some 146 billion years after it.
pub record IsCurrent (t : Time) : Type 0 where
  pub seconds : ℕ
  pub since_epoch : t.sec ≡ pos (unix_to_internal + seconds)
  pub bounded : seconds < 2 ^ 62
  pub below_second : t.nsec < nanos

wrapped_sum : (a b : ℕ) → a + b < 2 ^ 63 → wrap64 (pos a +ℤ pos b) ≡ pos (a + b)
wrapped_sum a b h = rw (+ℤ_pos a b) (wrap64_of_IsInt64 (pos (a + b)) h)

-- From internal seconds back to Unix seconds.
to_unix_of_sec :
    (n : ℕ) (u : Time) → u.sec ≡ pos (unix_to_internal + n) → n < 2 ^ 63 → to_unix u ≡ pos n
unfolding to_unix
to_unix_of_sec n u e h =
    ap (λ z. wrap64 (z +ℤ negsuc (unix_to_internal - 1))) e
    ∙ ap wrap64 (+ℤ_negsuc n (unix_to_internal - 1))
    ∙ wrap64_of_IsInt64 (pos n) h

sec-add_nanos :
    (t : Time) (n d : ℕ)
    → t.sec ≡ pos (unix_to_internal + n)
    → n < 2 ^ 62
    → t.nsec < nanos
    → d < 2 ^ 63
    → (add_nanos t d).sec ≡ pos (unix_to_internal + (n + (t.nsec + d) / nanos))
unfolding add_nanos
sec-add_nanos t n d e bound below h = elim (Bool-cases (ltb (t.nsec + d % nanos) nanos)) [
  | inl fits ↦
      rw (fits, e, wrapped_sum (unix_to_internal + n) (d / nanos) (omega arith))
        (ap pos (omega tests))
  | inr carries ↦
      rw (carries, e, wrapped_sum (unix_to_internal + n) (d / nanos + 1) (omega arith))
        (ap pos (ground arith))
]

-- The Unix time `d` nanoseconds after a current reading.
pub to_unix-add :
    (t : Time) (c : IsCurrent t) (d : ℕ)
    → d < 2 ^ 63
    → to_unix (add t (pos d)) ≡ pos (c.seconds + (t.nsec + d) / nanos)
unfolding add
to_unix-add t c d h =
    to_unix_of_sec _ (add_nanos t d)
      (sec-add_nanos t c.seconds d c.since_epoch c.bounded c.below_second h)
      (let b = c.bounded in let n = c.below_second in omega arith)

sec-unix : (s : ℕ) → s < 2 ^ 62 + 2 ^ 61 → (unix (pos s)).sec ≡ pos (unix_to_internal + s)
unfolding unix
sec-unix s h = wrapped_sum s unix_to_internal (omega arith) ∙ ap pos (omega arith)

nsec-unix : (z : ℤ) → (unix z).nsec ≡ 0
unfolding unix
nsec-unix z = refl

-- A current reading is after Unix time `s` exactly when it has later seconds, or the same and a
-- fraction.
pub after-unix :
    (t : Time) (c : IsCurrent t) (s : ℕ)
    → s < 2 ^ 62 + 2 ^ 61
    → after t (unix (pos s)) ≡ (ltb s c.seconds || (s == c.seconds && ltb 0 t.nsec))
unfolding after
after-unix t c s h = rw (c.since_epoch, sec-unix s h, nsec-unix (pos s)) (ground arith)

pub to_unix-IsInt64 : (t : Time) → IsInt64 (to_unix t)
unfolding to_unix
to_unix-IsInt64 t = wrap64-IsInt64 _
