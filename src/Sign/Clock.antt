-- ===== src/Sign/Clock.antt =====
-- time.Time without a monotonic reading, and time.Duration, as far as the program uses them.
pub mod Laws
use mcp_media.Prelude.{ℕ, ◌+◌, ◌-◌, ◌/◌, ◌%◌, Bool, ◌&&◌, ◌||◌, ltb, if◌then◌else◌, leb, suc, zero}
use mcp_media.Prelude.Int.{ℤ, pos, negsuc, ◌+ℤ◌, ltb_ℤ, eqb_ℤ, wrap64}

-- Seconds since the year 1, in an `int64`, and nanoseconds below a second.
pub record Time : Type 0 where
  pub sec : ℤ
  pub nsec : ℕ

-- The seconds from the year 1 to the Unix epoch.
abbrev pub unix_to_internal : ℕ
unix_to_internal = 62135596800

-- time.Unix(s, 0)
unfoldable pub unix : ℤ → Time
unix s = record { sec = wrap64 (s +ℤ pos unix_to_internal); nsec = 0 }

-- t.After(u)
unfoldable pub after : Time → Time → Bool
after t u = ltb_ℤ u.sec t.sec || (eqb_ℤ u.sec t.sec && ltb u.nsec t.nsec)

abbrev pub nanos : ℕ
nanos = 1000000000

-- t.Add(d) for a duration d ≥ 0 in nanoseconds.
unfoldable pub add_nanos : Time → ℕ → Time
add_nanos t d =
    let total = t.nsec + d % nanos in
    if ltb total nanos
    then record { sec = wrap64 (t.sec +ℤ pos (d / nanos)); nsec = total }
    else record { sec = wrap64 (t.sec +ℤ pos (d / nanos + 1)); nsec = total - nanos }

abbrev pub negated : ℕ → ℤ
negated zero = pos 0
negated (suc n) = negsuc n

unfoldable pub sub_nanos : Time → ℕ → Time
sub_nanos t d =
    if leb (d % nanos) t.nsec
    then record { sec = wrap64 (t.sec +ℤ negated (d / nanos)); nsec = t.nsec - d % nanos }
    else record {
      sec = wrap64 (t.sec +ℤ negated (d / nanos + 1));
      nsec = t.nsec + nanos - d % nanos;
    }

-- t.Add(d) for a duration in nanoseconds.
unfoldable pub add : Time → ℤ → Time
add t (pos d) = add_nanos t d
add t (negsuc n) = sub_nanos t (suc n)

-- t.Unix()
unfoldable pub to_unix : Time → ℤ
to_unix t = wrap64 (t.sec +ℤ negsuc (unix_to_internal - 1))
