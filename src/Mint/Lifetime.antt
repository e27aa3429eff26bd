-- ===== src/Mint/Lifetime.antt =====
-- How long a minted URL is accepted.
use mcp_media.Prelude.{ℕ, ◌≡◌, ◌*◌, ◌+◌, ◌/◌, ◌≤◌, ◌<◌, arith, false, ◌^◌}
use mcp_media.Prelude.Int.{ℤ, pos, negsuc, pos_part, IsInt64, ◌<ℤ◌, ◌≤ℤ◌}
use mcp_media.Platform.{Library, FileSystem}
use mcp_media.Sign.Clock.{Time, unix, after, add, to_unix, nanos}
use mcp_media.Sign.Clock.Laws.{IsCurrent, to_unix-add, after-unix}
use mcp_media.Mint.Config.{MintHandler, IsValid}
use mcp_media.Mint.Ttl.{clamp_ttl, clamp_ttl_bounds, quotient, clamp_ttl_honours, below_max}
use mcp_media.Mint.Handler.{expiry}

-- The nanoseconds of a current reading since the epoch.
abbrev pub instant : (t : Time) → IsCurrent t → ℕ
instant t c = c.seconds * nanos + t.nsec

-- A reading that is not after the Unix time `d` nanoseconds behind another is at most that much
-- later.
after-add :
    (t u : Time) (c : IsCurrent t) (k : IsCurrent u) (d : ℕ)
    → d < 2 ^ 63
    → after u (unix (to_unix (add t (pos d)))) ≡ false
    → instant u k ≤ instant t c + d
after-add t u c k d small fresh =
    let s = c.seconds + (t.nsec + d) / nanos in
    let few : s < 2 ^ 62 + 2 ^ 61 = (let b = c.bounded in let n = c.below_second in omega arith) in
    let order = after-unix u k s few in
    let found : after u (unix (pos s)) ≡ false = rw (to_unix-add t c d small) at fresh in
    let n = k.below_second in ground arith

-- A reading that is a second earlier than that is not after it.
add_not_after :
    (t u : Time) (c : IsCurrent t) (k : IsCurrent u) (d : ℕ)
    → d < 2 ^ 63
    → instant u k + nanos ≤ instant t c + d
    → after u (unix (to_unix (add t (pos d)))) ≡ false
add_not_after t u c k d small early =
    let s = c.seconds + (t.nsec + d) / nanos in
    let few : s < 2 ^ 62 + 2 ^ 61 = (let b = c.bounded in let n = c.below_second in omega arith) in
    let order = after-unix u k s few in
    let n = k.below_second in rw (to_unix-add t c d small) (ground arith)

within :
    (t u : Time) (c : IsCurrent t) (k : IsCurrent u) (z m : ℤ)
    → pos 0 <ℤ z
    → z ≤ℤ m
    → IsInt64 m
    → after u (unix (to_unix (add t z))) ≡ false
    → instant u k ≤ instant t c + pos_part m
within t u c k (negsuc d) m positive below fits fresh = absurd (omega arith)
within t u c k (pos d) (negsuc m) positive below fits fresh = absurd (omega arith)
within t u c k (pos d) (pos m) positive below fits fresh =
    let late = after-add t u c k d (omega arith) fresh in omega arith

module _ (lib : Library) (fs : FileSystem) (h : MintHandler) (fits : IsInt64 h.max_ttl) where
  -- Whatever lifetime was asked for, a reading that is not after the expiry of a minted URL is at
  -- most the maximal lifetime later than the minting.
  pub expiry_bounded :
      (minting serving : Time) (c : IsCurrent minting) (k : IsCurrent serving) (ttl_seconds : ℕ)
      → IsValid h
      → after serving (unix (expiry lib fs minting h ttl_seconds)) ≡ false
      → instant serving k ≤ instant minting c + pos_part h.max_ttl
  expiry_bounded minting serving c k n v fresh =
      let (positive, below) = clamp_ttl_bounds h n v fits in
      within minting serving c k (clamp_ttl h n) h.max_ttl positive below fits fresh

  -- A lifetime that is positive and below the maximum in whole seconds is granted up to its last
  -- second: until then no reading is after the expiry.
  pub expiry_lasts :
      (minting serving : Time) (c : IsCurrent minting) (k : IsCurrent serving) (ttl_seconds : ℕ)
      → 0 < ttl_seconds
      → pos ttl_seconds <ℤ quotient h.max_ttl nanos
      → instant serving k + nanos ≤ instant minting c + ttl_seconds * nanos
      → after serving (unix (expiry lib fs minting h ttl_seconds)) ≡ false
  expiry_lasts minting serving c k n asked below early =
      rw (clamp_ttl_honours h n fits asked below)
        (add_not_after minting serving c k (n * nanos) (below_max n h.max_ttl fits below).0 early)
