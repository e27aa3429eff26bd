-- ===== src/Proxy/Session/Open.antt =====
-- The session that `Upstream` keeps was not closed.
use mcp_media.Prelude.{
  ℕ, ◌<◌, ◌==◌, ◌≡◌, ◌≢◌, inl, inr, Bool, true, false, Option, some, List, [], ◌∷◌, arith,
  Bool-cases,
}
use mcp_media.Names.{String}
use mcp_media.Proxy.Upstream.{Decoded, DownstreamTool}
use mcp_media.Proxy.Session.{Place, System, Input, closing, ready, turn, run, unused}
use mcp_media.Proxy.Session.Steps.{
  Below, is_closing, is_resetting, next-known, session_at, next-current, next-past, next-mine,
  next-apart, Below-le, next-kept, next-sessions,
}

-- Sessions in use came up, as the closed ones; `Close` has taken its session out; a closed session
-- that is still kept is about to be reset.
pub record IsCurrent {Schema Metadata : Type 0} (s : System Schema Metadata) : Type 0 where
  pub known : Below s.shared.sessions s.shared.session
  pub mine : (i : ℕ) → Below s.shared.sessions (session_at (s.place i))
  pub past : (k : ℕ) → s.shared.closed k ≡ true → k < s.shared.sessions
  pub apart : (i k : ℕ) → is_closing k (s.place i) ≡ true → s.shared.session ≢ some k
  pub current :
      (k : ℕ)
      → s.shared.session ≡ some k
      → s.shared.closed k ≡ true
      → (i : ℕ) × (is_resetting k (s.place i) ≡ true)

module _ {Schema Metadata : Type 0} (decode_schema : Schema → Decoded)
    (reserved : String → Bool) where
  module _ (i : ℕ) (x : Input Schema Metadata) (s : System Schema Metadata)
      (safe : IsCurrent s) where
    turn-mine :
        (j : ℕ)
        → Below
            (turn decode_schema reserved i x s).shared.sessions
            (session_at ((turn decode_schema reserved i x s).place j))
    unfolding turn
    turn-mine j = elim (Bool-cases (j == i)) [
      | inl same ↦
          rw same (next-mine decode_schema reserved x s.shared (s.place i) safe.known (safe.mine i))
      | inr other ↦ rw other (
          Below-le _ _ (session_at (s.place j))
            (next-sessions decode_schema reserved x s.shared (s.place i)) (safe.mine j))
    ]

    turn-apart :
        (j k : ℕ)
        → is_closing k ((turn decode_schema reserved i x s).place j) ≡ true
        → (turn decode_schema reserved i x s).shared.session ≢ some k
    unfolding turn
    turn-apart j k h kept = elim (Bool-cases (j == i)) [
      | inl same ↦
          cc (kept, next-apart decode_schema reserved x s.shared (s.place i) k (rw same at h))
      | inr other ↦
          let h' : is_closing k (s.place j) ≡ true = rw other at h in
          elim (next-kept decode_schema reserved x s.shared (s.place i) k kept) [
            | inl before ↦ safe.apart j k h' before
            | inr new ↦ absurd (closing-old (s.place j) h' new (safe.mine j))
          ]
    ]
      where
        closing-old :
            (p : Place Schema Metadata)
            → is_closing k p ≡ true
            → k ≡ s.shared.sessions
            → Below s.shared.sessions (session_at p)
            → ⊥
        closing-old (closing j) e new below = ground arith
        closing-old ready e new below = cc
        closing-old p e new below = cc

    turn-current :
        (k : ℕ)
        → (turn decode_schema reserved i x s).shared.session ≡ some k
        → (turn decode_schema reserved i x s).shared.closed k ≡ true
        → (j : ℕ) × (is_resetting k ((turn decode_schema reserved i x s).place j) ≡ true)
    unfolding turn
    turn-current k kept gone =
        elim (next-current decode_schema reserved x s.shared (s.place i) k (safe.past k)
          (safe.apart i k) kept gone) [
            | inl now ↦ let self : (i == i) ≡ true = ground arith in (i, rw self now)
            | inr (was, old, here) ↦
                let (j, h) = safe.current k was old in
                (
                  j,
                  elim (Bool-cases (j == i)) [
                    | inl same ↦ absurd (ground (arith, h, here, same))
                    | inr other ↦ rw other h
                  ],
                )
          ]

    turn-IsCurrent : IsCurrent (turn decode_schema reserved i x s)
    unfolding turn
    turn-IsCurrent = record {
      known = next-known decode_schema reserved x s.shared (s.place i) safe.known;
      mine = turn-mine;
      past = λ k.
          next-past decode_schema reserved x s.shared (s.place i) k (safe.past k) (safe.mine i);
      apart = turn-apart;
      current = turn-current;
    }

  run-IsCurrent :
      (order : List (ℕ × Input Schema Metadata)) (s : System Schema Metadata)
      → IsCurrent s
      → IsCurrent (run decode_schema reserved order s)
  unfolding run
  run-IsCurrent [] s safe = safe
  run-IsCurrent ((i, x) ∷ order) s safe =
      run-IsCurrent order (turn decode_schema reserved i x s) (turn-IsCurrent i x s safe)

  unused-IsCurrent :
      (server : String → Option (DownstreamTool Metadata))
      → IsCurrent (unused {Schema = Schema} server)
  unused-IsCurrent server = record {
    known = tt;
    mine = λ i. tt;
    past = λ k h. cc;
    apart = λ i k h. cc;
    current = λ k h. cc;
  }

  -- After any steps of any calls of `Connect`, `Close` and `resync`, mixed in any way, the session that
  -- is kept is not a closed one, unless some goroutine is in a failed `Connect` between the close of
  -- that session and its reset.
  pub run-open :
      (server : String → Option (DownstreamTool Metadata))
      (order : List (ℕ × Input Schema Metadata)) (k : ℕ)
      → (run decode_schema reserved order (unused server)).shared.session ≡ some k
      → ((i : ℕ)
          → is_resetting k ((run decode_schema reserved order (unused server)).place i) ≡ false)
      → (run decode_schema reserved order (unused server)).shared.closed k ≡ false
  run-open server order k kept none_resets =
      elim (Bool-cases ((run decode_schema reserved order (unused server)).shared.closed k)) [
        | inl gone ↦
            let (i, h) =
              (run-IsCurrent order (unused server) (unused-IsCurrent server)).current k kept gone in
            cc (none_resets i, h)
        | inr still ↦ still
      ]
