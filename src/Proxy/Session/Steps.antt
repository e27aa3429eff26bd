-- ===== src/Proxy/Session/Steps.antt =====
-- What one step of a goroutine does to the sessions.
use mcp_media.Prelude.{
  ℕ, ◌<◌, ◌≤◌, ◌==◌, ◌≡◌, ◌≢◌, refl, ◌⊎◌, inl, inr, Bool, true, false, Option, none, some, List,
  arith, Bool-cases,
}
use mcp_media.Names.{String}
use mcp_media.Proxy.Upstream.{Decoded, ListedTool}
use mcp_media.Proxy.Session.{
  Place, reset, called_place, closing_place, returned, Input, advance, Call, Caller, Upstream,
  publish, waiting, closing, resetting, releasing, close_session, connect, connect_call,
  apply_sweep, holding, close_call, with_session, listing, dialling, with_listing, applying, ending,
  failing, changed_call, ready, notified, resync,
}

-- The session that a goroutine works with.
abbrev pub caller_session : Caller → Option ℕ
caller_session (connect k) = some k
caller_session resync = none

abbrev pub session_at : {Schema Metadata : Type 0} → Place Schema Metadata → Option ℕ
session_at (waiting c) = caller_session c
session_at (holding c) = caller_session c
session_at (listing c) = caller_session c
session_at (applying c tools) = caller_session c
session_at (releasing c good) = caller_session c
session_at (failing k) = some k
session_at (resetting k) = some k
session_at (closing k) = some k
session_at p = none

abbrev pub is_closing : {Schema Metadata : Type 0} → ℕ → Place Schema Metadata → Bool
is_closing k (closing j) = j == k
is_closing k p = false

-- Between `session.Close` and the reset.
abbrev pub is_resetting : {Schema Metadata : Type 0} → ℕ → Place Schema Metadata → Bool
is_resetting k (resetting j) = j == k
is_resetting k p = false

abbrev pub Below : ℕ → Option ℕ → Type 0
Below n none = Unit
Below n (some k) = k < n

pub Below-le : (m n : ℕ) (k : Option ℕ) → m ≤ n → Below m k → Below n k
Below-le m n none le below = tt
Below-le m n (some k) le below = omega arith

Below-reset : (n k : ℕ) (kept : Option ℕ) → Below n kept → Below n (reset k kept)
unfolding reset
Below-reset n k none below = tt
Below-reset n k (some j) below = elim (Bool-cases (j == k)) [
  | inl same ↦ rw same tt
  | inr other ↦ rw other below
]

module _ (Schema Metadata : Type 0) (n : ℕ) where
  called_place-Below :
      (c : Call) → Below n (session_at (called_place {Schema = Schema} {Metadata = Metadata} c))
  unfolding called_place
  called_place-Below connect_call = tt
  called_place-Below close_call = tt
  called_place-Below changed_call = tt

  closing_place-Below :
      (k : Option ℕ)
      → Below n k
      → Below n (session_at (closing_place {Schema = Schema} {Metadata = Metadata} k))
  unfolding closing_place
  closing_place-Below none below = tt
  closing_place-Below (some k) below = below

  returned-Below :
      (c : Caller) (good : Bool)
      → Below n (caller_session c)
      → Below n (session_at (returned {Schema = Schema} {Metadata = Metadata} c good))
  unfolding returned
  returned-Below (connect k) true below = tt
  returned-Below (connect k) false below = below
  returned-Below resync good below = tt

  with_session-Below :
      (c : Caller) (kept : Option ℕ)
      → Below n (caller_session c)
      → Below n (session_at (with_session {Schema = Schema} {Metadata = Metadata} c kept))
  unfolding with_session
  with_session-Below c none below = below
  with_session-Below c (some k) below = below

  with_listing-Below :
      (c : Caller) (listed : Option (List (ListedTool Schema Metadata)))
      → Below n (caller_session c)
      → Below n (session_at (with_listing c listed))
  unfolding with_listing
  with_listing-Below c none below = below
  with_listing-Below c (some tools) below = below

module _ (Schema Metadata : Type 0) (k : ℕ) where
  called_place-open :
      (c : Call) → is_closing k (called_place {Schema = Schema} {Metadata = Metadata} c) ≡ false
  unfolding called_place
  called_place-open connect_call = refl
  called_place-open close_call = refl
  called_place-open changed_call = refl

  with_session-open :
      (c : Caller) (kept : Option ℕ)
      → is_closing k (with_session {Schema = Schema} {Metadata = Metadata} c kept) ≡ false
  unfolding with_session
  with_session-open c none = refl
  with_session-open c (some j) = refl

  with_listing-open :
      (c : Caller) (listed : Option (List (ListedTool Schema Metadata)))
      → is_closing k (with_listing c listed) ≡ false
  unfolding with_listing
  with_listing-open c none = refl
  with_listing-open c (some tools) = refl

  returned-open :
      (c : Caller) (good : Bool)
      → is_closing k (returned {Schema = Schema} {Metadata = Metadata} c good) ≡ false
  unfolding returned
  returned-open (connect j) true = refl
  returned-open (connect j) false = refl
  returned-open resync good = refl

module _ {Schema Metadata : Type 0} (decode_schema : Schema → Decoded)
    (reserved : String → Bool) where
  abbrev pub next :
      Input Schema Metadata
      → Upstream Metadata
      → Place Schema Metadata
      → Upstream Metadata × Place Schema Metadata
  next = advance decode_schema reserved

  pub next-sessions :
      (x : Input Schema Metadata) (u : Upstream Metadata) (p : Place Schema Metadata)
      → u.sessions ≤ (next x u p).0.sessions
  unfolding advance publish close_session apply_sweep
  next-sessions x u dialling = elim (Bool-cases x.dialled) [
    | inl e ↦ rw e (omega arith)
    | inr e ↦ rw e (omega arith)
  ]
  next-sessions x u (waiting c) = elim (Bool-cases u.locked) [
    | inl e ↦ rw e (omega arith)
    | inr e ↦ rw e (omega arith)
  ]
  next-sessions x u p = omega arith

  pub next-known :
      (x : Input Schema Metadata) (u : Upstream Metadata) (p : Place Schema Metadata)
      → Below u.sessions u.session
      → Below (next x u p).0.sessions (next x u p).0.session
  unfolding advance publish close_session apply_sweep
  next-known x u dialling known = elim (Bool-cases x.dialled) [
    | inl e ↦ rw e (omega arith)
    | inr e ↦ rw e known
  ]
  next-known x u (waiting c) known = elim (Bool-cases u.locked) [
    | inl e ↦ rw e known
    | inr e ↦ rw e known
  ]
  next-known x u ending known = tt
  next-known x u (resetting k) known = Below-reset u.sessions k u.session known
  next-known x u p known = known

  pub next-mine :
      (x : Input Schema Metadata) (u : Upstream Metadata) (p : Place Schema Metadata)
      → Below u.sessions u.session
      → Below u.sessions (session_at p)
      → Below (next x u p).0.sessions (session_at (next x u p).1)
  unfolding advance publish close_session apply_sweep
  next-mine x u ready known mine = called_place-Below Schema Metadata u.sessions x.call
  next-mine x u dialling known mine = elim (Bool-cases x.dialled) [
    | inl e ↦ rw e (omega arith)
    | inr e ↦ rw e tt
  ]
  next-mine x u notified known mine = elim (Bool-cases u.attached) [
    | inl e ↦ rw e tt
    | inr e ↦ rw e tt
  ]
  next-mine x u ending known mine = closing_place-Below Schema Metadata u.sessions u.session known
  next-mine x u (waiting c) known mine = elim (Bool-cases u.locked) [
    | inl e ↦ rw e mine
    | inr e ↦ rw e mine
  ]
  next-mine x u (holding c) known mine =
      with_session-Below Schema Metadata u.sessions c u.session mine
  next-mine x u (listing c) known mine =
      with_listing-Below Schema Metadata u.sessions c x.tools mine
  next-mine x u (applying c tools) known mine = mine
  next-mine x u (releasing c good) known mine =
      returned-Below Schema Metadata u.sessions c good mine
  next-mine x u (failing k) known mine = mine
  next-mine x u (resetting k) known mine = tt
  next-mine x u (closing k) known mine = tt

  pub next-past :
      (x : Input Schema Metadata) (u : Upstream Metadata) (p : Place Schema Metadata) (k : ℕ)
      → (u.closed k ≡ true → k < u.sessions)
      → Below u.sessions (session_at p)
      → (next x u p).0.closed k ≡ true
      → k < (next x u p).0.sessions
  unfolding advance publish close_session apply_sweep
  next-past x u ready k past mine h = past h
  next-past x u p k past mine h = ground arith

  -- Only `Close` goes on to close what it has taken out.
  pub next-apart :
      (x : Input Schema Metadata) (u : Upstream Metadata) (p : Place Schema Metadata) (k : ℕ)
      → is_closing k (next x u p).1 ≡ true
      → (next x u p).0.session ≡ none
  unfolding advance
  next-apart x u ready k h = cc (called_place-open Schema Metadata k x.call)
  next-apart x u ending k h = refl
  next-apart x u (holding c) k h = cc (with_session-open Schema Metadata k c u.session)
  next-apart x u (listing c) k h = cc (with_listing-open Schema Metadata k c x.tools)
  next-apart x u (releasing c good) k h = cc (returned-open Schema Metadata k c good)
  next-apart x u p k h = ground arith

  pub next-kept :
      (x : Input Schema Metadata) (u : Upstream Metadata) (p : Place Schema Metadata) (k : ℕ)
      → (next x u p).0.session ≡ some k
      → (u.session ≡ some k) ⊎ (k ≡ u.sessions)
  unfolding advance publish close_session apply_sweep reset
  next-kept x u ready k h = inl h
  next-kept x u dialling k h = elim (Bool-cases x.dialled) [
    | inl e ↦ inr (ground arith)
    | inr e ↦ inl (rw e at h)
  ]
  next-kept x u p k h = ground arith

  pub next-current :
      (x : Input Schema Metadata) (u : Upstream Metadata) (p : Place Schema Metadata) (k : ℕ)
      → (u.closed k ≡ true → k < u.sessions)
      → (is_closing k p ≡ true → u.session ≢ some k)
      → (next x u p).0.session ≡ some k
      → (next x u p).0.closed k ≡ true
      → (is_resetting k (next x u p).1 ≡ true)
        ⊎ ((u.session ≡ some k) × (u.closed k ≡ true) × (is_resetting k p ≡ false))
  unfolding advance publish close_session apply_sweep reset
  next-current x u ready k past apart h c = ground arith
  next-current x u p k past apart h c = ground arith
