-- ===== src/Proxy/Session.antt =====
-- `Upstream` of internal/proxy/upstream.go with `Connect`, `Close`, `resync` and `SyncTools`, cut at
-- the places where they take or leave the mutexes `mu` and `listMu`, dial, list or close a session. A
-- section under `mu` alone is one step. Sessions are numbered in the order in which they come up.
pub mod Laws
pub mod Mutex
pub mod Steps
pub mod Open
use mcp_media.Prelude.{
  ℕ, ◌+◌, ◌==◌, Bool, true, false, Option, none, some, List, [], ◌∷◌, if◌then◌else◌, any, any, any,
  any, any, any, any, any, any, any, any, any, any, any, any, any, any, any, any, any, any, any,
  any, any, any, any, any, any, any, any, any, any, any, any, any, any, any, any, any, any,
}
use mcp_media.Names.{String}
use mcp_media.Proxy.Upstream.{Decoded, ListedTool, DownstreamTool, Sweep, sync_tools}

-- What the goroutines share: the fields of `Upstream`, whether `listMu` is held, the tools of the
-- downstream server, how many sessions came up and which of them were closed.
pub record Upstream (Metadata : Type 0) : Type 0 where
  pub session : Option ℕ
  pub attached : Bool
  pub mirrored : String → Bool
  pub server : String → Option (DownstreamTool Metadata)
  pub locked : Bool
  pub sessions : ℕ
  pub closed : ℕ → Bool

-- Who called `SyncTools`: `Connect` with the session it opened, or `resync`.
pub data Caller : Type 0 where
  connect : ℕ → Caller
  resync : Caller

-- Where a goroutine stands.
pub data Place (Schema Metadata : Type 0) : Type 0 where
  -- in none of the functions, in `Connect` before the dial, in `resync`, in `Close`
  ready dialling notified ending : Place Schema Metadata
  -- in `SyncTools`: before `listMu`, holding it, with a session, with a listing, about to release it
  waiting holding listing : Caller → Place Schema Metadata
  applying : Caller → List (ListedTool Schema Metadata) → Place Schema Metadata
  releasing : Caller → Bool → Place Schema Metadata
  -- in `Connect` after an error: before `session.Close`, before the reset
  failing resetting : ℕ → Place Schema Metadata
  -- in `Close` before `session.Close`
  closing : ℕ → Place Schema Metadata

-- What the surroundings decide: the function that is called next, whether the server can be dialled
-- and what it lists.
pub data Call : Type 0 where
  connect_call close_call changed_call : Call

pub record Input (Schema Metadata : Type 0) : Type 0 where
  pub call : Call
  pub dialled : Bool
  pub tools : Option (List (ListedTool Schema Metadata))

-- A failed `Connect` takes back its own session only.
unfoldable pub reset : ℕ → Option ℕ → Option ℕ
reset k none = none
reset k (some j) = if j == k then none else some j

module _ {Metadata : Type 0} where
  -- `Connect` behind the dial
  unfoldable pub publish : Upstream Metadata → Upstream Metadata
  publish u = record u { session = some u.sessions; attached = true; sessions = u.sessions + 1 }

  -- `session.Close`
  unfoldable pub close_session : ℕ → Upstream Metadata → Upstream Metadata
  close_session k u = record u { closed = λ j. if j == k then true else u.closed j }

  -- The part of `SyncTools` under `mu`
  unfoldable pub apply_sweep : Sweep Metadata → Upstream Metadata → Upstream Metadata
  apply_sweep s u = record u { mirrored = s.mirrored; server = s.server }

module _ {Schema Metadata : Type 0} where
  unfoldable pub called_place : Call → Place Schema Metadata
  called_place connect_call = dialling
  called_place close_call = ending
  called_place changed_call = notified

  unfoldable pub with_session : Caller → Option ℕ → Place Schema Metadata
  with_session c none = releasing c false
  with_session c (some k) = listing c

  unfoldable pub with_listing :
      Caller → Option (List (ListedTool Schema Metadata)) → Place Schema Metadata
  with_listing c none = releasing c false
  with_listing c (some tools) = applying c tools

  -- Behind `SyncTools`, which may have failed.
  unfoldable pub returned : Caller → Bool → Place Schema Metadata
  returned (connect k) true = ready
  returned (connect k) false = failing k
  returned resync good = ready

  unfoldable pub closing_place : Option ℕ → Place Schema Metadata
  closing_place none = ready
  closing_place (some k) = closing k

module _ {Schema Metadata : Type 0} (decode_schema : Schema → Decoded)
    (reserved : String → Bool) where
  -- The next step of a goroutine.
  unfoldable pub advance :
      Input Schema Metadata
      → Upstream Metadata
      → Place Schema Metadata
      → Upstream Metadata × Place Schema Metadata
  advance x u ready = (u, called_place x.call)
  advance x u dialling = if x.dialled then (publish u, waiting (connect u.sessions)) else (u, ready)
  advance x u notified = (u, if u.attached then waiting resync else ready)
  advance x u ending = (record u { session = none }, closing_place u.session)
  advance x u (waiting c) =
      if u.locked then (u, waiting c) else (record u { locked = true }, holding c)
  advance x u (holding c) = (u, with_session c u.session)
  advance x u (listing c) = (u, with_listing c x.tools)
  advance x u (applying c tools) = (
    apply_sweep (sync_tools decode_schema reserved tools u.mirrored u.server) u,
    releasing c true,
  )
  advance x u (releasing c good) = (record u { locked = false }, returned c good)
  advance x u (failing k) = (close_session k u, resetting k)
  advance x u (resetting k) = (record u { session = reset k u.session }, ready)
  advance x u (closing k) = (close_session k u, ready)

-- The shared state and the goroutines.
pub record System (Schema Metadata : Type 0) : Type 0 where
  pub shared : Upstream Metadata
  pub place : ℕ → Place Schema Metadata

-- `NewUpstream`: nobody has called anything, and nothing is mirrored.
abbrev pub unused :
    {Schema Metadata : Type 0}
    → (String → Option (DownstreamTool Metadata))
    → System Schema Metadata
unused server = record {
  shared = record {
    session = none;
    attached = false;
    mirrored = λ n. false;
    server = server;
    locked = false;
    sessions = 0;
    closed = λ k. false;
  };
  place = λ i. ready;
}

module _ {Schema Metadata : Type 0} (decode_schema : Schema → Decoded)
    (reserved : String → Bool) where
  -- A step of the goroutine `i`.
  unfoldable pub turn : ℕ → Input Schema Metadata → System Schema Metadata → System Schema Metadata
  turn i x s =
      let next = advance decode_schema reserved x s.shared (s.place i) in
      record { shared = next.0; place = λ j. if j == i then next.1 else s.place j }

  -- The goroutines take their steps in a given order.
  unfoldable pub run :
      List (ℕ × Input Schema Metadata) → System Schema Metadata → System Schema Metadata
  run [] s = s
  run ((i, x) ∷ order) s = run order (turn i x s)
