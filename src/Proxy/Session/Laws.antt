-- ===== src/Proxy/Session/Laws.antt =====
-- What mixed calls of `Connect`, `Close` and `resync` make of the mirrored tools.
use mcp_media.Prelude.{
  ℕ, ◌≡◌, refl, Bool, true, false, Option, none, some, List, [], ◌∷◌, ◌++◌, ◌∙◌, ap, Bool-cases,
  inl, inr, sym, find?, ◌⊎◌,
}
use mcp_media.Names.{String, ◌==◌, str_eq_iff}
use mcp_media.Proxy.Upstream.{
  Decoded, ListedTool, DownstreamTool, sync_tools, field, text, downstream_tool,
}
use mcp_media.Proxy.Session.{
  System, Place, Input, advance, turn, run, publish, applying, close_session, apply_sweep, Upstream,
  waiting, dialling,
}
use mcp_media.Proxy.Upstream.Reference.{mirror_of, sync_tools-mirror_of, listed_as}
use mcp_media.Proxy.Upstream.Laws.{downstream_tool_sound}

-- The mirrored names and the tools of the downstream server, with no session, mutex or goroutine.
pub record Mirror (Metadata : Type 0) : Type 0 where
  pub mirrored : String → Bool
  pub server : String → Option (DownstreamTool Metadata)

-- Each tool of the server stands under its name and takes an object.
pub record HasObjects {Metadata : Type 0} (m : Mirror Metadata) : Type 0 where
  pub takes_object :
      (n : String) (tool : DownstreamTool Metadata)
      → m.server n ≡ some tool
      → (tool.name ≡ n) × (field "type" tool.input_schema ≡ some (text "object"))

abbrev pub mirror_at : {Schema Metadata : Type 0} → System Schema Metadata → Mirror Metadata
mirror_at s = record { mirrored = s.shared.mirrored; server = s.shared.server }

module _ {Schema Metadata : Type 0} where
  abbrev pub listing_at : Place Schema Metadata → List (List (ListedTool Schema Metadata))
  listing_at (applying c tools) = tools ∷ []
  listing_at p = []

module _ {Schema Metadata : Type 0} (decode_schema : Schema → Decoded)
    (reserved : String → Bool) where
  -- One listing at a time.
  unfoldable pub mirror_all :
      List (List (ListedTool Schema Metadata)) → Mirror Metadata → Mirror Metadata
  mirror_all [] m = m
  mirror_all (tools ∷ later) m =
      let s = sync_tools decode_schema reserved tools m.mirrored m.server in
      mirror_all later (record { mirrored = s.mirrored; server = s.server })

  -- The listings of the goroutines that step through their section under `mu`, in this order.
  unfoldable pub applied :
      List (ℕ × Input Schema Metadata)
      → System Schema Metadata
      → List (List (ListedTool Schema Metadata))
  applied [] s = []
  applied ((i, x) ∷ order) s =
      listing_at (s.place i) ++ applied order (turn decode_schema reserved i x s)

  mirror_all-append :
      (before after : List (List (ListedTool Schema Metadata))) (m : Mirror Metadata)
      → mirror_all (before ++ after) m ≡ mirror_all after (mirror_all before m)
  unfolding mirror_all
  mirror_all-append [] after m = refl
  mirror_all-append (tools ∷ before) after m = mirror_all-append before after _

  advance-mirror :
      (x : Input Schema Metadata) (u : Upstream Metadata) (p : Place Schema Metadata)
      → record {
        mirrored = (advance decode_schema reserved x u p).0.mirrored;
        server = (advance decode_schema reserved x u p).0.server;
      }
        ≡ mirror_all (listing_at p) (record { mirrored = u.mirrored; server = u.server })
  unfolding advance mirror_all publish close_session apply_sweep
  advance-mirror x u dialling = elim (Bool-cases x.dialled) [
    | inl e ↦ rw e refl
    | inr e ↦ rw e refl
  ]
  advance-mirror x u (waiting c) = elim (Bool-cases u.locked) [
    | inl e ↦ rw e refl
    | inr e ↦ rw e refl
  ]
  advance-mirror x u p = refl

  turn-mirror :
      (i : ℕ) (x : Input Schema Metadata) (s : System Schema Metadata)
      → mirror_at (turn decode_schema reserved i x s)
        ≡ mirror_all (listing_at (s.place i)) (mirror_at s)
  unfolding turn
  turn-mirror i x s = advance-mirror x s.shared (s.place i)

  -- However the steps of the calls are mixed, the mirrored names and the tools of the downstream server
  -- are those of a mirror that takes one listing after the other, in the order in which the goroutines
  -- pass through their section under `mu`; no other step, error or close changes them.
  pub run-mirror_all :
      (order : List (ℕ × Input Schema Metadata)) (s : System Schema Metadata)
      → mirror_at (run decode_schema reserved order s) ≡ mirror_all (applied order s) (mirror_at s)
  unfolding run applied mirror_all
  run-mirror_all [] s = refl
  run-mirror_all ((i, x) ∷ order) s =
      run-mirror_all order (turn decode_schema reserved i x s)
      ∙ ap (mirror_all (applied order (turn decode_schema reserved i x s))) (turn-mirror i x s)
      ∙ sym (
          mirror_all-append (listing_at (s.place i))
            (applied order (turn decode_schema reserved i x s)) (mirror_at s))

  -- The name is not mirrored, and its tool at the server is `tool`.
  abbrev pub IsOwn : String → Option (DownstreamTool Metadata) → Mirror Metadata → Type 0
  IsOwn n tool m = (m.mirrored n ≡ false) × (m.server n ≡ tool)

  mirror_of-held :
      (tool : Option (DownstreamTool Metadata)) (listed : Option (Option (DownstreamTool Metadata)))
      → mirror_of true false tool listed ≡ (false, tool)
  unfolding mirror_of
  mirror_of-held tool none = refl
  mirror_of-held tool (some listed) = refl

  module _ (n : String) (tool : Option (DownstreamTool Metadata)) (held : reserved n ≡ true) where
    mirror_all-IsOwn :
        (listings : List (List (ListedTool Schema Metadata))) (m : Mirror Metadata)
        → IsOwn n tool m
        → IsOwn n tool (mirror_all listings m)
    unfolding mirror_all
    mirror_all-IsOwn [] m own = own
    mirror_all-IsOwn (tools ∷ later) m (free, own) =
        let same =
          sync_tools-mirror_of decode_schema reserved tools m.mirrored m.server n
          ∙ rw (held, free, own) (mirror_of-held tool _) in
        mirror_all-IsOwn later _ (ap (λ t. t.0) same, ap (λ t. t.1) same)

    -- However the steps of the calls are mixed, and whatever the upstream server lists, a reserved name
    -- that is not mirrored stays so, and its tool stays what it was.
    pub run-IsOwn :
        (order : List (ℕ × Input Schema Metadata)) (s : System Schema Metadata)
        → IsOwn n tool (mirror_at s)
        → IsOwn n tool (mirror_at (run decode_schema reserved order s))
    run-IsOwn order s own =
        rw (run-mirror_all order s) (mirror_all-IsOwn (applied order s) (mirror_at s) own)

  -- A tool of the server was there, or is what was listed.
  mirror_of-server :
      (held mirrored : Bool) (kept : Option (DownstreamTool Metadata))
      (listed : Option (Option (DownstreamTool Metadata))) (tool : DownstreamTool Metadata)
      → (mirror_of held mirrored kept listed).1 ≡ some tool
      → (kept ≡ some tool) ⊎ (listed ≡ some (some tool))
  unfolding mirror_of
  mirror_of-server held true kept none tool h = cc
  mirror_of-server held false kept none tool h = inl h
  mirror_of-server true mirrored kept (some listed) tool h = inl h
  mirror_of-server false mirrored kept (some none) tool h = inl h
  mirror_of-server false mirrored kept (some (some new)) tool h = inr (ap some h)

  listed_as_sound :
      (n : String) (tools : List (ListedTool Schema Metadata)) (tool : DownstreamTool Metadata)
      → listed_as (downstream_tool decode_schema) (find? (λ t. n == t.name) tools)
        ≡ some (some tool)
      → (tool.name ≡ n) × (field "type" tool.input_schema ≡ some (text "object"))
  listed_as_sound n [] tool h = cc
  listed_as_sound n (listed ∷ tools) tool h = elim (Bool-cases (n == listed.name)) [
    | inl same ↦
        let h' : some (downstream_tool decode_schema listed) ≡ some (some tool) = rw same at h in
        let (named, typed) = downstream_tool_sound decode_schema listed tool (cc h') in
        (named ∙ sym ((str_eq_iff n listed.name).0 same), typed)
    | inr other ↦ listed_as_sound n tools tool (rw other at h)
  ]

  mirror_all-HasObjects :
      (listings : List (List (ListedTool Schema Metadata))) (m : Mirror Metadata)
      → HasObjects m
      → HasObjects (mirror_all listings m)
  unfolding mirror_all
  mirror_all-HasObjects [] m good = good
  mirror_all-HasObjects (tools ∷ later) m good = mirror_all-HasObjects later _ (record {
    takes_object = λ n tool h.
        elim (mirror_of-server (reserved n) (m.mirrored n) (m.server n) _ tool (
          ap (λ t. t.1)
            (sym (sync_tools-mirror_of decode_schema reserved tools m.mirrored m.server n))
          ∙ h)) [
            | inl before ↦ good.takes_object n tool before
            | inr listed ↦ listed_as_sound n tools tool listed
          ];
  })

  -- However the steps of the calls are mixed, and whatever the upstream server lists, every tool of the
  -- downstream server stands under its own name and has an input schema of type "object", without
  -- which AddTool panics; given that this is so at the start.
  pub run-HasObjects :
      (order : List (ℕ × Input Schema Metadata)) (s : System Schema Metadata)
      → HasObjects (mirror_at s)
      → HasObjects (mirror_at (run decode_schema reserved order s))
  run-HasObjects order s good =
      rw (run-mirror_all order s) (mirror_all-HasObjects (applied order s) (mirror_at s) good)
