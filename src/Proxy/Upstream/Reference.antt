-- ===== src/Proxy/Upstream/Reference.antt =====
-- What `SyncTools` does to a name, told without its loops and its sets.
use mcp_media.Prelude.{
  ◌≡◌, refl, true, false, Option, none, some, List, [], ◌∷◌, arith, ◌∙◌, ap, Bool, Bool-cases, inl,
  inr, find?, if◌then◌else◌,
}
use mcp_media.Names.{String, ◌==◌, str_eq_iff}
use mcp_media.Proxy.Upstream.{
  DownstreamTool, Sweep, Decoded, ListedTool, register, mirror_tool, mirror_tools, downstream_tool,
  remove_unseen, sync_tools,
}

-- The name afterwards: whether it is mirrored, and its tool at the downstream server. `listed` is the
-- first tool that the upstream server lists under the name, as it would be mirrored.
unfoldable pub mirror_of :
    {Metadata : Type 0}
    → (held mirrored : Bool) → (tool : Option (DownstreamTool Metadata))
    → (listed : Option (Option (DownstreamTool Metadata))) → Bool × Option (DownstreamTool Metadata)
mirror_of held mirrored tool none = (false, if mirrored then none else tool)
mirror_of true mirrored tool (some t) = (mirrored, tool)
mirror_of false mirrored tool (some none) = (mirrored, tool)
mirror_of false mirrored tool (some (some new)) = (true, some new)

-- A sweep at one name.
abbrev at :
    {Metadata : Type 0} → String → Sweep Metadata → Bool × Bool × Option (DownstreamTool Metadata)
at n s = (s.seen n, s.mirrored n, s.server n)

abbrev pub found :
    {Metadata : Type 0} → String → Sweep Metadata → Bool × Option (DownstreamTool Metadata)
found n s = (s.mirrored n, s.server n)

abbrev pub listed_as : {A B : Type 0} → (A → B) → Option A → Option B
listed_as f none = none
listed_as f (some a) = some (f a)

module _ {Schema Metadata : Type 0} (decode_schema : Schema → Decoded)
    (reserved : String → Bool) where
  abbrev loop : List (ListedTool Schema Metadata) → Sweep Metadata → Sweep Metadata
  loop = mirror_tools decode_schema reserved

  abbrev round : ListedTool Schema Metadata → Sweep Metadata → Sweep Metadata
  round = mirror_tool decode_schema reserved

  register-other :
      (name n : String) (t : Option (DownstreamTool Metadata)) (s : Sweep Metadata)
      → (n == name) ≡ false
      → at n (register name t s) ≡ at n s
  unfolding register
  register-other name n none s h = refl
  register-other name n (some tool) s h = rw h refl

  round-other :
      (n : String) (tool : ListedTool Schema Metadata) (s : Sweep Metadata)
      → (n == tool.name) ≡ false
      → at n (round tool s) ≡ at n s
  unfolding mirror_tool
  round-other n tool s other = elim (Bool-cases (s.seen tool.name)) [
    | inl again ↦ rw again refl
    | inr fresh ↦ elim (Bool-cases (reserved tool.name)) [
      | inl kept ↦ rw (fresh, kept, other) refl
      | inr free ↦
          rw (fresh, free)
            (register-other tool.name n (downstream_tool decode_schema tool) _ other
              ∙ rw other refl)
    ]
  ]

  -- A name that was seen is left alone.
  round-again :
      (n : String) (tool : ListedTool Schema Metadata) (s : Sweep Metadata)
      → s.seen n ≡ true
      → at n (round tool s) ≡ at n s
  round-again n tool s seen = elim (Bool-cases (n == tool.name)) [
    | inl same ↦
        let name : n ≡ tool.name = (str_eq_iff n tool.name).0 same in
        let again : s.seen tool.name ≡ true = rw (← name) seen in
        unfold mirror_tool in rw again refl
    | inr other ↦ round-other n tool s other
  ]

  loop-again :
      (n : String) (tools : List (ListedTool Schema Metadata)) (s : Sweep Metadata)
      → s.seen n ≡ true
      → at n (loop tools s) ≡ at n s
  unfolding mirror_tools
  loop-again n [] s seen = refl
  loop-again n (tool ∷ tools) s seen =
      let same = round-again n tool s seen in
      loop-again n tools (round tool s) (ap (λ t. t.0) same ∙ seen) ∙ same

  register-first :
      (n : String) (t : Option (DownstreamTool Metadata)) (s : Sweep Metadata)
      → s.seen n ≡ true
      → ((register n t s).seen n ≡ true)
        × (found n (register n t s) ≡ mirror_of false (s.mirrored n) (s.server n) (some t))
  unfolding register mirror_of
  register-first n none s seen = (seen, refl)
  register-first n (some tool) s seen =
      let self : (n == n) ≡ true = (str_eq_iff n n).1 refl in (seen, rw self refl)

  round-first :
      (tool : ListedTool Schema Metadata) (s : Sweep Metadata)
      → s.seen tool.name ≡ false
      → ((round tool s).seen tool.name ≡ true)
        × (found tool.name (round tool s)
            ≡ mirror_of
                (reserved tool.name)
                (s.mirrored tool.name)
                (s.server tool.name)
                (some (downstream_tool decode_schema tool)))
  unfolding mirror_tool
  round-first tool s fresh =
      let self : (tool.name == tool.name) ≡ true = (str_eq_iff tool.name tool.name).1 refl in
      elim (Bool-cases (reserved tool.name)) [
        | inl held ↦ rw (fresh, held) (rw self refl, unfold mirror_of in refl)
        | inr free ↦
            rw (fresh, free)
              (register-first tool.name (downstream_tool decode_schema tool) _ (rw self refl))
      ]

  remove_unseen-seen :
      (n : String) (s : Sweep Metadata) → s.seen n ≡ true → found n (remove_unseen s) ≡ found n s
  unfolding remove_unseen
  remove_unseen-seen n s seen = elim (Bool-cases (s.mirrored n)) [
    | inl was ↦ rw (seen, was) refl
    | inr never ↦ rw (seen, never) refl
  ]

  loop-first :
      (tool : ListedTool Schema Metadata) (tools : List (ListedTool Schema Metadata))
      (s : Sweep Metadata)
      → s.seen tool.name ≡ false
      → found tool.name (remove_unseen (loop tools (round tool s)))
        ≡ mirror_of
            (reserved tool.name)
            (s.mirrored tool.name)
            (s.server tool.name)
            (some (downstream_tool decode_schema tool))
  loop-first tool tools s fresh =
      let (seen, first) = round-first tool s fresh in
      let again = loop-again tool.name tools (round tool s) seen in
      remove_unseen-seen tool.name (loop tools (round tool s)) (ap (λ t. t.0) again ∙ seen)
      ∙ ap (λ t. (t.1, t.2)) again
      ∙ first

  -- The name has not been seen: the first listed tool of that name decides.
  loop-fresh :
      (n : String) (tools : List (ListedTool Schema Metadata)) (s : Sweep Metadata)
      → s.seen n ≡ false
      → found n (remove_unseen (loop tools s))
        ≡ mirror_of
            (reserved n)
            (s.mirrored n)
            (s.server n)
            (listed_as (downstream_tool decode_schema) (find? (λ tool. n == tool.name) tools))
  unfolding mirror_tools
  loop-fresh n [] s fresh = unfold remove_unseen mirror_of in ground (arith, fresh)
  loop-fresh n (tool ∷ tools) s fresh = elim (Bool-cases (n == tool.name)) [
    | inl same ↦
        let name : n ≡ tool.name = (str_eq_iff n tool.name).0 same in
        rw (same, name) (loop-first tool tools s (rw name at fresh))
    | inr other ↦
        let same = round-other n tool s other in
        rw other (
          loop-fresh n tools (round tool s) (ap (λ t. t.0) same ∙ fresh)
          ∙ ap
              (λ t. mirror_of (reserved n) t.1 t.2 (
                listed_as (downstream_tool decode_schema)
                  (find? (λ other_tool. n == other_tool.name) tools)))
              same)
  ]

  -- After `SyncTools` with a listing, each name stands as the first listed tool of that name says: one
  -- that is not listed is no longer mirrored, and its tool is gone if it was mirrored; a reserved name
  -- and one whose tool cannot be mirrored stand as they did; any other is mirrored, with the new tool.
  pub sync_tools-mirror_of :
      (tools : List (ListedTool Schema Metadata)) (mirrored : String → Bool)
      (server : String → Option (DownstreamTool Metadata)) (n : String)
      → found n (sync_tools decode_schema reserved tools mirrored server)
        ≡ mirror_of
            (reserved n)
            (mirrored n)
            (server n)
            (listed_as (downstream_tool decode_schema) (find? (λ tool. n == tool.name) tools))
  unfolding sync_tools
  sync_tools-mirror_of tools mirrored server n =
      loop-fresh n tools (record { seen = λ k. false; mirrored = mirrored; server = server }) refl
