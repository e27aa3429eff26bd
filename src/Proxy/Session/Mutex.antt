-- ===== src/Proxy/Session/Mutex.antt =====
-- `listMu` keeps the runs of `SyncTools` apart.
use mcp_media.Prelude.{
  ℕ, ◌==◌, ◌≡◌, refl, inl, inr, Bool, true, false, Option, none, some, List, [], ◌∷◌, arith,
  Bool-cases,
}
use mcp_media.Names.{String}
use mcp_media.Proxy.Upstream.{Decoded}
use mcp_media.Proxy.Session.{
  Place, System, called_place, closing_place, returned, Input, advance, Call, Caller, Upstream,
  publish, holding, close_session, listing, releasing, applying, ready, apply_sweep, ending,
  failing, turn, connect, connect_call, close_call, resync, changed_call, run,
}

-- Between the lock of `listMu` and its release.
abbrev pub is_inside : {Schema Metadata : Type 0} → Place Schema Metadata → Bool
is_inside (holding c) = true
is_inside (listing c) = true
is_inside (applying c tools) = true
is_inside (releasing c good) = true
is_inside p = false

-- Who is inside holds the mutex, and is alone.
pub record IsExclusive {Schema Metadata : Type 0} (s : System Schema Metadata) : Type 0 where
  pub held : (i : ℕ) → is_inside (s.place i) ≡ true → s.shared.locked ≡ true
  pub alone : (i j : ℕ) → is_inside (s.place i) ≡ true → is_inside (s.place j) ≡ true → i ≡ j

module _ (Schema Metadata : Type 0) where
  called_place-outside :
      (c : Call) → is_inside (called_place {Schema = Schema} {Metadata = Metadata} c) ≡ false
  unfolding called_place
  called_place-outside connect_call = refl
  called_place-outside close_call = refl
  called_place-outside changed_call = refl

  closing_place-outside :
      (k : Option ℕ) → is_inside (closing_place {Schema = Schema} {Metadata = Metadata} k) ≡ false
  unfolding closing_place
  closing_place-outside none = refl
  closing_place-outside (some k) = refl

  returned-outside :
      (c : Caller) (good : Bool)
      → is_inside (returned {Schema = Schema} {Metadata = Metadata} c good) ≡ false
  unfolding returned
  returned-outside (connect k) true = refl
  returned-outside (connect k) false = refl
  returned-outside resync good = refl

module _ {Schema Metadata : Type 0} (decode_schema : Schema → Decoded)
    (reserved : String → Bool) where
  abbrev next :
      Input Schema Metadata
      → Upstream Metadata
      → Place Schema Metadata
      → Upstream Metadata × Place Schema Metadata
  next = advance decode_schema reserved

  -- Who enters found the mutex free, and holds it.
  next-held :
      (x : Input Schema Metadata) (u : Upstream Metadata) (p : Place Schema Metadata)
      → (is_inside p ≡ true → u.locked ≡ true)
      → is_inside (next x u p).1 ≡ true
      → (next x u p).0.locked ≡ true
  unfolding advance
  next-held x u ready h k = ground (arith, called_place-outside Schema Metadata x.call)
  next-held x u ending h k = ground (arith, closing_place-outside Schema Metadata u.session)
  next-held x u (releasing c good) h k = ground (arith, returned-outside Schema Metadata c good)
  next-held x u (applying c tools) h k = unfold apply_sweep in h refl
  next-held x u (failing j) h k = ground arith
  next-held x u p h k = ground arith

  next-entered :
      (x : Input Schema Metadata) (u : Upstream Metadata) (p : Place Schema Metadata)
      → is_inside (next x u p).1 ≡ true
      → is_inside p ≡ false
      → u.locked ≡ false
  unfolding advance
  next-entered x u ready h k = ground (arith, called_place-outside Schema Metadata x.call)
  next-entered x u ending h k = ground (arith, closing_place-outside Schema Metadata u.session)
  next-entered x u (releasing c good) h k = ground arith
  next-entered x u p h k = ground arith

  -- Nobody but its holder releases the mutex.
  next-locked :
      (x : Input Schema Metadata) (u : Upstream Metadata) (p : Place Schema Metadata)
      → u.locked ≡ true
      → is_inside p ≡ false
      → (next x u p).0.locked ≡ true
  unfolding advance publish close_session apply_sweep
  next-locked x u ready h k = h
  next-locked x u p h k = ground arith

  turn-held :
      (i : ℕ) (x : Input Schema Metadata) (s : System Schema Metadata) (j : ℕ)
      → IsExclusive s
      → is_inside ((turn decode_schema reserved i x s).place j) ≡ true
      → (turn decode_schema reserved i x s).shared.locked ≡ true
  unfolding turn
  turn-held i x s j safe k = elim (Bool-cases (j == i)) [
    | inl mine ↦ next-held x s.shared (s.place i) (safe.held i) (rw mine at k)
    | inr other ↦
        let k' : is_inside (s.place j) ≡ true = rw other at k in
        elim (Bool-cases (is_inside (s.place i))) [
          | inl inside ↦ absurd (ground (arith, safe.alone j i k' inside))
          | inr outside ↦ next-locked x s.shared (s.place i) (safe.held j k') outside
        ]
  ]

  -- Another goroutine is not inside together with the one that has made the step.
  turn-alone :
      (i : ℕ) (x : Input Schema Metadata) (s : System Schema Metadata) (j : ℕ)
      → IsExclusive s
      → is_inside (next x s.shared (s.place i)).1 ≡ true
      → is_inside (s.place j) ≡ true
      → j ≡ i
  turn-alone i x s j safe mine theirs = elim (Bool-cases (is_inside (s.place i))) [
    | inl inside ↦ safe.alone j i theirs inside
    | inr outside ↦ cc (next-entered x s.shared (s.place i) mine outside, safe.held j theirs)
  ]

  turn-IsExclusive :
      (i : ℕ) (x : Input Schema Metadata) (s : System Schema Metadata)
      → IsExclusive s
      → IsExclusive (turn decode_schema reserved i x s)
  unfolding turn
  turn-IsExclusive i x s safe = record {
    held = λ j k. turn-held i x s j safe k;
    alone = λ j k inside_j inside_k.
        ground (arith, safe.alone j k, turn-alone i x s j safe, turn-alone i x s k safe);
  }

  -- Whatever calls of `Connect`, `Close` and `resync` are made, and however their steps are mixed, no
  -- two goroutines are inside `SyncTools` behind the lock of `listMu` at once, and who is there holds
  -- it; given that this is so at the start.
  pub run-IsExclusive :
      (order : List (ℕ × Input Schema Metadata)) (s : System Schema Metadata)
      → IsExclusive s
      → IsExclusive (run decode_schema reserved order s)
  unfolding run
  run-IsExclusive [] s safe = safe
  run-IsExclusive ((i, x) ∷ order) s safe =
      run-IsExclusive order (turn decode_schema reserved i x s) (turn-IsExclusive i x s safe)
