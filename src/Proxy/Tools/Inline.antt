-- ===== src/Proxy/Tools/Inline.antt =====
-- What the media tools attach.
use mcp_media.Prelude.{
  ◌≡◌, refl, sym, ap, ◌∙◌, ◌⊎◌, ℕ, suc, zero, ◌<◌, ◌+◌, Bool, true, false, some, none, List, [],
  ◌∷◌, ◌||◌, Bool-cases, Option-cases, inl, inr, arith, length, take, ◌==◌, if◌then◌else◌, ◌≤◌, ◌^◌,
  subst, not, ◌&&◌,
}
use mcp_media.Prelude.Int.{ℤ, pos, ◌≤ℤ◌, ltb_ℤ, ◌+ℤ◌, wrap64, +ℤ_pos, wrap64_of_IsInt64}
use mcp_media.Text.{Bytes, codes, text_eq, is_empty}
use mcp_media.Checked.{Result, ok, err, >>=-ok, ok_injective}
use mcp_media.Proxy.MintClient.{MintAnswer, MintFailure}
use mcp_media.Proxy.Tools.{
  Fetcher, Fetched, FetchFailure, MediaToolOptions, MediaArgs, MediaResult, Content, text, note,
  message, image, audio, error_result, is_image, is_audio, limit_reader, swap_base, within_limit,
  read_fetched, fetch_inline, attach, include_inline, media_result, after_mint, media_tool, is_mode,
  unfetched,
}

-- The bytes that are attached as media.
abbrev pub attached : List Content → List Bytes
attached [] = []
attached (text _ ∷ cs) = attached cs
attached (note _ ∷ cs) = attached cs
attached (message _ ∷ cs) = attached cs
attached (image data_read _ ∷ cs) = data_read ∷ attached cs
attached (audio data_read _ ∷ cs) = data_read ∷ attached cs

take_short : (n : ℕ) (xs : Bytes) → length (take n xs) < n → take n xs ≡ xs
take_short zero xs h = absurd (omega (arith, h))
take_short (suc n) [] h = refl
take_short (suc n) (x ∷ xs) h = ap (◌∷◌ x) (take_short n xs (omega (arith, h)))

module _ (web : Fetcher) (opts : MediaToolOptions) where
  -- Everything of a body that is small enough was read.
  pub record IsWhole (minted_url data_read : Bytes) : Type 0 where
    pub fetch_url : Bytes
    pub swapped : swap_base web opts minted_url opts.fetch_base_url ≡ ok fetch_url
    pub resp : Fetched
    pub answered : web.get fetch_url ≡ some resp
    pub succeeded : (resp.status == 200) ≡ true
    pub whole : data_read ≡ resp.body
    pub small : pos (length data_read) ≤ℤ opts.inline_max_bytes

  module _ (max : ℕ) (limit : opts.inline_max_bytes ≡ pos max) (below : max + 1 < 2 ^ 63) where
    limit_reader_past :
        (body : Bytes)
        → limit_reader (wrap64 (opts.inline_max_bytes +ℤ pos 1)) body ≡ take (max + 1) body
    limit_reader_past body =
        rw (limit, +ℤ_pos max 1, wrap64_of_IsInt64 (pos (max + 1)) below)
          (unfold limit_reader in refl)

    within_limit-ok :
        (read data_read : Bytes)
        → within_limit web opts read ≡ ok data_read
        → (read ≡ data_read) × (length read ≤ max)
    unfolding within_limit
    within_limit-ok read data_read h =
        elim (Bool-cases (ltb_ℤ opts.inline_max_bytes (pos (length read)))) [
          | inl long ↦ absurd (ground arith)
          | inr short ↦
              let same : read ≡ data_read = ok_injective (rw short at h) in
              let short : ltb_ℤ (pos max) (pos (length read)) ≡ false = rw limit at short in
              (same, ground (arith, short))
        ]

    read_fetched_whole :
        (resp : Fetched) (data_read : Bytes)
        → read_fetched web opts (some resp) ≡ ok data_read
        → ((resp.status == 200) ≡ true) × (data_read ≡ resp.body) × (length data_read ≤ max)
    unfolding read_fetched
    read_fetched_whole resp data_read h = elim (Bool-cases (resp.status == 200)) [
      | inr refused ↦ absurd (ground arith)
      | inl fine ↦ elim (Bool-cases resp.reads) [
        | inr broken ↦ absurd (ground arith)
        | inl reads ↦
            let (same, short) =
              within_limit-ok (take (max + 1) resp.body) data_read
                (rw (fine, reads, limit_reader_past resp.body) at h) in
            let whole : take (max + 1) resp.body ≡ resp.body =
              take_short (max + 1) resp.body (omega (arith, short)) in
            (fine, sym same ∙ whole, subst (λ b. length b ≤ max) same short)
      ]
    ]

    -- With a limit below the largest int64, what is fetched for inclusion is the whole body of a
    -- response with status 200 from the swapped URL, and not longer than the limit.
    pub fetch_inline-IsWhole :
        (minted_url data_read : Bytes)
        → fetch_inline web opts minted_url ≡ ok data_read
        → IsWhole minted_url data_read
    unfolding fetch_inline
    fetch_inline-IsWhole minted_url data_read h =
        >>=-ok (swap_base web opts minted_url opts.fetch_base_url) _ h (λ fetch_url swapped h.
          elim (Bool-cases (web.builds fetch_url)) [
            | inr unbuilt ↦ absurd (ground arith)
            | inl built ↦ elim (Option-cases (web.get fetch_url)) [
              | inl unanswered ↦
                  let stopped : err unfetched ≡ ok data_read =
                    unfold read_fetched in rw (built, unanswered) at h in
                  absurd (ground (arith, stopped))
              | inr (resp, answered) ↦
                  let (succeeded, whole, small) =
                    read_fetched_whole resp data_read (rw (built, answered) at h) in
                  record {
                    fetch_url = fetch_url;
                    swapped = swapped;
                    resp = resp;
                    answered = answered;
                    succeeded = succeeded;
                    whole = whole;
                    small = rw limit (omega (arith, small));
                  }
            ]
          ])

  -- The flag tells whether something is attached, and that is media of at most the maximal size.
  abbrev pub IsHonest : MediaResult → Type 0
  IsHonest r = elim r.structured [
    | none ↦ (r.is_error ≡ true) × (attached r.contents ≡ [])
    | some info ↦
        (r.is_error ≡ false)
        × (((info.inline_included ≡ false) × (attached r.contents ≡ []))
            ⊎ ((data_read : Bytes) × (info.inline_included ≡ true)
                × (attached r.contents ≡ data_read ∷ [])
                × (fetch_inline web opts info.url ≡ ok data_read)
                × ((is_image info.mime_type || is_audio info.mime_type) ≡ true)
                × (info.size_bytes ≤ℤ opts.inline_max_bytes)))
  ]

  -- What is known of the flag and the contents that are added for the answer of the mint API.
  abbrev Added : MintAnswer → Bool → List Content → Type 0
  Added mr included contents =
      ((included ≡ false) × (attached contents ≡ []))
      ⊎ ((data_read : Bytes) × (included ≡ true)
          × (attached contents ≡ data_read ∷ [])
          × (fetch_inline web opts mr.url ≡ ok data_read)
          × ((is_image mr.mime_type || is_audio mr.mime_type) ≡ true)
          × (mr.size_bytes ≤ℤ opts.inline_max_bytes))

  attached_media :
      (mime_type data_read : Bytes)
      → attached (
          (if is_image mime_type then image data_read mime_type else audio data_read mime_type)
          ∷ [])
        ≡ data_read ∷ []
  attached_media mime_type data_read = elim (Bool-cases (is_image mime_type)) [
    | inl is ↦ rw is refl
    | inr isnt ↦ rw isnt refl
  ]

  attach-Added :
      (mr : MintAnswer) (r : Result FetchFailure Bytes)
      → fetch_inline web opts mr.url ≡ r
      → (is_image mr.mime_type || is_audio mr.mime_type) ≡ true
      → mr.size_bytes ≤ℤ opts.inline_max_bytes
      → Added mr (attach web opts mr r).0 ((attach web opts mr r).1 ∷ [])
  unfolding attach
  attach-Added mr (err e) fetched media small = inl (refl, refl)
  attach-Added mr (ok data_read) fetched media small =
      inr (data_read, refl, attached_media mr.mime_type data_read, fetched, media, small)

  de_morgan : (a b : Bool) → (not a && not b) ≡ not (a || b)
  de_morgan a b = ground arith

  not_above : (a b : ℤ) → ltb_ℤ a b ≡ false → b ≤ℤ a
  not_above a b h = ground arith

  include_inline-Added :
      (mr : MintAnswer)
      → Added mr (include_inline web opts mr).0 ((include_inline web opts mr).1 ∷ [])
  unfolding include_inline
  include_inline-Added mr = elim (Bool-cases (is_image mr.mime_type || is_audio mr.mime_type)) [
    | inr neither ↦
        rw (de_morgan (is_image mr.mime_type) (is_audio mr.mime_type), neither) (inl (refl, refl))
    | inl media ↦ elim (Bool-cases (ltb_ℤ opts.inline_max_bytes mr.size_bytes)) [
      | inl large ↦
          rw (de_morgan (is_image mr.mime_type) (is_audio mr.mime_type), media, large)
            (inl (refl, refl))
      | inr small ↦
          let fetching : include_inline web opts mr
              ≡ attach web opts mr (fetch_inline web opts mr.url) =
            rw (de_morgan (is_image mr.mime_type) (is_audio mr.mime_type), media, small) refl in
          subst (λ (p : Bool × Content). Added mr p.0 (p.1 ∷ [])) (sym fetching)
            (attach-Added mr (fetch_inline web opts mr.url) refl media
              (not_above opts.inline_max_bytes mr.size_bytes small))
    ]
  ]

  after_mint-IsHonest :
      (args : MediaArgs) (mode : Bytes) (r : Result MintFailure MintAnswer)
      → IsHonest (after_mint web opts args mode r)
  unfolding after_mint media_result error_result
  after_mint-IsHonest args mode (err e) = (refl, refl)
  after_mint-IsHonest args mode (ok mr) =
      elim (Bool-cases (text_eq mode (codes "inline") || text_eq mode (codes "both"))) [
        | inl asked ↦ rw asked (refl, include_inline-Added mr)
        | inr plain ↦ rw plain (refl, inl (refl, refl))
      ]

  -- Whatever a media tool answers, it is an error exactly where it has no structured content. An error
  -- has no attachment; otherwise the flag is set exactly when one file is attached: what was fetched
  -- from the URL, of type image or audio, with a size up to the limit.
  pub media_tool-IsHonest :
      (mint : Bytes → ℤ → Result MintFailure MintAnswer) (default_mode : Bytes) (args : MediaArgs)
      → IsHonest (media_tool web opts mint default_mode args)
  unfolding media_tool error_result
  media_tool-IsHonest mint default_mode args =
      let mode : Bytes = if is_empty args.mode then default_mode else args.mode in
      elim (Bool-cases (is_mode mode)) [
        | inl known ↦ rw known (after_mint-IsHonest args mode (mint args.path args.ttl_seconds))
        | inr unknown ↦ rw unknown (refl, refl)
      ]
