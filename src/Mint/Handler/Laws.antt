-- ===== src/Mint/Handler/Laws.antt =====
-- When a URL is minted, and what it signs.
use mcp_media.Prelude.{
  ◌≡◌, refl, some, true, ◌↔◌, ℕ, ◌++◌, Option, ◌∷◌, Bool, arith, false, none, Option-cases, [], inl,
  inr, ap,
}
use mcp_media.Text.{Bytes, to_lower, codes, Lacks, equal_fold, cut}
use mcp_media.Mint.Config.{MintHandler}
use mcp_media.Platform.{
  Library, FileSystem, FileResult, FileInfo, ok, failed, not_exist, other_error,
}
use mcp_media.Mint.Handler.{
  authorized, mint_stat, mint_resolved, mint_path, mint_request, mint_decoded, mint_http,
  MintResponse, MintRequest, mint, minted, HttpRequest, authorized_parts, answer, minted_url,
}
use mcp_media.Sign.Clock.{Time, to_unix, add}
use mcp_media.Serve.Resolve.{Resolved, resolved, resolve, rejected, file_error, out_of_fuel, escape}
use mcp_media.Serve.Handler.{is_disposition, or_attachment}
use mcp_media.Prelude.Int.{ℤ, pos, negsuc}
use mcp_media.Text.Laws.{text_eq_iff, cut_sound, cut-append}
use mcp_media.Mint.Ttl.{clamp_ttl}
use mcp_media.Mint.Link.{link}
use mcp_media.Base64.{encode}
use mcp_media.FilePath.{base}
use mcp_media.Sign.Decimal.{format_int}
use mcp_media.Sign.{sign}
use mcp_media.Mime.{mime_for}

Lacks-to_lower : (s : Bytes) → Lacks 0x20 (to_lower s) → Lacks 0x20 s
unfolding to_lower
Lacks-to_lower [] h = tt
Lacks-to_lower (c ∷ s) (p, h) = (ground arith, Lacks-to_lower s h)

abbrev bearer : Bytes
bearer = codes "bearer"

to_lower-bearer : to_lower (codes "Bearer") ≡ bearer
unfolding to_lower
to_lower-bearer = refl

authorized_parts_iff :
    (h : MintHandler) (scheme token : Bytes)
    → (authorized_parts h (some (scheme, token)) ≡ true)
      ↔ ((token ≡ h.token) × (to_lower scheme ≡ bearer))
unfolding authorized_parts equal_fold
authorized_parts_iff h scheme token =
    rw to_lower-bearer
      (ground (arith, text_eq_iff (to_lower scheme) bearer, text_eq_iff token h.token))

-- The header carries the token behind a scheme that is "Bearer" in any case.
pub authorized_iff :
    (h : MintHandler) (header : Bytes)
    → (authorized h header ≡ true) ↔ (
        (scheme : Bytes) × (header ≡ scheme ++ 0x20 ∷ h.token) × (to_lower scheme ≡ codes "bearer"))
unfolding authorized
authorized_iff h header = (forth, back)
  where
    forth :
        authorized h header ≡ true
        → (scheme : Bytes) × (header ≡ scheme ++ 0x20 ∷ h.token) × (to_lower scheme ≡ bearer)
    forth e = elim (Option-cases (cut 0x20 header)) [
      | inl missed ↦ absurd (unfold authorized_parts in ground arith)
      | inr ((scheme, token), found) ↦
          let (same, named) = (authorized_parts_iff h scheme token).0 (rw found at e) in
          let (_, split_at) = cut_sound 0x20 header found in (scheme, rw (← same) split_at, named)
    ]

    back :
        (scheme : Bytes) × (header ≡ scheme ++ 0x20 ∷ h.token) × (to_lower scheme ≡ bearer)
        → authorized h header ≡ true
    back (scheme, same, named) =
        let lacks : Lacks 0x20 scheme = Lacks-to_lower scheme (rw named (omega arith)) in
        rw (same, cut-append 0x20 scheme h.token lacks)
          ((authorized_parts_iff h scheme h.token).1 (refl, named))

module _ (lib : Library) (fs : FileSystem) (now : Time) (h : MintHandler) where
  -- All that holds when a URL is minted for a request, for the file at `path`: the answer has the size
  -- and the type of that file, and a link signed with the secret for its path, the disposition and the
  -- expiry that it shows.
  pub record IsMinted (fuel : ℕ) (req : MintRequest) (reply : MintResponse) : Type 0 where
    pub shown : is_disposition (or_attachment req.disposition) ≡ true
    pub ttl_seconds : ℕ
    pub not_negative : req.ttl_seconds ≡ pos ttl_seconds
    pub path : Bytes
    pub fenced : resolve fs fuel h.roots req.path ≡ resolved path
    pub info : FileInfo
    pub read : fs.stat path ≡ ok info
    pub is_file : info.is_dir ≡ false
    pub linked :
        let d = or_attachment req.disposition in
        let exp = to_unix (add now (clamp_ttl h ttl_seconds)) in
        reply.url
        ≡ link h.base_url
            (encode path)
            (lib.path_escape (base path))
            (format_int exp)
            d
            (sign lib.mac h.secret (encode path) exp d)
    pub expires : reply.expires_at ≡ lib.rfc3339 (to_unix (add now (clamp_ttl h ttl_seconds)))
    pub sized : reply.size_bytes ≡ info.size
    pub typed : reply.mime_type ≡ mime_for lib fs path

  mint_stat_sound :
      (p d : Bytes) (n : ℕ) (s : FileResult FileInfo) {reply : MintResponse}
      → mint_stat lib fs now h p d n s ≡ minted reply
      → (info : FileInfo) × (s ≡ ok info)
        × (info.is_dir ≡ false)
        × (reply ≡ answer lib fs now h p d n info)
  unfolding mint_stat
  mint_stat_sound p d n (failed not_exist) same = absurd (ground arith)
  mint_stat_sound p d n (failed other_error) same = absurd (ground arith)
  mint_stat_sound p d n (ok info) same = (info, refl, ground arith, ground arith)

  mint_resolved_sound :
      (d : Bytes) (n : ℕ) (res : Resolved) {reply : MintResponse}
      → mint_resolved lib fs now h d n res ≡ some (minted reply)
      → (p : Bytes) × (res ≡ resolved p) × (mint_stat lib fs now h p d n (fs.stat p) ≡ minted reply)
  unfolding mint_resolved
  mint_resolved_sound d n out_of_fuel same = absurd (ground arith)
  mint_resolved_sound d n (rejected escape) same = absurd (ground arith)
  mint_resolved_sound d n (rejected (file_error not_exist)) same = absurd (ground arith)
  mint_resolved_sound d n (rejected (file_error other_error)) same = absurd (ground arith)
  mint_resolved_sound d n (resolved p) same = (p, refl, ground arith)

  mint_path_sound :
      (fuel : ℕ) (req : MintRequest) (z : ℤ) {reply : MintResponse}
      → mint_path lib fs now h fuel req z ≡ some (minted reply)
      → (n : ℕ) × (z ≡ pos n)
        × (mint_resolved lib fs now h
              (or_attachment req.disposition)
              n
              (resolve fs fuel h.roots req.path)
            ≡ some (minted reply))
  unfolding mint_path
  mint_path_sound fuel req (negsuc n) same = absurd (ground arith)
  mint_path_sound fuel req (pos n) same = (n, refl, same)

  pub mint_request_sound :
      (fuel : ℕ) (req : MintRequest) {reply : MintResponse}
      → mint_request lib fs now h fuel req ≡ some (minted reply)
      → IsMinted fuel req reply
  unfolding mint_request minted_url
  mint_request_sound fuel req {reply} same =
      let shown : is_disposition (or_attachment req.disposition) ≡ true = ground arith in
      let onward : mint_path lib fs now h fuel req req.ttl_seconds ≡ some (minted reply) =
        ground arith in
      let (n, not_negative, resolving) = mint_path_sound fuel req req.ttl_seconds onward in
      let (p, fenced, stating) =
        mint_resolved_sound (or_attachment req.disposition) n (resolve fs fuel h.roots req.path)
          resolving in
      let (info, read, is_file, answered) =
        mint_stat_sound p (or_attachment req.disposition) n (fs.stat p) stating in
      record {
        shown = shown;
        ttl_seconds = n;
        not_negative = not_negative;
        path = p;
        fenced = fenced;
        info = info;
        read = read;
        is_file = is_file;
        linked = ap (λ a. a.url) answered;
        expires = ap (λ a. a.expires_at) answered;
        sized = ap (λ a. a.size_bytes) answered;
        typed = ap (λ a. a.mime_type) answered;
      }

  mint_decoded_sound :
      (decode_body : Bytes → Option (MintRequest × Bool)) (fuel : ℕ)
      (d : Option (MintRequest × Bool)) {reply : MintResponse}
      → mint_decoded lib fs now h decode_body fuel d ≡ some (minted reply)
      → (req : MintRequest) × (d ≡ some (req, true)) × IsMinted fuel req reply
  unfolding mint_decoded
  mint_decoded_sound decode_body fuel none same = absurd (ground arith)
  mint_decoded_sound decode_body fuel (some (req, false)) same = absurd (ground arith)
  mint_decoded_sound decode_body fuel (some (req, true)) same =
      (req, refl, mint_request_sound fuel req same)

  -- A URL is minted only for an authorized POST request of /mint whose body decodes to nothing but a
  -- mint request, and for what `Resolve` returned for the path in that body, which is no directory; the
  -- URL is the link of that path, with the disposition asked for and the expiry, signed for all three.
  pub mint_http_sound :
      (decode_body : Bytes → Option (MintRequest × Bool)) (fuel : ℕ) (r : HttpRequest)
      (reply : MintResponse)
      → mint_http lib fs now h decode_body fuel r ≡ some (minted reply)
      → (r.url_path ≡ codes "/mint")
        × (r.method ≡ codes "POST")
        × (authorized h r.authorization ≡ true)
        × ((req : MintRequest) × (decode_body r.body ≡ some (req, true)) × IsMinted fuel req reply)
  unfolding mint_http mint
  mint_http_sound decode_body fuel r reply same = (
    (text_eq_iff r.url_path (codes "/mint")).0 (ground arith),
    (text_eq_iff r.method (codes "POST")).0 (ground arith),
    ground arith,
    mint_decoded_sound decode_body fuel (decode_body r.body) (ground arith),
  )
