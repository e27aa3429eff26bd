-- ===== src/Mint/RoundTrip.antt =====
-- A minted URL at the file server.
use mcp_media.Prelude.{
  ◌≡◌, some, ◌≢◌, true, [], ℕ, false, arith, All, if◌then◌else◌, suc, ◌∷◌, ◌∙◌, ap, Option, sym,
}
use mcp_media.Text.{Bytes, has_prefix}
use mcp_media.Platform.{FileSystem, Library, ok, FileInfo, File}
use mcp_media.Prelude.Int.{ℤ, IsInt64, pos}
use mcp_media.Mint.Config.{MintHandler}
use mcp_media.Serve.Handler.{
  or_attachment, Request, is_disposition, serve_http, http_error, content, headers,
}
use mcp_media.FilePath.{is_abs, base}
use mcp_media.Base64.{encode}
use mcp_media.Sign.Decimal.{format_int}
use mcp_media.Sign.Clock.{Time, after, unix}
use mcp_media.Sign.{sign}
use mcp_media.Serve.Resolve.{resolve, resolved, in_some_root, Resolved}
use mcp_media.Mint.Handler.{MintResponse, expiry, MintRequest, mint_request, minted}
use mcp_media.Mint.Handler.Laws.{mint_request_sound}
use mcp_media.Serve.Resolve.Laws.{candidate, resolve_sound}
use mcp_media.Serve.Resolve.Again.{resolve_canonical, IsFenced-fences}
use mcp_media.Sign.Clock.Laws.{to_unix-IsInt64}
use mcp_media.Mint.Link.{
  ReadsUrl, IsFileName, link, encode_nonempty, encode-IsPlainByte, format_int-IsPlainByte,
  is_disposition-IsPlainByte, sign-IsPlainByte,
}
use mcp_media.Mint.Signed.{
  serve_signed, IsMac, request_of, IsPosix, server_of, candidate_absolute, serve_resolved_file,
  outcome,
}

nonempty_absolute : (p : Bytes) → is_abs p ≡ true → p ≢ []
unfolding is_abs has_prefix
nonempty_absolute [] h e = absurd (ground arith)
nonempty_absolute (_ ∷ _) h e = absurd (ground arith)

module _ (lib : Library) (m : IsMac lib.mac) (fs : FileSystem) where
  -- The request that is read from the link of a file.
  read_link :
      (read_url : Bytes → Option Request) (h : MintHandler) (path d : Bytes) (exp : ℤ)
      → ReadsUrl lib.path_escape h.base_url read_url
      → is_abs path ≡ true
      → IsFileName (base path)
      → is_disposition d ≡ true
      → read_url (
          link h.base_url
            (encode path)
            (lib.path_escape (base path))
            (format_int exp)
            d
            (sign lib.mac h.secret (encode path) exp d))
        ≡ some (request_of path d exp (base path) (sign lib.mac h.secret (encode path) exp d))
  read_link read_url h path d exp url absolute name shown =
      url.reads (encode path) (base path) (format_int exp) d _
        (encode_nonempty path (nonempty_absolute path absolute)) (encode-IsPlainByte path) name
        (format_int-IsPlainByte exp) (is_disposition-IsPlainByte d shown)
        (sign-IsPlainByte lib.mac m.gives_bytes h.secret (encode path) exp d)

  -- The reply to the signed request for a file that `Resolve` returned.
  serve_fenced :
      IsPosix fs
      → (serving : Time) (h : MintHandler) (fuel later_fuel : ℕ) (asked path d : Bytes) (exp : ℤ)
        (name : Bytes)
      → All (λ root. is_abs root ≡ true) h.roots
      → resolve fs fuel h.roots asked ≡ resolved path
      → IsInt64 exp
      → is_disposition d ≡ true
      → (file : File) (info : FileInfo) → fs.open_file path ≡ ok file
      → file.info ≡ ok info
      → info.is_dir ≡ false
      → (is_abs path ≡ true)
        × (serve_http lib fs serving
              (server_of h)
              (suc later_fuel)
              (request_of path d exp name (sign lib.mac h.secret (encode path) exp d))
            ≡ (if after serving (unix exp)
                then some (http_error 403 "forbidden")
                else if in_some_root h.roots path
                then some (content (headers lib fs serving (server_of h) path name d) path)
                else some (http_error 403 "forbidden")))
  serve_fenced posix serving h fuel later_fuel asked path d exp name rooted fenced fits shown file
        info opened read is_file =
      let (found, within) = resolve_sound fs fuel h.roots asked path fenced in
      let (absolute, same, again, bytes) =
        posix.canonical (candidate h.roots asked) path
          (candidate_absolute lib m fs h.roots asked path rooted within) found in
      let replied =
        serve_signed lib m fs serving h (suc later_fuel) path d exp name fits shown bytes in
      let resolving =
        resolve_canonical fs later_fuel h.roots path absolute same again
          (IsFenced-fences fs h.roots asked within) in
      let served =
        serve_resolved_file lib m fs serving (server_of h) name d path file info opened read
          is_file in
      (absolute, replied ∙ outcome lib m fs serving h name d path exp _ resolving served)

  pub same_path : {a b : Bytes} → ◌≡◌ {A = Resolved} (resolved a) (resolved b) → a ≡ b
  same_path h = ground arith

  same_ttl : {z : ℤ} {a b : ℕ} → z ≡ pos a → z ≡ pos b → a ≡ b
  same_ttl x y = ground (arith, x, y)

  -- The URL that the mint API answers with, read by the mux and at the file server with the same secret
  -- and roots, while the file system stays as it is, the resolved file can be opened and is no directory
  -- and its name is no "." or "..": 403 when the expiry has passed; until then the file, if its path
  -- with links resolved lies below a root as that is configured; else 403.
  pub serve-mint :
      IsPosix fs
      → (read_url : Bytes → Option Request) (minting serving : Time) (h : MintHandler)
        (fuel later_fuel : ℕ) (req : MintRequest) (reply : MintResponse)
      → ReadsUrl lib.path_escape h.base_url read_url
      → All (λ root. is_abs root ≡ true) h.roots
      → mint_request lib fs minting h fuel req ≡ some (minted reply)
      → (ttl_seconds : ℕ) (path : Bytes) (file : File) (info : FileInfo)
      → req.ttl_seconds ≡ pos ttl_seconds
      → resolve fs fuel h.roots req.path ≡ resolved path
      → IsFileName (base path)
      → fs.open_file path ≡ ok file
      → file.info ≡ ok info
      → info.is_dir ≡ false
      → let d = or_attachment req.disposition in
        let exp = expiry lib fs minting h ttl_seconds in
        (r : Request) × (read_url reply.url ≡ some r)
        × (serve_http lib fs serving (server_of h) (suc later_fuel) r ≡ (
            if after serving (unix exp)
            then some (http_error 403 "forbidden")
            else if in_some_root h.roots path
            then some (content (headers lib fs serving (server_of h) path (base path) d) path)
            else some (http_error 403 "forbidden")))
  serve-mint posix read_url minting serving h fuel later_fuel req reply url rooted replies
        ttl_seconds path file info asked fenced name opened read is_file =
      let mt = mint_request_sound lib fs minting h fuel req replies in
      let here : mt.path ≡ path = same_path (sym mt.fenced ∙ fenced) in
      let lasting : mt.ttl_seconds ≡ ttl_seconds = same_ttl mt.not_negative asked in
      let d = or_attachment req.disposition in
      let exp = expiry lib fs minting h ttl_seconds in
      let (absolute, served) =
        serve_fenced posix serving h fuel later_fuel req.path path d exp (base path) rooted fenced
          (to_unix-IsInt64 _) mt.shown file info opened read is_file in
      let linked : reply.url
          ≡ link h.base_url (encode path) (lib.path_escape (base path)) (format_int exp) d
              (sign lib.mac h.secret (encode path) exp d) =
        rw (here, lasting) at mt.linked in
      (
        request_of path d exp (base path) (sign lib.mac h.secret (encode path) exp d),
        ap read_url linked ∙ read_link read_url h path d exp url absolute name mt.shown,
        served,
      )
