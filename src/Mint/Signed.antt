-- ===== src/Mint/Signed.antt =====
-- The reply of the file server of internal/serve/handler.go to a signed request.
use mcp_media.Prelude.{
  ◌≡◌, refl, some, ◌≢◌, true, [], ℕ, false, Bool-cases, inr, arith, inl, All, if◌then◌else◌, List,
  ◌∷◌, ◌∙◌,
}
use mcp_media.Text.{Bytes, IsBytes, text_eq, is_empty}
use mcp_media.Platform.{FileSystem, Library, ok, FileInfo, File}
use mcp_media.Prelude.Int.{ℤ, IsInt64}
use mcp_media.Mint.Config.{MintHandler}
use mcp_media.Serve.Handler.{
  or_attachment, Request, MediaHandler, is_disposition, serve_http, serve_exp, serve_path,
  serve_resolved, serve_open, http_error, serve_stat, content, headers,
}
use mcp_media.FilePath.{is_abs, clean, join}
use mcp_media.Base64.{encode}
use mcp_media.Sign.Decimal.{format_int, parse_int}
use mcp_media.Sign.Clock.{Time, after, unix}
use mcp_media.Sign.{sign, canonical}
use mcp_media.Serve.Resolve.{resolve, resolved, in_some_root, Resolved, rejected, escape}
use mcp_media.Sign.Hex.{encode_hex}
use mcp_media.Sign.Laws.{verify-sign}
use mcp_media.Text.Laws.{is_empty_iff}
use mcp_media.Sign.Decimal.Laws.{parse_int-format_int}
use mcp_media.Base64.Laws.{decode-encode}
use mcp_media.Serve.Resolve.Laws.{IsFenced, fences, candidate}
use mcp_media.Serve.Resolve.Again.{not-IsFenced-nil}
use mcp_media.FilePath.Laws.{is_abs-clean}
use mcp_media.FilePath.Joins.{is_abs-join}

-- What the program relies on of the file system: a path with its links resolved is absolute, clean
-- and its own resolution.
pub record IsPosix (fs : FileSystem) : Type 0 where
  pub canonical :
      (p r : Bytes)
      → is_abs p ≡ true
      → fs.eval_symlinks p ≡ ok r
      → (is_abs r ≡ true) × (clean r ≡ r) × (fs.eval_symlinks r ≡ ok r) × IsBytes r

-- The request that the file server reads from a URL with these parts.
abbrev pub request_of : Bytes → Bytes → ℤ → Bytes → Bytes → Request
request_of path disposition exp name sig = record {
  path_b64 = encode path;
  filename = name;
  exp = format_int exp;
  sig = sig;
  d = disposition;
}

abbrev pub server_of : MintHandler → MediaHandler
server_of h = record { secret = h.secret; roots = h.roots }

or_attachment_of_shown : (d : Bytes) → is_disposition d ≡ true → or_attachment d ≡ d
unfolding or_attachment is_disposition
or_attachment_of_shown d h = elim (Bool-cases (is_empty d)) [
  | inr given ↦ rw given refl
  | inl absent ↦ absurd (nothing_shown (rw ((is_empty_iff d).0 absent) at h))
]
  where
    nothing_shown : ¬ (is_disposition [] ≡ true)
    nothing_shown e = unfold text_eq in cc

is_empty-format_int : (z : ℤ) → IsInt64 z → is_empty (format_int z) ≡ false
is_empty-format_int z fits = elim (Bool-cases (is_empty (format_int z))) [
  | inr given ↦ given
  | inl absent ↦
      absurd (nothing_read (rw ((is_empty_iff _).0 absent) at (parse_int-format_int z fits)))
]
  where
    nothing_read : ¬ (parse_int [] ≡ some z)
    nothing_read e = unfold parse_int in cc

is_empty-encode_hex : (s : Bytes) → s ≢ [] → is_empty (encode_hex s) ≡ false
unfolding is_empty encode_hex
is_empty-encode_hex [] h = absurd (h refl)
is_empty-encode_hex (_ ∷ _) h = refl

-- What the program relies on of HMAC-SHA256: it gives bytes, and not none.
pub record IsMac (mac : Bytes → Bytes → Bytes) : Type 0 where
  pub gives_bytes : (k m : Bytes) → IsBytes (mac k m)
  pub not_empty : (k m : Bytes) → mac k m ≢ []

module _ (lib : Library) (m : IsMac lib.mac) (fs : FileSystem) where
  -- The reply of the file server to a signed request for a path.
  pub serve_signed :
      (now : Time) (h : MintHandler) (fuel : ℕ) (path d : Bytes) (exp : ℤ) (name : Bytes)
      → IsInt64 exp
      → is_disposition d ≡ true
      → IsBytes path
      → serve_http lib fs now
          (server_of h)
          fuel
          (request_of path d exp name (sign lib.mac h.secret (encode path) exp d))
        ≡ (if after now (unix exp)
            then some (http_error 403 "forbidden")
            else serve_resolved lib fs now (server_of h) name d (resolve fs fuel h.roots path))
  unfolding serve_http serve_exp serve_path
  serve_signed now h fuel path d exp name fits shown bytes =
      let sig = sign lib.mac h.secret (encode path) exp d in
      let signed : is_empty sig ≡ false =
        unfold sign in
        is_empty-encode_hex _ (m.not_empty h.secret (canonical (encode path) exp d)) in
      ground (
        arith,
        parse_int-format_int exp fits,
        is_empty-format_int exp fits,
        or_attachment_of_shown d shown,
        decode-encode path bytes,
        verify-sign lib.mac m.gives_bytes h.secret (encode path) exp d now,
      )

  pub serve_resolved_file :
      (now : Time) (h : MediaHandler) (name d path : Bytes) (file : File) (info : FileInfo)
      → fs.open_file path ≡ ok file
      → file.info ≡ ok info
      → info.is_dir ≡ false
      → serve_resolved lib fs now h name d (resolved path)
        ≡ some (content (headers lib fs now h path name d) path)
  unfolding serve_resolved serve_open serve_stat
  serve_resolved_file now h name d path file info opened read is_file =
      rw (opened, serve_open) (rw (read, serve_stat) (rw is_file refl))

  pub outcome :
      (now : Time) (h : MintHandler) (name d path : Bytes) (exp : ℤ) (res : Resolved)
      → res ≡ (if in_some_root h.roots path then resolved path else rejected escape)
      → serve_resolved lib fs now (server_of h) name d (resolved path)
        ≡ some (content (headers lib fs now (server_of h) path name d) path)
      → (if after now (unix exp)
          then some (http_error 403 "forbidden")
          else serve_resolved lib fs now (server_of h) name d res)
        ≡ (if after now (unix exp)
            then some (http_error 403 "forbidden")
            else if in_some_root h.roots path
            then some (content (headers lib fs now (server_of h) path name d) path)
            else some (http_error 403 "forbidden"))
  unfolding serve_resolved
  outcome now h name d path exp res e served = elim (Bool-cases (after now (unix exp))) [
    | inl expired ↦ rw expired refl
    | inr fresh ↦ elim (Bool-cases (in_some_root h.roots path)) [
      | inl inside ↦
          let found : res ≡ resolved path = e ∙ rw inside refl in rw (fresh, inside, found) served
      | inr outside ↦
          let escaped : res ≡ rejected escape = e ∙ rw outside refl in
          rw (fresh, outside, escaped) refl
    ]
  ]

  pub candidate_absolute :
      (roots : List Bytes) (p path : Bytes)
      → All (λ root. is_abs root ≡ true) roots
      → IsFenced fs path (fences roots p)
      → is_abs (candidate roots p) ≡ true
  candidate_absolute [] p path rooted fenced = absurd (not-IsFenced-nil fs fenced)
  candidate_absolute (root ∷ roots) p path (h, _) fenced = elim (Bool-cases (is_abs p)) [
    | inl absolute ↦ rw absolute (is_abs-clean p ∙ absolute)
    | inr relative ↦
        rw relative (is_abs-clean (join (clean root) (clean p)) ∙ is_abs-join root p ∙ h)
  ]
