-- ===== src/Proxy/MintClient/Sidecar.antt =====
-- The mint client at a mint API with the same token.
use mathlib.Core.Option
use Prim.Native.String.{String}
use mcp_media.Prelude.{
  ◌≡◌, refl, sym, ap, subst, ℕ, ◌≤◌, Bool, true, false, Option, none, some, [], ◌∷◌, ◌++◌, ◌==◌,
  take, take_all, length, Bool-cases, inl, inr, arith, ltb, all, ◌<◌, ◌^◌,
}
use mcp_media.Prelude.Int.{ℤ, pos, negsuc, IsInt64}
use mcp_media.Text.{Bytes, codes, is_empty, to_lower}
use mcp_media.Text.Laws.{text_eq_refl}
use mcp_media.Checked.{Result, ok, err}
use mcp_media.Platform.{
  Library, FileSystem, FileResult, FileInfo, failed, not_exist, other_error, ok as done,
}
use mcp_media.Sign.Clock.{Time}
use mcp_media.Serve.Resolve.{Resolved, resolve, rejected, file_error, resolved, out_of_fuel, escape}
use mcp_media.Mint.Config.{MintHandler}
use mcp_media.Mint.Handler.{
  MintRequest, MintResponse, HttpRequest, Reply, error, minted, mint_http, mint, mint_decoded,
  mint_request, mint_path, mint_resolved, mint_stat, authorized, minted_url,
}
use mcp_media.Mint.Handler.Laws.{authorized_iff}
use mcp_media.Proxy.MintClient.{
  MintClient, MintAnswer, MintCall, MintFailure, refused, Wire, error_text, accept, receive,
  mint_call, client_mint,
}
use mcp_media.Serve.Handler.{or_attachment, is_disposition}

-- The server's JSON and its view of the URL of a request.
pub record ServerCodec : Type 0 where
  pub path_of_url : Bytes → Bytes
  pub decode_body : Bytes → Option (MintRequest × Bool)
  pub encode_answer : MintResponse → Bytes
  pub encode_error : String → Bytes

-- What the client makes of the answer.
abbrev pub view : MintResponse → MintAnswer
view m = record {
  url = m.url;
  expires_at = m.expires_at;
  size_bytes = pos m.size_bytes;
  mime_type = m.mime_type;
}

abbrev pub of_reply : Reply → Result MintFailure MintAnswer
of_reply (minted m) = ok (view m)
of_reply (error status message _) = err (refused status (codes message))

-- Valid UTF-8, which encoding/json keeps as it is.
abbrev pub IsText : Library → Bytes → Type 0
IsText lib s = lib.valid_utf8 s ≡ s

abbrev pub is_ascii : String → Bool
is_ascii message = all (λ b. ltb b 128) (codes message)

-- A request that encoding/json reads back as it was written.
abbrev pub IsSendableRequest : Library → MintRequest → Type 0
IsSendableRequest lib req =
    IsText lib req.path × IsText lib req.disposition × IsInt64 req.ttl_seconds

-- An answer that encoding/json reads back as it was written, with a time of the years 1970 to 9999.
abbrev pub IsSendable : Library → MintResponse → Type 0
IsSendable lib m =
    IsText lib m.url
    × IsText lib m.mime_type
    × (m.size_bytes < 2 ^ 63)
    × ((z : ℕ) × (z < 253402300800) × (m.expires_at ≡ lib.rfc3339 (pos z)))

module _ (lib : Library) (fs : FileSystem) (now : Time) (h : MintHandler) (codec : ServerCodec)
    (fuel : ℕ) where
  abbrev pub on_wire : Reply → ℕ × Bytes
  on_wire (minted m) = (200, codec.encode_answer m)
  on_wire (error status message _) = (status, codec.encode_error message)

  -- The request of the client as the mint API reads it.
  abbrev pub http_request : MintCall → HttpRequest
  http_request call = record {
    url_path = codec.path_of_url call.url;
    method = codes "POST";
    authorization = call.authorization;
    content_type = call.content_type;
    body = call.body;
  }

  abbrev pub sidecar_send : MintCall → Option (ℕ × Bytes)
  sidecar_send call =
      Option.map on_wire (mint_http lib fs now h codec.decode_body fuel (http_request call))

  -- What both sides rely on: JSON of texts, of numbers of 64 bits and of RFC 3339 times is read back as
  -- it was written, and the URL of the client names the endpoint.
  pub record Agrees (wire : Wire) (c : MintClient) : Type 0 where
    pub connected : (call : MintCall) → wire.send call ≡ sidecar_send call
    pub builds : wire.builds (c.mint_url ++ codes "/mint") ≡ true
    pub endpoint : codec.path_of_url (c.mint_url ++ codes "/mint") ≡ codes "/mint"
    pub same_token : h.token ≡ c.token
    pub json : lib.parse_media_type (codes "application/json") ≡ some (codes "application/json")
    pub requests :
        (req : MintRequest)
        → IsSendableRequest lib req
        → codec.decode_body (wire.encode_request req) ≡ some (req, true)
    pub answers :
        (m : MintResponse)
        → IsSendable lib m
        → wire.decode_answer (codec.encode_answer m) ≡ some (view m)
    pub errors :
        (message : String)
        → length (codes message) ≤ 100
        → is_ascii message ≡ true
        → wire.decode_error (take 4096 (codec.encode_error message)) ≡ codes message

  -- A reply that the client can tell: an answer with a URL, or a short message with another status
  -- than 200.
  abbrev IsPlain : Option Reply → Type 0
  IsPlain none = Unit
  IsPlain (some (minted m)) = is_empty m.url ≡ false
  IsPlain (some (error status message _)) =
      ((status == 200) ≡ false)
      × (is_empty (codes message) ≡ false)
      × (length (codes message) ≤ 100)
      × (is_ascii message ≡ true)

  is_empty-append : (x : Bytes) (c : ℕ) (y : Bytes) → is_empty (x ++ c ∷ y) ≡ false
  unfolding is_empty
  is_empty-append [] c y = refl
  is_empty-append (_ ∷ x) c y = refl

  mint_stat-IsPlain :
      (path disposition : Bytes) (n : ℕ) (r : FileResult FileInfo)
      → IsPlain (some (mint_stat lib fs now h path disposition n r))
  unfolding mint_stat is_empty minted_url
  mint_stat-IsPlain path disposition n (failed not_exist) = (refl, refl, omega arith, refl)
  mint_stat-IsPlain path disposition n (failed other_error) = (refl, refl, omega arith, refl)
  mint_stat-IsPlain path disposition n (done info) = elim (Bool-cases info.is_dir) [
    | inl dir ↦ rw dir (refl, refl, omega arith, refl)
    | inr file ↦ rw file (is_empty-append h.base_url b'/' _)
  ]

  mint_resolved-IsPlain :
      (disposition : Bytes) (n : ℕ) (r : Resolved)
      → IsPlain (mint_resolved lib fs now h disposition n r)
  unfolding mint_resolved is_empty
  mint_resolved-IsPlain disposition n out_of_fuel = tt
  mint_resolved-IsPlain disposition n (rejected escape) = (refl, refl, omega arith, refl)
  mint_resolved-IsPlain disposition n (rejected (file_error not_exist)) =
      (refl, refl, omega arith, refl)
  mint_resolved-IsPlain disposition n (rejected (file_error other_error)) =
      (refl, refl, omega arith, refl)
  mint_resolved-IsPlain disposition n (resolved path) =
      mint_stat-IsPlain path disposition n (fs.stat path)

  mint_path-IsPlain : (req : MintRequest) (ttl : ℤ) → IsPlain (mint_path lib fs now h fuel req ttl)
  unfolding mint_path is_empty
  mint_path-IsPlain req (negsuc _) = (refl, refl, omega arith, refl)
  mint_path-IsPlain req (pos n) =
      mint_resolved-IsPlain (or_attachment req.disposition) n (resolve fs fuel h.roots req.path)

  mint_request-IsPlain : (req : MintRequest) → IsPlain (mint_request lib fs now h fuel req)
  unfolding mint_request is_empty
  mint_request-IsPlain req = elim (Bool-cases (is_disposition (or_attachment req.disposition))) [
    | inr unknown ↦ rw unknown (refl, refl, omega arith, refl)
    | inl shown ↦ elim (Bool-cases (is_empty req.path)) [
      | inl empty ↦ rw (shown, empty) (refl, refl, omega arith, refl)
      | inr given ↦ rw (shown, given) (mint_path-IsPlain req req.ttl_seconds)
    ]
  ]

  -- The answer fits into what the client reads, and can be told in JSON.
  abbrev pub Fits : Reply → Type 0
  Fits (minted m) = (length (codec.encode_answer m) ≤ 8192) × IsSendable lib m
  Fits (error _ _ _) = Unit

  module _ (wire : Wire) (c : MintClient) (agrees : Agrees wire c) where
    is_authorized : authorized h (codes "Bearer " ++ c.token) ≡ true
    is_authorized = (authorized_iff h (codes "Bearer " ++ c.token)).1 (
      codes "Bearer",
      ap (λ t. codes "Bearer " ++ t) (sym agrees.same_token),
      unfold to_lower in refl,
    )

    mint_of_client :
        (req : MintRequest)
        → IsSendableRequest lib req
        → length (wire.encode_request req) ≤ 4096
        → mint lib fs now h codec.decode_body fuel (http_request (mint_call wire c req))
          ≡ mint_request lib fs now h fuel req
    unfolding mint mint_call mint_decoded
    mint_of_client req sendable short =
        let small : ltb 4096 (length (wire.encode_request req)) ≡ false = ground (arith, short) in
        rw
          (
            mint,
            agrees.json,
            text_eq_refl (codes "application/json"),
            small,
            agrees.requests req sendable,
          )
          refl

    -- The client's request passes all checks before the body's.
    mint_http_of_client :
        (req : MintRequest)
        → IsSendableRequest lib req
        → length (wire.encode_request req) ≤ 4096
        → mint_http lib fs now h codec.decode_body fuel (http_request (mint_call wire c req))
          ≡ mint_request lib fs now h fuel req
    unfolding mint_http mint_call mint
    mint_http_of_client req sendable short =
        rw
          (
            agrees.endpoint,
            text_eq_refl (codes "/mint"),
            text_eq_refl (codes "POST"),
            is_authorized,
          )
          (mint_of_client req sendable short)

    receive_reply :
        (reply : Reply)
        → IsPlain (some reply)
        → Fits reply
        → receive wire c (some (on_wire reply)) ≡ of_reply reply
    unfolding receive accept error_text
    receive_reply (minted m) named (fits, sendable) =
        rw (take_all 8192 (codec.encode_answer m) fits, agrees.answers m sendable, named) refl
    receive_reply (error status message extra) (other, given, short, ascii) fits =
        rw (other, agrees.errors message short ascii, given) refl

    -- At a mint API with the same token, for a request of valid UTF-8 with a 64-bit lifetime and at most
    -- 4096 bytes, and an answer of valid UTF-8 with a time of the years 1970 to 9999 and at most 8192
    -- bytes, the client returns what the checks behind
    -- the decoded request come to: the URL, or the status and the message of the refusal.
    pub client_mint-mint_request :
        (path disposition : Bytes) (ttl_seconds : ℤ) (reply : Reply)
        → let req : MintRequest = record {
          path = path;
          disposition = disposition;
          ttl_seconds = ttl_seconds;
        } in
          IsSendableRequest lib req
          → length (wire.encode_request req) ≤ 4096
          → mint_request lib fs now h fuel req ≡ some reply
          → Fits reply
          → client_mint wire c path disposition ttl_seconds ≡ of_reply reply
    unfolding client_mint
    client_mint-mint_request path disposition ttl_seconds reply sendable short replies fits =
        let req : MintRequest = record {
          path = path;
          disposition = disposition;
          ttl_seconds = ttl_seconds;
        } in
        let plain : IsPlain (some reply) = subst IsPlain replies (mint_request-IsPlain req) in
        rw
          (
            agrees.builds,
            agrees.connected (mint_call wire c req),
            mint_http_of_client req sendable short,
            replies,
          )
          (receive_reply reply plain fits)
