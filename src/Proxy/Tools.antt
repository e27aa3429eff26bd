-- ===== src/Proxy/Tools.antt =====
-- internal/proxy/tools.go.
pub mod Inline
use mcp_media.Prelude.{
  ℕ, Bool, true, false, not, ◌&&◌, ◌||◌, Option, none, some, List, [], ◌∷◌, ◌++◌, if◌then◌else◌,
  ◌==◌, take, length,
}
use mcp_media.Prelude.Int.{ℤ, pos, negsuc, ltb_ℤ, ◌+ℤ◌, wrap64}
use mcp_media.Text.{Bytes, codes, is_empty, text_eq, has_prefix}
use mcp_media.Checked.{Result, ok, err, ◌>>=◌}
use mcp_media.FilePath.{base}
use mcp_media.Mint.Config.{is_http}
use mcp_media.Proxy.MintClient.{MintAnswer, MintFailure}

-- A URL with what is neither its scheme nor its host, as it stands.
pub record FetchUrl : Type 0 where
  pub scheme : Bytes
  pub host : Bytes
  pub rest : Bytes

-- The response to a fetch: its status, its body, and whether the body is read without an error.
pub record Fetched : Type 0 where
  pub status : ℕ
  pub body : Bytes
  pub reads : Bool

-- The URL and HTTP libraries.
pub record Fetcher : Type 0 where
  pub parse_url : Bytes → Option FetchUrl
  pub print_url : FetchUrl → Bytes
  -- whether http.NewRequest accepts the URL
  pub builds : Bytes → Bool
  pub get : Bytes → Option Fetched

pub data FetchFailure : Type 0 where
  unparsed_url invalid_base unbuilt_fetch unfetched unread too_long : FetchFailure
  bad_status : ℕ → FetchFailure

-- `MediaToolOptions`
pub record MediaToolOptions : Type 0 where
  pub fetch_base_url : Bytes
  pub inline_max_bytes : ℤ

-- The defaults that `RegisterMediaTools` sets.
unfoldable pub with_default_limit : MediaToolOptions → MediaToolOptions
with_default_limit opts =
    if ltb_ℤ (pos 0) opts.inline_max_bytes
    then opts
    else record opts { inline_max_bytes = pos 102400 }

-- `mediaArgs`
pub record MediaArgs : Type 0 where
  pub path : Bytes
  pub mode : Bytes
  pub ttl_seconds : ℤ

-- The texts that explain why nothing is attached.
pub data Note : Type 0 where
  not_eligible : Bytes → Note
  too_large : ℤ → ℤ → Note
  fetch_failed : FetchFailure → Note

pub data Failing : Type 0 where
  invalid_mode : Bytes → Failing
  mint_failed : MintFailure → Failing

-- mcp.Content
pub data Content : Type 0 where
  text : Bytes → Content
  note : Note → Content
  message : Failing → Content
  image audio : Bytes → Bytes → Content

-- The structured content of both tools.
pub record MediaInfo : Type 0 where
  pub url : Bytes
  pub mime_type : Bytes
  pub size_bytes : ℤ
  pub filename : Bytes
  pub expires_at : Bytes
  pub inline_included : Bool

-- mcp.CallToolResult
pub record MediaResult : Type 0 where
  pub is_error : Bool
  pub contents : List Content
  pub structured : Option MediaInfo

-- `errorResult`
unfoldable pub error_result : Failing → MediaResult
error_result why = record { is_error = true; contents = message why ∷ []; structured = none }

unfoldable pub is_image : Bytes → Bool
is_image mime_type = has_prefix mime_type (codes "image/")

unfoldable pub is_audio : Bytes → Bool
is_audio mime_type = has_prefix mime_type (codes "audio/")

-- io.LimitReader, which reads nothing with a limit that is not positive
unfoldable pub limit_reader : ℤ → Bytes → Bytes
limit_reader (pos n) body = take n body
limit_reader (negsuc _) body = []

unfoldable pub is_mode : Bytes → Bool
is_mode m = text_eq m (codes "url") || text_eq m (codes "inline") || text_eq m (codes "both")

module _ (web : Fetcher) (opts : MediaToolOptions) where
  unfoldable pub with_base : FetchUrl → Option FetchUrl → Result FetchFailure Bytes
  with_base u none = err invalid_base
  with_base u (some b) =
      if is_empty b.host || not (is_http b.scheme)
      then err invalid_base
      else ok (web.print_url (record u { scheme = b.scheme; host = b.host }))

  unfoldable pub swap_parsed : Bytes → Option FetchUrl → Result FetchFailure Bytes
  swap_parsed base_url none = err unparsed_url
  swap_parsed base_url (some u) = with_base u (web.parse_url base_url)

  -- `swapBase`
  unfoldable pub swap_base : Bytes → Bytes → Result FetchFailure Bytes
  swap_base raw_url base_url =
      if is_empty base_url then ok raw_url else swap_parsed base_url (web.parse_url raw_url)

  unfoldable pub within_limit : Bytes → Result FetchFailure Bytes
  within_limit data_read =
      if ltb_ℤ opts.inline_max_bytes (pos (length data_read)) then err too_long else ok data_read

  unfoldable pub read_fetched : Option Fetched → Result FetchFailure Bytes
  read_fetched none = err unfetched
  read_fetched (some resp) =
      if not (resp.status == 200)
      then err (bad_status resp.status)
      else if not resp.reads
      then err unread
      else within_limit (limit_reader (wrap64 (opts.inline_max_bytes +ℤ pos 1)) resp.body)

  -- `fetchInline`
  unfoldable pub fetch_inline : Bytes → Result FetchFailure Bytes
  fetch_inline minted_url = swap_base minted_url opts.fetch_base_url >>= λ fetch_url.
      if web.builds fetch_url then read_fetched (web.get fetch_url) else err unbuilt_fetch

  unfoldable pub attach : MintAnswer → Result FetchFailure Bytes → Bool × Content
  attach mr (err e) = (false, note (fetch_failed e))
  attach mr (ok bytes) =
      (true, (if is_image mr.mime_type then image bytes mr.mime_type else audio bytes mr.mime_type))

  -- `includeInline`: the flag, and the content that is added
  unfoldable pub include_inline : MintAnswer → Bool × Content
  include_inline mr =
      if not (is_image mr.mime_type) && not (is_audio mr.mime_type)
      then (false, note (not_eligible mr.mime_type))
      else if ltb_ℤ opts.inline_max_bytes mr.size_bytes
      then (false, note (too_large mr.size_bytes opts.inline_max_bytes))
      else attach mr (fetch_inline mr.url)

  abbrev media_info : MediaArgs → MintAnswer → Bool → MediaInfo
  media_info args mr included = record {
    url = mr.url;
    mime_type = mr.mime_type;
    size_bytes = mr.size_bytes;
    filename = base args.path;
    expires_at = mr.expires_at;
    inline_included = included;
  }

  unfoldable pub media_result : MediaArgs → MintAnswer → Bool → MediaResult
  media_result args mr false = record {
    is_error = false;
    contents = text mr.url ∷ [];
    structured = some (media_info args mr false);
  }
  media_result args mr true = record {
    is_error = false;
    contents = text mr.url ∷ (include_inline mr).1 ∷ [];
    structured = some (media_info args mr (include_inline mr).0);
  }

  unfoldable pub after_mint : MediaArgs → Bytes → Result MintFailure MintAnswer → MediaResult
  after_mint args mode (err e) = error_result (mint_failed e)
  after_mint args mode (ok mr) =
      media_result args mr (text_eq mode (codes "inline") || text_eq mode (codes "both"))

  -- `newMediaToolHandler`, with the mint client as a function of the path and the lifetime
  unfoldable pub media_tool :
      (Bytes → ℤ → Result MintFailure MintAnswer) → Bytes → MediaArgs → MediaResult
  media_tool mint default_mode args =
      let mode = if is_empty args.mode then default_mode else args.mode in
      if not (is_mode mode)
      then error_result (invalid_mode args.mode)
      else after_mint args mode (mint args.path args.ttl_seconds)

-- `RegisterMediaTools`, with the mint client as a function of the path, the disposition and the lifetime
unfoldable pub stream_media :
    Fetcher
    → MediaToolOptions
    → (Bytes → Bytes → ℤ → Result MintFailure MintAnswer)
    → MediaArgs
    → MediaResult
stream_media web opts mint =
    media_tool web (with_default_limit opts) (λ path. mint path (codes "inline")) (codes "inline")

unfoldable pub download_file :
    Fetcher
    → MediaToolOptions
    → (Bytes → Bytes → ℤ → Result MintFailure MintAnswer)
    → MediaArgs
    → MediaResult
download_file web opts mint =
    media_tool web (with_default_limit opts) (λ path. mint path (codes "attachment")) (codes "url")
