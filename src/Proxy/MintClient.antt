-- ===== src/Proxy/MintClient.antt =====
-- internal/proxy/mint_client.go.
pub mod Sidecar
use mcp_media.Prelude.{
  ℕ, Bool, not, ◌||◌, Option, none, some, List, ◌++◌, if◌then◌else◌, ◌==◌, take,
}
use mcp_media.Prelude.Int.{ℤ}
use mcp_media.Text.{Bytes, codes, is_empty, trim_right}
use mcp_media.Checked.{Result, ok, err}
use mcp_media.Platform.{Url}
use mcp_media.Mint.Config.{is_http}
use mcp_media.Mint.Handler.{MintRequest}

pub record MintClient : Type 0 where
  pub mint_url : Bytes
  pub token : Bytes

-- The proxy's `MintResponse`. Its time is only read as RFC 3339 text in UTC, and kept as that.
pub record MintAnswer : Type 0 where
  pub url : Bytes
  pub expires_at : Bytes
  pub size_bytes : ℤ
  pub mime_type : Bytes

pub data ClientError : Type 0 where
  invalid_mint_url empty_token : ClientError

-- What of the URL is read: `none` is an error of url.Parse.
unfoldable pub new_mint_client : Option Url → Bytes → Bytes → Result ClientError MintClient
new_mint_client none mint_url token = err invalid_mint_url
new_mint_client (some u) mint_url token =
    if is_empty u.host || not (is_http u.scheme)
    then err invalid_mint_url
    else if is_empty token
    then err empty_token
    else ok (record { mint_url = trim_right b'/' mint_url; token = token })

-- The POST request that the client sends.
pub record MintCall : Type 0 where
  pub url : Bytes
  pub authorization : Bytes
  pub content_type : Bytes
  pub body : Bytes

pub data MintFailure : Type 0 where
  -- the request could not be built, or not be sent
  unbuilt unsent : MintFailure
  -- the status and the message
  refused : ℕ → Bytes → MintFailure
  -- the answer is no JSON, or has no URL
  undecoded without_url : MintFailure

-- The HTTP and JSON libraries.
pub record Wire : Type 0 where
  -- whether http.NewRequest accepts the URL
  pub builds : Bytes → Bool
  -- http.Client.Do with the status and the body, or `none` for an error
  pub send : MintCall → Option (ℕ × Bytes)
  pub encode_request : MintRequest → Bytes
  pub decode_answer : Bytes → Option MintAnswer
  -- the field "error", or nothing
  pub decode_error : Bytes → Bytes
  pub status_text : ℕ → Bytes

module _ (wire : Wire) (c : MintClient) where
  unfoldable pub error_text : ℕ → Bytes → Bytes
  error_text status message = if is_empty message then wire.status_text status else message

  unfoldable pub accept : Option MintAnswer → Result MintFailure MintAnswer
  accept none = err undecoded
  accept (some a) = if is_empty a.url then err without_url else ok a

  unfoldable pub receive : Option (ℕ × Bytes) → Result MintFailure MintAnswer
  receive none = err unsent
  receive (some (status, body)) =
      if not (status == 200)
      then err (refused status (error_text status (wire.decode_error (take 4096 body))))
      else accept (wire.decode_answer (take 8192 body))

  unfoldable pub mint_call : MintRequest → MintCall
  mint_call req = record {
    url = c.mint_url ++ codes "/mint";
    authorization = codes "Bearer " ++ c.token;
    content_type = codes "application/json";
    body = wire.encode_request req;
  }

  -- `MintClient.Mint`
  unfoldable pub client_mint : Bytes → Bytes → ℤ → Result MintFailure MintAnswer
  client_mint path disposition ttl_seconds =
      if wire.builds (c.mint_url ++ codes "/mint")
      then receive (
          wire.send (
            mint_call
              (record { path = path; disposition = disposition; ttl_seconds = ttl_seconds })))
      else err unbuilt
