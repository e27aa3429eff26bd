-- ===== src/Webhook/Annotations.antt =====
-- internal/webhook/v1/annotations.go
use Prim.Native.String.{String}
use mcp_media.Prelude.{
  ℕ, Bool, true, false, not, ◌&&◌, ◌||◌, none, some, [], ◌∷◌, if◌then◌else◌, leb, length,
}
use mcp_media.Text.{Bytes, codes, is_empty}
use mcp_media.Prelude.{◌==◌ as nat_eq}
use mcp_media.Names.{StringMap, get, ◌==◌}
use mcp_media.Sign.Decimal.{parse_int}

-- The annotation keys and the label of an injected pod.
abbrev pub inject_sidecar_key : String
inject_sidecar_key = "media.media/inject-sidecar"

abbrev pub inject_proxy_key : String
inject_proxy_key = "media.media/inject-proxy"

abbrev pub volume_name_key : String
volume_name_key = "media.media/volume-name"

abbrev pub volume_path_key : String
volume_path_key = "media.media/volume-path"

abbrev pub upstream_port_key : String
upstream_port_key = "media.media/upstream-port"

abbrev pub proxy_mode_key : String
proxy_mode_key = "media.media/proxy-mode"

abbrev pub tool_match_key : String
tool_match_key = "media.media/tool-match"

abbrev pub mint_url_key : String
mint_url_key = "media.media/mint-url"

abbrev pub auth_token_secret_key : String
auth_token_secret_key = "media.media/auth-token-secret"

abbrev pub public_url_key : String
public_url_key = "media.media/public-url"

abbrev pub inline_max_bytes_key : String
inline_max_bytes_key = "media.media/inline-max-bytes"

abbrev pub group_key : String
group_key = "media.media/group"

abbrev pub injected_label : String
injected_label = "media.media/injected"

abbrev pub sidecar_name : String
sidecar_name = "media-sidecar"

abbrev pub proxy_name : String
proxy_name = "mcp-media-proxy"

abbrev pub media_volume_name : String
media_volume_name = "media-volume"

-- `injectionRequest`
pub record InjectionRequest : Type 0 where
  pub inject_sidecar : Bool
  pub inject_proxy : Bool
  pub volume_name : String
  pub volume_path : String
  pub upstream_port : String
  pub proxy_mode : String
  pub tool_match : String
  pub mint_url : String
  pub public_url : String
  pub inline_max_bytes : String
  pub group : String
  pub auth_token_secret : String

pub data Parsed : Type 0 where
  parsed : InjectionRequest → Parsed
  malformed : String → Parsed

abbrev is_alnum : ℕ → Bool
is_alnum c = (leb b'a' c && leb c b'z') || (leb b'0' c && leb c b'9')

-- The loop of `isRFC1123Label`; the flag is set at the first character.
unfoldable pub label_from : Bool → Bytes → Bool
label_from first [] = true
label_from first (c ∷ s) =
    (is_alnum c || (nat_eq c b'-' && not first && not (is_empty s))) && label_from false s

-- `isRFC1123Label`. A text with a character outside ASCII is refused whatever its length in bytes.
unfoldable pub is_rfc1123_label : String → Bool
is_rfc1123_label s =
    not (is_empty (codes s)) && leb (length (codes s)) 63 && label_from true (codes s)

-- The fields read from the annotations, before the checks.
unfoldable pub read_annotations : StringMap → InjectionRequest
read_annotations a = record {
  inject_sidecar = get inject_sidecar_key a == "true";
  inject_proxy = get inject_proxy_key a == "true";
  volume_name = get volume_name_key a;
  volume_path = get volume_path_key a;
  upstream_port = get upstream_port_key a;
  proxy_mode = get proxy_mode_key a;
  tool_match = get tool_match_key a;
  mint_url = get mint_url_key a;
  public_url = get public_url_key a;
  inline_max_bytes = get inline_max_bytes_key a;
  group = get group_key a;
  auth_token_secret = get auth_token_secret_key a;
}

-- strconv.Atoi fails
unfoldable pub is_number : String → Bool
is_number s = elim (parse_int (codes s)) [ none ↦ false | some _ ↦ true ]

abbrev is_set : String → Bool
is_set s = not (s == "")

unfoldable pub check_request : InjectionRequest → Parsed
check_request req =
    if req.inject_sidecar
      && is_set req.volume_name
      && not (req.volume_name == "empty")
      && not (is_rfc1123_label req.volume_name)
    then malformed "volume-name is not a valid PVC name"
    else if req.inject_proxy && is_set req.upstream_port && not (is_number req.upstream_port)
    then malformed "upstream-port is not a port number"
    else if req.inject_proxy
        && is_set req.auth_token_secret
        && not (is_rfc1123_label req.auth_token_secret)
    then malformed "auth-token-secret is not a valid secret name"
    else parsed req

-- `parseAnnotations`
unfoldable pub parse_annotations : StringMap → Parsed
parse_annotations a = check_request (read_annotations a)
