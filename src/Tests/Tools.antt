-- ===== src/Tests/Tools.antt =====
-- The theorems on the tools of the proxy, at concrete inputs.
use mcp_media.Prelude.{
  ◌≡◌, refl, ◌⊎◌, ◌≤◌, Bool, true, false, Option, some, none, [], ◌∷◌, length, take_all, arith,
}
use mcp_media.Prelude.Int.{ℤ, pos, wrap64, ◌+ℤ◌}
use mcp_media.Base64.{encode, sextet_char}
use mcp_media.FilePath.{base}
use mcp_media.Sign.{sign, canonical}
use mcp_media.Sign.Hex.{encode_hex, hex_digit}
use mcp_media.Sign.Decimal.{format_int, digits}
use mcp_media.Sign.Clock.{to_unix, add, add_nanos}
use mcp_media.Mint.Ttl.{clamp_ttl, seconds_of}
use mcp_media.Mint.Config.{is_http}
use mcp_media.Mime.{mime_for, type_for, ext_from, lookup_ext, ext_types}
use mcp_media.Names.{String}
use mcp_media.Text.{Bytes, codes, is_empty, text_eq, has_prefix, split, trim_right, to_lower}
use mcp_media.Checked.{Result, ok}
use mcp_media.Mint.Handler.{mint_request, mint_path, mint_resolved, mint_stat, minted, minted_url}
use mcp_media.Proxy.MintClient.{MintClient, MintAnswer, MintFailure, Wire, client_mint}
use mcp_media.Proxy.MintClient.Sidecar.{
  ServerCodec, Agrees, IsSendable, sidecar_send, of_reply, client_mint-mint_request,
}
use mcp_media.Proxy.Tools.{
  Fetcher, MediaToolOptions, MediaArgs, media_tool, fetch_inline, swap_base, swap_parsed, with_base,
  read_fetched, within_limit, limit_reader,
}
use mcp_media.Proxy.Tools.Inline.{IsWhole, IsHonest, fetch_inline-IsWhole, media_tool-IsHonest}
use mcp_media.Proxy.Enrich.{Fields, string, fields, MethodResult, of_tool, middleware}
use mcp_media.Proxy.Enrich.Laws.{Enriches, middleware_cases}
use mcp_media.Tests.Codec.{
  encode_request, decode_body, decode_body-encode_request, encode_answer, decode_answer,
  decode_answer-encode_answer,
}
use mcp_media.Tests.World.{toy, disk, noon, minter}
use mcp_media.Tests.Minting.{clip_request, clip_reply}
use mcp_media.Serve.Handler.{is_disposition, inline, or_attachment}
use mcp_media.Serve.Resolve.{
  resolve, resolve_absolute, check_candidate, check_roots, in_some_root, under_root,
}
use mcp_media.FilePath.{join, is_abs, clean, clean_elements, clean_step, join_elements}

abbrev pub codec : ServerCodec
codec = record {
  path_of_url = λ u. codes "/mint";
  decode_body = decode_body;
  encode_answer = encode_answer;
  encode_error = λ message. codes message;
}

abbrev pub client : MintClient
client = record { mint_url = codes "http://localhost:8091"; token = codes "token" }

abbrev pub wire : Wire
wire = record {
  builds = λ u. true;
  send = sidecar_send toy disk noon minter codec 2;
  encode_request = encode_request;
  decode_answer = decode_answer;
  decode_error = λ b. b;
  status_text = λ n. [];
}

pub wire-Agrees : Agrees toy disk noon minter codec 2 wire client
wire-Agrees = record {
  connected = λ call. refl;
  builds = refl;
  endpoint = refl;
  same_token = refl;
  json = refl;
  requests = λ req sendable. decode_body-encode_request req;
  answers = λ m sendable. decode_answer-encode_answer m;
  errors = λ m short ascii. take_all 4096 (codes m) (omega (arith, short));
}

clip-minted : mint_request toy disk noon minter 2 clip_request ≡ some (minted clip_reply)
unfolding mint_request mint_path mint_resolved mint_stat is_disposition or_attachment is_empty
    text_eq resolve resolve_absolute check_candidate check_roots in_some_root under_root join is_abs
    clean has_prefix split clean_elements clean_step join_elements
clip-minted = refl

clip-fits : length (encode_answer clip_reply) ≤ 8192
unfolding minted_url encode base is_empty trim_right split format_int to_unix wrap64 ◌+ℤ◌ add
    clamp_ttl seconds_of add_nanos digits or_attachment sign encode_hex sextet_char hex_digit
    canonical mime_for type_for to_lower ext_from lookup_ext ext_types text_eq
clip-fits = omega arith

clip-IsSendable : IsSendable toy clip_reply
clip-IsSendable = (refl, refl, omega arith, (0, omega arith, refl))

client_mint-mint_request_example :
    client_mint wire client (codes "clip.txt") inline (pos 60) ≡ of_reply (minted clip_reply)
client_mint-mint_request_example =
    client_mint-mint_request toy disk noon minter codec 2 wire client wire-Agrees (codes "clip.txt")
      inline (pos 60) (minted clip_reply) (refl, refl, omega arith) (omega arith) clip-minted
      (clip-fits, clip-IsSendable)

-- A server that answers every fetch with two bytes.
abbrev web : Fetcher
web = record {
  parse_url = λ u. some (record { scheme = codes "http"; host = codes "media"; rest = u });
  print_url = λ u. u.rest;
  builds = λ u. true;
  get = λ u. some (record { status = 200; body = 1 ∷ 2 ∷ []; reads = true });
}

abbrev options : MediaToolOptions
options = record { fetch_base_url = codes "http://localhost:8090"; inline_max_bytes = pos 100 }

abbrev picture : MintAnswer
picture = record {
  url = codes "http://media/media/x";
  expires_at = codes "2025-01-01T00:00:00Z";
  size_bytes = pos 2;
  mime_type = codes "image/png";
}

abbrev mint_picture : Bytes → ℤ → Result MintFailure MintAnswer
mint_picture path ttl_seconds = ok picture

abbrev args : MediaArgs
args = record { path = codes "x.png"; mode = []; ttl_seconds = pos 0 }

media_tool-IsHonest_example :
    IsHonest web options (media_tool web options mint_picture (codes "inline") args)
media_tool-IsHonest_example = media_tool-IsHonest web options mint_picture (codes "inline") args

picture-fetched : fetch_inline web options picture.url ≡ ok (1 ∷ 2 ∷ [])
unfolding fetch_inline swap_base is_empty swap_parsed with_base is_http text_eq read_fetched
    within_limit limit_reader wrap64 ◌+ℤ◌
picture-fetched = refl

fetch_inline-IsWhole_example : IsWhole web options picture.url (1 ∷ 2 ∷ [])
fetch_inline-IsWhole_example =
    fetch_inline-IsWhole web options 100 refl (omega arith) picture.url (1 ∷ 2 ∷ []) picture-fetched

abbrev upstream_result : Option MethodResult
upstream_result = some (
    of_tool (record {
      is_error = false;
      texts = codes "sent" ∷ [];
      structured = fields (("path", string (codes "x.png")) ∷ []);
    }))

abbrev no_json : Bytes → Option Fields
no_json b = none

abbrev mint_any : Bytes → Bytes → ℤ → Result MintFailure MintAnswer
mint_any path disposition ttl_seconds = ok picture

abbrev every_name : Option (String → Bool)
every_name = some (λ n. true)

middleware_cases_example :
    (middleware no_json mint_any every_name "tools/call" (some "send") upstream_result false
      ≡ upstream_result)
    ⊎ Enriches no_json mint_any every_name "tools/call"
        (some "send")
        upstream_result
        (middleware no_json mint_any every_name "tools/call" (some "send") upstream_result false)
middleware_cases_example =
    middleware_cases no_json mint_any every_name "tools/call" (some "send") upstream_result false
