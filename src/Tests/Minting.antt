-- ===== src/Tests/Minting.antt =====
-- The theorems on the mint API, at concrete inputs.
use mcp_media.Prelude.{
  ◌≡◌, refl, some, ◌∷◌, arith, true, false, Bool, Option, if◌then◌else◌, ◌-◌, ◌≤◌, [], ◌+◌,
}
use mcp_media.Prelude.Int.{pos, wrap64, ◌+ℤ◌}
use mcp_media.Text.{
  Bytes, codes, to_lower, text_eq, is_empty, trim_right, cut, equal_fold, has_prefix, split,
}
use mcp_media.Sign.Clock.{after, unix, unix_to_internal, to_unix, add, add_nanos}
use mcp_media.Sign.Clock.Laws.{IsCurrent}
use mcp_media.Serve.Resolve.{
  in_some_root, resolve, resolve_absolute, check_candidate, check_roots, under_root,
}
use mcp_media.Serve.Handler.{
  Request, serve_http, http_error, content, headers, or_attachment, inline, is_disposition,
}
use mcp_media.Mint.Config.{
  Config, IsValid, new_handler, built, new_handler-IsValid, of_config, check_url, check_ttls,
  is_http,
}
use mcp_media.Mint.Ttl.{clamp_ttl, seconds_of}
use mcp_media.Mint.Lifetime.{instant, expiry_bounded, expiry_lasts}
use mcp_media.Mint.Handler.{
  MintRequest, HttpRequest, MintResponse, answer, expiry, authorized, mint_http, minted, mint,
  mint_decoded, mint_request, mint_path, mint_resolved, mint_stat, authorized_parts,
}
use mcp_media.Mint.Handler.Laws.{IsMinted, mint_http_sound}
use mcp_media.Mint.Signed.{server_of}
use mcp_media.Mint.RoundTrip.{serve-mint}
use mcp_media.Tests.Links.{read_link, read_link-ReadsUrl}
use mcp_media.Mint.Link.{IsFileName}
use mcp_media.FilePath.{base}
use mcp_media.Tests.World.{
  toy, toy-IsMac, disk, disk-IsPosix, noon, minter, clip, clip_info, clip_file, root, secret,
}
use mcp_media.Tests.Serving.{resolve-clip, root-is_abs}
use mcp_media.Platform.{ok}
use mcp_media.FilePath.{join, is_abs, clean, clean_elements, clean_step, join_elements}

abbrev pub clip_request : MintRequest
clip_request = record { path = codes "clip.txt"; disposition = inline; ttl_seconds = pos 60 }

abbrev pub clip_reply : MintResponse
clip_reply = answer toy disk noon minter clip (or_attachment inline) 60 clip_info

inline-is_disposition : is_disposition (or_attachment inline) ≡ true
unfolding is_disposition or_attachment is_empty text_eq
inline-is_disposition = refl

clip-found : disk.stat clip ≡ ok clip_info
unfolding text_eq
clip-found = refl

pub clip-IsFileName : IsFileName (base clip)
unfolding base is_empty trim_right split
clip-IsFileName = record {
  bytes = omega arith;
  given = λ e. ground arith;
  not_dot = λ e. ground arith;
  not_dot_dot = λ e. ground arith;
}

clip_request-minted : mint_request toy disk noon minter 2 clip_request ≡ some (minted clip_reply)
unfolding mint_request mint_path mint_resolved mint_stat is_disposition or_attachment is_empty
    text_eq resolve resolve_absolute check_candidate check_roots in_some_root under_root join is_abs
    clean has_prefix split clean_elements clean_step join_elements
clip_request-minted = refl

pub clip-opened : disk.open_file clip ≡ ok clip_file
unfolding text_eq
clip-opened = refl

serve-mint_example :
    let d = or_attachment inline in
    let exp = expiry toy disk noon minter 60 in
    (r : Request) × (read_link clip_reply.url ≡ some r)
    × (serve_http toy disk noon (server_of minter) 1 r ≡ (
        if after noon (unix exp)
        then some (http_error 403 "forbidden")
        else if in_some_root minter.roots clip
        then some (content (headers toy disk noon (server_of minter) clip (base clip) d) clip)
        else some (http_error 403 "forbidden")))
serve-mint_example =
    serve-mint toy toy-IsMac disk disk-IsPosix read_link noon noon minter 2 0 clip_request
      clip_reply read_link-ReadsUrl root-is_abs clip_request-minted 60 clip clip_file clip_info refl
      resolve-clip clip-IsFileName clip-opened refl refl

-- The decoder that knows one body.
abbrev decode_clip : Bytes → Option (MintRequest × Bool)
decode_clip body = some (clip_request, true)

abbrev post : HttpRequest
post = record {
  url_path = codes "/mint";
  method = codes "POST";
  authorization = codes "bearer token";
  content_type = codes "application/json";
  body = codes "{}";
}

mint-post : mint_http toy disk noon minter decode_clip 2 post ≡ some (minted clip_reply)
unfolding mint_http mint mint_decoded mint_request mint_path mint_resolved mint_stat authorized
    authorized_parts cut equal_fold to_lower is_disposition or_attachment is_empty text_eq resolve
    resolve_absolute check_candidate check_roots in_some_root under_root join is_abs clean
    has_prefix split clean_elements clean_step join_elements
mint-post = refl

mint_http_sound_example :
    (post.url_path ≡ codes "/mint")
    × (post.method ≡ codes "POST")
    × (authorized minter post.authorization ≡ true)
    × ((req : MintRequest) × (decode_clip post.body ≡ some (req, true))
        × IsMinted toy disk noon minter 2 req clip_reply)
mint_http_sound_example =
    mint_http_sound toy disk noon minter decode_clip 2 post clip_reply mint-post

minter-IsValid : IsValid minter
minter-IsValid = record {
  strong_secret = omega arith;
  has_token = λ e. ground arith;
  positive = omega arith;
  ordered = omega arith;
  has_root = λ e. ground arith;
}

abbrev noon_reading : IsCurrent noon
noon_reading = record {
  seconds = 63900000000 - unix_to_internal;
  since_epoch = refl;
  bounded = omega arith;
  below_second = omega arith;
}

noon_fresh : after noon (unix (expiry toy disk noon minter 60)) ≡ false
unfolding after unix clamp_ttl seconds_of wrap64 ◌+ℤ◌ to_unix add add_nanos
noon_fresh = refl

expiry_bounded_example : instant noon noon_reading ≤ instant noon noon_reading + 900000000000
expiry_bounded_example =
    expiry_bounded toy disk minter (omega arith) noon noon noon_reading noon_reading 60
      minter-IsValid noon_fresh

expiry_lasts_example : after noon (unix (expiry toy disk noon minter 60)) ≡ false
expiry_lasts_example =
    expiry_lasts toy disk minter (omega arith) noon noon noon_reading noon_reading 60 (omega arith)
      (omega arith) (omega arith)

abbrev config : Config
config = record {
  secret = secret;
  token = codes "token";
  public_base_url = codes "http://media/";
  roots = root ∷ [];
  default_ttl = pos 300000000000;
  max_ttl = pos 900000000000;
}

new_handler-config : new_handler toy config ≡ built minter
unfolding new_handler check_url check_ttls is_http is_empty text_eq trim_right
new_handler-config = refl

new_handler-IsValid_example : IsValid minter × (minter ≡ of_config config)
new_handler-IsValid_example = new_handler-IsValid toy config minter new_handler-config
