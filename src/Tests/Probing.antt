-- ===== src/Tests/Probing.antt =====
-- The probe at an example server whose file is the clip of the toy disk.
use mcp_media.Prelude.{
  ◌≡◌, refl, ◌≤◌, Bool, true, false, Option, none, some, [], ◌∷◌, ◌++◌, arith, length, All,
}
use mcp_media.Prelude.Int.{pos, wrap64, ◌+ℤ◌}
use mcp_media.Names.{String}
use mcp_media.Text.{Bytes, codes, is_empty, has_prefix, split, text_eq, trim_right, to_lower}
use mcp_media.FilePath.{join, is_abs, clean, clean_elements, clean_step, join_elements, base}
use mcp_media.Sign.{sign, canonical}
use mcp_media.Sign.Clock.{after, unix, to_unix, add, add_nanos}
use mcp_media.Mint.Ttl.{clamp_ttl, seconds_of}
use mcp_media.Mint.Signed.{server_of}
use mcp_media.Proxy.MintClient.Sidecar.{IsSendable}
use mcp_media.Tests.Links.{read_link, read_link-ReadsUrl}
use mcp_media.Tests.Minting.{clip-IsFileName, clip-opened}
use mcp_media.Probe.{
  World, Options, run, find_string, is_stop, tool_lines, match_here, text_line, strip, url_line,
  status_line, bytes_line, expect_line,
}
use mcp_media.Tests.World.{
  toy, toy-IsMac, disk, disk-IsPosix, noon, minter, clip, clip_info, clip_file, root,
}
use mcp_media.Tests.Serving.{root-is_abs}
use mcp_media.Tests.Tools.{codec, client, wire, wire-Agrees}
use mcp_media.Mint.Handler.{
  MintResponse, mint_request, minted_url, expiry, answer, mint_path, mint_resolved, mint_stat,
  minted,
}
use mcp_media.Serve.Resolve.{
  resolve, in_some_root, resolve_absolute, under_root, check_candidate, check_roots, resolved,
}
use mcp_media.Serve.Handler.{is_disposition, or_attachment, serve_http, Request}
use mcp_media.Proxy.Enrich.{Fields}
use mcp_media.Probe.Download.{call_result, proxied, received, IsDownload, run-download}
use mcp_media.Base64.{encode, sextet_char}
use mcp_media.Probe.Found.{IsUrlChar}
use mcp_media.Sign.Decimal.{format_int, digits}
use mcp_media.Sign.Hex.{encode_hex, hex_digit}
use mcp_media.Mime.{mime_for, type_for, ext_from, lookup_ext, ext_types}
use mcp_media.Tests.Codec.{encode_answer}
use mcp_media.Probe.Minted.{IsWebBase}

abbrev disposition : Bytes
disposition = codes "attachment"

abbrev hello_reply : MintResponse
hello_reply = answer toy disk noon minter clip disposition 0 clip_info

-- The request is for an absolute path.
resolve-hello : resolve disk 2 (root ∷ []) clip ≡ resolved clip
unfolding resolve resolve_absolute check_candidate check_roots in_some_root under_root join is_abs
    clean has_prefix split clean_elements clean_step join_elements is_empty text_eq
resolve-hello = refl

hello-inside : in_some_root (root ∷ []) clip ≡ true
unfolding in_some_root under_root is_abs clean has_prefix split clean_elements clean_step
    join_elements is_empty text_eq
hello-inside = refl

hello-IsDownload : IsDownload disk minter 2 clip clip
hello-IsDownload = record {
  fenced = resolve-hello;
  named = clip-IsFileName;
  file = clip_file;
  info = clip_info;
  opened = clip-opened;
  read = refl;
  is_file = refl;
  inside = hello-inside;
}

hello-minted :
    mint_request toy disk noon minter 2
      (record { path = clip; disposition = disposition; ttl_seconds = pos 0 })
    ≡ some (minted hello_reply)
unfolding mint_request mint_path mint_resolved mint_stat is_disposition or_attachment is_empty
    text_eq resolve resolve_absolute check_candidate check_roots in_some_root under_root join is_abs
    clean has_prefix split clean_elements clean_step join_elements
hello-minted = refl

hello-fits : length (encode_answer hello_reply) ≤ 8192
unfolding minted_url encode base is_empty trim_right split format_int to_unix wrap64 ◌+ℤ◌ add
    clamp_ttl seconds_of add_nanos digits or_attachment sign encode_hex sextet_char hex_digit
    canonical mime_for type_for to_lower ext_from lookup_ext ext_types text_eq
hello-fits = omega arith

hello-IsSendable : IsSendable toy hello_reply
hello-IsSendable = (refl, refl, omega arith, (0, omega arith, refl))

hello-fresh : after noon (unix (expiry toy disk noon minter 0)) ≡ false
unfolding after unix clamp_ttl seconds_of wrap64 ◌+ℤ◌ to_unix add add_nanos
hello-fresh = refl

hello-plain : find_string clip ≡ none
unfolding find_string match_here strip
hello-plain = refl

media-IsWebBase : IsWebBase (codes "http://media")
unfolding is_stop
media-IsWebBase = record {
  secure = false;
  first = b'm';
  rest = codes "edia";
  same = refl;
  readable = (refl, (refl, (refl, (refl, (refl, tt)))));
}

name-readable : All IsUrlChar (encode_hex (base clip))
unfolding encode_hex hex_digit is_stop base is_empty trim_right split
name-readable = (
  refl,
  (
    refl,
    (
      refl,
      (
        refl,
        (
          refl,
          (
            refl,
            (refl, (refl, (refl, (refl, (refl, (refl, (refl, (refl, (refl, (refl, tt)))))))))),
          ),
        ),
      ),
    ),
  ),
)

abbrev any_tool : String → Bool
any_tool name = true

abbrev no_json : Bytes → Option Fields
no_json b = none

abbrev options : Options
options = record { url = codes "http://proxy"; tool = "save_file"; path = []; expect_bytes = pos 5 }

abbrev deployment : World
deployment = record {
  connects = λ url. true;
  list_tools = some ("save_file" ∷ []);
  call_tool = λ name path. call_result (proxied no_json wire client any_tool clip path);
  fetch = λ url.
      received (λ path. 5) (λ message. 10)
        (elim (read_link url) [
          | none ↦ none
          | some r ↦ serve_http toy disk noon (server_of minter) 1 r
        ]);
}

deployment-IsDeployed :
    (url : Bytes) (r : Request)
    → read_link url ≡ some r
    → deployment.fetch url
      ≡ received (λ path. 5) (λ message. 10) (serve_http toy disk noon (server_of minter) 1 r)
deployment-IsDeployed url r found = rw found refl

run-download_example : run deployment options ≡ (
  tool_lines ("save_file" ∷ [])
      ++ (text_line clip
          ∷ text_line hello_reply.url
          ∷ url_line hello_reply.url
          ∷ status_line 200
          ∷ bytes_line 5
          ∷ expect_line (pos 5)
          ∷ []),
  none,
)
run-download_example =
    run-download toy toy-IsMac disk disk-IsPosix noon noon minter codec 2 0 wire client wire-Agrees
      no_json any_tool (λ path. 5) (λ message. 10) read_link read_link-ReadsUrl deployment options
      clip ("save_file" ∷ []) hello_reply clip 5 refl (unfold is_empty in refl) hello-plain
      (refl, refl, omega arith) (omega arith) hello-minted (hello-fits, hello-IsSendable)
      root-is_abs hello-IsDownload media-IsWebBase name-readable hello-fresh
      (record { reached = refl; listed = refl; called = refl; served = deployment-IsDeployed }) refl
      refl
