-- ===== src/Tests/Serving.antt =====
-- The theorems on signatures, the fence and the file server, at concrete inputs.
use mcp_media.Prelude.{◌≡◌, ◌≢◌, ◌↔◌, refl, some, none, [], ◌∷◌, All, arith, true, false}
use mcp_media.Prelude.Int.{ℤ, pos}
use mcp_media.Text.{codes, has_prefix, split, is_empty, text_eq}
use mcp_media.Base64.{encode, decode}
use mcp_media.FilePath.{is_abs, clean, clean_elements, clean_step, join_elements, join}
use mcp_media.Sign.{sign, verify, canonical}
use mcp_media.Sign.Clock.{after, unix}
use mcp_media.Sign.Laws.{verify_accepts_iff, canonical_injective}
use mcp_media.Serve.Resolve.{
  resolve, resolved, out_of_fuel, resolve_absolute, check_candidate, check_roots, in_some_root,
  under_root,
}
use mcp_media.Serve.Resolve.Laws.{IsFenced, fences, candidate, resolve_sound, resolve_returns}
use mcp_media.Serve.Filename.{sanitize_filename, sanitize_filename-IsQuotable, IsQuotable}
use mcp_media.Serve.Handler.{
  Request, MediaHandler, headers, serve_http, content, or_attachment, inline, Headers, serve_exp,
  serve_path, serve_resolved, serve_open, serve_stat, is_disposition,
}
use mcp_media.Serve.Handler.Laws.{IsServed, serve_http_sound}
use mcp_media.Serve.Handler.Refused.{refusal, serve_http-refusal}
use mcp_media.Platform.{ok}
use mcp_media.Base64.{sextets, sextet_char, sextet_value, quantums}
use mcp_media.Sign.Hex.{hex_value, hex_digit}
use mcp_media.Sign.Decimal.{digits}
use mcp_media.Prelude.Int.{wrap64, ◌+ℤ◌}
use mcp_media.Tests.World.{toy_mac, toy_mac-IsBytes, toy, disk, noon, secret, root, clip}
use mcp_media.Sign.Decimal.{parse_int, format_int}
use mcp_media.Sign.Hex.{encode_hex, decode_hex}

abbrev later : ℤ
later = pos 1900000000

verify_accepts_iff_example :
    (verify toy_mac secret
        (encode clip)
        later
        inline
        (sign toy_mac secret (encode clip) later inline)
        noon
      ≡ none)
    ↔ ((sign toy_mac secret (encode clip) later inline
          ≡ sign toy_mac secret (encode clip) later inline)
        × (after noon (unix later) ≡ false))
verify_accepts_iff_example =
    verify_accepts_iff toy_mac toy_mac-IsBytes secret (encode clip) later inline
      (sign toy_mac secret (encode clip) later inline) noon

canonical_injective_example : (clip ≡ clip) × (later ≡ later) × (inline ≡ inline)
canonical_injective_example =
    canonical_injective clip clip later later inline inline (omega arith) (omega arith)
      (omega arith) (omega arith) refl

pub resolve-clip : resolve disk 2 (root ∷ []) (codes "clip.txt") ≡ resolved clip
unfolding resolve resolve_absolute check_candidate check_roots in_some_root under_root join is_abs
    clean has_prefix split clean_elements clean_step is_empty join_elements text_eq
resolve-clip = refl

resolve_sound_example :
    (disk.eval_symlinks (candidate (root ∷ []) (codes "clip.txt")) ≡ ok clip)
    × IsFenced disk clip (fences (root ∷ []) (codes "clip.txt"))
resolve_sound_example = resolve_sound disk 2 (root ∷ []) (codes "clip.txt") clip resolve-clip

pub root-is_abs : All (λ r. is_abs r ≡ true) (root ∷ [])
unfolding is_abs has_prefix
root-is_abs = (refl, tt)

resolve_returns_example : resolve disk 2 (root ∷ []) (codes "clip.txt") ≢ out_of_fuel
resolve_returns_example = resolve_returns disk 0 (root ∷ []) (codes "clip.txt") root-is_abs

is_abs-clip : is_abs clip ≡ true
unfolding is_abs has_prefix
is_abs-clip = refl

sanitize_filename-IsQuotable_example :
    (sanitize_filename (λ s. s) (codes "a\"b") ≢ [])
    × All IsQuotable (sanitize_filename (λ s. s) (codes "a\"b"))
sanitize_filename-IsQuotable_example = sanitize_filename-IsQuotable (λ s. s) (codes "a\"b")

abbrev server : MediaHandler
server = record { secret = secret; roots = root ∷ [] }

-- A request for the clip with its signature.
abbrev signed_request : Request
signed_request = record {
  path_b64 = encode clip;
  filename = codes "clip.txt";
  exp = codes "1900000000";
  sig = sign toy_mac secret (encode clip) later inline;
  d = inline;
}

abbrev clip_headers : Headers
clip_headers = headers toy disk noon server clip (codes "clip.txt") (or_attachment inline)

serve-clip : serve_http toy disk noon server 1 signed_request ≡ some (content clip_headers clip)
unfolding serve_http serve_exp serve_path serve_resolved serve_open serve_stat or_attachment
    is_disposition verify sign canonical encode_hex decode_hex encode decode format_int parse_int
    resolve resolve_absolute check_candidate check_roots in_some_root under_root join is_abs clean
    has_prefix split clean_elements clean_step is_empty join_elements text_eq sextets sextet_char
    sextet_value quantums hex_value hex_digit digits after unix wrap64 ◌+ℤ◌
serve-clip = refl

serve_http_sound_example : IsServed toy disk noon server 1 signed_request clip_headers clip
serve_http_sound_example =
    serve_http_sound toy disk noon server 1 signed_request clip_headers clip serve-clip

abbrev forged_request : Request
forged_request = record signed_request { sig = codes "zzz" }

parse-later : parse_int forged_request.exp ≡ some later
unfolding parse_int
parse-later = refl

forged : forged_request.sig ≢ sign toy_mac secret (encode clip) later (or_attachment inline)
unfolding sign encode_hex
forged same = ground arith

serve_http-refusal_example :
    serve_http toy disk noon server 1 forged_request ≡ some (refusal forged_request)
serve_http-refusal_example =
    serve_http-refusal toy toy_mac-IsBytes disk noon server 1 forged_request later parse-later
      forged
