-- ===== src/Tests/World.antt =====
-- One media directory with one file in it, and stand-ins for the functions of the standard library.
use mcp_media.Prelude.{
  some, [], ◌∷◌, ◌%◌, if◌then◌else◌, ◌≡◌, refl, true, false, Bool-cases, inl, inr, arith, length,
  ◌+◌,
}
use mcp_media.Prelude.Int.{pos}
use mcp_media.Text.{Bytes, codes, text_eq, IsBytes, has_prefix, split, is_empty}
use mcp_media.Platform.{Library, FileSystem, FileInfo, File, ok, failed, not_exist}
use mcp_media.Sign.Clock.{Time}
use mcp_media.Mint.Config.{MintHandler}
use mcp_media.Mint.Signed.{IsMac, IsPosix}
use mcp_media.FilePath.{is_abs, clean, clean_elements, clean_step, join_elements}
use mcp_media.Sign.Hex.{encode_hex}

-- A byte made of the lengths of the key and the message.
abbrev pub toy_mac : Bytes → Bytes → Bytes
toy_mac k m = ((length k + length m) % 256) ∷ []

pub toy_mac-IsBytes : (k m : Bytes) → IsBytes (toy_mac k m)
toy_mac-IsBytes k m = (omega arith, tt)

abbrev pub toy : Library
toy = record {
  mac = toy_mac;
  type_by_extension = λ e. [];
  detect_content_type = λ b. codes "application/octet-stream";
  valid_utf8 = λ s. s;
  parse_url = λ s. some (record { scheme = codes "http"; host = s; has_user = false });
  parse_media_type = λ s. some s;
  path_escape = encode_hex;
  rfc3339 = λ z. [];
}

pub toy-IsMac : IsMac toy.mac
toy-IsMac = record { gives_bytes = toy_mac-IsBytes; not_empty = λ k m e. ground arith }

abbrev pub root : Bytes
root = codes "/data"

abbrev pub clip : Bytes
clip = codes "/data/clip.txt"

abbrev pub clip_info : FileInfo
clip_info = record { is_dir = false; size = 5 }

abbrev pub clip_file : File
clip_file = record { info = ok clip_info; leading_bytes = ok (codes "hello") }

abbrev pub disk : FileSystem
disk = record {
  eval_symlinks =
      λ p. if text_eq p root then ok root else if text_eq p clip then ok clip else failed not_exist;
  open_file = λ p. if text_eq p clip then ok clip_file else failed not_exist;
  stat = λ p. if text_eq p clip then ok clip_info else failed not_exist;
}

abbrev pub noon : Time
noon = record { sec = pos 63900000000; nsec = 5 }

abbrev pub secret : Bytes
secret = codes "0123456789abcdef0123456789abcdef"

abbrev pub minter : MintHandler
minter = record {
  secret = secret;
  token = codes "token";
  base_url = codes "http://media";
  roots = root ∷ [];
  def_ttl = pos 300000000000;
  max_ttl = pos 900000000000;
}

-- A path of the disk with its links resolved.
abbrev IsStable : Bytes → Type 0
IsStable r = (is_abs r ≡ true) × (clean r ≡ r) × (disk.eval_symlinks r ≡ ok r) × IsBytes r

root-IsStable : IsStable root
unfolding is_abs clean has_prefix split clean_elements clean_step is_empty join_elements text_eq
root-IsStable = (refl, refl, refl, omega arith)

clip-IsStable : IsStable clip
unfolding is_abs clean has_prefix split clean_elements clean_step is_empty join_elements text_eq
clip-IsStable = (refl, refl, refl, omega arith)

eval_symlinks-IsStable : (p r : Bytes) → disk.eval_symlinks p ≡ ok r → IsStable r
eval_symlinks-IsStable p r found = elim (Bool-cases (text_eq p root)) [
  | inl at_root ↦ let same : root ≡ r = ground arith in rw (← same) root-IsStable
  | inr other ↦ elim (Bool-cases (text_eq p clip)) [
    | inl at_clip ↦ let same : clip ≡ r = ground arith in rw (← same) clip-IsStable
    | inr unknown ↦ absurd (ground arith)
  ]
]

pub disk-IsPosix : IsPosix disk
disk-IsPosix = record { canonical = λ p r rooted found. eval_symlinks-IsStable p r found }
