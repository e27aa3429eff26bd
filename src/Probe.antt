-- ===== src/Probe.antt =====
-- cmd/probe/main.go, over the MCP session and the HTTP client that it is given.
pub mod Found
pub mod Minted
pub mod Download
use mcp_media.Prelude.{
  ◌≡◌, ℕ, Bool, true, false, not, ◌||◌, ◌&&◌, Option, none, some, List, [], ◌∷◌, ◌++◌,
  if◌then◌else◌, ◌==◌, ltb,
}
use mcp_media.Prelude.Int.{ℤ, pos, negsuc}
use mcp_media.Names.{String}
use mcp_media.Text.{Bytes, codes, is_empty}

-- A byte that [^\s"'<>] does not match.
unfoldable pub is_stop : ℕ → Bool
is_stop c =
    c == 0x09
    || c == 0x0a
    || c == 0x0c
    || c == 0x0d
    || c == 0x20
    || c == 0x22
    || c == 0x27
    || c == 0x3c
    || c == 0x3e

-- The longest match of [^\s"'<>]* at the start.
unfoldable pub url_run : Bytes → Bytes
url_run [] = []
url_run (c ∷ s) = let rest = url_run s in if is_stop c then [] else c ∷ rest

unfoldable pub strip : Bytes → Bytes → Option Bytes
strip [] s = some s
strip (a ∷ p) [] = none
strip (a ∷ p) (b ∷ s) = let rest = strip p s in if a == b then rest else none

unfoldable pub behind : Bytes → Bytes → Option Bytes
behind scheme run = if is_empty run then none else some (scheme ++ run)

-- `urlRE` at the start of a text.
unfoldable pub match_here : Bytes → Option Bytes
match_here s = elim (strip (codes "https://") s) [
  | some rest ↦ behind (codes "https://") (url_run rest)
  | none ↦ elim (strip (codes "http://") s) [
    | some rest ↦ behind (codes "http://") (url_run rest)
    | none ↦ none
  ]
]

-- FindString: the first match from the left
unfoldable pub find_string : Bytes → Option Bytes
find_string [] = none
find_string (c ∷ s) =
    let later = find_string s in elim (match_here (c ∷ s)) [ some u ↦ some u | none ↦ later ]

-- The URL of the first text that has one.
unfoldable pub first_url : List Bytes → Option Bytes
first_url [] = none
first_url (t ∷ texts) =
    let later = first_url texts in elim (find_string t) [ some u ↦ some u | none ↦ later ]

pub record Options : Type 0 where
  pub url : Bytes
  pub tool : String
  pub path : Bytes
  pub expect_bytes : ℤ

pub data Content : Type 0 where
  text : Bytes → Content
  non_text : Content

pub record CallResult : Type 0 where
  pub is_error : Bool
  pub content : List Content

-- The response to a GET request: its status, and the length of its body if that is read.
pub data Fetch : Type 0 where
  unbuilt unsent : Fetch
  response : ℕ → Option ℕ → Fetch

-- What is reached; `none` is an error.
pub record World : Type 0 where
  pub connects : Bytes → Bool
  pub list_tools : Option (List String)
  pub call_tool : String → Bytes → Option CallResult
  pub fetch : Bytes → Fetch

pub data Line : Type 0 where
  tool_line : String → Line
  text_line url_line : Bytes → Line
  skipped_line : Line
  status_line bytes_line : ℕ → Line
  expect_line : ℤ → Line

pub data ProbeError : Type 0 where
  connect_failed list_failed call_failed error_result fetch_unbuilt fetch_failed body_unread :
      ProbeError
  unexpected_status : ℕ → ProbeError
  unexpected_length : ℤ → ℕ → ProbeError

-- What `run` prints, and its error if there is one.
abbrev pub Outcome : Type 0
Outcome = List Line × Option ProbeError

abbrev pub printing : List Line → Outcome → Outcome
printing lines (later, e) = (lines ++ later, e)

abbrev pub texts_of : List Content → List Bytes
texts_of [] = []
texts_of (text t ∷ more) = t ∷ texts_of more
texts_of (non_text ∷ more) = texts_of more

abbrev pub text_lines : List Bytes → List Line
text_lines [] = []
text_lines (t ∷ texts) = text_line t ∷ text_lines texts

abbrev pub tool_lines : List String → List Line
tool_lines [] = []
tool_lines (name ∷ names) = tool_line name ∷ tool_lines names

-- The check of the length.
unfoldable pub check_length : ℤ → ℕ → Outcome
check_length (negsuc e) n = ([], none)
check_length (pos e) n =
    (expect_line (pos e) ∷ [], if n == e then none else some (unexpected_length (pos e) n))

unfoldable pub check_status : ℤ → ℕ → ℕ → Outcome
check_status expect status n =
    if ltb status 200 || ltb 299 status
    then ([], some (unexpected_status status))
    else check_length expect n

unfoldable pub fetched : ℤ → Bytes → Fetch → Outcome
fetched expect url unbuilt = ([], some fetch_unbuilt)
fetched expect url unsent = ([], some fetch_failed)
fetched expect url (response status none) = ([], some body_unread)
fetched expect url (response status (some n)) =
    printing (url_line url ∷ status_line status ∷ bytes_line n ∷ []) (check_status expect status n)

module _ (w : World) (opts : Options) where
  unfoldable pub fetch_first : Option Bytes → Outcome
  fetch_first none = (skipped_line ∷ [], none)
  fetch_first (some url) = fetched opts.expect_bytes url (w.fetch url)

  unfoldable pub after_call : Option CallResult → Outcome
  after_call none = ([], some call_failed)
  after_call (some res) =
      if res.is_error
      then ([], some error_result)
      else printing (text_lines (texts_of res.content))
          (fetch_first (first_url (texts_of res.content)))

  unfoldable pub after_list : Option (List String) → Outcome
  after_list none = ([], some list_failed)
  after_list (some names) =
      printing (tool_lines names) (after_call (w.call_tool opts.tool opts.path))

  -- `run`
  unfoldable pub run : Outcome
  run = if w.connects opts.url then after_list w.list_tools else ([], some connect_failed)

-- The code with which `main` ends, told whether the usage is asked for.
unfoldable pub probe_main : Bool → World → Options → ℕ
probe_main show_usage w opts =
    if show_usage || is_empty opts.url
    then if show_usage then 0 else 2
    else elim ((run w opts).1) [ none ↦ 0 | some e ↦ 1 ]
