-- ===== src/Proxy/Enrich.antt =====
-- internal/proxy/enrich.go.
pub mod Laws
use mcp_media.Prelude.{
  Bool, true, false, not, ◌&&◌, ◌||◌, Option, none, some, List, [], ◌∷◌, ◌++◌, if◌then◌else◌,
}
use mcp_media.Prelude.Int.{ℤ, pos}
use mcp_media.Names.{String, ◌==◌}
use mcp_media.Text.{Bytes, codes, is_empty}
use mcp_media.Checked.{Result, ok, err}
use mcp_media.Store.{find, store}
use mcp_media.Proxy.MintClient.{MintAnswer, MintFailure}

-- A JSON value, as far as it is told apart here.
pub data Json : Type 0 where
  string : Bytes → Json
  number : ℤ → Json
  -- of some other kind, by its text
  other : Bytes → Json

abbrev pub Fields : Type 0
Fields = List (String × Json)

-- The structured content of a result: nothing, a map, JSON that was not decoded, or something else.
-- A nil map is an empty one.
pub data Structured : Type 0 where
  absent something_else : Structured
  fields : Fields → Structured
  raw : Bytes → Structured

-- mcp.CallToolResult, with its text contents by their text
pub record ToolResult : Type 0 where
  pub is_error : Bool
  pub texts : List Bytes
  pub structured : Structured

-- The result of a method: that of a tool call, or another one.
pub data MethodResult : Type 0 where
  of_tool : ToolResult → MethodResult
  of_other : MethodResult

pub data EnricherError : Type 0 where
  without_client invalid_match : EnricherError

-- `NewEnricher`: with regexp.Compile, whether there is a client, and the text of the expression
unfoldable pub new_enricher :
    (String → Option (String → Bool))
    → Bool
    → String
    → Result EnricherError (Option (String → Bool))
new_enricher compile false match_text = err without_client
new_enricher compile true match_text =
    if match_text == ""
    then ok none
    else elim (compile match_text) [ none ↦ err invalid_match | some matches ↦ ok (some matches) ]

module _ (unmarshal : Bytes → Option Fields) where
  -- `ensureMap`
  unfoldable pub ensure_map : Structured → Fields
  ensure_map absent = []
  ensure_map something_else = []
  ensure_map (fields m) = m
  ensure_map (raw b) = elim (unmarshal b) [ none ↦ [] | some m ↦ m ]

  abbrev pub path_keys : List String
  path_keys = "file_path" ∷ "path" ∷ "filename" ∷ []

  unfoldable pub path_in : Option Json → Option Bytes
  path_in (some (string v)) = if is_empty v then none else some v
  path_in (some (number _)) = none
  path_in (some (other _)) = none
  path_in none = none

  unfoldable pub first_path : Fields → List String → Option Bytes
  first_path m [] = none
  first_path m (key ∷ keys) =
      let later = first_path m keys in
      elim (path_in (find key m)) [ none ↦ later | some v ↦ some v ]

  -- `extractPathField`
  unfoldable pub extract_path_field : Structured → Option Bytes
  extract_path_field sc = first_path (ensure_map sc) path_keys

  unfoldable pub with_answer : MintAnswer → ToolResult → ToolResult
  with_answer mr result = record result {
    structured = fields (
        store "size_bytes" (number mr.size_bytes) (
          store "mime_type" (string mr.mime_type)
            (store "url" (string mr.url) (ensure_map result.structured))));
    texts = result.texts ++ mr.url ∷ [];
  }

  module _ (mint : Bytes → Bytes → ℤ → Result MintFailure MintAnswer) where
    unfoldable pub add_answer : Result MintFailure MintAnswer → ToolResult → ToolResult
    add_answer (err e) result = result
    add_answer (ok mr) result = with_answer mr result

    unfoldable pub add_link : Option Bytes → ToolResult → ToolResult
    add_link none result = result
    add_link (some path) result = add_answer (mint path (codes "attachment") (pos 0)) result

    -- `enrich`, with the regular expression as a test of names
    unfoldable pub enrich : (String → Bool) → String → ToolResult → ToolResult
    enrich matches tool_name result =
        if result.is_error || not (matches tool_name)
        then result
        else add_link (extract_path_field result.structured) result

    -- `Middleware`: the expression if there is one, the tool that is called if the request is a call of
    -- one, and what the next handler returned.
    unfoldable pub middleware :
        Option (String → Bool)
        → String
        → Option String
        → Option MethodResult
        → Bool
        → Option MethodResult
    middleware (some matches) method (some tool_name) (some (of_tool result)) false =
        if method == "tools/call"
        then some (of_tool (enrich matches tool_name result))
        else some (of_tool result)
    middleware _ method _ res _ = res
