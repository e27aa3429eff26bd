-- ===== src/Example.antt =====
-- cmd/example-mcp/main.go: the server with the one tool save_file.
use mcp_media.Prelude.{ℕ, Bool, false, Option, none, some, List, [], ◌∷◌, if◌then◌else◌, ◌++◌}
use mcp_media.Names.{String}
use mcp_media.Text.{Bytes, codes, is_empty}
use mcp_media.Proxy.Enrich.{ToolResult, fields, string}

-- `envOr`, with os.LookupEnv
unfoldable pub env_or : (String → Option Bytes) → String → Bytes → Bytes
env_or lookup key default = elim (lookup key) [
  | none ↦ default
  | some v ↦ if is_empty v then default else v
]

-- `helloFilePath`
unfoldable pub hello_file_path : (String → Option Bytes) → Bytes
unfolding env_or
hello_file_path lookup = env_or lookup "MEDIA_HELLO_PATH" (codes "/tmp/hello-world.txt")

abbrev pub hello_file_content : Bytes
hello_file_content = codes "Hello, World!" ++ 0x0a ∷ []

-- `downloadFile`: the path that is asked for is ignored.
unfoldable pub save_file : Bytes → Bytes → ToolResult
save_file hello path = record {
  is_error = false;
  texts = hello ∷ [];
  structured = fields (("file_path", string hello) ∷ []);
}

-- `newServer`: the tools by their names
unfoldable pub new_server : Bytes → List (String × (Bytes → ToolResult))
new_server hello = ("save_file", save_file hello) ∷ []

-- What the select gets: ListenAndServe returned, with an error other than ErrServerClosed or not, or
-- the end was requested, and the shutdown is graceful or not.
pub data ServeEnd : Type 0 where
  returned : Bool → ServeEnd
  requested : Bool → ServeEnd

unfoldable pub code_at_end : ServeEnd → ℕ
code_at_end (returned failed) = if failed then 1 else 0
code_at_end (requested graceful) = if graceful then 0 else 1

-- The code with which `main` ends, told whether the file can be written.
unfoldable pub example_main : (Bytes → Bytes → Bool) → Bytes → ServeEnd → ℕ
example_main write hello end_of_serving =
    if write hello hello_file_content then code_at_end end_of_serving else 1
