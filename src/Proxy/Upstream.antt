-- ===== src/Proxy/Upstream.antt =====
-- `SyncTools`, `downstreamTool` and `normalizeObjectSchema` of internal/proxy/upstream.go. The tools of
-- the downstream server and the sets of names are functions of the name.
pub mod Laws
pub mod Reference
use mcp_media.Prelude.{
  Bool, true, false, not, ◌&&◌, Option, none, some, List, [], ◌∷◌, if◌then◌else◌, any,
}
use mcp_media.Names.{String, ◌==◌}

-- The value of a field of a schema: a text, or something else.
pub data FieldValue : Type 0 where
  text : String → FieldValue
  other_value : FieldValue

abbrev pub Fields : Type 0
Fields = List (String × FieldValue)

unfoldable pub field : String → Fields → Option FieldValue
field key [] = none
field key ((name, v) ∷ fields) = if name == key then some v else field key fields

-- What json.Marshal and json.Unmarshal into a map make of a schema.
pub data Decoded : Type 0 where
  undecodable json_null : Decoded
  object : Fields → Decoded

abbrev pub empty_object : Fields
empty_object = ("type", text "object") ∷ []

unfoldable pub with_type : Fields → Option FieldValue → Option Fields
with_type fields none = some (("type", text "object") ∷ fields)
with_type fields (some (text t)) = if t == "object" then some fields else none
with_type fields (some other_value) = none

unfoldable pub normalize_decoded : Decoded → Option Fields
normalize_decoded undecodable = none
normalize_decoded json_null = some empty_object
normalize_decoded (object fields) = with_type fields (field "type" fields)

-- A tool as the upstream server lists it; the metadata are copied as they are.
pub record ListedTool (Schema Metadata : Type 0) : Type 0 where
  pub name : String
  pub metadata : Metadata
  pub input_schema : Option Schema
  pub output_schema : Option Schema

-- A tool of the downstream server.
pub record DownstreamTool (Metadata : Type 0) : Type 0 where
  pub name : String
  pub metadata : Metadata
  pub input_schema : Fields
  pub output_schema : Option Fields

-- What one run of `SyncTools` works on.
pub record Sweep (Metadata : Type 0) : Type 0 where
  pub seen : String → Bool
  pub mirrored : String → Bool
  pub server : String → Option (DownstreamTool Metadata)

-- The names in `ReservedTools`, as `NewUpstream` keeps them.
unfoldable pub reserved_names : List String → String → Bool
reserved_names names n = any (λ r. r == n) names

abbrev pub with_name : String → (String → Bool) → String → Bool
with_name name names n = if n == name then true else names n

-- server.AddTool, and the name among the mirrored ones; without a tool the listed one is skipped.
unfoldable pub register :
    {Metadata : Type 0}
    → String
    → Option (DownstreamTool Metadata)
    → Sweep Metadata
    → Sweep Metadata
register name none s = s
register name (some tool) s = record s {
  mirrored = with_name name s.mirrored;
  server = λ n. if n == name then some tool else s.server n;
}

-- The loop over the mirrored names: what was not seen is removed.
unfoldable pub remove_unseen : {Metadata : Type 0} → Sweep Metadata → Sweep Metadata
remove_unseen s = record s {
  mirrored = λ n. s.mirrored n && s.seen n;
  server = λ n. if s.mirrored n && not (s.seen n) then none else s.server n;
}

-- `normalizeObjectSchema`
unfoldable pub normalize_object_schema :
    {Schema : Type 0} → (Schema → Decoded) → Option Schema → Option Fields
normalize_object_schema decode_schema none = some empty_object
normalize_object_schema decode_schema (some schema) = normalize_decoded (decode_schema schema)

-- An output schema that cannot be mirrored is dropped.
unfoldable pub output_fields :
    {Schema : Type 0} → (Schema → Decoded) → Option Schema → Option Fields
output_fields decode_schema none = none
output_fields decode_schema (some schema) = normalize_decoded (decode_schema schema)

module _ {Schema Metadata : Type 0} (decode_schema : Schema → Decoded) where
  unfoldable pub with_input :
      ListedTool Schema Metadata → Option Fields → Option (DownstreamTool Metadata)
  with_input tool none = none
  with_input tool (some fields) = some (record {
    name = tool.name;
    metadata = tool.metadata;
    input_schema = fields;
    output_schema = output_fields decode_schema tool.output_schema;
  })

  -- `downstreamTool`
  unfoldable pub downstream_tool : ListedTool Schema Metadata → Option (DownstreamTool Metadata)
  downstream_tool tool = with_input tool (normalize_object_schema decode_schema tool.input_schema)

  module _ (reserved : String → Bool) where
    -- One round of the loop over the listed tools.
    unfoldable pub mirror_tool : ListedTool Schema Metadata → Sweep Metadata → Sweep Metadata
    mirror_tool tool s =
        if s.seen tool.name
        then s
        else if reserved tool.name
        then record s { seen = with_name tool.name s.seen }
        else register tool.name (downstream_tool tool)
            (record s { seen = with_name tool.name s.seen })

    unfoldable pub mirror_tools :
        List (ListedTool Schema Metadata) → Sweep Metadata → Sweep Metadata
    mirror_tools [] s = s
    mirror_tools (tool ∷ tools) s = mirror_tools tools (mirror_tool tool s)

    -- What `SyncTools` does behind a listing that gave these tools.
    unfoldable pub sync_tools :
        List (ListedTool Schema Metadata)
        → (String → Bool)
        → (String → Option (DownstreamTool Metadata))
        → Sweep Metadata
    sync_tools tools mirrored server =
        remove_unseen
          (mirror_tools tools (record { seen = λ n. false; mirrored = mirrored; server = server }))
