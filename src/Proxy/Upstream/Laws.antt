-- ===== src/Proxy/Upstream/Laws.antt =====
-- The schemas of the tools that are handed on to the downstream server.
use mcp_media.Prelude.{◌≡◌, refl, Option, none, some, ◌∷◌, arith, ◌∙◌, ap, inl, inr, Option-cases}
use mcp_media.Names.{str_eq_iff}
use mcp_media.Proxy.Upstream.{
  Decoded, undecodable, json_null, object, field, text, with_type, normalize_decoded,
  normalize_object_schema, ListedTool, Fields, FieldValue, empty_object, other_value,
  DownstreamTool, downstream_tool, with_input,
}

with_type_sound :
    (fields result : Fields) (v : Option FieldValue)
    → field "type" fields ≡ v
    → with_type fields v ≡ some result
    → field "type" result ≡ some (text "object")
unfolding with_type field
with_type_sound fields result none e h =
    let same : ("type", text "object") ∷ fields ≡ result = ground arith in rw (← same) refl
with_type_sound fields result (some (text t)) e h =
    let same : fields ≡ result = ground arith in
    let named : t ≡ "object" = ground (arith, str_eq_iff t "object") in
    rw (← same) (e ∙ ap (λ s. some (text s)) named)
with_type_sound fields result (some other_value) e h = absurd (ground arith)

normalize_decoded_sound :
    (d : Decoded) (result : Fields)
    → normalize_decoded d ≡ some result
    → field "type" result ≡ some (text "object")
unfolding normalize_decoded
normalize_decoded_sound undecodable result h = absurd (ground arith)
normalize_decoded_sound json_null result h =
    let same : empty_object ≡ result = ground arith in rw (← same) (unfold field in refl)
normalize_decoded_sound (object fields) result h = with_type_sound fields result _ refl h

-- A schema that is normalized says that it is the schema of an object.
normalize_object_schema_sound :
    {Schema : Type 0} (decode_schema : Schema → Decoded) (schema : Option Schema) (fields : Fields)
    → normalize_object_schema decode_schema schema ≡ some fields
    → field "type" fields ≡ some (text "object")
unfolding normalize_object_schema
normalize_object_schema_sound decode_schema none fields h =
    let same : empty_object ≡ fields = ground arith in rw (← same) (unfold field in refl)
normalize_object_schema_sound decode_schema (some schema) fields h =
    normalize_decoded_sound (decode_schema schema) fields h

module _ {Schema Metadata : Type 0} (decode_schema : Schema → Decoded) where
  -- What `downstreamTool` makes keeps the name and has the schema of an object.
  pub downstream_tool_sound :
      (tool : ListedTool Schema Metadata) (made : DownstreamTool Metadata)
      → downstream_tool decode_schema tool ≡ some made
      → (made.name ≡ tool.name) × (field "type" made.input_schema ≡ some (text "object"))
  unfolding downstream_tool with_input
  downstream_tool_sound tool made h =
      elim (Option-cases (normalize_object_schema decode_schema tool.input_schema)) [
        | inl bad ↦ cc (rw bad at h)
        | inr (fields, good) ↦
            let same = rw good at h in
            (
              ground (arith, same),
              ground (
                arith,
                same,
                normalize_object_schema_sound decode_schema tool.input_schema fields good,
              ),
            )
      ]
