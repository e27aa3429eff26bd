-- ===== src/Proxy/Enrich/Laws.antt =====
-- Which results are enriched, and with what.
use mcp_media.Prelude.{
  ◌≡◌, refl, sym, ◌⊎◌, Bool, true, false, Option, some, none, [], ◌∷◌, ◌++◌, Bool-cases,
  Option-cases, inl, inr, subst,
}
use mcp_media.Prelude.Int.{ℤ, pos}
use mcp_media.Names.{String, ◌==◌}
use mcp_media.Text.{Bytes, codes}
use mcp_media.Checked.{Result, ok, err}
use mcp_media.Store.{find, find-store}
use mcp_media.Proxy.MintClient.{MintAnswer, MintFailure}
use mcp_media.Proxy.Enrich.{
  string, number, Fields, ToolResult, MethodResult, of_tool, of_other, ensure_map,
  extract_path_field, with_answer, add_answer, add_link, enrich, middleware,
}

module _ (unmarshal : Bytes → Option Fields)
    (mint : Bytes → Bytes → ℤ → Result MintFailure MintAnswer) where
  -- The result is that of the tool with the three fields and one text added.
  pub record IsEnriched (matches : String → Bool) (tool_name : String) (before after : ToolResult)
      : Type 0 where
    pub matched : matches tool_name ≡ true
    pub no_error : before.is_error ≡ false
    pub path : Bytes
    pub named : extract_path_field unmarshal before.structured ≡ some path
    pub answer : MintAnswer
    pub minted : mint path (codes "attachment") (pos 0) ≡ ok answer
    pub still_no_error : after.is_error ≡ false
    pub texts : after.texts ≡ before.texts ++ answer.url ∷ []
    pub url : find "url" (ensure_map unmarshal after.structured) ≡ some (string answer.url)
    pub mime_type :
        find "mime_type" (ensure_map unmarshal after.structured) ≡ some (string answer.mime_type)
    pub size_bytes :
        find "size_bytes" (ensure_map unmarshal after.structured) ≡ some (number answer.size_bytes)
    pub others :
        (key : String)
        → ("url" == key) ≡ false
        → ("mime_type" == key) ≡ false
        → ("size_bytes" == key) ≡ false
        → find key (ensure_map unmarshal after.structured)
          ≡ find key (ensure_map unmarshal before.structured)

  with_answer-IsEnriched :
      (matches : String → Bool) (tool_name : String) (before : ToolResult) (path : Bytes)
      (mr : MintAnswer)
      → matches tool_name ≡ true
      → before.is_error ≡ false
      → extract_path_field unmarshal before.structured ≡ some path
      → mint path (codes "attachment") (pos 0) ≡ ok mr
      → IsEnriched matches tool_name before (with_answer unmarshal mr before)
  unfolding with_answer ensure_map
  with_answer-IsEnriched matches tool_name before path mr matched no_error named minted = record {
    matched = matched;
    no_error = no_error;
    path = path;
    named = named;
    answer = mr;
    minted = minted;
    still_no_error = no_error;
    texts = refl;
    url = simp (find-store) refl;
    mime_type = simp (find-store) refl;
    size_bytes = simp (find-store) refl;
    others = λ key u m s. simp (find-store, u, m, s) refl;
  }

  add_answer_cases :
      (matches : String → Bool) (tool_name : String) (before : ToolResult) (path : Bytes)
      → matches tool_name ≡ true
      → before.is_error ≡ false
      → extract_path_field unmarshal before.structured ≡ some path
      → (r : Result MintFailure MintAnswer) → mint path (codes "attachment") (pos 0) ≡ r
      → (add_answer unmarshal mint r before ≡ before)
        ⊎ IsEnriched matches tool_name before (add_answer unmarshal mint r before)
  unfolding add_answer
  add_answer_cases matches tool_name before path matched fine named (err e) minted = inl refl
  add_answer_cases matches tool_name before path matched fine named (ok mr) minted =
      inr (with_answer-IsEnriched matches tool_name before path mr matched fine named minted)

  enrich_cases :
      (matches : String → Bool) (tool_name : String) (before : ToolResult)
      → (enrich unmarshal mint matches tool_name before ≡ before)
        ⊎ IsEnriched matches tool_name before (enrich unmarshal mint matches tool_name before)
  unfolding enrich add_link
  enrich_cases matches tool_name before = elim (Bool-cases before.is_error) [
    | inl failed ↦ inl (rw failed refl)
    | inr fine ↦ elim (Bool-cases (matches tool_name)) [
      | inr unmatched ↦ inl (rw (fine, unmatched) refl)
      | inl matched ↦ elim (Option-cases (extract_path_field unmarshal before.structured)) [
        | inl pathless ↦ inl (rw (fine, matched, pathless) refl)
        | inr (path, named) ↦
            let added : enrich unmarshal mint matches tool_name before
                ≡ add_answer unmarshal mint (mint path (codes "attachment") (pos 0)) before =
              rw (fine, matched, named) refl in
            subst (λ r. (r ≡ before) ⊎ IsEnriched matches tool_name before r) (sym added)
              (add_answer_cases matches tool_name before path matched fine named _ refl)
      ]
    ]
  ]

  -- The middleware was given an expression and the result of a call of a tool, and it enriched that.
  pub record Enriches (expression : Option (String → Bool)) (method : String)
      (called : Option String) (before : Option MethodResult) (after : Option MethodResult)
      : Type 0 where
    pub matches : String → Bool
    pub tool_name : String
    pub old : ToolResult
    pub new : ToolResult
    pub is_enabled : expression ≡ some matches
    pub is_call : (method == "tools/call") ≡ true
    pub is_called : called ≡ some tool_name
    pub was : before ≡ some (of_tool old)
    pub becomes : after ≡ some (of_tool new)
    pub enriched : IsEnriched matches tool_name old new

  -- What the next handler returned is passed on as it is, or it was the result without an error of a
  -- call of a matching tool with a path field for which a URL was minted, and it has the three fields
  -- and the URL as a text added and nothing else changed.
  pub middleware_cases :
      (expression : Option (String → Bool)) (method : String) (called : Option String)
      (before : Option MethodResult) (failed : Bool)
      → (middleware unmarshal mint expression method called before failed ≡ before)
        ⊎ Enriches expression method called before
            (middleware unmarshal mint expression method called before failed)
  unfolding middleware
  middleware_cases none method called before failed = inl refl
  middleware_cases (some matches) method none before failed = inl refl
  middleware_cases (some matches) method (some tool_name) none failed = inl refl
  middleware_cases (some matches) method (some tool_name) (some of_other) failed = inl refl
  middleware_cases (some matches) method (some tool_name) (some (of_tool result)) true = inl refl
  middleware_cases (some matches) method (some tool_name) (some (of_tool result)) false =
      elim (Bool-cases (method == "tools/call")) [
        | inr another ↦ inl (rw another refl)
        | inl call ↦ elim (enrich_cases matches tool_name result) [
          | inl kept ↦ inl (rw (call, kept) refl)
          | inr added ↦ inr (
              rw call record {
                matches = matches;
                tool_name = tool_name;
                old = result;
                new = enrich unmarshal mint matches tool_name result;
                is_enabled = refl;
                is_call = call;
                is_called = refl;
                was = refl;
                becomes = refl;
                enriched = added;
              })
        ]
      ]
