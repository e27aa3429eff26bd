-- ===== src/Probe/Download.antt =====
-- The probe at the example server behind a proxy: the tool of cmd/example-mcp/main.go, the enriching
-- middleware, the mint client, the mint API and the file server in one run of cmd/probe/main.go.
use mcp_media.Prelude.{
  ◌≡◌, refl, ◌∙◌, ap, ℕ, ◌≤◌, Bool, true, false, Option, none, some, List, [], ◌∷◌, ◌++◌, All,
  arith, suc, length, sym, subst,
}
use mcp_media.Prelude.Int.{pos}
use mcp_media.Names.{String}
use mcp_media.Text.{Bytes, codes, is_empty}
use mcp_media.Platform.{Library, FileSystem, File, FileInfo, ok as done}
use mcp_media.Sign.Clock.{Time, after, unix}
use mcp_media.Serve.Handler.{or_attachment, serve_http, Response, content, http_error, Request}
use mcp_media.Mint.Config.{MintHandler}
use mcp_media.Mint.Handler.{MintResponse, MintRequest, minted, mint_request, expiry}
use mcp_media.Checked.{ok}
use mcp_media.Probe.Found.{IsUrlChar}
use mcp_media.FilePath.{base, is_abs}
use mcp_media.Probe.{
  find_string, Content, Fetch, text, CallResult, unsent, response, World, Options, run, tool_lines,
  text_line, url_line, status_line, bytes_line, expect_line, after_list, after_call, first_url,
  fetch_first, fetched, check_status, check_length,
}
use mcp_media.Proxy.Enrich.{
  enrich, MethodResult, Fields, of_tool, middleware, of_other, add_link, add_answer, with_answer,
  extract_path_field, first_path, path_in, ensure_map, string, fields,
}
use mcp_media.Proxy.MintClient.{Wire, MintClient, client_mint, MintAnswer}
use mcp_media.Example.{save_file}
use mcp_media.Store.{find}
use mcp_media.Mint.Signed.{IsMac, IsPosix, server_of}
use mcp_media.Mint.RoundTrip.{serve-mint, same_path}
use mcp_media.Mint.Link.{ReadsUrl, IsFileName}
use mcp_media.Serve.Resolve.{resolve, resolved}
use mcp_media.Proxy.MintClient.Sidecar.{
  ServerCodec, Agrees, Fits, IsSendableRequest, client_mint-mint_request, view,
}
use mcp_media.Mint.Handler.Laws.{mint_request_sound}
use mcp_media.Serve.Resolve.{in_some_root}
use mcp_media.Probe.Minted.{IsWebBase, find_string-link, is_disposition-IsUrlChar}

-- The result of the tool as the probe's session gets it.
abbrev pub contents_of : List Bytes → List Content
contents_of [] = []
contents_of (t ∷ texts) = text t ∷ contents_of texts

abbrev pub call_result : Option MethodResult → Option CallResult
call_result (some (of_tool r)) =
    some (record { is_error = r.is_error; content = contents_of r.texts })
call_result (some of_other) = none
call_result none = none

-- What http.ServeContent and http.Error come to at the client, told the length of a file's content and
-- of an error's text.
abbrev pub received : (Bytes → ℕ) → (String → ℕ) → Option Response → Fetch
received file_length text_length none = unsent
received file_length text_length (some (http_error status message)) =
    response status (some (text_length message))
received file_length text_length (some (content hd path)) = response 200 (some (file_length path))

module _ (unmarshal : Bytes → Option Fields) (wire : Wire) (c : MintClient)
    (matches : String → Bool) where
  -- What a client of the proxy is answered when it calls the tool of the example server.
  abbrev pub proxied : Bytes → Bytes → Option MethodResult
  proxied hello path =
      middleware unmarshal (client_mint wire c) (some matches) "tools/call" (some "save_file")
        (some (of_tool (save_file hello path))) false

  path_in-given :
      (hello : Bytes)
      → is_empty hello ≡ false
      → path_in unmarshal (some (string hello)) ≡ some hello
  unfolding path_in
  path_in-given hello given = rw given refl

  extracted :
      (hello : Bytes)
      → is_empty hello ≡ false
      → extract_path_field unmarshal (fields (("file_path", string hello) ∷ [])) ≡ some hello
  unfolding extract_path_field first_path ensure_map find
  extracted hello given = rw (first_path, path_in-given hello given) refl

  -- The tool's result comes with the minted URL as a second text.
  proxied-texts :
      (hello path : Bytes) (m : MintAnswer)
      → matches "save_file" ≡ true
      → is_empty hello ≡ false
      → client_mint wire c hello (codes "attachment") (pos 0) ≡ ok m
      → call_result (proxied hello path)
        ≡ some (record { is_error = false; content = text hello ∷ text m.url ∷ [] })
  unfolding middleware enrich add_link add_answer with_answer ensure_map save_file
  proxied-texts hello path m matched given answered =
      rw (matched, extracted hello given, answered) refl

check_length_same : (n : ℕ) → check_length (pos n) n ≡ (expect_line (pos n) ∷ [], none)
unfolding check_length
check_length_same n = ground arith

-- A run of the probe in which all goes well.
run_of_response :
    (w : World) (opts : Options) (names : List String) (first url : Bytes) (long : ℕ)
    → w.connects opts.url ≡ true
    → w.list_tools ≡ some names
    → w.call_tool opts.tool opts.path
      ≡ some (record { is_error = false; content = text first ∷ text url ∷ [] })
    → find_string first ≡ none
    → find_string url ≡ some url
    → w.fetch url ≡ response 200 (some long)
    → opts.expect_bytes ≡ pos long
    → run w opts ≡ (
      tool_lines names
          ++ (text_line first
              ∷ text_line url
              ∷ url_line url
              ∷ status_line 200
              ∷ bytes_line long
              ∷ expect_line (pos long)
              ∷ []),
      none,
    )
unfolding run after_list after_call first_url fetch_first
run_of_response w opts names first url long reached listed called none_first found fetch expected =
    rw (reached, listed, called, first_url, none_first, found, fetch)
      (unfold fetched check_status in rw (expected, check_length_same long) refl)

-- What the mint API finds at the path that the example server answers with: a file that can be opened
-- and is no directory, below a root, with a name that is read as one from a URL.
pub record IsDownload (fs : FileSystem) (h : MintHandler) (fuel : ℕ) (hello path : Bytes)
    : Type 0 where
  pub fenced : resolve fs fuel h.roots hello ≡ resolved path
  pub named : IsFileName (base path)
  pub file : File
  pub info : FileInfo
  pub opened : fs.open_file path ≡ done file
  pub read : file.info ≡ done info
  pub is_file : info.is_dir ≡ false
  pub inside : in_some_root h.roots path ≡ true

module _ (lib : Library) (mac : IsMac lib.mac) (fs : FileSystem) (posix : IsPosix fs)
    (minting serving : Time) (h : MintHandler) (codec : ServerCodec) (fuel later_fuel : ℕ)
    (wire : Wire) (c : MintClient) (agrees : Agrees lib fs minting h codec fuel wire c)
    (unmarshal : Bytes → Option Fields) (matches : String → Bool) (file_length : Bytes → ℕ)
    (text_length : String → ℕ) where
  -- What the example server asks the mint API for, by way of the proxy.
  abbrev pub hello_request : Bytes → MintRequest
  hello_request hello = record {
    path = hello;
    disposition = codes "attachment";
    ttl_seconds = pos 0;
  }

  -- The surroundings of a run of the probe at the proxy of an example server: the proxy answers calls
  -- of save_file, and URLs that the mux reads lead to the file server.
  pub record IsDeployed (read_url : Bytes → Option Request) (w : World) (opts : Options)
      (hello : Bytes) (names : List String) : Type 0 where
    pub reached : w.connects opts.url ≡ true
    pub listed : w.list_tools ≡ some names
    pub called :
        w.call_tool opts.tool opts.path
        ≡ call_result (proxied unmarshal wire c matches hello opts.path)
    pub served :
        (url : Bytes) (r : Request)
        → read_url url ≡ some r
        → w.fetch url
          ≡ received file_length text_length
              (serve_http lib fs serving (server_of h) (suc later_fuel) r)

  module _ (read_url : Bytes → Option Request) (url : ReadsUrl lib.path_escape h.base_url read_url)
      (w : World) (opts : Options) (hello : Bytes) (names : List String) (reply : MintResponse)
      (path : Bytes) where
    fetched-file :
        All (λ root. is_abs root ≡ true) h.roots
        → mint_request lib fs minting h fuel (hello_request hello) ≡ some (minted reply)
        → after serving (unix (expiry lib fs minting h 0)) ≡ false
        → IsDownload fs h fuel hello path
        → IsDeployed read_url w opts hello names
        → w.fetch reply.url ≡ response 200 (some (file_length path))
    fetched-file rooted replies fresh here deployed =
        let (r, found, answered) =
          serve-mint lib mac fs posix read_url minting serving h fuel later_fuel
            (hello_request hello) reply url rooted replies 0 path here.file here.info refl
            here.fenced here.named here.opened here.read here.is_file in
        rw (deployed.served reply.url r found, answered, fresh, here.inside) refl

    minted_url-found :
        mint_request lib fs minting h fuel (hello_request hello) ≡ some (minted reply)
        → resolve fs fuel h.roots hello ≡ resolved path
        → IsWebBase h.base_url
        → All IsUrlChar (lib.path_escape (base path))
        → find_string reply.url ≡ some reply.url
    minted_url-found replies fenced web escaped =
        let mt = mint_request_sound lib fs minting h fuel (hello_request hello) replies in
        let here : mt.path ≡ path = same_path lib mac fs (sym mt.fenced ∙ fenced) in
        rw mt.linked (
          find_string-link lib h web mt.path (or_attachment (codes "attachment")) _
            (subst (λ p. All IsUrlChar (lib.path_escape (base p))) (sym here) escaped)
            (is_disposition-IsUrlChar _ mt.shown))

    -- The probe at a proxy in front of the example server prints the tools, the two texts and the
    -- response, and finds no error. Where: the mint client and the mint API agree and mint a URL for
    -- the file of the example server, in a request and an answer that JSON can tell; the file system
    -- stays as it is, the file can be opened, lies below a root and has a name that is no "." or "..";
    -- the proxy enriches save_file; the base URL leads to the file server, and it and the escaped name
    -- hold nothing that ends a URL in a text; the path of the file holds no URL; the roots are absolute,
    -- the URL has not expired when the probe fetches; and the length that is expected is that of the
    -- file.
    pub run-download :
        (long : ℕ)
        → matches "save_file" ≡ true
        → is_empty hello ≡ false
        → find_string hello ≡ none
        → IsSendableRequest lib (hello_request hello)
        → length (wire.encode_request (hello_request hello)) ≤ 4096
        → mint_request lib fs minting h fuel (hello_request hello) ≡ some (minted reply)
        → Fits lib fs minting h codec fuel (minted reply)
        → All (λ root. is_abs root ≡ true) h.roots
        → IsDownload fs h fuel hello path
        → IsWebBase h.base_url
        → All IsUrlChar (lib.path_escape (base path))
        → after serving (unix (expiry lib fs minting h 0)) ≡ false
        → IsDeployed read_url w opts hello names
        → file_length path ≡ long
        → opts.expect_bytes ≡ pos long
        → run w opts ≡ (
          tool_lines names
              ++ (text_line hello
                  ∷ text_line reply.url
                  ∷ url_line reply.url
                  ∷ status_line 200
                  ∷ bytes_line long
                  ∷ expect_line (pos long)
                  ∷ []),
          none,
        )
    run-download long matched given plain_path sendable short replies fits rooted here web escaped
          fresh deployed length_is expected =
        let answered =
          client_mint-mint_request lib fs minting h codec fuel wire c agrees hello
            (codes "attachment") (pos 0) (minted reply) sendable short replies fits in
        let texts =
          proxied-texts unmarshal wire c matches hello opts.path (view reply) matched given
            answered in
        let found = minted_url-found replies here.fenced web escaped in
        let file = fetched-file rooted replies fresh here deployed in
        run_of_response w opts names hello reply.url long deployed.reached deployed.listed
          (deployed.called ∙ texts) plain_path found
          (file ∙ ap (λ n. response 200 (some n)) length_is) expected
