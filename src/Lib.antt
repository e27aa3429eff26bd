-- ===== src/Lib.antt =====
-- mcp-media: signed links to files for agents. A media sidecar serves the files of its roots to whoever
-- has a signed URL and mints such URLs for whoever has a token; a proxy mirrors the tools of an MCP
-- server and adds tools on media; a controller's webhook puts sidecar and proxy into pods.
--
-- How the parts correspond to the code:
--   - Sign (internal/sign/sign.go): `canonical`, `sign` and `verify` are the functions of those names,
--     over byte strings (lists of numbers). Sign/Hex and Sign/Decimal write out encoding/hex and the
--     strconv calls, Sign/Clock time.Time as seconds of an int64 with its wrap-around and nanoseconds.
--   - Base64 and FilePath write out the calls of base64.RawURLEncoding and path/filepath (for "/").
--   - Serve/Resolve (internal/serve/resolve.go): `resolve` is `Resolve`. Its call of itself takes fuel;
--     two calls are enough with absolute roots. Serve/Filename and Serve/Handler
--     (internal/serve/handler.go): `sanitize_filename`, and `serve_http` for `ServeHTTP`, in steps
--     named after what they have found out. A response is an error or what http.ServeContent is given.
--   - Mint (internal/mint/handler.go): Mint/Config is `Config`, `handler` and `NewHandler`, Mint/Ttl the
--     choice of the lifetime, Mint/Handler `ServeHTTP`, `authorized` and `mint`. Mint/Link is the form
--     of a minted URL and what the mux reads from one, Mint/Signed the file server at a signed request,
--     Mint/RoundTrip both together; Mint/Lifetime says how long a URL is accepted.
--   - Mime (internal/mime/mime.go): `mime_for` is `For`.
--   - Webhook (internal/webhook/v1): Webhook/Annotations is annotations.go, Webhook/Inject is inject.go
--     on the records of Webhook/Pod, Webhook/Gate is `Default` and `namespaceEnabled` of pod_webhook.go.
--     A mutation of the pod is a function from pod to pod; the package's variables are `Images`.
--     Webhook/Env is what a container with such variables reads.
--   - Proxy/Mode (internal/proxy/mode.go) and Proxy/Config (`loadConfig`, `httpURLEnv` of
--     cmd/mcp-media-proxy/main.go). Proxy/Injected runs it in the environment the webhook makes.
--     Proxy/Upstream (internal/proxy/upstream.go) has the section of `SyncTools` under `mu` (`sync_tools`)
--     and `downstreamTool`; Proxy/Session has `NewUpstream` (`unused`), `Connect`, `Close`, `resync` and
--     `SyncTools` as places of goroutines that share the fields, `mu` and `listMu`. `advance` is the next
--     step of one of them, `run` a mixture of such steps in a given order; there is no bound on either.
--     Proxy/MintClient (internal/proxy/mint_client.go), Proxy/Tools (internal/proxy/tools.go) and
--     Proxy/Enrich (internal/proxy/enrich.go) are the client of the mint API and its two users.
--     Proxy/MintClient/Sidecar joins the client to the model of the mint API. Proxy/Guard has the
--     authorization of requests to the proxy (`bearerAuth`) and from it, and `forward`. Proxy/Start is
--     `run` and `main`: what is built from a configuration (`start_proxy`) and the exit code.
--   - Sidecar/Config (`loadConfig` of cmd/media-sidecar/main.go), Sidecar/Start, `run` up to the
--     handlers it serves, and Sidecar/Main, the end of `run` and `main`. Sidecar/Injected
--     runs `loadConfig` in the environment the webhook makes. Shutdown is the end of serving, which it
--     shares with the proxy.
--   - Probe (cmd/probe/main.go): `run`, with its regular expression as `find_string`, over a `World` that
--     is the MCP session and the HTTP client, and `probe_main` for the exit code. Example
--     (cmd/example-mcp/main.go) is the example server. Probe/Download joins both with the middleware of
--     the proxy, the mint client, the mint API and the file server.
--   - Controller (internal/controller): Controller/Cluster has the objects of one namespace, and the
--     calls of the API server, each of which may fail. Controller/Api has the client and the two
--     functions of controllerutil as parameters, with their documented behaviour (`IsApi`).
--     Controller/Workload is the interface `workloads`,
--     Controller/Services `ensureMediaService` and `patchUpstreamService`, Controller/Reconcile
--     `Reconcile` and `reconcileWorkload` of workload_reconciler.go; Controller/Source, Ingresses and
--     PublicUrl are `findSourceIngress`, `ensureMediaIngress` and `ensureSidecarPublicURL` of
--     ingress.go. Controller/Manager is `main` of cmd/media-controller/main.go, over the calls of
--     controller-runtime that may fail.
--     An operation is a function from the objects to the objects and a result.
-- Checked holds the result type of code that stops at an error, Store values by name, Prelude and
-- Names what all modules share.
-- The parts meet in five places: the mint API and the file server share secret, roots and Resolve, the
-- sidecar starts both from one configuration, the webhook writes the environments that the proxy and the
-- sidecar read, the proxy's client calls the mint API, and the probe calls a tool behind the proxy and
-- fetches the URL that comes with its result.
--
-- Text of requests and paths is `Bytes` (module Text); names in Kubernetes objects are native strings.
-- Platform lists what comes from outside: the file system as one request sees it, HMAC-SHA256, url.Parse,
-- mime tables, the JSON decoder. What is relied on of them is a hypothesis of the theorem that needs it
-- (`IsMac`, `IsPosix`, `IsApi`, `ReadsUrl`), and Tests shows surroundings in which it holds.
--
-- In a namespace whether a call works is a test of its kind (`Call`), the same during one reconciliation.
-- No other writer comes between the calls of one.
--
-- Simplified: `mime_for` lower-cases ASCII only, `add` wraps where time.Add saturates, far beyond any
-- current time, and of a tool's result only the texts are kept.
--
-- Not modelled: logging, the parsing of flags, the HTTP and MCP servers with their routing and
-- ServeContent, the registration of handlers and watches, and the helpers of the end-to-end tests.
pub mod Prelude
pub mod Text
pub mod Sign
pub mod Base64
pub mod FilePath
pub mod Platform
pub mod Mime
pub mod Serve
pub mod Mint
pub mod Names
pub mod Webhook
pub mod Checked
pub mod Proxy
pub mod Shutdown
pub mod Example
pub mod Probe
pub mod Sidecar
pub mod Controller
pub mod Store
mod Tests
