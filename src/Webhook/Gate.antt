-- ===== src/Webhook/Gate.antt =====
-- internal/webhook/v1/pod_webhook.go
pub mod Laws
use Prim.Native.String.{String}
use mcp_media.Prelude.{Bool, true, false, not, ◌||◌, if◌then◌else◌}
use mcp_media.Names.{StringMap, get, ◌==◌}
use mcp_media.Webhook.Inject.{Images, or_else, inject_pod}
use mcp_media.Webhook.Pod.{Pod}
use mcp_media.Webhook.Annotations.{Parsed, parse_annotations, malformed, parsed}

-- What the client answers to a Get of a namespace.
pub data Lookup : Type 0 where
  found : (labels : StringMap) → Lookup
  not_found failed_lookup : Lookup

-- The result of `namespaceEnabled`
pub data Enabled : Type 0 where
  enabled : Bool → Enabled
  gate_error : Enabled

-- `namespaceEnabled` on the answer
unfoldable pub namespace_enabled : Lookup → Enabled
namespace_enabled (found labels) = enabled (get "media-injection" labels == "enabled")
namespace_enabled not_found = enabled false
namespace_enabled failed_lookup = gate_error

unfoldable pub inject_parsed : Images → Pod → Parsed → Pod
inject_parsed im pod (malformed _) = pod
inject_parsed im pod (parsed req) =
    if req.inject_sidecar || req.inject_proxy then inject_pod im pod req else pod

unfoldable pub default_enabled : Images → Pod → Enabled → Pod
default_enabled im pod gate_error = pod
default_enabled im pod (enabled false) = pod
default_enabled im pod (enabled true) = inject_parsed im pod (parse_annotations pod.annotations)

-- `Default`: the client is asked for the pod's namespace, or "default". It never fails.
unfoldable pub default_pod : Images → (String → Lookup) → Pod → Pod
default_pod im client pod =
    default_enabled im pod (namespace_enabled (client (or_else pod.namespace "default")))
