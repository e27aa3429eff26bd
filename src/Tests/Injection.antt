-- ===== src/Tests/Injection.antt =====
-- The theorems on the webhook, at a pod with one container.
use mcp_media.Prelude.{◌≡◌, ◌≢◌, refl, [], ◌∷◌, ◌++◌, All, arith, true, false}
use mathlib.Core.List.{map}
use mcp_media.Names.{get}
use mcp_media.Webhook.Annotations.{
  InjectionRequest, sidecar_name, media_volume_name, inject_sidecar_key, read_annotations,
  parse_annotations, check_request,
}
use mcp_media.Webhook.Pod.{Pod, Container, has_container, named_in}
use mcp_media.Webhook.Inject.{
  default_images, inject_pod, add_sidecar, has_volume, media_path, mount_workload, inject_flags,
}
use mcp_media.Webhook.Inject.Mounts.{HasMedia, add_sidecar-HasMedia, IsReader}
use mcp_media.Webhook.Gate.{
  Lookup, found, default_pod, namespace_enabled, default_enabled, inject_parsed,
}
use mcp_media.Webhook.Gate.Laws.{IsPermitted, default_pod-IsPermitted, default_pod_idempotent}
use Prim.Native.String.{String}

abbrev server_container : Container
server_container = record {
  name = "server";
  image = "server:1";
  ports = [];
  env = [];
  image_pull_policy = "";
  volume_mounts = [];
}

abbrev server_pod : Pod
server_pod = record {
  name = "server-0";
  namespace = "tools";
  labels = ("app", "server") ∷ [];
  annotations = (inject_sidecar_key, "true") ∷ [];
  init_containers = [];
  containers = server_container ∷ [];
  volumes = [];
}

abbrev sidecar_request : InjectionRequest
sidecar_request = read_annotations server_pod.annotations

-- Every namespace is labelled.
abbrev labelled_client : String → Lookup
labelled_client _ = found (("media-injection", "enabled") ∷ [])

no_sidecar : has_container server_pod sidecar_name ≡ false
unfolding named_in
no_sidecar = refl

add_sidecar-HasMedia_example :
    let after_sidecar = add_sidecar default_images server_pod sidecar_request in
    (has_volume media_volume_name after_sidecar.volumes ≡ true)
    × All (HasMedia (media_path sidecar_request)) after_sidecar.init_containers
    × All (HasMedia (media_path sidecar_request)) after_sidecar.containers
    × ((sidecar : Container) × (after_sidecar.containers
          ≡ map (mount_workload (media_path sidecar_request)) server_pod.containers ++ sidecar ∷ [])
        × IsReader (media_path sidecar_request) sidecar)
add_sidecar-HasMedia_example =
    add_sidecar-HasMedia default_images server_pod sidecar_request no_sidecar

server_pod-changed : default_pod default_images labelled_client server_pod ≢ server_pod
unfolding default_pod namespace_enabled default_enabled inject_parsed parse_annotations
    check_request read_annotations get inject_pod inject_flags add_sidecar named_in
server_pod-changed same = ground arith

default_pod-IsPermitted_example : IsPermitted labelled_client server_pod
default_pod-IsPermitted_example =
    default_pod-IsPermitted default_images labelled_client server_pod server_pod-changed

default_pod_idempotent_example :
    default_pod default_images labelled_client
      (default_pod default_images labelled_client server_pod)
    ≡ default_pod default_images labelled_client server_pod
default_pod_idempotent_example = default_pod_idempotent default_images labelled_client server_pod
