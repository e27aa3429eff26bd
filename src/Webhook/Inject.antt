-- ===== src/Webhook/Inject.antt =====
-- internal/webhook/v1/inject.go, and the configuration of images of annotations.go.
pub mod Laws
pub mod Mounts
use Prim.Native.String.{String}
use mathlib.Core.List.{map}
use mcp_media.Prelude.{◌==◌ as nat_eq}
use mcp_media.Prelude.{ℕ, Bool, true, false, not, ◌&&◌, ◌||◌, List, [], ◌∷◌, ◌++◌, if◌then◌else◌}
use mcp_media.Names.{StringMap, get, put, ◌==◌, ◌<>◌}
use mcp_media.Webhook.Annotations.{
  InjectionRequest, sidecar_name, media_volume_name, proxy_name, injected_label,
}
use mcp_media.Webhook.Pod.{
  Pod, VolumeMount, Container, Volume, EnvVar, VolumeSource, plain, from_secret, has_container,
  claim, empty_dir,
}
use mcp_media.Text.{Bytes, codes, has_prefix}
use mathlib.Core.List.{reverse}

-- The variables that `ConfigureImages` sets.
pub record Images : Type 0 where
  pub sidecar_image : String
  pub proxy_image : String
  pub signing_secret_name : String
  pub internal_token_secret : String

abbrev pub default_images : Images
default_images = record {
  sidecar_image = "ghcr.io/gthieleb/mcp-media-sidecar:latest";
  proxy_image = "ghcr.io/gthieleb/mcp-media-proxy:latest";
  signing_secret_name = "media-signing";
  internal_token_secret = "media-internal-token";
}

abbrev pub or_else : String → String → String
or_else s d = if s == "" then d else s

-- `ConfigureImages`
unfoldable pub configure_images : Images → String → String → String → String → Images
configure_images im sidecar proxy signing_secret token_secret = record {
  sidecar_image = or_else sidecar im.sidecar_image;
  proxy_image = or_else proxy im.proxy_image;
  signing_secret_name = or_else signing_secret im.signing_secret_name;
  internal_token_secret = or_else token_secret im.internal_token_secret;
}

-- `resolveMintURL`
unfoldable pub resolve_mint_url : InjectionRequest → String
resolve_mint_url req =
    if not (req.mint_url == "")
    then req.mint_url
    else if not (req.group == "")
    then "http://" <> req.group <> "-sidecar-service:8091"
    else if req.inject_sidecar
    then "http://localhost:8091"
    else ""

-- `injectTargetName`
unfoldable pub inject_target_name : Pod → String
inject_target_name pod =
    or_else (get "app.kubernetes.io/instance" pod.labels)
      (or_else (get "app.kubernetes.io/name" pod.labels) (or_else (get "app" pod.labels) pod.name))

unfoldable pub has_suffix : Bytes → Bytes → Bool
has_suffix s p = has_prefix (reverse s) (reverse p)

unfoldable pub contains_byte : ℕ → Bytes → Bool
contains_byte c [] = false
contains_byte c (a ∷ s) = nat_eq a c || contains_byte c s

-- `pullPolicyFor`
unfoldable pub pull_policy_for : String → String
pull_policy_for image =
    if has_suffix (codes image) (codes ":latest") || not (contains_byte b':' (codes image))
    then ""
    else "IfNotPresent"

unfoldable pub mounted : String → String → List VolumeMount → Bool
mounted volume path [] = false
mounted volume path (m ∷ ms) = (m.name == volume || m.mount_path == path) || mounted volume path ms

-- `mountIfAbsent`
unfoldable pub mount_if_absent : String → String → Container → Container
mount_if_absent volume path c = if mounted volume path c.volume_mounts then c else record c {
  volume_mounts =
      c.volume_mounts ++ (record { name = volume; mount_path = path; read_only = false } ∷ []);
}

abbrev pub is_injected : Container → Bool
is_injected c = c.name == sidecar_name || c.name == proxy_name

-- One round of `mountWorkloadContainers`.
unfoldable pub mount_workload : String → Container → Container
mount_workload path c = if is_injected c then c else mount_if_absent media_volume_name path c

unfoldable pub has_volume : String → List Volume → Bool
has_volume name [] = false
has_volume name (v ∷ vs) = v.name == name || has_volume name vs

abbrev media_source : InjectionRequest → VolumeSource
media_source req =
    if not (req.volume_name == "") && not (req.volume_name == "empty")
    then claim req.volume_name true
    else empty_dir

-- `addMediaVolume`, on the volumes
unfoldable pub add_media_volume : InjectionRequest → List Volume → List Volume
add_media_volume req vs =
    if has_volume media_volume_name vs
    then vs
    else vs ++ (record { name = media_volume_name; source = media_source req } ∷ [])

abbrev pub media_path : InjectionRequest → String
media_path req = or_else req.volume_path "/data"

abbrev pub plain_var : String → String → EnvVar
plain_var name value = record { name = name; value = plain value }

abbrev pub secret_var : String → String → EnvVar
secret_var name secret = record { name = name; value = from_secret secret }

abbrev pub when_set : Bool → EnvVar → List EnvVar
when_set b e = if b then e ∷ [] else []

abbrev pub public_url_of : Pod → InjectionRequest → String
public_url_of pod req =
    or_else req.public_url
      ("http://" <> inject_target_name pod <> "-media." <> pod.namespace <> ".svc:8090")

abbrev pub sidecar_container : Images → Pod → InjectionRequest → Container
sidecar_container im pod req = record {
  name = sidecar_name;
  image = im.sidecar_image;
  ports =
      record { name = "serve"; container_port = 8090 }
      ∷ record { name = "mint"; container_port = 8091 }
      ∷ [];
  env =
      plain_var "MEDIA_PUBLIC_BASE_URL" (public_url_of pod req)
      ∷ secret_var "MEDIA_INTERNAL_TOKEN" im.internal_token_secret
      ∷ secret_var "MEDIA_SIGNING_SECRET" im.signing_secret_name
      ∷ plain_var "MEDIA_ROOTS" (media_path req)
      ∷ [];
  image_pull_policy = pull_policy_for im.sidecar_image;
  volume_mounts =
      record { name = media_volume_name; mount_path = media_path req; read_only = true } ∷ [];
}

-- `addSidecar`
unfoldable pub add_sidecar : Images → Pod → InjectionRequest → Pod
add_sidecar im pod req = if has_container pod sidecar_name then pod else record pod {
  containers =
      map (mount_workload (media_path req)) (pod.containers ++ (sidecar_container im pod req ∷ []));
  init_containers = map (mount_workload (media_path req)) pod.init_containers;
  volumes = add_media_volume req pod.volumes;
}

abbrev pub mode_of : InjectionRequest → String
mode_of req = or_else req.proxy_mode "full"

-- The variables for the upstream server.
unfoldable pub upstream_env : InjectionRequest → List EnvVar
upstream_env req =
    if req.upstream_port == ""
    then []
    else if mode_of req == "standalone"
    then plain_var "MEDIA_INJECTION_NOTE" "upstream-port annotation ignored in standalone mode" ∷ []
    else plain_var "UPSTREAM_MCP_URL" ("http://localhost:" <> req.upstream_port) ∷ []

unfoldable pub proxy_env : Images → InjectionRequest → List EnvVar
proxy_env im req =
    plain_var "PROXY_MODE" (mode_of req)
    ∷ plain_var "PROXY_LISTEN_ADDR" ":5780"
    ∷ secret_var "MEDIA_INTERNAL_TOKEN" im.internal_token_secret
    ∷ (upstream_env req
        ++ (when_set (not (req.tool_match == "") && mode_of req == "full")
              (plain_var "TOOL_MATCH" req.tool_match)
            ++ (when_set (not (req.inline_max_bytes == ""))
                  (plain_var "INLINE_MAX_BYTES" req.inline_max_bytes)
                ++ (when_set (not (resolve_mint_url req == ""))
                      (plain_var "MINT_URL" (resolve_mint_url req))
                    ++ when_set (not (req.auth_token_secret == ""))
                        (secret_var "MEDIA_AUTH_TOKEN" req.auth_token_secret)))))

abbrev pub proxy_container : Images → InjectionRequest → Container
proxy_container im req = record {
  name = proxy_name;
  image = im.proxy_image;
  ports = record { name = "mcp"; container_port = 5780 } ∷ [];
  env = proxy_env im req;
  image_pull_policy = "";
  volume_mounts = [];
}

-- `addProxy`
unfoldable pub add_proxy : Images → Pod → InjectionRequest → Pod
add_proxy im pod req =
    if has_container pod proxy_name
    then pod
    else record pod { containers = pod.containers ++ (proxy_container im req ∷ []) }

abbrev pub mark_injected : Pod → Pod
mark_injected pod = record pod { labels = put injected_label "true" pod.labels }

-- The body of `injectPod`, with the two flags of the request.
unfoldable pub inject_flags : Images → Pod → InjectionRequest → Bool → Bool → Pod
inject_flags im pod req sidecar proxy =
    let with_sidecar = if sidecar then add_sidecar im pod req else pod in
    let with_proxy = if proxy then add_proxy im with_sidecar req else with_sidecar in
    if sidecar || proxy then mark_injected with_proxy else pod

-- `injectPod`
unfoldable pub inject_pod : Images → Pod → InjectionRequest → Pod
inject_pod im pod req = inject_flags im pod req req.inject_sidecar req.inject_proxy
