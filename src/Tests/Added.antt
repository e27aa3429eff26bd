-- ===== src/Tests/Added.antt =====
-- The configuration of an added sidecar, at a concrete pod.
use mcp_media.Prelude.{◌≡◌, refl, [], ◌∷◌, false, if◌then◌else◌, arith, none}
use mcp_media.Names.{String, get}
use mcp_media.Text.{codes, is_empty, text_eq}
use mcp_media.FilePath.{is_abs}
use mcp_media.Mint.Config.{is_http}
use mcp_media.Checked.{ok, err}
use mcp_media.Webhook.Pod.{Pod}
use mcp_media.Webhook.Env.{getenv_in}
use mcp_media.Webhook.Annotations.{
  read_annotations, InjectionRequest, inject_sidecar_key, volume_path_key,
}
use mcp_media.Webhook.Inject.{
  default_images, media_path, sidecar_container, public_url_of, inject_target_name,
}
use mcp_media.Sidecar.Config.{Parsing, load_sidecar, relative_root}
use mcp_media.Sidecar.Injected.{injected_config, injected-loaded}
use mcp_media.Tests.World.{toy}

abbrev plain_parsing : Parsing
plain_parsing = record { parse_duration = λ v. none; trim_space = λ s. s }

abbrev named_pod : Pod
named_pod = record {
  name = "server-0";
  namespace = "tools";
  labels = ("app", "server") ∷ [];
  annotations = (inject_sidecar_key, "true") ∷ (volume_path_key, "/media") ∷ [];
  init_containers = [];
  containers = [];
  volumes = [];
}

abbrev request : InjectionRequest
request = read_annotations named_pod.annotations

abbrev secrets : String → String
secrets name = "0123456789abcdef0123456789abcdef"

media_path-request : media_path request ≡ "/media"
unfolding read_annotations get
media_path-request = refl

injected-loaded_example :
    load_sidecar toy plain_parsing (λ key.
      codes (getenv_in secrets (sidecar_container default_images named_pod request).env key))
    ≡ (if is_abs (codes (media_path request))
        then ok (injected_config secrets default_images named_pod request)
        else err relative_root)
unfolding is_empty is_http text_eq read_annotations get inject_target_name
injected-loaded_example =
    injected-loaded secrets default_images named_pod request toy plain_parsing
      (record {
        scheme = codes "http";
        host = codes (public_url_of named_pod request);
        has_user = false;
      })
      refl refl refl refl refl refl (ground arith) refl
