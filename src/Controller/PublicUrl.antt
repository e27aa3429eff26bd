-- ===== src/Controller/PublicUrl.antt =====
-- `ensureSidecarPublicURL` of internal/controller/ingress.go.
pub mod Template
pub mod Laws
use mcp_media.Prelude.{
  Bool, false, not, ◌&&◌, ◌||◌, Option, none, some, List, [], ◌∷◌, if◌then◌else◌, ◌++◌,
}
use mathlib.Core.List.{map}
use mcp_media.Names.{String, get, ◌==◌, ◌<>◌}
use mcp_media.Store.{find, store}
use mcp_media.Controller.Cluster.{
  Ingress, Rule, WorkloadObject, TemplateContainer, TemplateEnv, Call, get_deployment,
  patch_deployment,
}
use mcp_media.Controller.Workload.{Workload}

-- The value that a variable of the sidecar should have is there.
unfoldable pub has_value : String → List TemplateEnv → Bool
has_value value [] = false
has_value value (e ∷ env) =
    (e.name == "MEDIA_PUBLIC_BASE_URL" && e.value == value) || has_value value env

unfoldable pub is_set_in : String → List TemplateContainer → Bool
is_set_in value [] = false
is_set_in value (c ∷ containers) =
    (c.name == "media-sidecar" && has_value value c.env) || is_set_in value containers

unfoldable pub set_value : String → TemplateEnv → TemplateEnv
set_value value e = if e.name == "MEDIA_PUBLIC_BASE_URL" then record e { value = value } else e

unfoldable pub names_url : List TemplateEnv → Bool
names_url [] = false
names_url (e ∷ env) = e.name == "MEDIA_PUBLIC_BASE_URL" || names_url env

unfoldable pub set_env : String → List TemplateEnv → List TemplateEnv
set_env value env =
    if names_url env
    then map (set_value value) env
    else env ++ (record { name = "MEDIA_PUBLIC_BASE_URL"; value = value; has_source = false } ∷ [])

unfoldable pub set_public_url : String → TemplateContainer → TemplateContainer
set_public_url value c =
    if c.name == "media-sidecar" then record c { env = set_env value c.env } else c

abbrev pub Deployments : Type 0
Deployments = List (String × WorkloadObject)

-- The address of the ingress, empty if it has no host.
unfoldable pub public_url_for : List Rule → String
public_url_for [] = ""
public_url_for (rule ∷ _) = if rule.host == "" then "" else "https://" <> rule.host

module _ (works : Call → Bool) (w : Workload) where
  unfoldable pub patch_public_url : String → Option WorkloadObject → Deployments → Deployments
  patch_public_url url none deployments = deployments
  patch_public_url url (some d) deployments =
      if is_set_in url d.containers
      then deployments
      else if works patch_deployment
      then store w.name (record d { containers = map (set_public_url url) d.containers })
          deployments
      else deployments

  -- `ensureSidecarPublicURL`, whose errors are only logged
  unfoldable pub ensure_sidecar_public_url : Ingress → Deployments → Deployments
  ensure_sidecar_public_url ing deployments =
      if not (get "media.media/public-url" w.template_annotations == "")
      then deployments
      else if public_url_for ing.rules == ""
      then deployments
      else if works get_deployment
      then patch_public_url (public_url_for ing.rules) (find w.name deployments) deployments
      else deployments
