-- ===== src/Controller/Services.antt =====
-- `ensureMediaService` and `patchUpstreamService` of internal/controller/workload_reconciler.go.
pub mod Patched
pub mod Laws
use mathlib.Core.Logic.{ite}
use mcp_media.Prelude.{
  Bool, Option, none, some, List, [], ◌∷◌, if◌then◌else◌, ◌%◌, ◌^◌, ◌-◌, ltb, ℕ,
}
use mathlib.Core.List.{map}
use mcp_media.Names.{String, StringMap, get, put, ◌==◌}
use mcp_media.Prelude.Int.{ℤ, pos, negsuc, eqb_ℤ}
use mcp_media.Text.{Bytes, codes, is_empty}
use mcp_media.Checked.{Result, ok, ◌>>=◌}
use mcp_media.Sign.Decimal.{parse_int}
use mcp_media.Store.{find, store}
use mcp_media.Controller.Cluster.{
  Service, ServicePort, number, Call, get_service, write_service, patch_service, Failure,
  call_failed, no_port, malformed_port, Service-discrete, ServicePorts-discrete,
}
use mcp_media.Controller.Api.{Api}
use mcp_media.Controller.Workload.{Workload, media_name}

abbrev pub blank_service : Service
blank_service = record { labels = []; selector = []; ports = []; owner = none }

abbrev media_port : String → ℕ → ServicePort
media_port name n = record { name = name; port = pos n; target = number (pos n) }

abbrev pub media_ports : List ServicePort
media_ports = media_port "serve" 8090 ∷ media_port "mint" 8091 ∷ []

-- The label of the group, where the workload has one.
abbrev pub group_label : String → StringMap → StringMap
group_label g labels = if g == "" then labels else put "media.media/group" g labels

abbrev pub Services : Type 0
Services = List (String × Service)

module _ (api : Api) (w : Workload) where
  -- The function that `ensureMediaService` hands to CreateOrUpdate.
  unfoldable pub shape_service : Service → Result Failure Service
  shape_service svc = do
    owner ← api.set_owner w.uid svc.owner
    ok (record {
      labels = group_label (get "media.media/group" w.template_annotations) svc.labels;
      selector = w.match_labels;
      ports = media_ports;
      owner = owner;
    })

  unfoldable pub ensure_media_service : Services → Services × Result Failure Service
  ensure_media_service = api.put_service (media_name w) blank_service shape_service

abbrev signed32 : ℕ → ℤ
signed32 w = if ltb w (2 ^ 31) then pos w else negsuc (2 ^ 32 - w - 1)

-- int32(n)
unfoldable pub wrap32 : ℤ → ℤ
wrap32 (pos n) = signed32 (n % 2 ^ 32)
wrap32 (negsuc n) = signed32 (2 ^ 32 - 1 - n % 2 ^ 32)

-- The port in the annotation, or else that of the first container.
unfoldable pub upstream_port : Workload → Bytes
upstream_port w =
    if is_empty (codes (get "media.media/upstream-port" w.template_annotations))
    then w.first_container_port
    else codes (get "media.media/upstream-port" w.template_annotations)

unfoldable pub retarget : ℤ → ServicePort → ServicePort
retarget up p = if eqb_ℤ p.port (wrap32 up) then record p { target = number (pos 5780) } else p

module _ (works : Call → Bool) (w : Workload) where
  -- The ports of a service that was found are patched if that changes one.
  unfoldable pub patch_found : ℤ → Option Service → Services → Services × Option Failure
  patch_found up none services = (services, some call_failed)
  patch_found up (some svc) services =
      ite (ServicePorts-discrete svc.ports (map (retarget up) svc.ports)) (services, none)
        (if works patch_service
          then (store w.name (record svc { ports = map (retarget up) svc.ports }) services, none)
          else (services, some call_failed))

  unfoldable pub patch_port : Option ℤ → Services → Services × Option Failure
  patch_port none services = (services, some malformed_port)
  patch_port (some up) services =
      if works get_service
      then patch_found up (find w.name services) services
      else (services, some call_failed)

  unfoldable pub patch_upstream_service : Services → Services × Option Failure
  patch_upstream_service services =
      if is_empty (upstream_port w)
      then (services, some no_port)
      else patch_port (parse_int (upstream_port w)) services
