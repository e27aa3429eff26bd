-- ===== src/Tests/Reconciling.antt =====
-- The theorems on the reconciler, in a namespace with one workload.
use mcp_media.Checked.{ok}
use mcp_media.Prelude.{◌≡◌, ◌≢◌, refl, some, none, [], ◌∷◌, arith}
use mcp_media.Prelude.Int.{pos}
use mcp_media.Names.{StringMap, get}
use mcp_media.Tests.Kubernetes.{server, server-IsApi, own_by, put, put_changed}
use mcp_media.Store.{find}
use mcp_media.Controller.Cluster.{Cluster, Failure, Service, number, Ingress, WorkloadObject}
use mcp_media.Controller.Workload.{Workload}
use mcp_media.Controller.Services.{
  upstream_port, patch_upstream_service, patch_port, ensure_media_service, shape_service,
}
use mcp_media.Controller.Services.Patched.{
  PatchEnds, patch_upstream_service-PatchEnds, patch_found_succeeds,
}
use mcp_media.Controller.Source.{find_source_ingress, search_source, match_rules, match_paths}
use mcp_media.Controller.Source.Reference.{find_source_ingress_first}
use mcp_media.Controller.Ingresses.{ensure_ingress_object, shape_ingress, is_complete, annotated}
use mcp_media.Controller.Reconcile.{
  reconcile, reconcile_workload, ensure_media, done, failed, reconcile_flags, then_proxy,
  after_service, after_ingress,
}
use mcp_media.Controller.Reconcile.Laws.{reconcile_idempotent, reconcile-Frame}
use mcp_media.Controller.Reconcile.Kept.{Frame}
use mcp_media.Controller.Reconcile.Routes.{Routed, reconcile_workload-Routed}
use mcp_media.Controller.Reconcile.Reaches.{IsFree, ensure_media_succeeds}
use mcp_media.Text.{is_empty}
use mcp_media.Sign.Decimal.{parse_int}

abbrev labels : StringMap
labels = ("app", "music") ∷ []

abbrev annotations : StringMap
annotations = ("media.media/inject-sidecar", "true") ∷ []

abbrev music : WorkloadObject
music = record {
  uid = "u1";
  template_annotations = annotations;
  match_labels = labels;
  containers = record { name = "main"; ports = pos 5779 ∷ []; env = [] } ∷ [];
}

abbrev music_service : Service
music_service = record {
  labels = [];
  selector = labels;
  ports = record { name = "mcp"; port = pos 5779; target = number (pos 5779) } ∷ [];
  owner = none;
}

abbrev music_ingress : Ingress
music_ingress = record {
  annotations = [];
  class = some "nginx";
  rules =
      record {
        host = "music.example.org";
        paths = some (record { path = "/"; backend = some ("music", pos 5779) } ∷ []);
      }
      ∷ [];
  tls = [];
  owner = none;
}

abbrev town : Cluster
town = record {
  deployments = ("music", music) ∷ [];
  stateful_sets = [];
  services = ("music", music_service) ∷ [];
  ingresses = ("music", music_ingress) ∷ [];
}

reconcile_idempotent_example :
    let q = reconcile server "music" town in reconcile server "music" q.0 ≡ q
reconcile_idempotent_example = reconcile_idempotent server server-IsApi "music" town

reconcile-Frame_example : Frame "music" town (reconcile server "music" town).0
reconcile-Frame_example = reconcile-Frame server server-IsApi "music" town

abbrev workload : Workload
workload = record {
  name = "music";
  uid = "u1";
  template_annotations = annotations;
  match_labels = labels;
  first_container_port = b'5' ∷ b'7' ∷ b'7' ∷ b'9' ∷ [];
}

town-IsFree : IsFree workload town
unfolding find
town-IsFree = record {
  service_free = λ a found. absurd (ground arith);
  ingress_free = λ a found. absurd (ground arith);
  all_services = refl;
}

ensure_media_succeeds_example :
    ((ensure_media server workload town).1 ≡ none)
    × Routed workload (ensure_media server workload town).0
ensure_media_succeeds_example =
    ensure_media_succeeds server server-IsApi workload town (λ call. refl) town-IsFree

town-asks : get "media.media/inject-sidecar" annotations ≡ "true"
unfolding get
town-asks = refl

find_source_ingress_first_example :
    find_source_ingress server.works town.services workload town.ingresses ≡ ok (some music_ingress)
find_source_ingress_first_example =
    find_source_ingress_first server.works town.services workload town.ingresses refl

town-succeeds : (reconcile_workload server workload town).1 ≡ done
unfolding reconcile_workload reconcile_flags then_proxy ensure_media after_service after_ingress
    ensure_media_service ensure_ingress_object shape_service shape_ingress find get is_complete
    annotated find_source_ingress search_source match_rules match_paths own_by put put_changed
town-succeeds = refl

never_fails : (e : Failure) → (reconcile_workload server workload town).1 ≢ failed e
never_fails e h = absurd (ground (arith, town-succeeds, h))

reconcile_workload-Routed_example : Routed workload (reconcile_workload server workload town).0
reconcile_workload-Routed_example =
    reconcile_workload-Routed server server-IsApi workload town town-asks never_fails

town-patched : (patch_upstream_service server.works workload town.services).1 ≡ none
unfolding patch_upstream_service upstream_port is_empty get patch_port parse_int find
town-patched =
    patch_found_succeeds server.works workload (pos 5779) music_service town.services refl

patch_upstream_service-PatchEnds_example :
    PatchEnds server.works workload town.services
      (patch_upstream_service server.works workload town.services)
patch_upstream_service-PatchEnds_example =
    patch_upstream_service-PatchEnds server.works workload town.services
