-- ===== src/Controller/Reconcile/Routes.antt =====
-- The way from the media ingress to the pods of the workload.
use mathlib.Core.List.{Mem, mem-cons_self}
use mcp_media.Prelude.{
  ◌≡◌, ◌≢◌, refl, Bool, true, Option, some, none, [], ◌∷◌, inl, inr, arith, if◌then◌else◌,
}
use mcp_media.Prelude.Int.{pos}
use mcp_media.Names.{String, get, ◌==◌, str_eq_iff}
use mcp_media.Checked.{ok, >>=-ok, ok_injective}
use mcp_media.Store.{find}
use mcp_media.Controller.Cluster.{Cluster, Failure, Ingress, Service, Rule, ServicePort, number}
use mcp_media.Controller.Api.{Api, IsApi}
use mcp_media.Controller.Workload.{Workload, media_name}
use mcp_media.Controller.Services.{Services, shape_service}
use mcp_media.Controller.Source.{Ingresses, find_source_ingress}
use mcp_media.Controller.Ingresses.{media_ingress, shape_ingress, is_complete, annotated}
use mcp_media.Controller.Reconcile.{
  failed, then_proxy, ensure_media, reconcile_flags, reconcile_workload,
}
use mcp_media.Controller.Reconcile.Settled.{Settled, ensure_media-Ends, MediaEnds}
use mcp_media.Controller.Reconcile.Laws.{then_proxy-Settled}

-- The rule that sends everything on this host to the media service.
abbrev media_rule : Workload → String → Rule
media_rule w host = record {
  host = host;
  paths = some (record { path = "/"; backend = some (media_name w, pos 8090) } ∷ []);
}

-- The media ingress leads to the media service, and that to the pods of the workload. Both are the
-- workload's own.
pub record Routed (w : Workload) (c : Cluster) : Type 0 where
  pub service : Service
  pub ingress : Ingress
  pub host : String
  pub service_stored : find (media_name w) c.services ≡ some service
  pub ingress_stored : find (media_name w) c.ingresses ≡ some ingress
  pub rules : ingress.rules ≡ media_rule w host ∷ []
  -- the port of the rule, which leads to the one that the sidecar serves on
  pub port : ServicePort
  pub has_port : Mem port service.ports
  pub leads : (port.port ≡ pos 8090) × (port.target ≡ number (pos 8090))
  pub selector : service.selector ≡ w.match_labels
  pub owners : (service.owner ≡ some w.uid) × (ingress.owner ≡ some w.uid)

abbrev serve_port : ServicePort
serve_port = record { name = "serve"; port = pos 8090; target = number (pos 8090) }

service_in_shape :
    (api : Api) (law : IsApi api) (w : Workload) (a b : Service)
    → shape_service api w a ≡ ok b
    → (b.selector ≡ w.match_labels) × Mem serve_port b.ports × (b.owner ≡ some w.uid)
unfolding shape_service
service_in_shape api law w a b h = >>=-ok (api.set_owner w.uid a.owner) _ h (λ owner owned h.
    let same = ok_injective h in
    rw (← same) (refl, mem-cons_self, law.owners.sets w.uid a.owner owner owned))

module _ (api : Api) (law : IsApi api) (w : Workload) where
  ingress_in_shape :
      (services : Services) (ings : Ingresses) (a b : Ingress)
      → shape_ingress api w services ings a ≡ ok b
      → ((host : String) × (b.rules ≡ media_rule w host ∷ [])) × (b.owner ≡ some w.uid)
  unfolding shape_ingress media_ingress
  ingress_in_shape services ings a b h = >>=-ok (api.set_owner w.uid a.owner) _ h (λ owner owned h.
      >>=-ok
        (if is_complete (annotated w)
          then ok none
          else find_source_ingress api.works services w ings)
        _ h
        (λ source found h.
          let same = ok_injective h in
          rw (← same) ((_, refl), law.owners.sets w.uid a.owner owner owned)))

  pub Settled-Routed : (c : Cluster) → Settled api w c → Routed w c
  Settled-Routed c s =
      let (selects, serves, own) =
        service_in_shape api law w s.service s.service s.service_settled.in_shape in
      let ((host, leads), owned) =
        ingress_in_shape c.services c.ingresses s.ingress s.ingress s.ingress_settled.in_shape in
      record {
        service = s.service;
        ingress = s.ingress;
        host = host;
        service_stored = s.service_settled.stored;
        ingress_stored = s.ingress_settled.stored;
        rules = leads;
        port = serve_port;
        has_port = serves;
        leads = (refl, refl);
        selector = selects;
        owners = (own, owned);
      }

  then_proxy-Routed :
      (proxy : Bool) (r : Cluster × Option Failure)
      → MediaEnds api w r
      → ((e : Failure) → (then_proxy api w proxy r).1 ≢ failed e)
      → Routed w (then_proxy api w proxy r).0
  unfolding then_proxy
  then_proxy-Routed proxy (c, some e) ends succeeds = absurd (succeeds e refl)
  then_proxy-Routed proxy (c, none) (inl (e, raised, again)) succeeds = absurd (ground arith)
  then_proxy-Routed proxy (c, none) (inr (quiet, s)) succeeds =
      Settled-Routed (then_proxy api w proxy (c, none)).0 (then_proxy-Settled api law w proxy c s)

  -- With controllerutil as it is documented: after a reconciliation that does not fail, of a workload
  -- whose template asks for the sidecar, the media ingress and the media service are the workload's own,
  -- the ingress sends all paths of one host to port 8090 of the service, and the service has that port,
  -- with the target 8090, and selects the pods that the workload selects.
  pub reconcile_workload-Routed :
      (c : Cluster)
      → get "media.media/inject-sidecar" w.template_annotations ≡ "true"
      → ((e : Failure) → (reconcile_workload api w c).1 ≢ failed e)
      → Routed w (reconcile_workload api w c).0
  unfolding reconcile_workload reconcile_flags
  reconcile_workload-Routed c asked succeeds =
      let asked : (get "media.media/inject-sidecar" w.template_annotations == "true") ≡ true =
        (str_eq_iff (get "media.media/inject-sidecar" w.template_annotations) "true").1 asked in
      let succeeds = rw asked at succeeds in
      rw asked (
        then_proxy-Routed (get "media.media/inject-proxy" w.template_annotations == "true")
          (ensure_media api w c) (ensure_media-Ends api law w c) succeeds)
