-- ===== src/Controller/Reconcile/Kept.antt =====
-- What a reconciliation does not touch.
use mcp_media.Prelude.{◌≡◌, refl, ◌∙◌, Bool, true, false, Option, some, none, inl, inr}
use mcp_media.Names.{String, get, ◌==◌, ◌<>◌}
use mcp_media.Store.{find, store, find-store}
use mcp_media.Controller.Cluster.{Cluster, Failure}
use mcp_media.Controller.Api.{Api, IsApi}
use mcp_media.Controller.Workload.{Workload, media_name}
use mcp_media.Controller.Services.{Services, patch_upstream_service}
use mcp_media.Controller.Services.Laws.{patch_upstream_service-Retargets, Retargets}
use mcp_media.Controller.Ingresses.{ensure_ingress_object}
use mcp_media.Controller.PublicUrl.Laws.{
  adapters, ensure_sidecar_public_url-adapters, ensure_sidecar_public_url-others,
}
use mcp_media.Controller.Reconcile.{
  with_services, then_proxy, after_ingress, after_service, ensure_media, reconcile_flags,
  reconcile_workload,
}
use mcp_media.Controller.Reconcile.Settled.{ensure_media_service-Ends, ensure_ingress_object-Ends}

pub with_services-cluster :
    (p : Services × Option Failure) (c : Cluster)
    → (with_services p c).0 ≡ record c { services = p.0 }
unfolding with_services
with_services-cluster (services, none) c = refl
with_services-cluster (services, some e) c = refl

pub with_services_again :
    (p : Services × Option Failure) (c : Cluster)
    → with_services p (record c { services = p.0 }) ≡ with_services p c
unfolding with_services
with_services_again (services, none) c = refl
with_services_again (services, some e) c = refl

-- Only objects with the name of the workload or of its media objects change, and no StatefulSet.
pub record Frame (name : String) (c c' : Cluster) : Type 0 where
  pub services_kept :
      (other : String)
      → (name == other) ≡ false
      → (name <> "-media" == other) ≡ false
      → find other c'.services ≡ find other c.services
  pub ingresses_kept :
      (other : String)
      → (name <> "-media" == other) ≡ false
      → find other c'.ingresses ≡ find other c.ingresses
  pub deployments_kept :
      (other : String)
      → (name == other) ≡ false
      → find other c'.deployments ≡ find other c.deployments
  pub stateful_sets_kept : c'.stateful_sets ≡ c.stateful_sets

pub Frame-refl : (name : String) (c : Cluster) → Frame name c c
Frame-refl name c = record {
  services_kept = λ other n m. refl;
  ingresses_kept = λ other m. refl;
  deployments_kept = λ other n. refl;
  stateful_sets_kept = refl;
}

Frame-trans : {name : String} {a b c : Cluster} → Frame name a b → Frame name b c → Frame name a c
Frame-trans s t = record {
  services_kept = λ other n m. t.services_kept other n m ∙ s.services_kept other n m;
  ingresses_kept = λ other m. t.ingresses_kept other m ∙ s.ingresses_kept other m;
  deployments_kept = λ other n. t.deployments_kept other n ∙ s.deployments_kept other n;
  stateful_sets_kept = t.stateful_sets_kept ∙ s.stateful_sets_kept;
}

module _ (api : Api) (w : Workload) where
  pub then_proxy-cluster :
      (c : Cluster)
      → (then_proxy api w true (c, none)).0
        ≡ record c { services = (patch_upstream_service api.works w c.services).0 }
  unfolding then_proxy
  then_proxy-cluster c = with_services-cluster (patch_upstream_service api.works w c.services) c

  -- The next request for the workload also reads the same.
  pub record Kept (c c' : Cluster) : Type 0 where
    pub adapters_same : adapters api.works w c'.deployments ≡ adapters api.works w c.deployments
    pub frame : Frame w.name c c'

  Kept-trans : {a b c : Cluster} → Kept a b → Kept b c → Kept a c
  Kept-trans s t = record {
    adapters_same = t.adapters_same ∙ s.adapters_same;
    frame = Frame-trans s.frame t.frame;
  }

  services-Kept :
      (c : Cluster) (services : Services)
      → ((other : String)
          → (w.name == other) ≡ false
          → (media_name w == other) ≡ false
          → find other services ≡ find other c.services)
      → Kept c (record c { services = services })
  services-Kept c services same = record {
    adapters_same = refl;
    frame = record {
      services_kept = same;
      ingresses_kept = λ other m. refl;
      deployments_kept = λ other n. refl;
      stateful_sets_kept = refl;
    };
  }

  then_proxy-Kept :
      (proxy : Bool) (r : Cluster × Option Failure) → Kept r.0 (then_proxy api w proxy r).0
  then_proxy-Kept proxy (c, some e) =
      unfold then_proxy in record { adapters_same = refl; frame = Frame-refl w.name c }
  then_proxy-Kept false (c, none) =
      unfold then_proxy in record { adapters_same = refl; frame = Frame-refl w.name c }
  then_proxy-Kept true (c, none) =
      let patched : Retargets api.works w c.services
          (patch_upstream_service api.works w c.services).0 =
        patch_upstream_service-Retargets api.works w c.services in
      rw (then_proxy-cluster c) (services-Kept c _ (λ other n m. patched.others other n))

module _ (api : Api) (law : IsApi api) (w : Workload) where
  after_ingress-Kept :
      (services : Services) (c : Cluster)
      → Kept api w c (after_ingress api w (ensure_ingress_object api w services c.ingresses) c).0
  unfolding after_ingress
  after_ingress-Kept services c = elim (ensure_ingress_object-Ends api law w services c.ingresses) [
    | inl (e, kept) ↦ rw kept record { adapters_same = refl; frame = Frame-refl w.name c }
    | inr (ing, stored, settled) ↦ rw stored record {
      adapters_same = ensure_sidecar_public_url-adapters api.works w ing c.deployments;
      frame = record {
        services_kept = λ other n m. refl;
        ingresses_kept = λ other m. find-store (media_name w) other ing c.ingresses ∙ rw m refl;
        deployments_kept =
            λ other n. ensure_sidecar_public_url-others api.works w ing c.deployments other n;
        stateful_sets_kept = refl;
      };
    }
  ]

  ensure_media-Kept : (c : Cluster) → Kept api w c (ensure_media api w c).0
  unfolding ensure_media after_service
  ensure_media-Kept c = elim (ensure_media_service-Ends api law w c.services) [
    | inl (e, kept) ↦ rw kept record { adapters_same = refl; frame = Frame-refl w.name c }
    | inr (a, stored, settled) ↦
        let services : Services = store (media_name w) a c.services in
        rw stored (
          Kept-trans api w
            (services-Kept api w c services
              (λ other n m. find-store (media_name w) other a c.services ∙ rw m refl))
            (after_ingress-Kept services (record c { services = services })))
  ]

  flags-Kept :
      (sidecar proxy : Bool) (c : Cluster) → Kept api w c (reconcile_flags api w sidecar proxy c).0
  unfolding reconcile_flags
  flags-Kept true proxy c =
      Kept-trans api w (ensure_media-Kept c) (then_proxy-Kept api w proxy (ensure_media api w c))
  flags-Kept false proxy c = then_proxy-Kept api w proxy (c, none)

  pub reconcile_workload-Kept : (c : Cluster) → Kept api w c (reconcile_workload api w c).0
  unfolding reconcile_workload
  reconcile_workload-Kept c =
      flags-Kept (get "media.media/inject-sidecar" w.template_annotations == "true")
        (get "media.media/inject-proxy" w.template_annotations == "true") c
