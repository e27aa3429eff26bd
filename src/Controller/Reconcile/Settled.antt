-- ===== src/Controller/Reconcile/Settled.antt =====
-- The objects of the workload after they were ensured, and what ensuring them again does.
use text.Mathlib.TextLemmas.{append_cancel_left, append-nil, cons≢nil}
use mcp_media.Prelude.{◌≡◌, refl, sym, ◌∙◌, false, Option, some, none, Bool-cases, inl, inr, ◌⊎◌}
use mcp_media.Names.{◌==◌, str_eq_iff}
use mcp_media.Checked.{ok, err}
use mcp_media.Store.{store}
use mcp_media.Controller.Cluster.{
  Cluster, Failure, Ingress, Service, get_service, write_service, get_ingress, write_ingress,
}
use mcp_media.Controller.Api.{Api, IsApi}
use mcp_media.Controller.Workload.{Workload, media_name}
use mcp_media.Controller.Api.Laws.{IsSettled, put_cases, put_of_IsSettled}
use mcp_media.Controller.Services.{
  Services, blank_service, shape_service, ensure_media_service, patch_upstream_service,
}
use mcp_media.Controller.Services.Laws.{
  shape_service_again, patch_upstream_service-Retargets, Retargets,
}
use mcp_media.Controller.Source.{Ingresses}
use mcp_media.Controller.Ingresses.{blank_ingress, shape_ingress, ensure_ingress_object}
use mcp_media.Controller.Ingresses.Laws.{
  shape_ingress_again, shape_ingress_same, shape_ingress-store,
}
use mcp_media.Controller.PublicUrl.{ensure_sidecar_public_url}
use mcp_media.Controller.PublicUrl.Laws.{ensure_sidecar_public_url_again}
use mcp_media.Controller.Reconcile.{after_ingress, after_service, ensure_media}

-- The media objects do not have the name of the workload.
pub media_name_fresh : (w : Workload) → (w.name == media_name w) ≡ false
media_name_fresh w = elim (Bool-cases (w.name == media_name w)) [
  | inl same ↦
      let e : "-media" ≡ "" =
        append_cancel_left w.name "-media" ""
          (sym ((str_eq_iff w.name (media_name w)).0 same) ∙ sym (append-nil w.name)) in
      absurd (cons≢nil e)
  | inr other ↦ other
]

module _ (api : Api) (w : Workload) where
  abbrev pub ServiceSettled : Services → Service → Type 0
  ServiceSettled = IsSettled (api.works get_service) (media_name w) (shape_service api w)

  abbrev pub IngressSettled : Services → Ingresses → Ingress → Type 0
  IngressSettled services ings =
      IsSettled (api.works get_ingress) (media_name w) (shape_ingress api w services ings) ings

  -- Everything that the branch for the sidecar ensures is there.
  pub record Settled (c : Cluster) : Type 0 where
    pub service : Service
    pub ingress : Ingress
    pub service_settled : ServiceSettled c.services service
    pub ingress_settled : IngressSettled c.services c.ingresses ingress
    pub url_settled : ensure_sidecar_public_url api.works w ingress c.deployments ≡ c.deployments

  -- The sidecar's branch fails, and again in the same way, or it leaves all settled.
  abbrev pub MediaEnds : Cluster × Option Failure → Type 0
  MediaEnds r =
      ((e : Failure) × (r.1 ≡ some e) × (ensure_media api w r.0 ≡ r)) ⊎ ((r.1 ≡ none) × Settled r.0)

module _ (api : Api) (law : IsApi api) (w : Workload) where
  -- What `ensureMediaService` does: nothing, or it leaves the service settled.
  pub ensure_media_service-Ends :
      (services : Services)
      → ((e : Failure) × (ensure_media_service api w services ≡ (services, err e)))
        ⊎ ((a : Service) × (ensure_media_service api w services
              ≡ (store (media_name w) a services, ok a))
            × ServiceSettled api w (store (media_name w) a services) a)
  unfolding ensure_media_service
  ensure_media_service-Ends services =
      put_cases (api.works get_service) (api.works write_service) api.put_service law.services
        (media_name w) blank_service (shape_service api w) services
        (shape_service_again api law.owners w)

  IngressSettled-same :
      (s s' : Services) (ings ings' : Ingresses) (ing : Ingress)
      → ((a : Ingress) → shape_ingress api w s' ings' a ≡ shape_ingress api w s ings a)
      → IsSettled (api.works get_ingress) (media_name w) (shape_ingress api w s ings) ings' ing
      → IngressSettled api w s' ings' ing
  IngressSettled-same s s' ings ings' ing same settled = record {
    readable = settled.readable;
    stored = settled.stored;
    in_shape = same ing ∙ settled.in_shape;
  }

  pub ensure_ingress_object-Ends :
      (services : Services) (ings : Ingresses)
      → ((e : Failure) × (ensure_ingress_object api w services ings ≡ (ings, err e)))
        ⊎ ((a : Ingress) × (ensure_ingress_object api w services ings
              ≡ (store (media_name w) a ings, ok a))
            × IngressSettled api w services (store (media_name w) a ings) a)
  unfolding ensure_ingress_object
  ensure_ingress_object-Ends services ings =
      elim (put_cases (api.works get_ingress) (api.works write_ingress) api.put_ingress
        law.ingresses (media_name w) blank_ingress (shape_ingress api w services ings) ings
        (shape_ingress_again api w law.owners services ings)) [
          | inl (e, kept) ↦ inl (e, kept)
          | inr (a, stored, settled) ↦ inr (
            a,
            stored,
            IngressSettled-same services services ings (store (media_name w) a ings) a
                (shape_ingress-store api w services ings a) settled,
          )
        ]

  ensure_media_service_settled :
      (services : Services) (a : Service)
      → ServiceSettled api w services a
      → ensure_media_service api w services ≡ (services, ok a)
  unfolding ensure_media_service
  ensure_media_service_settled services a settled =
      put_of_IsSettled (api.works get_service) (api.works write_service) api.put_service
        law.services (media_name w) blank_service (shape_service api w) services a settled

  ensure_ingress_object_settled :
      (services : Services) (ings : Ingresses) (a : Ingress)
      → IngressSettled api w services ings a
      → ensure_ingress_object api w services ings ≡ (ings, ok a)
  unfolding ensure_ingress_object
  ensure_ingress_object_settled services ings a settled =
      put_of_IsSettled (api.works get_ingress) (api.works write_ingress) api.put_ingress
        law.ingresses (media_name w) blank_ingress (shape_ingress api w services ings) ings a
        settled

  pub ensure_media_of_Settled : (c : Cluster) → Settled api w c → ensure_media api w c ≡ (c, none)
  unfolding ensure_media after_service after_ingress
  ensure_media_of_Settled c s =
      rw
        (
          ensure_media_service_settled c.services s.service s.service_settled,
          ensure_ingress_object_settled c.services c.ingresses s.ingress s.ingress_settled,
          s.url_settled,
        )
        refl

  abbrev with_ingress : Cluster → Ingress → Cluster
  with_ingress c ing = record c {
    ingresses = store (media_name w) ing c.ingresses;
    deployments = ensure_sidecar_public_url api.works w ing c.deployments;
  }

  pub patched_Settled :
      (c : Cluster)
      → Settled api w c
      → Settled api w (record c { services = (patch_upstream_service api.works w c.services).0 })
  patched_Settled c s =
      let patched : Retargets api.works w c.services
          (patch_upstream_service api.works w c.services).0 =
        patch_upstream_service-Retargets api.works w c.services in
      record {
        service = s.service;
        ingress = s.ingress;
        service_settled = record {
          readable = s.service_settled.readable;
          stored = patched.others (media_name w) (media_name_fresh w) ∙ s.service_settled.stored;
          in_shape = s.service_settled.in_shape;
        };
        ingress_settled =
            IngressSettled-same c.services _ c.ingresses c.ingresses s.ingress
              (shape_ingress_same api w c.services (patch_upstream_service api.works w c.services).0
                (λ name other. patched.selectors name) c.ingresses)
              s.ingress_settled;
        url_settled = s.url_settled;
      }

  service_then_ingress :
      (c : Cluster) (a : Service)
      → ServiceSettled api w c.services a
      → MediaEnds api w (after_ingress api w (ensure_ingress_object api w c.services c.ingresses) c)
  service_then_ingress c a settled = elim (ensure_ingress_object-Ends c.services c.ingresses) [
    | inl (e, kept) ↦
        let first : after_ingress api w (ensure_ingress_object api w c.services c.ingresses) c
            ≡ (c, some e) =
          unfold after_ingress in rw kept refl in
        let again : ensure_media api w c ≡ (c, some e) =
          unfold ensure_media after_service in
          rw (ensure_media_service_settled c.services a settled) first in
        rw first (inl (e, refl, again))
    | inr (ing, stored, ing_settled) ↦
        let first : after_ingress api w (ensure_ingress_object api w c.services c.ingresses) c
            ≡ (with_ingress c ing, none) =
          unfold after_ingress in rw stored refl in
        rw first (
          inr (
            refl,
            record {
              service = a;
              ingress = ing;
              service_settled = settled;
              ingress_settled = ing_settled;
              url_settled = ensure_sidecar_public_url_again api.works w ing c.deployments;
            },
          ))
  ]

  pub ensure_media-Ends : (c : Cluster) → MediaEnds api w (ensure_media api w c)
  unfolding ensure_media after_service
  ensure_media-Ends c = elim (ensure_media_service-Ends c.services) [
    | inl (e, kept) ↦ rw kept (inl (e, refl, rw kept refl))
    | inr (a, stored, settled) ↦
        rw stored (
          service_then_ingress (record c { services = store (media_name w) a c.services }) a
            settled)
  ]
