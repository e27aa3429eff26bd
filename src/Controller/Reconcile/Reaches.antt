-- ===== src/Controller/Reconcile/Reaches.antt =====
-- When the branch for the sidecar succeeds.
use mcp_media.Prelude.{
  ◌≡◌, refl, ap, ◌∙◌, true, Option, some, none, Bool-cases, inl, inr, arith, if◌then◌else◌,
  Option-cases,
}
use mcp_media.Checked.{Result, ok, err}
use mcp_media.Store.{find}
use mcp_media.Controller.Cluster.{
  Cluster, Call, Failure, Ingress, Service, get_service, write_service, get_ingress, write_ingress,
}
use mcp_media.Controller.Api.{Api, IsApi, current}
use mcp_media.Controller.Workload.{Workload, media_name}
use mcp_media.Controller.Api.Laws.{IsOwnable, set_owner_of_IsOwnable}
use mcp_media.Controller.Services.{Services, shape_service, blank_service, ensure_media_service}
use mcp_media.Controller.Source.{Ingresses, find_source_ingress}
use mcp_media.Controller.Source.Reference.{have_services, find_source_ingress_first}
use mcp_media.Controller.Ingresses.{
  shape_ingress, blank_ingress, ensure_ingress_object, is_complete, annotated,
}
use mcp_media.Controller.Reconcile.{ensure_media, after_service, after_ingress}
use mcp_media.Controller.Reconcile.Settled.{ensure_media-Ends}
use mcp_media.Controller.Reconcile.Routes.{Routed, Settled-Routed}

-- The media objects that are there may be written by this workload.
pub record IsFree (w : Workload) (c : Cluster) : Type 0 where
  pub service_free :
      (a : Service) → find (media_name w) c.services ≡ some a → IsOwnable w.uid a.owner
  pub ingress_free :
      (a : Ingress) → find (media_name w) c.ingresses ≡ some a → IsOwnable w.uid a.owner
  pub all_services : have_services c.ingresses ≡ true

module _ (api : Api) (law : IsApi api) (w : Workload) where
  shape_service-current :
      (services : Services)
      → ((a : Service) → find (media_name w) services ≡ some a → IsOwnable w.uid a.owner)
      → (a : Service) × (shape_service api w (current blank_service (find (media_name w) services))
          ≡ ok a)
  unfolding shape_service
  shape_service-current services free = elim (Option-cases (find (media_name w) services)) [
    | inl missing ↦
        rw (missing, set_owner_of_IsOwnable api.set_owner law.owners w.uid none (inl refl))
          (_, refl)
    | inr (a, found) ↦
        rw (found, set_owner_of_IsOwnable api.set_owner law.owners w.uid a.owner (free a found))
          (_, refl)
  ]

  source_found :
      (services : Services) (ings : Ingresses)
      → have_services ings ≡ true
      → (o : Option Ingress) × ((if is_complete (annotated w)
            then ok none
            else find_source_ingress api.works services w ings)
          ≡ ok o)
  source_found services ings h = elim (Bool-cases (is_complete (annotated w))) [
    | inl complete ↦ (none, rw complete refl)
    | inr asks ↦
        let first = find_source_ingress_first api.works services w ings h in
        (
          _,
          ap (λ b. if b then ok none else find_source_ingress api.works services w ings) asks
              ∙ first,
        )
  ]

  shape_ingress-current :
      (services : Services) (ings : Ingresses)
      → have_services ings ≡ true
      → ((a : Ingress) → find (media_name w) ings ≡ some a → IsOwnable w.uid a.owner)
      → (a : Ingress) × (shape_ingress api w services ings
            (current blank_ingress (find (media_name w) ings))
          ≡ ok a)
  unfolding shape_ingress
  shape_ingress-current services ings h free =
      let (o, found) = source_found services ings h in
      elim (Option-cases (find (media_name w) ings)) [
        | inl missing ↦
            rw
              (
                missing,
                set_owner_of_IsOwnable api.set_owner law.owners w.uid none (inl refl),
                found,
              )
              (_, refl)
        | inr (a, there) ↦
            rw
              (
                there,
                set_owner_of_IsOwnable api.set_owner law.owners w.uid a.owner (free a there),
                found,
              )
              (_, refl)
      ]

  ensure_media_service_succeeds :
      (services : Services)
      → ((call : Call) → api.works call ≡ true)
      → ((a : Service) → find (media_name w) services ≡ some a → IsOwnable w.uid a.owner)
      → (a : Service) × ((ensure_media_service api w services).1 ≡ ok a)
  unfolding ensure_media_service
  ensure_media_service_succeeds services all_work free =
      let (a, shaped) = shape_service-current services free in
      (
        a,
        law.services.succeeds (media_name w) blank_service (shape_service api w) services a
            (all_work get_service) (all_work write_service) shaped,
      )

  ensure_ingress_object_succeeds :
      (services : Services) (ings : Ingresses)
      → ((call : Call) → api.works call ≡ true)
      → have_services ings ≡ true
      → ((a : Ingress) → find (media_name w) ings ≡ some a → IsOwnable w.uid a.owner)
      → (a : Ingress) × ((ensure_ingress_object api w services ings).1 ≡ ok a)
  unfolding ensure_ingress_object
  ensure_ingress_object_succeeds services ings all_work h free =
      let (a, shaped) = shape_ingress-current services ings h free in
      (
        a,
        law.ingresses.succeeds (media_name w) blank_ingress (shape_ingress api w services ings) ings
            a (all_work get_ingress) (all_work write_ingress) shaped,
      )

  after_ingress_quiet :
      (r : Ingresses × Result Failure Ingress) (c : Cluster) {ing : Ingress}
      → r.1 ≡ ok ing
      → (after_ingress api w r c).1 ≡ none
  unfolding after_ingress
  after_ingress_quiet (ings, ok a) c h = refl
  after_ingress_quiet (ings, err e) c h = absurd (ground arith)

  after_service_quiet :
      (r : Services × Result Failure Service) (c : Cluster) {a : Service}
      → ((call : Call) → api.works call ≡ true)
      → IsFree w c
      → r.1 ≡ ok a
      → (after_service api w r c).1 ≡ none
  unfolding after_service
  after_service_quiet (services, err e) c all_work free h = absurd (ground arith)
  after_service_quiet (services, ok a) c all_work free h =
      let (ing, there) =
        ensure_ingress_object_succeeds services c.ingresses all_work free.all_services
          free.ingress_free in
      after_ingress_quiet (ensure_ingress_object api w services c.ingresses)
        (record c { services = services }) there

  ensure_media_quiet :
      (c : Cluster)
      → ((call : Call) → api.works call ≡ true)
      → IsFree w c
      → (ensure_media api w c).1 ≡ none
  unfolding ensure_media
  ensure_media_quiet c all_work free =
      let (a, there) = ensure_media_service_succeeds c.services all_work free.service_free in
      after_service_quiet (ensure_media_service api w c.services) c all_work free there

  -- With controllerutil as it is documented: where all calls work, nobody else owns the media objects
  -- and every path of an ingress leads to a service, the branch for the sidecar has no error and leaves
  -- an ingress that sends all paths of one host to port 8090 of the media service, which has that port,
  -- with the target 8090, and selects the pods of the workload.
  pub ensure_media_succeeds :
      (c : Cluster)
      → ((call : Call) → api.works call ≡ true)
      → IsFree w c
      → ((ensure_media api w c).1 ≡ none) × Routed w (ensure_media api w c).0
  ensure_media_succeeds c all_work free = elim (ensure_media-Ends api law w c) [
    | inr (quiet, s) ↦ (quiet, Settled-Routed api law w (ensure_media api w c).0 s)
    | inl (e, raised, again) ↦ absurd (ground (arith, raised, ensure_media_quiet c all_work free))
  ]
