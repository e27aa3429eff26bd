-- ===== src/Controller/Reconcile.antt =====
-- `Reconcile` and `reconcileWorkload` of internal/controller/workload_reconciler.go.
pub mod Laws
pub mod Routes
pub mod Reaches
pub mod Settled
pub mod Kept
use mcp_media.Prelude.{Bool, true, false, Option, none, some, if◌then◌else◌}
use mcp_media.Names.{String, get, ◌==◌}
use mcp_media.Checked.{Result, ok, err}
use mcp_media.Store.{find}
use mcp_media.Controller.Cluster.{
  Cluster, Call, get_deployment, get_stateful_set, Failure, call_failed, Ingress, Service,
  WorkloadObject,
}
use mcp_media.Controller.Api.{Api}
use mcp_media.Controller.Workload.{Workload, adapter}
use mcp_media.Controller.Services.{ensure_media_service, patch_upstream_service, Services}
use mcp_media.Controller.Source.{Ingresses}
use mcp_media.Controller.Ingresses.{ensure_ingress_object}
use mcp_media.Controller.PublicUrl.{ensure_sidecar_public_url}

-- The result of a reconciliation: nothing more to do, another one after five seconds, or an error.
pub data Outcome : Type 0 where
  done requeue : Outcome
  failed : Failure → Outcome

-- A patch that does not succeed is tried again later.
unfoldable pub with_services : Services × Option Failure → Cluster → Cluster × Outcome
with_services (services, none) c = (record c { services = services }, done)
with_services (services, some _) c = (record c { services = services }, requeue)

module _ (api : Api) (w : Workload) where
  -- What follows the write of the ingress.
  unfoldable pub after_ingress :
      Ingresses × Result Failure Ingress → Cluster → Cluster × Option Failure
  after_ingress (ingresses, err e) c = (record c { ingresses = ingresses }, some e)
  after_ingress (ingresses, ok ing) c = (
    record c {
      ingresses = ingresses;
      deployments = ensure_sidecar_public_url api.works w ing c.deployments;
    },
    none,
  )

  unfoldable pub after_service :
      Services × Result Failure Service → Cluster → Cluster × Option Failure
  after_service (services, err e) c = (record c { services = services }, some e)
  after_service (services, ok _) c =
      after_ingress (ensure_ingress_object api w services c.ingresses)
        (record c { services = services })

  -- The branch for the sidecar.
  unfoldable pub ensure_media : Cluster → Cluster × Option Failure
  ensure_media c = after_service (ensure_media_service api w c.services) c

  -- The branch for the proxy, which the sidecar's errors keep from being reached.
  unfoldable pub then_proxy : Bool → Cluster × Option Failure → Cluster × Outcome
  then_proxy proxy (c, some e) = (c, failed e)
  then_proxy false (c, none) = (c, done)
  then_proxy true (c, none) = with_services (patch_upstream_service api.works w c.services) c

  -- `reconcileWorkload`, with its two flags
  unfoldable pub reconcile_flags : Bool → Bool → Cluster → Cluster × Outcome
  reconcile_flags true proxy c = then_proxy proxy (ensure_media c)
  reconcile_flags false proxy c = then_proxy proxy (c, none)

  unfoldable pub reconcile_workload : Cluster → Cluster × Outcome
  reconcile_workload =
      reconcile_flags (get "media.media/inject-sidecar" w.template_annotations == "true")
        (get "media.media/inject-proxy" w.template_annotations == "true")

module _ (api : Api) (name : String) where
  -- Neither kind of workload is there: it was deleted.
  unfoldable pub reconcile_stateful_set : Option WorkloadObject → Cluster → Cluster × Outcome
  reconcile_stateful_set none c = (c, done)
  reconcile_stateful_set (some s) c = reconcile_workload api (adapter name s) c

  unfoldable pub reconcile_deployment : Option WorkloadObject → Cluster → Cluster × Outcome
  reconcile_deployment (some d) c = reconcile_workload api (adapter name d) c
  reconcile_deployment none c =
      if api.works get_stateful_set
      then reconcile_stateful_set (find name c.stateful_sets) c
      else (c, failed call_failed)

  -- `Reconcile` for the workload of this name
  unfoldable pub reconcile : Cluster → Cluster × Outcome
  reconcile c =
      if api.works get_deployment
      then reconcile_deployment (find name c.deployments) c
      else (c, failed call_failed)
