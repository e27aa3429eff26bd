-- ===== src/Controller/Reconcile/Laws.antt =====
-- Reconciling again.
use mathlib.Core.Option
use mcp_media.Prelude.{
  ◌≡◌, refl, sym, ap, subst, ◌∙◌, Bool, true, false, Option, some, none, Bool-cases, Option-cases,
  inl, inr, arith,
}
use mcp_media.Names.{String, get, ◌==◌}
use mcp_media.Store.{find}
use mcp_media.Controller.Cluster.{
  Cluster, Failure, call_failed, WorkloadObject, get_deployment, get_stateful_set,
}
use mcp_media.Controller.Api.{Api, IsApi}
use mcp_media.Controller.Workload.{Workload, adapter}
use mcp_media.Controller.Services.{patch_upstream_service}
use mcp_media.Controller.Services.Laws.{patch_upstream_service_again}
use mcp_media.Controller.Reconcile.{
  failed, ensure_media, then_proxy, reconcile_flags, reconcile_workload, reconcile_stateful_set,
  reconcile_deployment, reconcile,
}
use mcp_media.Controller.Reconcile.Kept.{
  Kept, Frame, Frame-refl, reconcile_workload-Kept, then_proxy-cluster, with_services_again,
}
use mcp_media.Controller.Reconcile.Settled.{
  Settled, ensure_media_of_Settled, patched_Settled, ensure_media-Ends, MediaEnds,
}

module _ (api : Api) (law : IsApi api) (w : Workload) where
  then_proxy_again :
      (proxy : Bool) (c : Cluster)
      → let q = then_proxy api w proxy (c, none) in then_proxy api w proxy (q.0, none) ≡ q
  then_proxy_again false c = unfold then_proxy in refl
  then_proxy_again true c =
      let p = patch_upstream_service api.works w c.services in
      let patched : Cluster = record c { services = p.0 } in
      let again : then_proxy api w true (patched, none) ≡ then_proxy api w true (c, none) =
        unfold then_proxy in
        rw (patch_upstream_service_again api.works w c.services) (with_services_again p c) in
      ap (λ (d : Cluster). then_proxy api w true (d, none)) (then_proxy-cluster api w c) ∙ again

  pub then_proxy-Settled :
      (proxy : Bool) (c : Cluster)
      → Settled api w c
      → Settled api w (then_proxy api w proxy (c, none)).0
  then_proxy-Settled false c s = unfold then_proxy in s
  then_proxy-Settled true c s =
      subst (Settled api w) (sym (then_proxy-cluster api w c)) (patched_Settled api law w c s)

  ensured_again :
      (proxy : Bool) (r : Cluster × Option Failure)
      → MediaEnds api w r
      → let q = then_proxy api w proxy r in then_proxy api w proxy (ensure_media api w q.0) ≡ q
  ensured_again proxy (c, some e) (inl (e', raised, again)) = unfold then_proxy in rw again refl
  ensured_again proxy (c, none) (inr (quiet, s)) =
      let next : Settled api w (then_proxy api w proxy (c, none)).0 =
        then_proxy-Settled proxy c s in
      rw (ensure_media_of_Settled api law w _ next) (then_proxy_again proxy c)
  ensured_again proxy (c, none) (inl (e', raised, again)) = absurd (ground arith)
  ensured_again proxy (c, some e) (inr (quiet, s)) = absurd (ground arith)

  flags_again :
      (sidecar proxy : Bool) (c : Cluster)
      → let q = reconcile_flags api w sidecar proxy c in reconcile_flags api w sidecar proxy q.0 ≡ q
  unfolding reconcile_flags
  flags_again true proxy c =
      ensured_again proxy (ensure_media api w c) (ensure_media-Ends api law w c)
  flags_again false proxy c = then_proxy_again proxy c

  pub reconcile_workload_again :
      (c : Cluster) → let q = reconcile_workload api w c in reconcile_workload api w q.0 ≡ q
  unfolding reconcile_workload
  reconcile_workload_again c =
      flags_again (get "media.media/inject-sidecar" w.template_annotations == "true")
        (get "media.media/inject-proxy" w.template_annotations == "true") c

module _ (api : Api) (law : IsApi api) (name : String) where
  abbrev deployed : Cluster → Option Workload
  deployed c = Option.map (adapter name) (find name c.deployments)

  of_deployment :
      (w : Workload) (c : Cluster)
      → api.works get_deployment ≡ true
      → deployed c ≡ some w
      → reconcile api name c ≡ reconcile_workload api w c
  unfolding reconcile
  of_deployment w c can found = rw can (chosen (find name c.deployments) found)
    where
      chosen :
          (o : Option WorkloadObject)
          → Option.map (adapter name) o ≡ some w
          → reconcile_deployment api name o c ≡ reconcile_workload api w c
      chosen none found = absurd (ground arith)
      chosen (some d) found =
          let same : adapter name d ≡ w = ground arith in
          unfold reconcile_deployment in rw same refl

  of_stateful_set :
      (c : Cluster)
      → api.works get_deployment ≡ true
      → api.works get_stateful_set ≡ true
      → deployed c ≡ none
      → reconcile api name c ≡ reconcile_stateful_set api name (find name c.stateful_sets) c
  unfolding reconcile
  of_stateful_set c can can_set missing = rw can (chosen (find name c.deployments) missing)
    where
      chosen :
          (o : Option WorkloadObject)
          → Option.map (adapter name) o ≡ none
          → reconcile_deployment api name o c
            ≡ reconcile_stateful_set api name (find name c.stateful_sets) c
      chosen none missing = unfold reconcile_deployment in rw can_set refl
      chosen (some d) missing = absurd (ground arith)

  stateful_set_again :
      (o : Option WorkloadObject) (c : Cluster)
      → api.works get_deployment ≡ true
      → api.works get_stateful_set ≡ true
      → deployed c ≡ none
      → find name c.stateful_sets ≡ o
      → let q = reconcile_stateful_set api name o c in reconcile api name q.0 ≡ q
  unfolding reconcile_stateful_set adapter
  stateful_set_again none c can can_set missing found =
      of_stateful_set c can can_set missing ∙ rw found refl
  stateful_set_again (some s) c can can_set missing found =
      let w = adapter name s in
      let same : Kept api w c (reconcile_workload api w c).0 =
        reconcile_workload-Kept api law w c in
      of_stateful_set (reconcile_workload api w c).0 can can_set (same.adapters_same ∙ missing)
      ∙ ap (λ o. reconcile_stateful_set api name o (reconcile_workload api w c).0)
          (ap (find name) same.frame.stateful_sets_kept ∙ found)
      ∙ reconcile_workload_again api law w c

  deployment_again :
      (d : WorkloadObject) (c : Cluster)
      → api.works get_deployment ≡ true
      → find name c.deployments ≡ some d
      → let q = reconcile api name c in reconcile api name q.0 ≡ q
  unfolding adapter
  deployment_again d c can found =
      let w = adapter name d in
      let same : Kept api w c (reconcile_workload api w c).0 =
        reconcile_workload-Kept api law w c in
      let there : deployed c ≡ some w = ap (Option.map (adapter name)) found in
      rw (of_deployment w c can there) (
        of_deployment w (reconcile_workload api w c).0 can (same.adapters_same ∙ there)
        ∙ reconcile_workload_again api law w c)

  -- With controllerutil as it is documented and the same kinds of calls failing, reconciling the same
  -- workload once more changes nothing and has the same result.
  pub reconcile_idempotent :
      (c : Cluster) → let q = reconcile api name c in reconcile api name q.0 ≡ q
  reconcile_idempotent c = elim (Bool-cases (api.works get_deployment)) [
    | inr cannot ↦ unfold reconcile in rw cannot refl
    | inl can ↦ elim (Option-cases (find name c.deployments)) [
      | inr (d, found) ↦ deployment_again d c can found
      | inl missing ↦ elim (Bool-cases (api.works get_stateful_set)) [
        | inr cannot ↦
            let failing : reconcile api name c ≡ (c, failed call_failed) =
              unfold reconcile reconcile_deployment in rw (can, missing, cannot) refl in
            rw failing failing
        | inl can_set ↦
            let absent : deployed c ≡ none = ap (Option.map (adapter name)) missing in
            rw (of_stateful_set c can can_set absent)
              (stateful_set_again _ c can can_set absent refl)
      ]
    ]
  ]

  stateful_set-Frame :
      (o : Option WorkloadObject) (c : Cluster)
      → Frame name c (reconcile_stateful_set api name o c).0
  unfolding reconcile_stateful_set adapter
  stateful_set-Frame none c = Frame-refl name c
  stateful_set-Frame (some s) c = (reconcile_workload-Kept api law (adapter name s) c).frame

  deployment-Frame :
      (o : Option WorkloadObject) (c : Cluster) → Frame name c (reconcile_deployment api name o c).0
  unfolding reconcile_deployment adapter
  deployment-Frame (some d) c = (reconcile_workload-Kept api law (adapter name d) c).frame
  deployment-Frame none c = elim (Bool-cases (api.works get_stateful_set)) [
    | inl can ↦ rw can (stateful_set-Frame (find name c.stateful_sets) c)
    | inr cannot ↦ rw cannot (Frame-refl name c)
  ]

  -- With controllerutil as it is documented, a reconciliation changes no service but that of the
  -- workload's name and the media service, no ingress but the media ingress, no deployment but that of
  -- the name, and no StatefulSet.
  pub reconcile-Frame : (c : Cluster) → Frame name c (reconcile api name c).0
  unfolding reconcile
  reconcile-Frame c = elim (Bool-cases (api.works get_deployment)) [
    | inl can ↦ rw can (deployment-Frame (find name c.deployments) c)
    | inr cannot ↦ rw cannot (Frame-refl name c)
  ]
