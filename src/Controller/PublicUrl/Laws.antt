-- ===== src/Controller/PublicUrl/Laws.antt =====
-- The pod template after its public URL was patched.
use mathlib.Core.Option
use mcp_media.Prelude.{
  ◌≡◌, refl, Bool, true, false, Option, some, none, Bool-cases, inl, inr, arith, ap, ◌∙◌, ◌⊎◌, all,
  not,
}
use mcp_media.Names.{String, ◌==◌}
use mcp_media.Store.{find, store, find-store_self, find-store, store_same}
use mcp_media.Controller.Cluster.{
  Ingress, WorkloadObject, TemplateContainer, Call, patch_deployment,
}
use mcp_media.Controller.Workload.{Workload, adapter}
use mcp_media.Controller.PublicUrl.Template.{
  with_url, with_url_twice, adapter-with_url, set_public_url_lacking,
}
use mcp_media.Controller.PublicUrl.{
  is_set_in, Deployments, patch_public_url, public_url_for, ensure_sidecar_public_url,
}

module _ (works : Call → Bool) (w : Workload) where
  -- Nothing is stored, or the template with its new variable is.
  patch_public_url_cases :
      (url : String) (d : WorkloadObject) (deployments : Deployments)
      → (patch_public_url works w url (some d) deployments ≡ deployments)
        ⊎ (patch_public_url works w url (some d) deployments
            ≡ store w.name (with_url url d) deployments)
  unfolding patch_public_url
  patch_public_url_cases url d deployments = elim (Bool-cases (is_set_in url d.containers)) [
    | inl right ↦ inl (rw right refl)
    | inr wrong ↦ elim (Bool-cases (works patch_deployment)) [
      | inl can ↦ inr (rw (wrong, can) refl)
      | inr cannot ↦ inl (rw (wrong, cannot) refl)
    ]
  ]

  patch_public_url_stored :
      (url : String) (d : WorkloadObject) (deployments : Deployments)
      → let next = store w.name (with_url url d) deployments in
        patch_public_url works w url (some (with_url url d)) next ≡ next
  patch_public_url_stored url d deployments =
      let next : Deployments = store w.name (with_url url d) deployments in
      elim (patch_public_url_cases url (with_url url d) next) [
        | inl kept ↦ kept
        | inr stored ↦
            stored
            ∙ ap (λ e. store w.name e next) (with_url_twice url d)
            ∙ store_same w.name (with_url url d) next
                (find-store_self w.name (with_url url d) deployments)
      ]

  patch_public_url_again :
      (url : String) (old : Option WorkloadObject) (deployments : Deployments)
      → find w.name deployments ≡ old
      → let next = patch_public_url works w url old deployments in
        patch_public_url works w url (find w.name next) next ≡ next
  patch_public_url_again url none deployments found = unfold patch_public_url in rw found refl
  patch_public_url_again url (some d) deployments found =
      elim (patch_public_url_cases url d deployments) [
        | inl kept ↦ rw (kept, found) kept
        | inr stored ↦
            rw (stored, find-store_self w.name (with_url url d) deployments)
              (patch_public_url_stored url d deployments)
      ]

  pub ensure_sidecar_public_url_again :
      (ing : Ingress) (deployments : Deployments)
      → ensure_sidecar_public_url works w ing (ensure_sidecar_public_url works w ing deployments)
        ≡ ensure_sidecar_public_url works w ing deployments
  unfolding ensure_sidecar_public_url
  ensure_sidecar_public_url_again ing deployments = ground (
    arith,
    patch_public_url_again (public_url_for ing.rules) (find w.name deployments) deployments refl,
  )

  abbrev pub adapters : Deployments → Option Workload
  adapters deployments = Option.map (adapter w.name) (find w.name deployments)

  patch_public_url-adapters :
      (url : String) (old : Option WorkloadObject) (deployments : Deployments)
      → find w.name deployments ≡ old
      → adapters (patch_public_url works w url old deployments) ≡ adapters deployments
  patch_public_url-adapters url none deployments found = unfold patch_public_url in refl
  patch_public_url-adapters url (some d) deployments found =
      elim (patch_public_url_cases url d deployments) [
        | inl kept ↦ rw kept refl
        | inr stored ↦
            rw (stored, find-store_self w.name (with_url url d) deployments, found)
              (ap some (adapter-with_url w.name url d))
      ]

  -- The reconciler sees the same workload before and after.
  pub ensure_sidecar_public_url-adapters :
      (ing : Ingress) (deployments : Deployments)
      → adapters (ensure_sidecar_public_url works w ing deployments) ≡ adapters deployments
  unfolding ensure_sidecar_public_url
  ensure_sidecar_public_url-adapters ing deployments = ground (
    arith,
    patch_public_url-adapters (public_url_for ing.rules) (find w.name deployments) deployments refl,
  )

  patch_public_url-others :
      (url : String) (old : Option WorkloadObject) (deployments : Deployments) (other : String)
      → (w.name == other) ≡ false
      → find other (patch_public_url works w url old deployments) ≡ find other deployments
  patch_public_url-others url none deployments other differs = unfold patch_public_url in refl
  patch_public_url-others url (some d) deployments other differs =
      elim (patch_public_url_cases url d deployments) [
        | inl kept ↦ rw kept refl
        | inr stored ↦
            rw (stored, find-store w.name other (with_url url d) deployments, differs) refl
      ]

  pub ensure_sidecar_public_url-others :
      (ing : Ingress) (deployments : Deployments) (other : String)
      → (w.name == other) ≡ false
      → find other (ensure_sidecar_public_url works w ing deployments) ≡ find other deployments
  unfolding ensure_sidecar_public_url
  ensure_sidecar_public_url-others ing deployments other differs =
      let patched =
        patch_public_url-others (public_url_for ing.rules) (find w.name deployments) deployments
          other differs in
      ground (arith, patched)

  -- A template without a container "media-sidecar" is never changed.
  ensure_sidecar_public_url_unchanged :
      (ing : Ingress) (deployments : Deployments) (d : WorkloadObject)
      → find w.name deployments ≡ some d
      → all (λ (c : TemplateContainer). not (c.name == "media-sidecar")) d.containers ≡ true
      → ensure_sidecar_public_url works w ing deployments ≡ deployments
  unfolding ensure_sidecar_public_url
  ensure_sidecar_public_url_unchanged ing deployments d found lacks =
      let kept : patch_public_url works w (public_url_for ing.rules) (find w.name deployments)
            deployments
          ≡ deployments =
        rw found (elim (patch_public_url_cases (public_url_for ing.rules) d deployments) [
          | inl kept ↦ kept
          | inr stored ↦
              stored
              ∙ ap (λ cs. store w.name (record d { containers = cs }) deployments)
                  (set_public_url_lacking (public_url_for ing.rules) d.containers lacks)
              ∙ store_same w.name d deployments found
        ]) in
      ground (arith, kept)
