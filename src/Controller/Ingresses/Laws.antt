-- ===== src/Controller/Ingresses/Laws.antt =====
-- The media ingress after a reconciliation.
use mcp_media.Prelude.{◌≡◌, refl, Option, Bool-cases, inl, inr, subst, if◌then◌else◌, none}
use mcp_media.Names.{String, StringMap, put-put, ◌==◌}
use mcp_media.Checked.{ok, >>=-ok, ok_injective}
use mcp_media.Controller.Cluster.{Ingress}
use mcp_media.Controller.Workload.{Workload, media_name}
use mcp_media.Controller.Api.{Api, IsSetOwner}
use mcp_media.Controller.Api.Laws.{set_owner_again}
use mcp_media.Controller.Services.{Services}
use mcp_media.Store.{store}
use mcp_media.Controller.Source.{Ingresses, find_source_ingress}
use mcp_media.Controller.Source.Laws.{
  SameSelectors, find_source_ingress_same, find_source_ingress-store,
}
use mcp_media.Controller.Ingresses.{
  Shape, media_ingress, shape_ingress, issuer_key, is_complete, annotated,
}

media_ingress_twice :
    (w : Workload) (s : Shape) (owner : Option String) (annotations : StringMap)
    → media_ingress w s owner (media_ingress w s owner annotations).annotations
      ≡ media_ingress w s owner annotations
unfolding media_ingress
media_ingress_twice w s owner annotations = elim (Bool-cases (s.issuer == "")) [
  | inl none_given ↦ rw none_given refl
  | inr given ↦ rw given (rw (put-put issuer_key s.issuer s.issuer annotations) refl)
]

module _ (api : Api) (w : Workload) where
  pub shape_ingress_again :
      (law : IsSetOwner api.set_owner) (services : Services) (ings : Ingresses) (a b : Ingress)
      → shape_ingress api w services ings a ≡ ok b
      → shape_ingress api w services ings b ≡ ok b
  unfolding shape_ingress media_ingress
  shape_ingress_again law services ings a b h =
      >>=-ok (api.set_owner w.uid a.owner) _ h (λ owner owned h.
        >>=-ok
          (if is_complete (annotated w)
            then ok none
            else find_source_ingress api.works services w ings)
          _ h
          (λ source found h.
            let same = ok_injective h in
            subst (λ i. shape_ingress api w services ings i ≡ ok i) same
              (rw
                (set_owner_again api.set_owner law w.uid a.owner owned, found, media_ingress_twice)
                refl)))

  pub shape_ingress_same :
      (s s' : Services)
      → SameSelectors w s s'
      → (ings : Ingresses) (a : Ingress)
      → shape_ingress api w s' ings a ≡ shape_ingress api w s ings a
  unfolding shape_ingress
  shape_ingress_same s s' same ings a =
      rw (find_source_ingress_same api.works w s s' same ings) refl

  pub shape_ingress-store :
      (services : Services) (ings : Ingresses) (ing a : Ingress)
      → shape_ingress api w services (store (media_name w) ing ings) a
        ≡ shape_ingress api w services ings a
  unfolding shape_ingress
  shape_ingress-store services ings ing a =
      rw (find_source_ingress-store api.works w services ing ings) refl
