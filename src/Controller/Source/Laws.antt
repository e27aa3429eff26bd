-- ===== src/Controller/Source/Laws.antt =====
-- What the search for a source ingress does not look at.
use mathlib.Core.Option
use mcp_media.Prelude.{
  ◌≡◌, refl, sym, ap, ◌∙◌, Bool, false, Option, some, none, List, [], ◌∷◌, Bool-cases, inl, inr,
  if◌then◌else◌, Option-cases,
}
use mcp_media.Names.{String, StringMap, ◌==◌, eq_refl}
use mcp_media.Checked.{ok}
use mcp_media.Store.{find, store}
use mcp_media.Controller.Cluster.{
  Service, Ingress, Call, get_service, IngressPath, Rule, list_ingresses,
}
use mcp_media.Controller.Workload.{Workload, media_name}
use mcp_media.Controller.Services.{Services}
use mcp_media.Controller.Source.{
  Ingresses, same_labels, backend_matches_labels, match_paths, match_rules, search_source,
  find_source_ingress,
}

abbrev pub selector_at : String → Services → Option StringMap
selector_at name services = Option.map (λ (s : Service). s.selector) (find name services)

-- The two hold services with the same selectors, except that of the media service.
abbrev pub SameSelectors : Workload → Services → Services → Type 0
SameSelectors w s s' =
    (name : String) → (name == media_name w) ≡ false → selector_at name s' ≡ selector_at name s

selects : Workload → Option StringMap → Bool
selects w none = false
selects w (some labels) = same_labels labels w.match_labels

module _ (works : Call → Bool) (w : Workload) where
  backend_matches_labels_of_selector :
      (services : Services) (name : String)
      → backend_matches_labels works services w name
        ≡ (if works get_service then selects w (selector_at name services) else false)
  unfolding backend_matches_labels selects
  backend_matches_labels_of_selector services name = of_found (find name services)
    where
      of_found :
          (o : Option Service)
          → (if works get_service
              then elim o [ none ↦ false | some svc ↦ same_labels svc.selector w.match_labels ]
              else false)
            ≡ (if works get_service
                then selects w (Option.map (λ (s : Service). s.selector) o)
                else false)
      of_found none = refl
      of_found (some svc) = refl

  module _ (s s' : Services) (same : SameSelectors w s s') where
    backend_matches_labels_same :
        (name : String)
        → (name == media_name w) ≡ false
        → backend_matches_labels works s' w name ≡ backend_matches_labels works s w name
    backend_matches_labels_same name other =
        backend_matches_labels_of_selector s' name
        ∙ ap (λ o. if works get_service then selects w o else false) (same name other)
        ∙ sym (backend_matches_labels_of_selector s name)

    match_paths_same :
        (paths : List IngressPath) → match_paths works s' w paths ≡ match_paths works s w paths
    unfolding match_paths
    match_paths_same [] = refl
    match_paths_same (p ∷ paths) =
        let later = match_paths_same paths in
        elim (Option-cases p.backend) [
          | inl resource ↦ rw resource refl
          | inr ((name, port), backend) ↦ elim (Bool-cases (name == media_name w)) [
            | inl own ↦ rw (backend, own) later
            | inr other ↦ rw (backend, other, backend_matches_labels_same name other, later) refl
          ]
        ]

    match_rules_same :
        (rules : List Rule) → match_rules works s' w rules ≡ match_rules works s w rules
    unfolding match_rules
    match_rules_same [] = refl
    match_rules_same (rule ∷ rules) =
        let later = match_rules_same rules in
        elim (Option-cases rule.paths) [
          | inl no_http ↦ rw no_http later
          | inr (paths, http) ↦ rw (http, match_paths_same paths, later) refl
        ]

    search_source_same :
        (ings : Ingresses) → search_source works s' w ings ≡ search_source works s w ings
    unfolding search_source
    search_source_same [] = refl
    search_source_same ((name, ing) ∷ ings) =
        rw (match_rules_same ing.rules, search_source_same ings) refl

    pub find_source_ingress_same :
        (ings : Ingresses)
        → find_source_ingress works s' w ings ≡ find_source_ingress works s w ings
    unfolding find_source_ingress
    find_source_ingress_same ings =
        ap (λ r. if works list_ingresses then r else ok none) (search_source_same ings)

  -- The media ingress itself is no source.
  search_source-store :
      (services : Services) (ing : Ingress) (ings : Ingresses)
      → search_source works services w (store (media_name w) ing ings)
        ≡ search_source works services w ings
  unfolding search_source store
  search_source-store services ing [] = rw (eq_refl (media_name w)) refl
  search_source-store services ing ((name, old) ∷ ings) = elim (Bool-cases (name == media_name w)) [
    | inl own ↦ rw (own, own) refl
    | inr other ↦ rw (other, other, search_source-store services ing ings) refl
  ]

  pub find_source_ingress-store :
      (services : Services) (ing : Ingress) (ings : Ingresses)
      → find_source_ingress works services w (store (media_name w) ing ings)
        ≡ find_source_ingress works services w ings
  unfolding find_source_ingress
  find_source_ingress-store services ing ings =
      ap (λ r. if works list_ingresses then r else ok none) (search_source-store services ing ings)
