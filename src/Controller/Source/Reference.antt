-- ===== src/Controller/Source/Reference.antt =====
-- The search for a source ingress, as the first of the ingresses that pass one test.
use mathlib.Core.Option
use mcp_media.Prelude.{
  ◌≡◌, refl, Bool, true, false, some, none, List, [], ◌∷◌, Bool-cases, Option-cases, inl, inr,
  arith, all, any, find?, if◌then◌else◌, ◌&&◌, ◌||◌, not,
}
use mcp_media.Names.{String, ◌==◌}
use mcp_media.Checked.{ok}
use mcp_media.Controller.Cluster.{Ingress, IngressPath, Rule, Call, list_ingresses}
use mcp_media.Controller.Workload.{Workload, media_name}
use mcp_media.Controller.Services.{Services}
use mcp_media.Controller.Source.{
  Ingresses, backend_matches_labels, match_paths, match_rules, search_source, find_source_ingress,
}

both : (a b : Bool) → (a && b) ≡ true → (a ≡ true) × (b ≡ true)
both a b h = ground arith

-- No path leads to a resource.
abbrev path_has_service : IngressPath → Bool
path_has_service p = elim p.backend [ none ↦ false | some _ ↦ true ]

abbrev rule_has_services : Rule → Bool
rule_has_services rule = elim rule.paths [ none ↦ true | some paths ↦ all path_has_service paths ]

abbrev pub have_services : Ingresses → Bool
have_services ings = all (λ (n : String × Ingress). all rule_has_services n.1.rules) ings

module _ (works : Call → Bool) (services : Services) (w : Workload) where
  -- A path leads to the workload: to its service, or to one that selects its pods.
  abbrev path_leads : IngressPath → Bool
  path_leads p = elim p.backend [
    | none ↦ false
    | some (backend, _) ↦
        not (backend == media_name w)
        && (backend == w.name || backend_matches_labels works services w backend)
  ]

  abbrev rule_leads : Rule → Bool
  rule_leads rule = elim rule.paths [ none ↦ false | some paths ↦ any path_leads paths ]

  abbrev pub is_source : String × Ingress → Bool
  is_source n = not (n.0 == media_name w) && any rule_leads n.1.rules

  match_paths_total :
      (paths : List IngressPath)
      → all path_has_service paths ≡ true
      → match_paths works services w paths ≡ ok (any path_leads paths)
  unfolding match_paths
  match_paths_total [] h = refl
  match_paths_total (p ∷ paths) h =
      let (now, rest) = both (path_has_service p) (all path_has_service paths) h in
      let later : match_paths works services w paths ≡ ok (any path_leads paths) =
        match_paths_total paths rest in
      elim (Option-cases p.backend) [
        | inl resource ↦ absurd (ground arith)
        | inr ((backend, port), there) ↦ rw there (ground (arith, later))
      ]

  match_rules_total :
      (rules : List Rule)
      → all rule_has_services rules ≡ true
      → match_rules works services w rules ≡ ok (any rule_leads rules)
  unfolding match_rules
  match_rules_total [] h = refl
  match_rules_total (rule ∷ rules) h =
      let (now, rest) = both (rule_has_services rule) (all rule_has_services rules) h in
      let later : match_rules works services w rules ≡ ok (any rule_leads rules) =
        match_rules_total rules rest in
      elim (Option-cases rule.paths) [
        | inl no_http ↦ rw no_http later
        | inr (paths, http) ↦
            let here : match_paths works services w paths ≡ ok (any path_leads paths) =
              match_paths_total paths (rw http at now) in
            rw (http, here) (ground (arith, later))
      ]

  search_source_total :
      (ings : Ingresses)
      → have_services ings ≡ true
      → search_source works services w ings
        ≡ ok (Option.map (λ (n : String × Ingress). n.1) (find? is_source ings))
  unfolding search_source
  search_source_total [] h = refl
  search_source_total ((name, ing) ∷ ings) h =
      let (now, rest) = both (all rule_has_services ing.rules) (have_services ings) h in
      let later = search_source_total ings rest in
      let here : match_rules works services w ing.rules ≡ ok (any rule_leads ing.rules) =
        match_rules_total ing.rules now in
      rw here (elim (Bool-cases (name == media_name w)) [
        | inl own ↦ rw own later
        | inr other ↦ elim (Bool-cases (any rule_leads ing.rules)) [
          | inl leads ↦ rw (other, leads) refl
          | inr never ↦ rw (other, never) later
        ]
      ])

  -- Without paths to resources, the source is the first listed ingress that is not the media ingress
  -- and has a path to the workload, if the ingresses can be listed.
  pub find_source_ingress_first :
      (ings : Ingresses)
      → have_services ings ≡ true
      → find_source_ingress works services w ings
        ≡ ok (
            if works list_ingresses
            then Option.map (λ (n : String × Ingress). n.1) (find? is_source ings)
            else none)
  unfolding find_source_ingress
  find_source_ingress_first ings h = elim (Bool-cases (works list_ingresses)) [
    | inl can ↦ rw can (search_source_total ings h)
    | inr cannot ↦ rw cannot refl
  ]
