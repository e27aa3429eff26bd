-- ===== src/Controller/Source.antt =====
-- `findSourceIngress` and `backendMatchesLabels` of internal/controller/ingress.go.
pub mod Laws
pub mod Reference
use mcp_media.Prelude.{
  Bool, true, false, ◌&&◌, ◌||◌, Option, none, some, List, [], ◌∷◌, if◌then◌else◌, all, length,
  ◌==◌ as nat_eq,
}
use mcp_media.Names.{String, StringMap, ◌==◌}
use mcp_media.Checked.{Result, ok, err, ◌>>=◌}
use mcp_media.Store.{find}
use mcp_media.Controller.Cluster.{
  Ingress, IngressPath, Rule, Call, get_service, list_ingresses, Failure, nil_backend,
}
use mcp_media.Controller.Workload.{Workload, media_name}
use mcp_media.Controller.Services.{Services}

abbrev pub Ingresses : Type 0
Ingresses = List (String × Ingress)

unfoldable pub has_label : StringMap → String × String → Bool
has_label labels (key, value) = elim (find key labels) [ none ↦ false | some v ↦ v == value ]

-- reflect.DeepEqual on two maps of labels, whose keys differ from one another.
unfoldable pub same_labels : StringMap → StringMap → Bool
same_labels a b = nat_eq (length a) (length b) && all (has_label b) a

module _ (works : Call → Bool) (services : Services) (w : Workload) where
  -- `backendMatchesLabels`
  unfoldable pub backend_matches_labels : String → Bool
  backend_matches_labels backend =
      if works get_service
      then elim (find backend services) [
        | none ↦ false
        | some svc ↦ same_labels svc.selector w.match_labels
      ]
      else false

  -- Whether some path leads to the workload; a path to a resource has a nil service.
  unfoldable pub match_paths : List IngressPath → Result Failure Bool
  match_paths [] = ok false
  match_paths (p ∷ paths) =
      let later = match_paths paths in
      elim p.backend [
        | none ↦ err nil_backend
        | some (backend, _) ↦
            if backend == media_name w
            then later
            else if backend == w.name || backend_matches_labels backend
            then ok true
            else later
      ]

  unfoldable pub match_rules : List Rule → Result Failure Bool
  match_rules [] = ok false
  match_rules (rule ∷ rules) =
      let later = match_rules rules in
      elim rule.paths [
        | none ↦ later
        | some paths ↦ match_paths paths >>= λ hit. if hit then ok true else later
      ]

  -- The loop of `findSourceIngress` over the listed ingresses.
  unfoldable pub search_source : Ingresses → Result Failure (Option Ingress)
  search_source [] = ok none
  search_source ((name, ing) ∷ ingresses) =
      let later = search_source ingresses in
      if name == media_name w
      then later
      else match_rules ing.rules >>= λ hit. if hit then ok (some ing) else later

  -- `findSourceIngress`
  unfoldable pub find_source_ingress : Ingresses → Result Failure (Option Ingress)
  find_source_ingress ingresses = if works list_ingresses then search_source ingresses else ok none
