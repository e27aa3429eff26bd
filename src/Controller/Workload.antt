-- ===== src/Controller/Workload.antt =====
-- The interface `workloads` of internal/controller/workload_reconciler.go with its two adapters.
use mcp_media.Prelude.{List, [], ◌∷◌}
use mcp_media.Names.{String, StringMap, ◌<>◌}
use mcp_media.Text.{Bytes}
use mcp_media.Sign.Decimal.{format_int}
use mcp_media.Controller.Cluster.{WorkloadObject, TemplateContainer}
use mcp_media.Prelude.Int.{ℤ}

pub record Workload : Type 0 where
  pub name : String
  pub uid : String
  pub template_annotations : StringMap
  pub match_labels : StringMap
  -- in decimal, or empty
  pub first_container_port : Bytes

-- The first of a container's ports, or else that of the later ones.
abbrev pub first_port_of : List ℤ → Bytes → Bytes
first_port_of [] later = later
first_port_of (port ∷ _) later = format_int port

-- `GetFirstContainerPort`
unfoldable pub first_port : List TemplateContainer → Bytes
first_port [] = []
first_port (c ∷ containers) = first_port_of c.ports (first_port containers)

-- `DeploymentAdapter` and `StatefulSetAdapter`
unfoldable pub adapter : String → WorkloadObject → Workload
adapter name object = record {
  name = name;
  uid = object.uid;
  template_annotations = object.template_annotations;
  match_labels = object.match_labels;
  first_container_port = first_port object.containers;
}

abbrev pub media_name : Workload → String
media_name w = w.name <> "-media"
