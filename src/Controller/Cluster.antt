-- ===== src/Controller/Cluster.antt =====
-- The objects of one namespace that internal/controller reads and writes, with the fields it reads
-- or writes, and the calls of the API server, each of which may fail.
use mcp_media.Prelude.{Bool, Option, List, Bool-cases, ℕ_discrete, inl, inr, arith}
use mcp_media.Names.{String, StringMap, ◌==◌, str_eq_iff}
use mcp_media.Prelude.Int.{ℤ}

-- intstr.IntOrString
pub data Target : Type 0 where
  number : ℤ → Target
  named : String → Target

pub record ServicePort : Type 0 where
  pub name : String
  pub port : ℤ
  pub target : Target

-- The controlling owner is given by its UID.
pub record Service : Type 0 where
  pub labels : StringMap
  pub selector : StringMap
  pub ports : List ServicePort
  pub owner : Option String

-- A backend is a service and its port, or `none` for a resource.
pub record IngressPath : Type 0 where
  pub path : String
  pub backend : Option (String × ℤ)

-- `none` stands for a rule with no HTTP part.
pub record Rule : Type 0 where
  pub host : String
  pub paths : Option (List IngressPath)

pub record Tls : Type 0 where
  pub hosts : List String
  pub secret_name : String

pub record Ingress : Type 0 where
  pub annotations : StringMap
  pub class : Option String
  pub rules : List Rule
  pub tls : List Tls
  pub owner : Option String

-- corev1.EnvVar: a value, and whether it has a ValueFrom.
pub record TemplateEnv : Type 0 where
  pub name : String
  pub value : String
  pub has_source : Bool

-- A container of a pod template, with the numbers of its ports.
pub record TemplateContainer : Type 0 where
  pub name : String
  pub ports : List ℤ
  pub env : List TemplateEnv

-- A Deployment or a StatefulSet.
pub record WorkloadObject : Type 0 where
  pub uid : String
  pub template_annotations : StringMap
  pub match_labels : StringMap
  pub containers : List TemplateContainer

-- Ingresses stand in the order in which they are listed.
pub record Cluster : Type 0 where
  pub deployments : List (String × WorkloadObject)
  pub stateful_sets : List (String × WorkloadObject)
  pub services : List (String × Service)
  pub ingresses : List (String × Ingress)

pub data Call : Type 0 where
  get_deployment get_stateful_set get_service get_ingress : Call
  list_ingresses write_service write_ingress patch_service patch_deployment : Call

-- Why an operation fails: a call of the API server does, the object has another controller, or the
-- code reads a field through a nil pointer.
pub data Failure : Type 0 where
  call_failed other_owner no_port malformed_port nil_backend : Failure

pub String-discrete : Discrete String
String-discrete s t = elim (Bool-cases (s == t)) [
  | inl same ↦ yes ((str_eq_iff s t).0 same)
  | inr other ↦ no (λ e. ground (arith, other, (str_eq_iff s t).1 e))
]

-- reflect.DeepEqual, and the comparison that controllerutil makes
pub Service-discrete : Discrete Service
Service-discrete = hlevel (String-discrete, ℕ_discrete)

pub Ingress-discrete : Discrete Ingress
Ingress-discrete = hlevel (String-discrete, ℕ_discrete)

pub ServicePorts-discrete : Discrete (List ServicePort)
ServicePorts-discrete = hlevel (String-discrete, ℕ_discrete)
