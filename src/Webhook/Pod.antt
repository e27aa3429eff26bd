-- ===== src/Webhook/Pod.antt =====
-- The part of a pod that the webhook reads and changes.
use Prim.Native.String.{String}
use mcp_media.Prelude.{ℕ, Bool, false, ◌||◌, List, [], ◌∷◌}
use mcp_media.Names.{StringMap, ◌==◌}

-- A plain value, or the key "value" of a secret.
pub data EnvValue : Type 0 where
  plain : String → EnvValue
  from_secret : String → EnvValue

pub record EnvVar : Type 0 where
  pub name : String
  pub value : EnvValue

pub record VolumeMount : Type 0 where
  pub name : String
  pub mount_path : String
  pub read_only : Bool

pub record ContainerPort : Type 0 where
  pub name : String
  pub container_port : ℕ

-- An empty pull policy leaves the choice to the cluster.
pub record Container : Type 0 where
  pub name : String
  pub image : String
  pub ports : List ContainerPort
  pub env : List EnvVar
  pub image_pull_policy : String
  pub volume_mounts : List VolumeMount

pub data VolumeSource : Type 0 where
  claim : (claim_name : String) (read_only : Bool) → VolumeSource
  empty_dir other_source : VolumeSource

pub record Volume : Type 0 where
  pub name : String
  pub source : VolumeSource

pub record Pod : Type 0 where
  pub name : String
  pub namespace : String
  pub labels : StringMap
  pub annotations : StringMap
  pub init_containers : List Container
  pub containers : List Container
  pub volumes : List Volume

unfoldable pub named_in : String → List Container → Bool
named_in name [] = false
named_in name (c ∷ cs) = c.name == name || named_in name cs

-- `hasContainer`
abbrev pub has_container : Pod → String → Bool
has_container pod name = named_in name pod.containers
