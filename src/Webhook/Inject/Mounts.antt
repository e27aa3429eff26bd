-- ===== src/Webhook/Inject/Mounts.antt =====
-- The mounts of the media volume after a sidecar is added.
use mathlib.Core.List.{Mem, mem-cons_self, mem-cons_of_mem}
use mcp_media.Prelude.{
  ◌≡◌, refl, List, true, Bool-cases, All, ◌⊎◌, ◌∷◌, inl, ◌++◌, inr, [], arith, false, ◌∙◌,
}
use mathlib.Core.List.{map, map-append}
use mcp_media.Names.{String, ◌==◌, eq_refl}
use mcp_media.Webhook.Inject.{
  mounted, mount_if_absent, mount_workload, has_volume, add_media_volume, add_sidecar, Images,
  is_injected, media_path, sidecar_container,
}
use mcp_media.Webhook.Pod.{Container, VolumeMount, Volume, Pod, has_container, plain}
use mcp_media.Webhook.Annotations.{InjectionRequest, media_volume_name, sidecar_name}

-- The container is one of the injected ones, or has the volume, or uses its path already.
abbrev pub HasMedia : String → Container → Type 0
HasMedia path c = (is_injected c ≡ true) ⊎ (mounted media_volume_name path c.volume_mounts ≡ true)

-- The sidecar: it has the media volume below the path, read-only, and no other, and is told that path.
pub record IsReader (path : String) (c : Container) : Type 0 where
  pub called : c.name ≡ "media-sidecar"
  pub mounts :
      c.volume_mounts ≡ record { name = "media-volume"; mount_path = path; read_only = true } ∷ []
  pub reads : Mem (record { name = "MEDIA_ROOTS"; value = plain path }) c.env

mounted_last :
    (volume path : String) (ms : List VolumeMount) (m : VolumeMount)
    → (m.name == volume) ≡ true
    → mounted volume path (ms ++ m ∷ []) ≡ true
unfolding mounted
mounted_last volume path [] m h = ground arith
mounted_last volume path (n ∷ ms) m h = ground (arith, mounted_last volume path ms m)

mounted-mount_if_absent :
    (volume path : String) (c : Container)
    → mounted volume path (mount_if_absent volume path c).volume_mounts ≡ true
unfolding mount_if_absent
mounted-mount_if_absent volume path c = elim (Bool-cases (mounted volume path c.volume_mounts)) [
  | inl there ↦ rw there there
  | inr fresh ↦ rw fresh (mounted_last volume path c.volume_mounts _ (eq_refl volume))
]

mount_workload-HasMedia : (path : String) (c : Container) → HasMedia path (mount_workload path c)
unfolding mount_workload
mount_workload-HasMedia path c = elim (Bool-cases (is_injected c)) [
  | inl injected ↦ rw injected (inl injected)
  | inr workload ↦ rw workload (inr (mounted-mount_if_absent media_volume_name path c))
]

map-HasMedia :
    (path : String) (cs : List Container) → All (HasMedia path) (map (mount_workload path) cs)
map-HasMedia path [] = tt
map-HasMedia path (c ∷ cs) = (mount_workload-HasMedia path c, map-HasMedia path cs)

has_volume_last :
    (name : String) (vs : List Volume) (v : Volume)
    → (v.name == name) ≡ true
    → has_volume name (vs ++ v ∷ []) ≡ true
unfolding has_volume
has_volume_last name [] v h = ground arith
has_volume_last name (w ∷ vs) v h = ground (arith, has_volume_last name vs v)

has_volume-add_media_volume :
    (req : InjectionRequest) (vs : List Volume)
    → has_volume media_volume_name (add_media_volume req vs) ≡ true
unfolding add_media_volume
has_volume-add_media_volume req vs = elim (Bool-cases (has_volume media_volume_name vs)) [
  | inl there ↦ rw there there
  | inr fresh ↦ rw fresh (has_volume_last media_volume_name vs _ refl)
]

-- Where the sidecar is new, the pod has the media volume afterwards, every container that is not
-- injected, init containers included, has it mounted or uses its path, and the last container is
-- named media-sidecar, mounts that volume and no other, read-only, and has the path as MEDIA_ROOTS.
pub add_sidecar-HasMedia :
    (im : Images) (pod : Pod) (req : InjectionRequest)
    → has_container pod sidecar_name ≡ false
    → (has_volume media_volume_name (add_sidecar im pod req).volumes ≡ true)
      × All (HasMedia (media_path req)) (add_sidecar im pod req).init_containers
      × All (HasMedia (media_path req)) (add_sidecar im pod req).containers
      × ((sidecar : Container) × ((add_sidecar im pod req).containers
            ≡ map (mount_workload (media_path req)) pod.containers ++ sidecar ∷ [])
          × IsReader (media_path req) sidecar)
unfolding add_sidecar
add_sidecar-HasMedia im pod req fresh = rw fresh (
  has_volume-add_media_volume req pod.volumes,
  map-HasMedia (media_path req) pod.init_containers,
  map-HasMedia (media_path req) (pod.containers ++ sidecar_container im pod req ∷ []),
  (
    sidecar_container im pod req,
    map-append _ pod.containers _ ∙ unfold mount_workload in refl,
    record {
      called = refl;
      mounts = refl;
      reads = mem-cons_of_mem _ (mem-cons_of_mem _ (mem-cons_of_mem _ mem-cons_self));
    },
  ),
)
