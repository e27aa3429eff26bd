-- ===== src/Webhook/Inject/Laws.antt =====
-- Injecting into a pod that was injected into before.
use mcp_media.Prelude.{
  ◌≡◌, refl, List, ◌++◌, arith, ◌∷◌, ◌||◌, [], true, ◌∙◌, Bool-cases, inl, inr, if◌then◌else◌,
  false, ap, Bool,
}
use mathlib.Core.List.{map}
use mcp_media.Webhook.Pod.{named_in, Container, Pod, has_container}
use mcp_media.Webhook.Inject.{
  mount_workload, add_sidecar, add_proxy, inject_pod, mount_if_absent, Images, sidecar_container,
  proxy_container, mark_injected, media_path, inject_flags,
}
use Prim.Native.String.{String}
use mcp_media.Webhook.Annotations.{InjectionRequest, sidecar_name, proxy_name, injected_label}
use text.Mathlib.TextPositions.{eq_refl}
use mcp_media.Names.{put-put, ◌==◌}

named_in-append :
    (name : String) (xs ys : List Container)
    → named_in name (xs ++ ys) ≡ (named_in name xs || named_in name ys)
unfolding named_in
named_in-append name [] ys = refl
named_in-append name (c ∷ xs) ys = ground (arith, named_in-append name xs ys)

name-mount_workload : (path : String) (c : Container) → (mount_workload path c).name ≡ c.name
unfolding mount_workload mount_if_absent
name-mount_workload path c = ground arith

named_in-mount_workload :
    (name path : String) (cs : List Container)
    → named_in name (map (mount_workload path) cs) ≡ named_in name cs
unfolding named_in
named_in-mount_workload name path [] = refl
named_in-mount_workload name path (c ∷ cs) =
    rw (name-mount_workload path c, named_in-mount_workload name path cs) refl

named_in_last : (cs : List Container) (c : Container) → named_in c.name (cs ++ c ∷ []) ≡ true
named_in_last cs c =
    named_in-append c.name cs (c ∷ []) ∙ unfold named_in in ground (arith, eq_refl c.name)

named_in_other :
    (name : String) (cs : List Container) (c : Container)
    → (c.name == name) ≡ false
    → named_in name (cs ++ c ∷ []) ≡ named_in name cs
named_in_other name cs c h = named_in-append name cs (c ∷ []) ∙ unfold named_in in ground arith

-- After `addSidecar` the pod has a sidecar, and a proxy exactly if it had one.
add_sidecar-has_container :
    (im : Images) (pod : Pod) (req : InjectionRequest)
    → (has_container (add_sidecar im pod req) sidecar_name ≡ true)
      × (has_container (add_sidecar im pod req) proxy_name ≡ has_container pod proxy_name)
unfolding add_sidecar
add_sidecar-has_container im pod req = elim (Bool-cases (has_container pod sidecar_name)) [
  | inl there ↦ rw there (there, refl)
  | inr fresh ↦
      let sidecar = sidecar_container im pod req in
      let path = media_path req in
      rw fresh (
        named_in-mount_workload sidecar_name path (pod.containers ++ sidecar ∷ [])
            ∙ named_in_last pod.containers sidecar,
        named_in-mount_workload proxy_name path (pod.containers ++ sidecar ∷ [])
            ∙ named_in_other proxy_name pod.containers sidecar refl,
      )
]

add_proxy-has_container :
    (im : Images) (pod : Pod) (req : InjectionRequest)
    → (has_container (add_proxy im pod req) proxy_name ≡ true)
      × (has_container (add_proxy im pod req) sidecar_name ≡ has_container pod sidecar_name)
unfolding add_proxy
add_proxy-has_container im pod req = elim (Bool-cases (has_container pod proxy_name)) [
  | inl there ↦ rw there (there, refl)
  | inr fresh ↦ rw fresh (
    named_in_last pod.containers (proxy_container im req),
    named_in_other sidecar_name pod.containers (proxy_container im req) refl,
  )
]

add_sidecar_again :
    (im : Images) (pod : Pod) (req : InjectionRequest)
    → has_container pod sidecar_name ≡ true
    → add_sidecar im pod req ≡ pod
unfolding add_sidecar
add_sidecar_again im pod req h = rw h refl

add_proxy_again :
    (im : Images) (pod : Pod) (req : InjectionRequest)
    → has_container pod proxy_name ≡ true
    → add_proxy im pod req ≡ pod
unfolding add_proxy
add_proxy_again im pod req h = rw h refl

mark_twice : (pod : Pod) → mark_injected (mark_injected pod) ≡ mark_injected pod
mark_twice pod =
    ap (λ m. record pod { labels = m }) (put-put injected_label "true" "true" pod.labels)

-- What the flags ask for is there.
abbrev HasAsked : Bool → Bool → Pod → Type 0
HasAsked sidecar proxy pod =
    (sidecar ≡ true → has_container pod sidecar_name ≡ true)
    × (proxy ≡ true → has_container pod proxy_name ≡ true)

-- A pod that has what is asked for is only marked.
inject_flags_again :
    (im : Images) (pod : Pod) (req : InjectionRequest) (sidecar proxy : Bool)
    → HasAsked sidecar proxy pod
    → inject_flags im pod req sidecar proxy ≡ (if sidecar || proxy then mark_injected pod else pod)
unfolding inject_flags
inject_flags_again im pod req true true (h, k) =
    rw (add_sidecar_again im pod req (h refl), add_proxy_again im pod req (k refl)) refl
inject_flags_again im pod req true false (h, k) = rw (add_sidecar_again im pod req (h refl)) refl
inject_flags_again im pod req false true (h, k) = rw (add_proxy_again im pod req (k refl)) refl
inject_flags_again im pod req false false (h, k) = refl

-- After an injection the pod has what is asked for.
inject_flags-HasAsked :
    (im : Images) (pod : Pod) (req : InjectionRequest) (sidecar proxy : Bool)
    → HasAsked sidecar proxy (inject_flags im pod req sidecar proxy)
unfolding inject_flags
inject_flags-HasAsked im pod req true true =
    let (first, _) = add_sidecar-has_container im pod req in
    let (second, kept) = add_proxy-has_container im (add_sidecar im pod req) req in
    (λ _. kept ∙ first, λ _. second)
inject_flags-HasAsked im pod req true false =
    ((λ _. (add_sidecar-has_container im pod req).0), λ e. cc)
inject_flags-HasAsked im pod req false true =
    ((λ e. cc), λ _. (add_proxy-has_container im pod req).0)
inject_flags-HasAsked im pod req false false = ((λ e. cc), λ e. cc)

inject_flags_marked :
    (im : Images) (pod : Pod) (req : InjectionRequest) (sidecar proxy : Bool)
    → (if sidecar || proxy
        then mark_injected (inject_flags im pod req sidecar proxy)
        else inject_flags im pod req sidecar proxy)
      ≡ inject_flags im pod req sidecar proxy
unfolding inject_flags
inject_flags_marked im pod req true proxy = mark_twice _
inject_flags_marked im pod req false true = mark_twice _
inject_flags_marked im pod req false false = refl

-- Injecting into a pod a second time changes nothing.
pub inject_pod_idempotent :
    (im : Images) (pod : Pod) (req : InjectionRequest)
    → inject_pod im (inject_pod im pod req) req ≡ inject_pod im pod req
unfolding inject_pod
inject_pod_idempotent im pod req =
    inject_flags_again im _ req req.inject_sidecar req.inject_proxy
      (inject_flags-HasAsked im pod req req.inject_sidecar req.inject_proxy)
    ∙ inject_flags_marked im pod req req.inject_sidecar req.inject_proxy
