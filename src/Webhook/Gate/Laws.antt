-- ===== src/Webhook/Gate/Laws.antt =====
-- When the webhook changes a pod, and what it does when it is called again.
use mcp_media.Prelude.{◌≡◌, ◌≢◌, refl, true, false, ◌||◌, arith, Bool-cases, inl, inr}
use mcp_media.Names.{get, String, StringMap, str_eq_iff}
use mcp_media.Webhook.Inject.{Images, or_else, inject_pod, inject_flags, add_sidecar, add_proxy}
use mcp_media.Webhook.Inject.Laws.{inject_pod_idempotent}
use mcp_media.Webhook.Pod.{Pod}
use mcp_media.Webhook.Annotations.{InjectionRequest, Parsed, parse_annotations, malformed, parsed}
use mcp_media.Webhook.Gate.{
  Lookup, found, not_found, failed_lookup, Enabled, enabled, gate_error, namespace_enabled,
  inject_parsed, default_enabled, default_pod,
}

-- The injected pod has the annotations and the namespace it had.
inject_pod-annotations :
    (im : Images) (pod : Pod) (req : InjectionRequest)
    → (inject_pod im pod req).annotations ≡ pod.annotations
unfolding inject_pod inject_flags add_sidecar add_proxy
inject_pod-annotations im pod req = ground arith

inject_pod-namespace :
    (im : Images) (pod : Pod) (req : InjectionRequest)
    → (inject_pod im pod req).namespace ≡ pod.namespace
unfolding inject_pod inject_flags add_sidecar add_proxy
inject_pod-namespace im pod req = ground arith

-- Why a pod was changed.
pub record IsPermitted (client : String → Lookup) (pod : Pod) : Type 0 where
  pub labels : StringMap
  pub answered : client (or_else pod.namespace "default") ≡ found labels
  pub labelled : get "media-injection" labels ≡ "enabled"
  pub request : InjectionRequest
  pub read : parse_annotations pod.annotations ≡ parsed request
  pub asked : (request.inject_sidecar || request.inject_proxy) ≡ true

module _ (im : Images) where
  namespace_enabled_sound :
      (l : Lookup)
      → namespace_enabled l ≡ enabled true
      → (labels : StringMap) × (l ≡ found labels) × (get "media-injection" labels ≡ "enabled")
  unfolding namespace_enabled
  namespace_enabled_sound (found labels) h =
      (labels, refl, ground (arith, str_eq_iff (get "media-injection" labels) "enabled"))
  namespace_enabled_sound not_found h = absurd (ground arith)
  namespace_enabled_sound failed_lookup h = absurd (ground arith)

  inject_parsed_sound :
      (pod : Pod) (r : Parsed)
      → inject_parsed im pod r ≢ pod
      → (req : InjectionRequest) × (r ≡ parsed req)
        × ((req.inject_sidecar || req.inject_proxy) ≡ true)
  unfolding inject_parsed
  inject_parsed_sound pod (malformed m) h = absurd (h refl)
  inject_parsed_sound pod (parsed req) h = (req, refl, ground arith)

  -- A gate that lets the pod be changed is open.
  default_enabled_sound :
      (pod : Pod) (e : Enabled)
      → default_enabled im pod e ≢ pod
      → (e ≡ enabled true) × (inject_parsed im pod (parse_annotations pod.annotations) ≢ pod)
  unfolding default_enabled
  default_enabled_sound pod gate_error h = absurd (h refl)
  default_enabled_sound pod (enabled false) h = absurd (h refl)
  default_enabled_sound pod (enabled true) h = (refl, h)

  -- A pod is changed only in a namespace that is labelled for it, and only if its annotations are
  -- well formed and ask for a container.
  pub default_pod-IsPermitted :
      (client : String → Lookup) (pod : Pod)
      → default_pod im client pod ≢ pod
      → IsPermitted client pod
  unfolding default_pod
  default_pod-IsPermitted client pod h =
      let (is_open, changed) = default_enabled_sound pod _ h in
      let (labels, answered, labelled) = namespace_enabled_sound _ is_open in
      let (req, read, asked) = inject_parsed_sound pod _ changed in
      record {
        labels = labels;
        answered = answered;
        labelled = labelled;
        request = req;
        read = read;
        asked = asked;
      }

  inject_parsed-annotations :
      (pod : Pod) (r : Parsed) → (inject_parsed im pod r).annotations ≡ pod.annotations
  unfolding inject_parsed
  inject_parsed-annotations pod (malformed m) = refl
  inject_parsed-annotations pod (parsed req) = ground (arith, inject_pod-annotations im pod req)

  inject_parsed_again :
      (pod : Pod) (r : Parsed)
      → inject_parsed im (inject_parsed im pod r) r ≡ inject_parsed im pod r
  unfolding inject_parsed
  inject_parsed_again pod (malformed m) = refl
  inject_parsed_again pod (parsed req) =
      elim (Bool-cases (req.inject_sidecar || req.inject_proxy)) [
        | inl asked ↦ rw asked (inject_pod_idempotent im pod req)
        | inr idle ↦ rw idle refl
      ]

  inject_parsed-namespace :
      (pod : Pod) (r : Parsed) → (inject_parsed im pod r).namespace ≡ pod.namespace
  unfolding inject_parsed
  inject_parsed-namespace pod (malformed m) = refl
  inject_parsed-namespace pod (parsed req) = ground (arith, inject_pod-namespace im pod req)

  default_enabled-namespace :
      (pod : Pod) (e : Enabled) → (default_enabled im pod e).namespace ≡ pod.namespace
  unfolding default_enabled
  default_enabled-namespace pod gate_error = refl
  default_enabled-namespace pod (enabled false) = refl
  default_enabled-namespace pod (enabled true) = inject_parsed-namespace pod _

  default_enabled_again :
      (pod : Pod) (e : Enabled)
      → default_enabled im (default_enabled im pod e) e ≡ default_enabled im pod e
  unfolding default_enabled
  default_enabled_again pod gate_error = refl
  default_enabled_again pod (enabled false) = refl
  default_enabled_again pod (enabled true) =
      simp (inject_parsed-annotations pod (parse_annotations pod.annotations))
        (inject_parsed_again pod (parse_annotations pod.annotations))

  -- A webhook that is called again on its own result changes nothing.
  pub default_pod_idempotent :
      (client : String → Lookup) (pod : Pod)
      → default_pod im client (default_pod im client pod) ≡ default_pod im client pod
  unfolding default_pod
  default_pod_idempotent client pod =
      simp
        (default_enabled-namespace pod
          (namespace_enabled (client (or_else pod.namespace "default"))))
        (default_enabled_again pod (namespace_enabled (client (or_else pod.namespace "default"))))
