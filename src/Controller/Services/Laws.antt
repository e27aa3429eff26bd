-- ===== src/Controller/Services/Laws.antt =====
-- The services of a workload after a reconciliation.
use mathlib.Core.Logic.{if_pos, if_neg}
use mathlib.Core.List.{map}
use mathlib.Core.Option
use mcp_media.Prelude.{
  ◌≡◌, refl, sym, ap, ◌∙◌, Bool, false, Option, some, none, List, [], ◌∷◌, Bool-cases, arith, inl,
  inr, subst, ◌⊎◌, if◌then◌else◌,
}
use mcp_media.Names.{String, StringMap, put-put, ◌==◌, str_eq_iff}
use mcp_media.Prelude.Int.{ℤ, eqb_ℤ}
use mcp_media.Checked.{ok, >>=-ok, ok_injective}
use mcp_media.Store.{find, store, find-store_self, find-store}
use mcp_media.Controller.Cluster.{
  Service, ServicePort, ServicePorts-discrete, Call, Failure, patch_service, get_service,
  call_failed,
}
use mcp_media.Controller.Workload.{Workload}
use mcp_media.Controller.Api.{Api, IsSetOwner}
use mcp_media.Controller.Api.Laws.{set_owner_again}
use mcp_media.Controller.Services.{
  Services, shape_service, group_label, retarget, patch_found, patch_port, patch_upstream_service,
  wrap32, upstream_port,
}
use mcp_media.Text.{is_empty}
use mcp_media.Sign.Decimal.{parse_int}

group_label_twice :
    (g : String) (labels : StringMap) → group_label g (group_label g labels) ≡ group_label g labels
group_label_twice g labels = elim (Bool-cases (g == "")) [
  | inl none_given ↦ rw none_given refl
  | inr given ↦ rw given (put-put "media.media/group" g g labels)
]

pub shape_service_again :
    (api : Api) (law : IsSetOwner api.set_owner) (w : Workload) (a b : Service)
    → shape_service api w a ≡ ok b
    → shape_service api w b ≡ ok b
unfolding shape_service
shape_service_again api law w a b h = >>=-ok (api.set_owner w.uid a.owner) _ h (λ owner owned h.
    let same = ok_injective h in
    subst (λ s. shape_service api w s ≡ ok s) same
      (rw (set_owner_again api.set_owner law w.uid a.owner owned, group_label_twice) refl))

retarget_twice : (up : ℤ) (p : ServicePort) → retarget up (retarget up p) ≡ retarget up p
unfolding retarget
retarget_twice up p = elim (Bool-cases (eqb_ℤ p.port (wrap32 up))) [
  | inl mine ↦ simp (mine) refl
  | inr other ↦ simp (other) refl
]

pub map-twice {ℓ} :
    {A : Type ℓ} (f : A → A) (xs : List A) → ((x : A) → f (f x) ≡ f x) → map f (map f xs) ≡ map f xs
map-twice f [] h = refl
map-twice f (x ∷ xs) h = ground (arith, h x, map-twice f xs h)

module _ (works : Call → Bool) (w : Workload) where
  -- Where the ports are right nothing is patched.
  patch_found_same :
      (up : ℤ) (svc : Service) (services : Services)
      → svc.ports ≡ map (retarget up) svc.ports
      → patch_found works w up (some svc) services ≡ (services, none)
  unfolding patch_found
  patch_found_same up svc services same = if_pos (ServicePorts-discrete _ _) same _ _

  abbrev pub retargeted : ℤ → Service → Service
  retargeted up svc = record svc { ports = map (retarget up) svc.ports }

  -- Nothing is stored, without an error only where the targets are right, or the service with its
  -- new targets is.
  pub patch_found_cases :
      (up : ℤ) (svc : Service) (services : Services)
      → ((o : Option Failure) × (patch_found works w up (some svc) services ≡ (services, o))
          × (o ≡ none → svc.ports ≡ map (retarget up) svc.ports))
        ⊎ (patch_found works w up (some svc) services
            ≡ (store w.name (retargeted up svc) services, none))
  patch_found_cases up svc services =
      elim (ServicePorts-discrete svc.ports (map (retarget up) svc.ports)) [
        | yes same ↦ inl (none, patch_found_same up svc services same, λ _. same)
        | no differs ↦
            let changing : patch_found works w up (some svc) services ≡ (
                if works patch_service
                then (store w.name (retargeted up svc) services, none)
                else (services, some call_failed)) =
              unfold patch_found in
              if_neg (ServicePorts-discrete svc.ports (map (retarget up) svc.ports)) differs _ _ in
            elim (Bool-cases (works patch_service)) [
              | inl can ↦ inr (rw (changing, can) refl)
              | inr cannot ↦
                  inl (some call_failed, rw (changing, cannot) refl, λ h. absurd (ground arith))
            ]
      ]

  patch_found_again :
      (up : ℤ) (old : Option Service) (services : Services)
      → find w.name services ≡ old
      → let r = patch_found works w up old services in
        patch_found works w up (find w.name r.0) r.0 ≡ r
  patch_found_again up none services found = unfold patch_found in rw found refl
  patch_found_again up (some svc) services found = elim (patch_found_cases up svc services) [
    | inl (o, kept, _) ↦ rw (kept, found) kept
    | inr patched ↦
        rw (patched, find-store_self w.name (retargeted up svc) services)
          (patch_found_same up (retargeted up svc) (store w.name (retargeted up svc) services)
            (sym (map-twice (retarget up) svc.ports (retarget_twice up))))
  ]

  patch_port_again :
      (up : Option ℤ) (services : Services)
      → patch_port works w up (patch_port works w up services).0 ≡ patch_port works w up services
  unfolding patch_port
  patch_port_again none services = refl
  patch_port_again (some up) services = elim (Bool-cases (works get_service)) [
    | inl can ↦ rw can (patch_found_again up _ services refl)
    | inr cannot ↦ rw cannot refl
  ]

  pub patch_upstream_service_again :
      (services : Services)
      → patch_upstream_service works w (patch_upstream_service works w services).0
        ≡ patch_upstream_service works w services
  unfolding patch_upstream_service
  patch_upstream_service_again services = elim (Bool-cases (is_empty (upstream_port w))) [
    | inl unknown ↦ rw unknown refl
    | inr given ↦ rw given (patch_port_again (parse_int (upstream_port w)) services)
  ]

  -- No service but the one of the workload's name changes, and that one only in its targets.
  pub record Retargets (services patched : Services) : Type 0 where
    pub others : (name : String) → (w.name == name) ≡ false → find name patched ≡ find name services
    pub selectors :
        (name : String)
        → Option.map (λ (s : Service). s.selector) (find name patched)
          ≡ Option.map (λ (s : Service). s.selector) (find name services)

  Retargets-refl : (services : Services) → Retargets services services
  Retargets-refl services = record { others = λ name h. refl; selectors = λ name. refl }

  Retargets-store :
      (services : Services) (svc next : Service)
      → find w.name services ≡ some svc
      → next.selector ≡ svc.selector
      → Retargets services (store w.name next services)
  Retargets-store services svc next found same = record {
    others = λ name other. find-store w.name name next services ∙ rw other refl;
    selectors = λ name. selectors_of name;
  }
    where
      selectors_of :
          (name : String)
          → Option.map (λ (s : Service). s.selector) (find name (store w.name next services))
            ≡ Option.map (λ (s : Service). s.selector) (find name services)
      selectors_of name = elim (Bool-cases (w.name == name)) [
        | inl here ↦
            let at_name : w.name ≡ name = (str_eq_iff w.name name).0 here in
            rw (find-store w.name name next services, here, ← at_name, found) (ap some same)
        | inr other ↦ rw (find-store w.name name next services, other) refl
      ]

  patch_found-Retargets :
      (up : ℤ) (old : Option Service) (services : Services)
      → find w.name services ≡ old
      → Retargets services (patch_found works w up old services).0
  patch_found-Retargets up none services found = unfold patch_found in Retargets-refl services
  patch_found-Retargets up (some svc) services found = elim (patch_found_cases up svc services) [
    | inl (o, kept, _) ↦ rw kept (Retargets-refl services)
    | inr patched ↦ rw patched (Retargets-store services svc (retargeted up svc) found refl)
  ]

  patch_port-Retargets :
      (up : Option ℤ) (services : Services) → Retargets services (patch_port works w up services).0
  unfolding patch_port
  patch_port-Retargets none services = Retargets-refl services
  patch_port-Retargets (some up) services = elim (Bool-cases (works get_service)) [
    | inl can ↦ rw can (patch_found-Retargets up _ services refl)
    | inr cannot ↦ rw cannot (Retargets-refl services)
  ]

  pub patch_upstream_service-Retargets :
      (services : Services) → Retargets services (patch_upstream_service works w services).0
  unfolding patch_upstream_service
  patch_upstream_service-Retargets services = elim (Bool-cases (is_empty (upstream_port w))) [
    | inl unknown ↦ rw unknown (Retargets-refl services)
    | inr given ↦ rw given (patch_port-Retargets (parse_int (upstream_port w)) services)
  ]
