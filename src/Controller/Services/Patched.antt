-- ===== src/Controller/Services/Patched.antt =====
-- The service of a workload after its ports were retargeted.
use mathlib.Core.List.{map}
use mathlib.Core.Logic.{if_pos, if_neg}
use mcp_media.Prelude.{
  ◌≡◌, refl, ap, ◌∙◌, Bool, true, Option, some, none, Bool-cases, Option-cases, inl, inr, List, ◌⊎◌,
  ◌∷◌, [], if◌then◌else◌,
}
use mcp_media.Prelude.Int.{ℤ, eqb_ℤ, pos}
use mcp_media.Text.{is_empty}
use mcp_media.Sign.Decimal.{parse_int}
use mcp_media.Store.{find, find-store_self}
use mcp_media.Controller.Cluster.{
  Service, Call, Failure, get_service, patch_service, ServicePorts-discrete, ServicePort, number,
  call_failed,
}
use mcp_media.Controller.Workload.{Workload}
use mcp_media.Controller.Services.{
  Services, upstream_port, retarget, patch_found, patch_port, patch_upstream_service, wrap32,
}
use mcp_media.Controller.Services.Laws.{patch_found_cases, retargeted}

-- One port after another is kept, with the proxy as its target if its number is `up` as an int32.
abbrev pub IsRetargeted : ℤ → List ServicePort → List ServicePort → Type 0
IsRetargeted up [] [] = Unit
IsRetargeted up [] (_ ∷ _) = ⊥
IsRetargeted up (_ ∷ _) [] = ⊥
IsRetargeted up (p ∷ ps) (q ∷ qs) =
    (q.name ≡ p.name)
    × (q.port ≡ p.port)
    × (q.target ≡ (if eqb_ℤ p.port (wrap32 up) then number (pos 5780) else p.target))
    × IsRetargeted up ps qs

map-IsRetargeted : (up : ℤ) (ps : List ServicePort) → IsRetargeted up ps (map (retarget up) ps)
unfolding retarget
map-IsRetargeted up [] = tt
map-IsRetargeted up (p ∷ ps) = elim (Bool-cases (eqb_ℤ p.port (wrap32 up))) [
  | inl same ↦ rw same (refl, refl, refl, map-IsRetargeted up ps)
  | inr other ↦ rw other (refl, refl, refl, map-IsRetargeted up ps)
]

abbrev second : Services × Option Failure → Option Failure
second p = p.1

module _ (works : Call → Bool) (w : Workload) where
  -- The service was there, and its ports have their new targets and nothing else that is new.
  pub record IsPatched (services patched : Services) : Type 0 where
    pub up : ℤ
    pub service : Service
    pub parsed : parse_int (upstream_port w) ≡ some up
    pub was_there : find w.name services ≡ some service
    pub ports : List ServicePort
    pub is_patched : find w.name patched ≡ some (record service { ports = ports })
    pub retargeted_ports : IsRetargeted up service.ports ports

  -- Where the patch works it succeeds, needed or not.
  pub patch_found_succeeds :
      (up : ℤ) (svc : Service) (services : Services)
      → works patch_service ≡ true
      → (patch_found works w up (some svc) services).1 ≡ none
  unfolding patch_found
  patch_found_succeeds up svc services can =
      elim (ServicePorts-discrete svc.ports (map (retarget up) svc.ports)) [
        | yes same ↦
            ap second
              (if_pos (ServicePorts-discrete svc.ports (map (retarget up) svc.ports)) same _ _)
        | no differs ↦
            ap second
              (if_neg (ServicePorts-discrete svc.ports (map (retarget up) svc.ports)) differs _ _)
            ∙ rw can refl
      ]

  patch_found-IsPatched :
      (up : ℤ) (svc : Service) (services : Services)
      → find w.name services ≡ some svc
      → (patch_found works w up (some svc) services).1 ≡ none
      → find w.name (patch_found works w up (some svc) services).0
        ≡ some (retargeted works w up svc)
  patch_found-IsPatched up svc services found succeeds =
      elim (patch_found_cases works w up svc services) [
        | inr stored ↦ rw stored (find-store_self w.name (retargeted works w up svc) services)
        | inl (o, kept, right) ↦
            let quiet : o ≡ none = rw kept at succeeds in
            rw (kept, found) (ap (λ ps. some (record svc { ports = ps })) (right quiet))
      ]

  -- A patch that fails changes nothing; one that succeeds does what it should.
  abbrev pub PatchEnds : Services → Services × Option Failure → Type 0
  PatchEnds services r =
      ((e : Failure) × (r ≡ (services, some e))) ⊎ ((r.1 ≡ none) × IsPatched services r.0)

  patch_found-quiet :
      (up : ℤ) (svc : Service) (services : Services)
      → parse_int (upstream_port w) ≡ some up
      → find w.name services ≡ some svc
      → (patch_found works w up (some svc) services).1 ≡ none
      → IsPatched services (patch_found works w up (some svc) services).0
  patch_found-quiet up svc services parsed found quiet = record {
    up = up;
    service = svc;
    parsed = parsed;
    was_there = found;
    ports = map (retarget up) svc.ports;
    is_patched = patch_found-IsPatched up svc services found quiet;
    retargeted_ports = map-IsRetargeted up svc.ports;
  }

  patch_found-PatchEnds :
      (up : ℤ) (svc : Service) (services : Services)
      → parse_int (upstream_port w) ≡ some up
      → find w.name services ≡ some svc
      → PatchEnds services (patch_found works w up (some svc) services)
  patch_found-PatchEnds up svc services parsed found =
      let patched = patch_found-quiet up svc services parsed found in
      elim (patch_found_cases works w up svc services) [
        | inr stored ↦
            let quiet : (patch_found works w up (some svc) services).1 ≡ none = rw stored refl in
            inr (quiet, patched quiet)
        | inl (none, kept, right) ↦
            let quiet : (patch_found works w up (some svc) services).1 ≡ none = rw kept refl in
            inr (quiet, patched quiet)
        | inl (some e, kept, right) ↦ inl (e, kept)
      ]

  patch_port-PatchEnds :
      (o : Option ℤ) (services : Services)
      → parse_int (upstream_port w) ≡ o
      → PatchEnds services (patch_port works w o services)
  unfolding patch_port
  patch_port-PatchEnds none services parsed = inl (_, refl)
  patch_port-PatchEnds (some up) services parsed = elim (Bool-cases (works get_service)) [
    | inr cannot ↦ rw cannot (inl (_, refl))
    | inl can ↦ elim (Option-cases (find w.name services)) [
      | inl missing ↦ rw (can, missing) (inl (call_failed, unfold patch_found in refl))
      | inr (svc, found) ↦ rw (can, found) (patch_found-PatchEnds up svc services parsed found)
    ]
  ]

  -- Either there is an error and no service is changed, or the upstream port is a number, the service of
  -- the workload's name was there, and afterwards it is as it was but for the ports with that number as
  -- an int32, which have the target 5780.
  pub patch_upstream_service-PatchEnds :
      (services : Services) → PatchEnds services (patch_upstream_service works w services)
  unfolding patch_upstream_service
  patch_upstream_service-PatchEnds services = elim (Bool-cases (is_empty (upstream_port w))) [
    | inl unknown ↦ rw unknown (inl (_, refl))
    | inr given ↦ rw given (patch_port-PatchEnds _ services refl)
  ]
