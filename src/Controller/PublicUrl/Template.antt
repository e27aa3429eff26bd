-- ===== src/Controller/PublicUrl/Template.antt =====
-- The containers of a pod template after the variable was set.
use mathlib.Core.List.{map}
use mcp_media.Prelude.{
  ◌≡◌, refl, true, false, List, [], ◌∷◌, Bool-cases, inl, inr, arith, ◌++◌, ap, ◌∙◌, all, not,
}
use mcp_media.Names.{String, ◌==◌, eq_refl}
use mcp_media.Controller.Cluster.{WorkloadObject, TemplateContainer, TemplateEnv}
use mcp_media.Controller.Workload.{first_port, adapter, first_port_of}
use mcp_media.Controller.Services.Laws.{map-twice}
use mcp_media.Controller.PublicUrl.{set_value, names_url, set_env, set_public_url}
use mcp_media.Prelude.Int.{ℤ}
use mcp_media.Text.{Bytes}

set_value_twice :
    (value : String) (e : TemplateEnv) → set_value value (set_value value e) ≡ set_value value e
unfolding set_value
set_value_twice value e = elim (Bool-cases (e.name == "MEDIA_PUBLIC_BASE_URL")) [
  | inl mine ↦ simp (mine) refl
  | inr other ↦ simp (other) refl
]

set_value-name : (value : String) (e : TemplateEnv) → (set_value value e).name ≡ e.name
unfolding set_value
set_value-name value e = elim (Bool-cases (e.name == "MEDIA_PUBLIC_BASE_URL")) [
  | inl mine ↦ simp (mine) refl
  | inr other ↦ simp (other) refl
]

names_url-map :
    (value : String) (env : List TemplateEnv)
    → names_url (map (set_value value) env) ≡ names_url env
unfolding names_url
names_url-map value [] = refl
names_url-map value (e ∷ env) = rw (set_value-name value e, names_url-map value env) refl

abbrev url_env : String → TemplateEnv
url_env value = record { name = "MEDIA_PUBLIC_BASE_URL"; value = value; has_source = false }

names_url-append :
    (value : String) (env : List TemplateEnv) → names_url (env ++ (url_env value ∷ [])) ≡ true
unfolding names_url
names_url-append value [] = rw (eq_refl "MEDIA_PUBLIC_BASE_URL") refl
names_url-append value (e ∷ env) = ground (arith, names_url-append value env)

map-append :
    (value : String) (env : List TemplateEnv)
    → names_url env ≡ false
    → map (set_value value) (env ++ (url_env value ∷ [])) ≡ env ++ (url_env value ∷ [])
unfolding names_url set_value
map-append value [] h = refl
map-append value (e ∷ env) h = ground (arith, map-append value env)

set_env_twice :
    (value : String) (env : List TemplateEnv)
    → set_env value (set_env value env) ≡ set_env value env
unfolding set_env
set_env_twice value env = elim (Bool-cases (names_url env)) [
  | inl there ↦
      rw (there, names_url-map value env, there)
        (map-twice (set_value value) env (set_value_twice value))
  | inr missing ↦ rw (missing, names_url-append value env) (map-append value env missing)
]

set_public_url_twice :
    (url : String) (c : TemplateContainer)
    → set_public_url url (set_public_url url c) ≡ set_public_url url c
unfolding set_public_url
set_public_url_twice url c = elim (Bool-cases (c.name == "media-sidecar")) [
  | inl mine ↦ rw mine (rw (mine, set_env_twice url c.env) refl)
  | inr other ↦ rw other (rw other refl)
]

set_public_url-ports :
    (url : String) (c : TemplateContainer) → (set_public_url url c).ports ≡ c.ports
unfolding set_public_url
set_public_url-ports url c = elim (Bool-cases (c.name == "media-sidecar")) [
  | inl mine ↦ rw mine refl
  | inr other ↦ rw other refl
]

first_port_next :
    (ports : List ℤ) {b b' : Bytes} → b ≡ b' → first_port_of ports b ≡ first_port_of ports b'
first_port_next [] same = same
first_port_next (port ∷ ports) same = refl

first_port-map :
    (url : String) (containers : List TemplateContainer)
    → first_port (map (set_public_url url) containers) ≡ first_port containers
unfolding first_port
first_port-map url [] = refl
first_port-map url (c ∷ containers) =
    ap (λ ports. first_port_of ports (first_port (map (set_public_url url) containers)))
      (set_public_url-ports url c)
    ∙ first_port_next c.ports (first_port-map url containers)

abbrev pub with_url : String → WorkloadObject → WorkloadObject
with_url url d = record d { containers = map (set_public_url url) d.containers }

pub with_url_twice :
    (url : String) (d : WorkloadObject) → with_url url (with_url url d) ≡ with_url url d
with_url_twice url d =
    ap (λ cs. record d { containers = cs })
      (map-twice (set_public_url url) d.containers (set_public_url_twice url))

pub adapter-with_url :
    (name url : String) (d : WorkloadObject) → adapter name (with_url url d) ≡ adapter name d
unfolding adapter
adapter-with_url name url d = rw (first_port-map url d.containers) refl

pub set_public_url_lacking :
    (url : String) (containers : List TemplateContainer)
    → all (λ (c : TemplateContainer). not (c.name == "media-sidecar")) containers ≡ true
    → map (set_public_url url) containers ≡ containers
unfolding set_public_url
set_public_url_lacking url [] h = refl
set_public_url_lacking url (c ∷ containers) h = elim (Bool-cases (c.name == "media-sidecar")) [
  | inl is ↦ absurd (ground arith)
  | inr isnt ↦
      let later : map (set_public_url url) containers ≡ containers =
        set_public_url_lacking url containers (ground arith) in
      rw (isnt, later) refl
]
