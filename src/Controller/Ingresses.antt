-- ===== src/Controller/Ingresses.antt =====
-- `ensureMediaIngress` of internal/controller/ingress.go up to the write of the ingress, with
-- `inheritedHost`, `tlsSecretOf` and `deref`.
pub mod Host
pub mod Laws
use mcp_media.Prelude.{
  Bool, true, false, not, ◌||◌, Option, none, some, List, [], ◌∷◌, if◌then◌else◌, ◌==◌ as nat_eq,
}
use mcp_media.Names.{String, StringMap, get, put, ◌==◌, ◌<>◌}
use mcp_media.Prelude.Int.{pos}
use mcp_media.Checked.{Result, ok, ◌>>=◌}
use mcp_media.Webhook.Inject.{or_else}
use mcp_media.Controller.Cluster.{
  Ingress, Rule, Tls, Call, get_ingress, write_ingress, Failure, Ingress-discrete,
}
use mcp_media.Controller.Api.{Api}
use mcp_media.Controller.Workload.{Workload, media_name}
use mcp_media.Controller.Services.{Services}
use Prim.Native.Char.{code}
use mcp_media.Controller.Source.{Ingresses, find_source_ingress}

abbrev pub issuer_key : String
issuer_key = "cert-manager.io/cluster-issuer"

-- `cutAtFirstDot`, the text before the first dot and the one behind it
unfoldable pub cut_at_first_dot : String → Option (String × String)
cut_at_first_dot String.[] = none
cut_at_first_dot (String.◌∷◌ c s) =
    let later = cut_at_first_dot s in
    elim (nat_eq (code c) b'.') [
      | true ↦ some ("", s)
      | false ↦ elim later [ none ↦ none | some (a, b) ↦ some (String.◌∷◌ c a, b) ]
    ]

-- `inheritedHost`
unfoldable pub inherited_host : String → String → String
inherited_host src_host name =
    if src_host == "" then name <> "-media" else elim (cut_at_first_dot src_host) [
      | none ↦ src_host <> "-media"
      | some (first, rest) ↦ first <> "-media" <> "." <> rest
    ]

-- `tlsSecretOf`
unfoldable pub tls_secret_of : Ingress → String
tls_secret_of src = elim src.tls [ [] ↦ "" | t ∷ _ ↦ t.secret_name ]

-- `deref`
abbrev pub deref : Option String → String
deref none = ""
deref (some s) = s

-- What shapes the ingress: from the annotations, and for the empty ones from the source.
pub record Shape : Type 0 where
  pub class : String
  pub host : String
  pub issuer : String
  pub tls_secret : String

unfoldable pub annotated : Workload → Shape
annotated w = record {
  class = get "media.media/ingress-class" w.template_annotations;
  host = get "media.media/ingress-host" w.template_annotations;
  issuer = get "media.media/cert-issuer" w.template_annotations;
  tls_secret = get "media.media/ingress-tls-secret" w.template_annotations;
}

unfoldable pub host_from : Workload → String → List Rule → String
host_from w host [] = host
host_from w host (rule ∷ _) = or_else host (inherited_host rule.host w.name)

unfoldable pub inherit : Workload → Shape → Option Ingress → Shape
inherit w s none = s
inherit w s (some src) = record {
  class = or_else s.class (deref src.class);
  host = host_from w s.host src.rules;
  issuer = or_else s.issuer (get issuer_key src.annotations);
  tls_secret = or_else s.tls_secret (tls_secret_of src);
}

unfoldable pub with_defaults : Workload → Shape → Shape
with_defaults w s = record s {
  class = or_else s.class "tailscale";
  host = or_else s.host (w.name <> "-media");
}

unfoldable pub is_complete : Shape → Bool
is_complete s = not (s.class == "" || s.host == "" || s.issuer == "")

unfoldable pub media_tls : Shape → List Tls
media_tls s =
    if not (s.tls_secret == "")
    then record { hosts = s.host ∷ []; secret_name = s.tls_secret } ∷ []
    else if s.class == "tailscale"
    then record { hosts = s.host ∷ []; secret_name = "" } ∷ []
    else []

unfoldable pub media_ingress : Workload → Shape → Option String → StringMap → Ingress
media_ingress w s owner annotations = record {
  annotations = if s.issuer == "" then annotations else put issuer_key s.issuer annotations;
  class = some s.class;
  rules =
      record {
        host = s.host;
        paths = some (record { path = "/"; backend = some (media_name w, pos 8090) } ∷ []);
      }
      ∷ [];
  tls = media_tls s;
  owner = owner;
}

abbrev pub blank_ingress : Ingress
blank_ingress = record { annotations = []; class = none; rules = []; tls = []; owner = none }

module _ (api : Api) (w : Workload) where
  -- The function that `ensureMediaIngress` hands to CreateOrUpdate.
  unfoldable pub shape_ingress : Services → Ingresses → Ingress → Result Failure Ingress
  shape_ingress services ingresses ing = do
    owner ← api.set_owner w.uid ing.owner
    source ←
        if is_complete (annotated w)
        then ok none
        else find_source_ingress api.works services w ingresses
    ok (media_ingress w (with_defaults w (inherit w (annotated w) source)) owner ing.annotations)

  unfoldable pub ensure_ingress_object : Services → Ingresses → Ingresses × Result Failure Ingress
  ensure_ingress_object services ingresses =
      api.put_ingress (media_name w) blank_ingress (shape_ingress services ingresses) ingresses
