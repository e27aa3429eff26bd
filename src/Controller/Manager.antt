-- ===== src/Controller/Manager.antt =====
-- `main` of cmd/media-controller/main.go, over the manager of controller-runtime.
use mcp_media.Prelude.{
  ◌≡◌, ◌↔◌, ℕ, Bool, true, false, not, Option, none, some, List, [], ◌∷◌, All, if◌then◌else◌, arith,
  Bool-cases, inl, inr,
}
use mcp_media.Names.{String, ◌==◌}
use mcp_media.Checked.{Result, ok, err, guard, ◌>>=◌, ◌>>◌}
use mcp_media.Webhook.Inject.{Images, default_images, configure_images}

-- The flags, with what they are where they are not given.
pub record Flags : Type 0 where
  pub metrics_addr : String
  pub metrics_cert_path : String
  pub metrics_cert_name : String
  pub metrics_cert_key : String
  pub webhook_cert_path : String
  pub webhook_cert_name : String
  pub webhook_cert_key : String
  pub enable_leader_election : Bool
  pub probe_addr : String
  pub secure_metrics : Bool
  pub enable_http2 : Bool

abbrev pub default_flags : Flags
default_flags = record {
  metrics_addr = "0";
  metrics_cert_path = "";
  metrics_cert_name = "tls.crt";
  metrics_cert_key = "tls.key";
  webhook_cert_path = "";
  webhook_cert_name = "tls.crt";
  webhook_cert_key = "tls.key";
  enable_leader_election = false;
  probe_addr = ":8081";
  secure_metrics = true;
  enable_http2 = false;
}

pub record CertFiles : Type 0 where
  pub dir : String
  pub name : String
  pub key : String

-- The options of the two TLS servers; the protocols are fixed to http/1.1, or left to the library.
pub record WebhookOptions : Type 0 where
  pub http1_only : Bool
  pub certs : Option CertFiles

pub record MetricsOptions : Type 0 where
  pub bind_address : String
  pub secure_serving : Bool
  pub http1_only : Bool
  pub with_authentication : Bool
  pub certs : Option CertFiles

pub record ManagerOptions : Type 0 where
  pub metrics : MetricsOptions
  pub webhook : WebhookOptions
  pub probe_addr : String
  pub leader_election : Bool
  pub leader_election_id : String

unfoldable pub certs_at : String → String → String → Option CertFiles
certs_at path name key =
    if path == "" then none else some (record { dir = path; name = name; key = key })

unfoldable pub webhook_options : Flags → WebhookOptions
webhook_options f = record {
  http1_only = not f.enable_http2;
  certs = certs_at f.webhook_cert_path f.webhook_cert_name f.webhook_cert_key;
}

unfoldable pub metrics_options : Flags → MetricsOptions
metrics_options f = record {
  bind_address = f.metrics_addr;
  secure_serving = f.secure_metrics;
  http1_only = not f.enable_http2;
  with_authentication = f.secure_metrics;
  certs = certs_at f.metrics_cert_path f.metrics_cert_name f.metrics_cert_key;
}

unfoldable pub manager_options : Flags → ManagerOptions
manager_options f = record {
  metrics = metrics_options f;
  webhook = webhook_options f;
  probe_addr = f.probe_addr;
  leader_election = f.enable_leader_election;
  leader_election_id = "b1df4d26.media";
}

-- The calls of the library that may fail; each failure ends the program.
pub data SetupCall : Type 0 where
  new_manager : ManagerOptions → SetupCall
  setup_webhook setup_reconciler add_healthz add_readyz start_manager : SetupCall

module _ (works : SetupCall → Bool) where
  unfoldable pub attempt : SetupCall → Result SetupCall (Unit {0})
  attempt call = guard (works call) call

  -- The images are set before the webhook is registered.
  unfoldable pub with_webhook : (String → String) → Result SetupCall Images
  with_webhook getenv =
      if getenv "ENABLE_WEBHOOKS" == "false"
      then ok default_images
      else attempt setup_webhook
        >> ok (
            configure_images default_images (getenv "SIDECAR_IMAGE") (getenv "PROXY_IMAGE")
              (getenv "SIGNING_SECRET_NAME") (getenv "INTERNAL_TOKEN_SECRET_NAME"))

  -- Up to the end of `main`, with the images that the webhook injected.
  unfoldable pub set_up : Flags → (String → String) → Result SetupCall Images
  set_up f getenv = do
    attempt (new_manager (manager_options f))
    images ← with_webhook getenv
    attempt setup_reconciler
    attempt add_healthz
    attempt add_readyz
    attempt start_manager
    ok images

  unfoldable pub code_of_setup : Result SetupCall Images → ℕ
  code_of_setup (ok images) = 0
  code_of_setup (err call) = 1

  -- `main`
  unfoldable pub controller_main : Flags → (String → String) → ℕ
  controller_main f getenv = code_of_setup (set_up f getenv)

  abbrev pub later_calls : List SetupCall
  later_calls = setup_reconciler ∷ add_healthz ∷ add_readyz ∷ start_manager ∷ []

  -- The calls of a whole run.
  abbrev pub needed_calls : Flags → Bool → List SetupCall
  needed_calls f true = new_manager (manager_options f) ∷ later_calls
  needed_calls f false = new_manager (manager_options f) ∷ setup_webhook ∷ later_calls

  -- The program ends with code 0 exactly if every call of the library succeeds: the manager, the webhook
  -- unless ENABLE_WEBHOOKS is "false", the reconciler, the two checks, and the manager's run.
  pub controller_main_iff :
      (f : Flags) (getenv : String → String)
      → (controller_main f getenv ≡ 0)
        ↔ All (λ call. works call ≡ true) (needed_calls f (getenv "ENABLE_WEBHOOKS" == "false"))
  unfolding controller_main set_up with_webhook attempt code_of_setup
  controller_main_iff f getenv = elim (Bool-cases (getenv "ENABLE_WEBHOOKS" == "false")) [
    | inl off ↦ rw off ((λ h. ground arith), (λ h. ground arith))
    | inr on ↦ rw on ((λ h. ground arith), (λ h. ground arith))
  ]
