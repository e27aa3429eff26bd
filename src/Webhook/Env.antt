-- ===== src/Webhook/Env.antt =====
-- What a process in a container reads of the variables that internal/webhook/v1/inject.go writes.
use mcp_media.Prelude.{List, [], ◌∷◌, if◌then◌else◌}
use mcp_media.Names.{String, ◌==◌}
use mcp_media.Webhook.Pod.{EnvVar, EnvValue, plain, from_secret}

-- The value of a variable, where `secrets` gives the value a secret of that name holds.
abbrev pub value_of : (String → String) → EnvValue → String
value_of secrets (plain v) = v
value_of secrets (from_secret s) = secrets s

-- os.Getenv in a container with these variables, whose names differ
unfoldable pub getenv_in : (String → String) → List EnvVar → String → String
getenv_in secrets [] key = ""
getenv_in secrets (e ∷ es) key =
    if e.name == key then value_of secrets e.value else getenv_in secrets es key
