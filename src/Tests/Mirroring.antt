-- ===== src/Tests/Mirroring.antt =====
-- The theorems on mirrored tools and on the sidecar's configuration, at concrete inputs.
use mcp_media.Prelude.{
  ◌≡◌, refl, Bool, true, false, Option, none, some, List, [], ◌∷◌, if◌then◌else◌, ℕ, find?, arith,
  Bool-cases, inl, sym, inr,
}
use mcp_media.Prelude.Int.{pos}
use mcp_media.Names.{String, ◌==◌}
use mcp_media.Text.{Bytes, codes, is_empty, text_eq, split, has_prefix}
use mcp_media.FilePath.{is_abs}
use mcp_media.Mint.Config.{is_http}
use mcp_media.Checked.{ok}
use mcp_media.Proxy.Upstream.{text}
use mcp_media.Proxy.Upstream.{
  object, Fields, field, ListedTool, DownstreamTool, empty_object, Decoded, sync_tools,
  downstream_tool, reserved_names,
}
use mcp_media.Sidecar.Config.{
  Parsing, SidecarConfig, load_sidecar, check_base_url, read_roots, duration_env, read_duration,
}
use mcp_media.Platform.{FileSystem, ok as stat_ok}
use mcp_media.Proxy.Upstream.Reference.{found}
use mcp_media.Names.{str_eq_iff}
use mcp_media.Tests.World.{disk}
use mcp_media.Prelude.{◌↔◌}
use mcp_media.Tests.World.{toy, root, secret}
use mcp_media.Proxy.Session.{
  System, Input, run, unused, connect_call, changed_call, close_call, turn, advance, called_place,
  publish, with_session, returned, with_listing, closing_place, apply_sweep, close_session,
}
use mcp_media.Proxy.Session.Mutex.{IsExclusive, run-IsExclusive}
use mcp_media.Proxy.Session.Laws.{
  HasObjects, mirror_at, IsOwn, mirror_all, run-IsOwn, run-HasObjects, applied, run-mirror_all,
}
use mcp_media.Proxy.Session.Open.{run-open}
use mcp_media.Proxy.Session.Steps.{is_resetting}
use mcp_media.Proxy.Upstream.Reference.{mirror_of, listed_as, sync_tools-mirror_of}
use mcp_media.Sidecar.Main.{Ending, sidecar_main, Served, sidecar_main_iff}
use mcp_media.Shutdown.{cancelled}

abbrev is_reserved : String → Bool
unfolding reserved_names
is_reserved = reserved_names ("stream_media" ∷ "download_file" ∷ [])

abbrev was_mirrored : String → Bool
was_mirrored n = n == "search"

-- The server has a tool of its own.
abbrev own_tool : DownstreamTool String
own_tool = record {
  name = "stream_media";
  metadata = "own";
  input_schema = empty_object;
  output_schema = none;
}

abbrev server : String → Option (DownstreamTool String)
server n = if n == "stream_media" then some own_tool else none

-- The upstream server lists a tool under the reserved name, and no other.
abbrev listing : List (ListedTool Fields String)
listing =
    record { name = "stream_media"; metadata = "theirs"; input_schema = none; output_schema = none }
    ∷ []

abbrev plain_parsing : Parsing
plain_parsing = record { parse_duration = λ v. none; trim_space = λ s. s }

abbrev sidecar_environment : String → Bytes
sidecar_environment key =
    if key == "MEDIA_SIGNING_SECRET"
    then secret
    else if key == "MEDIA_INTERNAL_TOKEN"
    then codes "token"
    else if key == "MEDIA_PUBLIC_BASE_URL"
    then codes "http://media"
    else []

abbrev sidecar : SidecarConfig
sidecar = record {
  secret = secret;
  token = codes "token";
  public_base_url = codes "http://media";
  roots = root ∷ [];
  serve_addr = codes ":8090";
  mint_addr = codes ":8091";
  default_ttl = pos 300000000000;
  max_ttl = pos 900000000000;
}

sidecar-loaded : load_sidecar toy plain_parsing sidecar_environment ≡ ok sidecar
unfolding load_sidecar check_base_url read_roots duration_env read_duration is_http is_abs is_empty
    text_eq split has_prefix
sidecar-loaded = refl

abbrev with_root : FileSystem
with_root = record disk { stat = λ p. stat_ok (record { is_dir = true; size = 0 }) }

abbrev stopped : Ending
stopped = record {
  ended = cancelled;
  serve_first = true;
  serve_graceful = true;
  mint_graceful = true;
}

sidecar_main_iff_example :
    (sidecar_main toy plain_parsing with_root sidecar_environment stopped ≡ 0)
    ↔ Served with_root stopped (load_sidecar toy plain_parsing sidecar_environment)
sidecar_main_iff_example = sidecar_main_iff toy plain_parsing with_root sidecar_environment stopped

abbrev serving : System Fields String
serving = unused server

abbrev as_object : Fields → Decoded
as_object s = object s

abbrev connecting : Input Fields String
connecting = record { call = connect_call; dialled = true; tools = some listing }

abbrev changing : Input Fields String
changing = record { call = changed_call; dialled = true; tools = none }

abbrev leaving : Input Fields String
leaving = record { call = close_call; dialled = true; tools = none }

-- Goroutine 0 connects. When it has its session, goroutine 1 is told of a change and takes the mutex;
-- goroutine 2 ends the session, and the listing of goroutine 1 fails.
abbrev order : List (ℕ × Input Fields String)
order =
    (0, connecting)
    ∷ (0, connecting)
    ∷ (1, changing)
    ∷ (1, changing)
    ∷ (1, changing)
    ∷ (0, connecting)
    ∷ (2, leaving)
    ∷ (2, leaving)
    ∷ (1, changing)
    ∷ (1, changing)
    ∷ (0, connecting)
    ∷ (0, connecting)
    ∷ []

abbrev mixed : System Fields String
unfolding run turn advance called_place publish with_session returned closing_place close_session
mixed = run as_object is_reserved order serving

-- The mutex went from goroutine 1 to goroutine 0, and the session is closed.
mixed-session : (mixed.shared.session ≡ none) × (mixed.shared.locked ≡ true)
unfolding run turn advance called_place publish with_session returned closing_place close_session
mixed-session = (refl, refl)

serving-IsExclusive : IsExclusive serving
serving-IsExclusive = record { held = λ i h. cc; alone = λ i j h k. cc }

run-IsExclusive_example : IsExclusive (run as_object is_reserved order serving)
run-IsExclusive_example = run-IsExclusive as_object is_reserved order serving serving-IsExclusive

-- Goroutine 0 connects, and nobody disturbs it.
abbrev alone : List (ℕ × Input Fields String)
alone =
    (0, connecting)
    ∷ (0, connecting)
    ∷ (0, connecting)
    ∷ (0, connecting)
    ∷ (0, connecting)
    ∷ (0, connecting)
    ∷ (0, connecting)
    ∷ []

alone-kept : (run as_object is_reserved alone serving).shared.session ≡ some 0
unfolding run turn advance called_place publish with_session with_listing returned apply_sweep
alone-kept = refl

alone-calm : (i : ℕ) → is_resetting 0 ((run as_object is_reserved alone serving).place i) ≡ false
unfolding run turn advance called_place publish with_session with_listing returned apply_sweep
alone-calm i = ground arith

serving-own :
    (n : String) (tool : DownstreamTool String)
    → server n ≡ some tool
    → (tool.name ≡ n) × (field "type" tool.input_schema ≡ some (text "object"))
unfolding field
serving-own n tool h = elim (Bool-cases (n == "stream_media")) [
  | inl same ↦
      let own : own_tool ≡ tool = cc (rw same at h) in
      rw (← own) (sym ((str_eq_iff n "stream_media").0 same), refl)
  | inr other ↦ cc (rw other at h)
]

serving-HasObjects : HasObjects (mirror_at serving)
serving-HasObjects = record { takes_object = serving-own }

run-open_example : (run as_object is_reserved alone serving).shared.closed 0 ≡ false
run-open_example = run-open as_object is_reserved server alone 0 alone-kept alone-calm

run-mirror_all_example :
    mirror_at (run as_object is_reserved order serving)
    ≡ mirror_all as_object is_reserved
        (applied as_object is_reserved order serving)
        (mirror_at serving)
run-mirror_all_example = run-mirror_all as_object is_reserved order serving

run-IsOwn_example :
    IsOwn as_object is_reserved "stream_media"
      (some own_tool)
      (mirror_at (run as_object is_reserved alone serving))
unfolding is_reserved
run-IsOwn_example =
    run-IsOwn as_object is_reserved "stream_media" (some own_tool) refl alone serving (refl, refl)

run-HasObjects_example : HasObjects (mirror_at (run as_object is_reserved alone serving))
run-HasObjects_example = run-HasObjects as_object is_reserved alone serving serving-HasObjects

sync_tools-mirror_of_example :
    found "stream_media" (sync_tools as_object is_reserved listing was_mirrored server)
    ≡ mirror_of (is_reserved "stream_media") (was_mirrored "stream_media") (server "stream_media") (
        listed_as (downstream_tool as_object) (find? (λ tool. "stream_media" == tool.name) listing))
sync_tools-mirror_of_example =
    sync_tools-mirror_of as_object is_reserved listing was_mirrored server "stream_media"
