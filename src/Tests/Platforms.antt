-- ===== src/Tests/Platforms.antt =====
-- The theorems on the scoring backends, at concrete inputs.
use kimo.Prelude.{ℕ, String, ◌==◌, ◌<>◌, List, [], ◌∷◌, Result, ok, err, none, if◌then◌else◌}
use kimo.Prelude.Int.{ℤ, pos}
use kimo.Types.{running}
use kimo.Integrations.Event.{Event, event_text, event_running, event_of}
use kimo.Integrations.Backend.{Principal, HttpRequest}
use kimo.Integrations.Http.{Wire, Client}
use kimo.Integrations.Generic.{GenericBackend}
use kimo.Integrations.Ctfd.{CtfdConfig}
use kimo.Tests.World.{red_instance}

-- A network where each server answers 200, except one that is down.
abbrev pub network : Client Unit String
network call w =
    if call.url == "http://down/"
    then (err "connection refused", w)
    else (ok (record { status = 200; body = "alice" }), w)

abbrev pub quiet_wire : Wire Unit
quiet_wire = record { world = tt; sent = [] }

abbrev pub ctfd_config : CtfdConfig
ctfd_config = record { base_url = "http://ctfd"; webhook_url = ""; api_key = "k" }

abbrev pub decode_ctfd : String → Result String CtfdConfig
decode_ctfd t = if t == "{}" then ok (record ctfd_config { base_url = "" }) else ok ctfd_config

abbrev pub decode_key : String → Result String String
decode_key t = ok t

abbrev pub hooked : GenericBackend
hooked = record { api_key = "key"; hooks = ("http://down/", "s") ∷ ("http://hook/", "old") ∷ [] }

abbrev pub mac : String → String → List ℕ
mac secret payload = if secret == "new" then 7 ∷ [] else 8 ∷ []

abbrev pub encode : Event → Result String String
encode e = ok (event_text e.type <> e.instance_name)

abbrev pub now_running : Event
now_running = event_of (red_instance running (none)) event_running ""

abbrev pub decode_user : String → Result String (String × ℤ)
decode_user t = ok (t, pos 42)

abbrev alice : Principal
alice = record { subject = "alice"; team = "42"; scopes = [] }

abbrev with_token : HttpRequest
with_token = record { authorization = "Token t" }
