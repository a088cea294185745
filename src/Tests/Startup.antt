-- ===== src/Tests/Startup.antt =====
-- The theorems on the manager, at concrete inputs.
use kimo.Prelude.{
  String, ◌==◌, true, false, List, [], ◌∷◌, Result, ok, err, is_ok, ◌≡◌, refl, if◌then◌else◌,
}
use kimo.Manager.Flags.{default_flags, parse_bool, Argument, set_flag, parse_flags}
use kimo.Manager.Options.{TlsConfig, manager_options}
use kimo.Manager.Startup.{Setup, register, manager_ended, Runtime, main}
use kimo.Manager.Http2.{configured, asks_http2, servers-http2}
use kimo.Manager.Order.{Started, made_of, main-Started}
use kimo.Tests.Platforms.{decode_key, decode_ctfd}

-- The lifecycle controller cannot be created.
abbrev performs : Setup → Result String Unit
performs (register r) = if r.named == "lifecycle" then err "already registered" else ok tt
performs _ = ok tt

abbrev machine : Runtime Unit String
machine = record {
  perform = λ c w. (performs c, w);
  run = λ addr backend w. (manager_ended (ok tt), w);
}

abbrev environment : String → String
environment name = if name == "KIMO_BACKEND" then "ctfd" else "cfg"

main-Started_example :
    let after =
      main machine decode_key decode_ctfd default_flags environment
        (record { world = tt; trace = [] }) in
    Started default_flags (made_of decode_key decode_ctfd environment) after.1.trace (is_ok after.0)
main-Started_example = main-Started machine decode_key decode_ctfd default_flags environment tt

abbrev arguments : List Argument
arguments =
    record { name = "enable-http2"; value = "true" }
    ∷ record { name = "leader-elect"; value = "true" }
    ∷ record { name = "enable-http2"; value = "F" }
    ∷ []

abbrev plain : TlsConfig
plain = record { next_protos = "h2" ∷ [] }

servers-http2_example :
    let flags = record default_flags { enable_leader_election = true } in
    let wanted =
      (if asks_http2 false arguments
        then plain
        else record plain { next_protos = "http/1.1" ∷ [] }) in
    (configured (manager_options flags).webhook_server.tls_opts plain ≡ wanted)
    × (configured (manager_options flags).metrics.tls_opts plain ≡ wanted)
unfolding parse_flags set_flag parse_bool
servers-http2_example =
    servers-http2 (λ name. false) arguments plain
      {g = record default_flags { enable_leader_election = true }} refl
