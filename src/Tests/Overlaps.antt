-- ===== src/Tests/Overlaps.antt =====
-- The theorem on runs that overlap, at a concrete history.
use kimo.Prelude.{
  String, ◌≡◌, ◌≢◌, refl, inl, inr, true, some, none, [], arith, lookup, insert, eq_iff,
}
use kimo.Prelude.Int.{pos}
use kimo.Types.{phase_text, expiring, expired, terminating, ChallengeInstance}
use kimo.Cluster.{effects}
use kimo.Instance.Phase.{terminal}
use kimo.Instance.Reconcile.{with_phase}
use kimo.Integrations.Backend.{announce}
use kimo.Lifecycle
use kimo.Lifecycle.{time_sub, step_at, take_step, notify_and_set_phase}
use kimo.Machine.{Reaches}
use kimo.Machine.Store.{
  Store, replaced, IsConsistent, Sends, lifecycle_run, Write, status_write, spec_write, begin,
  then_write, History-final,
}
use kimo.Machine.Deadline.{extended, deadline, extended-deadline, lifecycle-History}
use kimo.Lifecycle.{enter_grace}
use kimo.Types.{ChallengeTemplate}
use kimo.Prelude.{none, [], ◌∷◌}
use kimo.Machine.Store.{History}
use kimo.Tests.World.{web_template, web_port}
use kimo.Tests.World.{cluster, platform, red_instance, system_at}

abbrev versioned : ChallengeInstance → String → ChallengeInstance
versioned i v = record i { metadata = record i.metadata { resource_version = v } }

abbrev late : ChallengeInstance
late = versioned (red_instance expiring (some (pos 900))) "7"

abbrev gone : ChallengeInstance
gone = with_phase late expired "TTL expired"

abbrev web : ChallengeTemplate
web = web_template (web_port ∷ []) none

abbrev before : Store
before = record { stored = late; past = [] }

abbrev between : Store
between = replaced before (versioned gone "8")

abbrev after : Store
after =
    replaced between
      (record (versioned gone "9") { spec = record late.spec { ttl_override = "2h" } })

before-IsConsistent : IsConsistent before
before-IsConsistent = record { named = (ground (arith, eq_iff "7" ""), tt); distinct = tt }

sent : Sends cluster (some platform) late gone
unfolding Lifecycle.reconcile Lifecycle.advance time_sub step_at take_step notify_and_set_phase
    terminal phase_text announce lookup insert effects
sent =
    lifecycle_run (record { name = "web-red"; namespace = "default" })
      (system_at (pos 1000) late none).world refl (inr (inl refl))

expires : Write cluster (some platform) before between
expires =
    status_write late gone "8" (inl refl) sent (inr refl)
      (ground (arith, eq_iff "8" ""), (ground (arith, eq_iff "7" "8"), tt)) refl

respecified : Write cluster (some platform) between after
respecified =
    spec_write gone.metadata (record late.spec { ttl_override = "2h" }) "9"
      (
        ground (arith, eq_iff "9" ""),
        (ground (arith, eq_iff "8" "9"), (ground (arith, eq_iff "7" "9"), tt)),
      )
      refl

History-final_example :
    Reaches expiring expired
    × (terminal expiring ≡ true → ◌≡◌ expired expiring)
    × (expiring ≢ terminating → expired ≢ terminating)
History-final_example =
    History-final cluster (some platform) {s = before} {t = after} before-IsConsistent
      (then_write (then_write begin expires) respecified)

extended-deadline_example :
    deadline (extended (extended before "2h" late "8") "3h" late "9") ≡ some (pos 900)
extended-deadline_example =
    extended-deadline cluster (some platform) "2h" "8" late {d = pos 900} {s = before}
      {t = extended (extended before "2h" late "8") "3h" late "9"} before-IsConsistent
      (ground (arith, eq_iff "8" ""), (ground (arith, eq_iff "7" "8"), tt)) refl
      (then_write begin (
        spec_write late.metadata (record late.spec { ttl_override = "3h" }) "9"
          (
            ground (arith, eq_iff "9" ""),
            (ground (arith, eq_iff "8" "9"), (ground (arith, eq_iff "7" "9"), tt)),
          )
          refl))

lifecycle-History_example :
    let after = replaced before (versioned gone "8") in
    Write cluster (some platform) before after
    × ((later : Store)
        → History cluster (some platform) after later
        → later.stored.status.phase ≡ expired)
unfolding terminal lookup
lifecycle-History_example =
    lifecycle-History cluster platform (record { name = "web-red"; namespace = "default" })
      (system_at (pos 1000) late none).world "8" {s = before} {u = gone} {d = pos 900}
      before-IsConsistent (ground (arith, eq_iff "8" ""), (ground (arith, eq_iff "7" "8"), tt)) refl
      refl refl (omega arith) refl
