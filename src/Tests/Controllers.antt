-- ===== src/Tests/Controllers.antt =====
-- The theorems on the controllers, at concrete inputs.
use kimo.Prelude.{Bool, true, none, some, [], ◌∷◌, ok, err, ◌≡◌, refl, arith, lookup, insert}
use kimo.Prelude.Int.{pos}
use kimo.Types.{
  NamespacedName, phase_text, creating, expiring, expired, ChallengeInstance, ChallengeTemplate,
}
use kimo.Cluster.{Api, get_instance, update_instance_status, notify, api_error, Sys, effects}
use kimo.Cluster.Log.{Extends, Only}
use kimo.Instance.Report.{reconcile-Success, reconcile-IsUnreported}
use kimo.Instance.Reconcile.{
  reconcile, advance, seconds, with_phase, provision, conclude, observe, determine_phase,
  transition, announce_phase,
}
use kimo.Instance.Ensure.{
  ensure_workload, ensure_network_fence, ensure_expiry, effective_ttl, create_if_missing, owned_by,
  wrapping, ensure_deployment, ensure_service,
}
use kimo.Instance.Phase.{terminal, phase_of_pods, event_for_phase, pod_ready}
use kimo.Instance.Build.{build_deployment, build_service, build_network_fence}
use kimo.Instance.Quiet.{KeepsKey}
use kimo.Instance.Steps.{Success, IsUnreported}
use kimo.Integrations.Backend.{announce}
use kimo.Lifecycle
use kimo.Lifecycle.Report.{reconcile-expires}
use kimo.Template
use kimo.Template.Readiness.{IsTemplateCall, validate-calls}
use kimo.Integrations.Event.{event_expired, event_of}
use kimo.Machine.Writes.{IsNext, reconcile-IsNext}
use kimo.Machine.Expiry.{lifecycle-IsNext}
use kimo.Tests.World.{
  Failure, forbidden, World, cluster, cluster-KeepsKey, platform, web_port, web_template,
  red_instance, system_at,
}

abbrev red_key : NamespacedName
red_key = record { name = "web-red"; namespace = "default" }

abbrev red : ChallengeInstance
red = red_instance creating none

abbrev at_work : Sys World
at_work = system_at (pos 1000) red none

reconcile-Success_example :
    Success
      (some platform)
      red_key
      creating
      []
      (reconcile cluster (some platform) red_key at_work).1.log
unfolding reconcile advance provision conclude observe determine_phase transition announce_phase
    ensure_workload ensure_network_fence ensure_expiry effective_ttl create_if_missing owned_by
    wrapping ensure_deployment ensure_service terminal phase_of_pods event_for_phase pod_ready
    phase_text build_deployment build_service build_network_fence announce lookup insert effects
reconcile-Success_example =
    reconcile-Success cluster (some platform) cluster-KeepsKey red_key at_work {i = red}
      {d = seconds 15} refl refl refl

-- The same cluster where the pods cannot be listed.
abbrev blind : Api World Failure
blind = record cluster { list_pods = λ n l w. (err forbidden, w) }

blind-KeepsKey : KeepsKey blind
blind-KeepsKey owner m m' e = ground arith

reconcile-IsUnreported_example :
    Extends IsUnreported [] (reconcile blind (some platform) red_key at_work).1.log
unfolding reconcile advance provision conclude observe determine_phase ensure_workload
    ensure_network_fence ensure_expiry effective_ttl create_if_missing owned_by wrapping
    ensure_deployment ensure_service terminal build_deployment build_service build_network_fence
    lookup effects
reconcile-IsUnreported_example =
    reconcile-IsUnreported blind (some platform) blind-KeepsKey red_key at_work
      {e = api_error forbidden} refl

-- An instance whose time is over.
abbrev late : ChallengeInstance
late = red_instance expiring (some (pos 900))

abbrev at_end : Sys World
at_end = system_at (pos 1000) late none

reconcile-expires_example :
    ((Lifecycle.reconcile cluster (some platform) red_key at_end).0 ≡ ok (seconds 60))
    × ((sent : Bool) × ((Lifecycle.reconcile cluster (some platform) red_key at_end).1.log
          ≡ record {
            request =
                notify
                  (event_of (with_phase late expired "TTL expired") event_expired "TTL expired");
            succeeded = sent;
          }
            ∷ record {
              request = update_instance_status (with_phase late expired "TTL expired");
              succeeded = true;
            }
            ∷ record { request = get_instance red_key; succeeded = true }
            ∷ []))
unfolding terminal lookup
reconcile-expires_example =
    reconcile-expires cluster platform red_key at_end {i = late}
      {u = with_phase late expired "TTL expired"} {t = pos 900} refl refl refl (omega arith) refl

abbrev web : ChallengeTemplate
web = web_template (web_port ∷ []) none

validate-calls_example : Only (IsTemplateCall web) (Template.validate cluster web)
validate-calls_example = validate-calls cluster web

abbrev web_key : NamespacedName
web_key = record { name = "web"; namespace = "default" }

abbrev counted : World
counted = record at_work.world { templates = ("web", Template.ready_with web 1) ∷ [] }

reconcile-IsNext_example :
    Extends (IsNext red) [] (reconcile cluster (some platform) red_key at_work).1.log
unfolding lookup
reconcile-IsNext_example = reconcile-IsNext cluster (some platform) red_key at_work {i = red} refl

lifecycle-IsNext_example :
    Extends (IsNext late) [] (Lifecycle.reconcile cluster (some platform) red_key at_end).1.log
unfolding lookup
lifecycle-IsNext_example = lifecycle-IsNext cluster (some platform) red_key at_end {i = late} refl
