-- ===== src/Tests/Visits.antt =====
-- The theorems on runs that follow one another on an instance, at concrete runs.
use kimo.Prelude.{◌≡◌, ◌≢◌, ◌⊎◌, refl, none, some, Any, arith, lookup, insert}
use kimo.Prelude.Int.{pos, ◌+ℤ◌, ◌-ℤ◌}
use kimo.Types.{NamespacedName, phase_text, pending, running, expiring, expired, ChallengeInstance}
use kimo.Cluster.{Sys, effects}
use kimo.Integrations.Backend.{announce}
use kimo.Instance.Reconcile
use kimo.Instance.Reconcile.{
  seconds, with_phase, advance, provision, conclude, observe, determine_phase, transition,
  announce_phase,
}
use kimo.Instance.Ensure.{
  ensure_workload, ensure_network_fence, ensure_expiry, effective_ttl, create_if_missing, owned_by,
  wrapping, ensure_deployment, ensure_service,
}
use kimo.Instance.Phase.{terminal, phase_of_pods, event_for_phase, pod_ready}
use kimo.Instance.Build.{build_deployment, build_service, build_network_fence}
use kimo.Lifecycle
use kimo.Lifecycle.{step_at, time_sub, take_step, notify_and_set_phase}
use kimo.Lifecycle.Visits.{left_by, Visit}
use kimo.Lifecycle.Chain.{runs-expire}
use kimo.Machine.Grace.{IsNotice, reconcile-enters_again}
use kimo.Tests.World.{World, cluster, cluster-KeepsKey, platform, red_instance, system_at, world_at}

abbrev key : NamespacedName
key = record { name = "web-red"; namespace = "default" }

abbrev up : ChallengeInstance
up = red_instance running (some (seconds 100))

abbrev warned : ChallengeInstance
warned = with_phase up expiring "entering expiry grace window"

abbrev over : ChallengeInstance
over = with_phase warned expired "TTL expired"

early_run : Visit cluster (some platform) key up (seconds 10) (seconds 30) up
unfolding Lifecycle.reconcile Lifecycle.advance time_sub step_at take_step notify_and_set_phase
    terminal phase_text announce lookup insert effects left_by ◌+ℤ◌ ◌-ℤ◌
early_run = record {
  state = system_at (seconds 10) up none;
  read = refl;
  clock = refl;
  asked = refl;
  left = refl;
}

warning_run : Visit cluster (some platform) key up (seconds 40) (seconds 60) warned
unfolding Lifecycle.reconcile Lifecycle.advance time_sub step_at take_step notify_and_set_phase
    terminal phase_text announce lookup insert effects left_by ◌+ℤ◌ ◌-ℤ◌
warning_run = record {
  state = system_at (seconds 40) up none;
  read = refl;
  clock = refl;
  asked = refl;
  left = refl;
}

last_run : Visit cluster (some platform) key warned (seconds 100) (seconds 60) over
unfolding Lifecycle.reconcile Lifecycle.advance time_sub step_at take_step notify_and_set_phase
    terminal phase_text announce lookup insert effects left_by ◌+ℤ◌ ◌-ℤ◌
last_run = record {
  state = system_at (seconds 100) warned none;
  read = refl;
  clock = refl;
  asked = refl;
  left = refl;
}

runs-expire_example :
    ((running ≡ expiring) × (seconds 10 +ℤ seconds 30 ≡ seconds 100) × (expiring ≡ expired))
    ⊎ ((running ≡ running)
        × (expiring ≡ expiring)
        × ((seconds 10 +ℤ seconds 30) +ℤ seconds 60 ≡ seconds 100)
        × (expired ≡ expired))
unfolding terminal ◌+ℤ◌
runs-expire_example =
    runs-expire cluster (some platform) key {i = up} {j = up} {k = warned} {l = over}
      {now = seconds 10} {t = seconds 100} {d = seconds 30} {d' = seconds 60} {d'' = seconds 60}
      refl (ground arith) refl (omega arith) (omega arith) early_run warning_run last_run

-- The instance in its grace window after a run of the instance controller.
abbrev again : ChallengeInstance
again = record warned {
  status = record warned.status {
    phase = running;
    reason = "";
    pod_name = "web-red";
    unhealthy_count = pos 0;
  };
}

abbrev warned_again : ChallengeInstance
warned_again = with_phase again expiring "entering expiry grace window"

second_warning : Visit cluster (some platform) key again (seconds 50) (seconds 50) warned_again
unfolding Lifecycle.reconcile Lifecycle.advance time_sub step_at take_step notify_and_set_phase
    terminal phase_text announce lookup insert effects left_by ◌+ℤ◌ ◌-ℤ◌
second_warning = record {
  state = system_at (seconds 50) again none;
  read = refl;
  clock = refl;
  asked = refl;
  left = refl;
}

reconcile-enters_again_example :
    (running ≢ expiring)
    × ((running ≡ pending)
        ⊎ Any IsNotice
            (Reconcile.reconcile cluster
              (some platform)
              key
              (system_at (seconds 45) warned none)).1.log)
    × (expiring ≡ expiring)
    × (seconds 50 +ℤ seconds 50 ≡ seconds 100)
unfolding Reconcile.reconcile advance provision conclude observe determine_phase transition
    announce_phase ensure_workload ensure_network_fence ensure_expiry effective_ttl
    create_if_missing owned_by wrapping ensure_deployment ensure_service terminal phase_of_pods
    event_for_phase pod_ready phase_text build_deployment build_service build_network_fence announce
    lookup insert effects left_by ◌+ℤ◌
reconcile-enters_again_example =
    reconcile-enters_again cluster platform cluster-KeepsKey key key
      (world_at (seconds 45) warned none) {i = warned} {k = again} {l = warned_again}
      {d = seconds 15} {d' = seconds 50} {now = seconds 50} {t = seconds 100} refl refl refl refl
      refl (ground arith) (omega arith) (omega arith) second_warning

-- A cluster at a time at which an instance has just been created.
abbrev begun : Sys World
begun = system_at (pos 1000) (red_instance running none) none
