-- ===== src/Tests/Objects.antt =====
-- The theorems on fences and challenge sets as a run of their controllers leaves them.
use kimo.Prelude.Int.{◌≤ℤ◌, ◌<ℤ◌}
use kimo.Prelude.{
  true, ◌↔◌, lookup, String, ◌==◌, true, false, none, some, [], ◌∷◌, Result, ok, err, ◌≡◌, refl,
  arith, if◌then◌else◌,
}
use kimo.Prelude.Int.{pos}
use kimo.Types.{Time, NamespacedName, object_meta, running, NetworkFence, ChallengeSet}
use kimo.Cluster.{Api, get_fence, get_set, update_set_status, Sys, effects}
use kimo.Instance.Quiet.{KeepsKey}
use kimo.Instance.Ensure.{owned_by, wrapping}
use kimo.Fence
use kimo.Fence.{build_network_policy, apply_policy, fence_off}
use kimo.Fence.Ownership.{reconcile-IsOwned}
use kimo.Instance.Ownership.{IsOwned}
use kimo.Instance.Reconcile
use kimo.Cluster.Log.{Extends}
use kimo.Fence.Applied.{Reported, reconcile-Reported}
use kimo.Schedule
use kimo.Schedule.{decide, decide_at}
use kimo.Schedule.Report.{reconcile-decides}
use kimo.Tests.World.{Failure, World, cluster, red_instance, system_at}

abbrev key : NamespacedName
key = record { name = "web-red"; namespace = "default" }

abbrev system : Sys World
system = system_at (pos 15) (red_instance running none) none

abbrev red_fence : NetworkFence
red_fence = record {
  metadata = object_meta "web-red" "default" [];
  spec = record {
    instance_ref = "web-red";
    allow_rules = record { cidr = ""; port = pos 8080 } ∷ [];
    deny_rules = [];
    allow_egress = false;
  };
  status = record { applied = false; message = "" };
}

abbrev fenced : Api World Failure
fenced = record cluster { get_fence = λ k w. (ok red_fence, w) }

fenced-KeepsKey : KeepsKey fenced
fenced-KeepsKey owner m m' e = ground arith

reconcile-Reported_example :
    Reported fenced red_fence
      (record { request = get_fence key; succeeded = true } ∷ [])
      (Fence.reconcile fenced key system).1.log
unfolding Fence.reconcile fence_off apply_policy owned_by wrapping build_network_policy effects
reconcile-Reported_example =
    reconcile-Reported fenced fenced-KeepsKey key system {fence = red_fence} {d = pos 0} refl refl

reconcile-IsOwned_example :
    Extends
      (IsOwned fenced (red_instance running none).metadata)
      []
      (Reconcile.reconcile fenced none key system).1.log
    × Extends (IsOwned fenced red_fence.metadata) [] (Fence.reconcile fenced key system).1.log
unfolding lookup
reconcile-IsOwned_example =
    reconcile-IsOwned fenced none fenced-KeepsKey key key system system
      {i = red_instance running none} {fence = red_fence} refl refl

abbrev spring : ChallengeSet
spring = record {
  metadata = object_meta "spring" "default" [];
  spec = record {
    challenges = "web" ∷ [];
    schedule = some (record { start_at = "start"; end_at = "end" });
  };
  status = record { active = false; message = "" };
}

abbrev parse_time : String → Result String Time
parse_time t = if t == "start" then ok (pos 10) else if t == "end" then ok (pos 20) else err "bad"

abbrev seasonal : Api World Failure
seasonal = record cluster { get_set = λ k w. (ok spring, w) }

reconcile-decides_example :
    (u : ChallengeSet) × (u.metadata ≡ spring.metadata)
    × (u.spec ≡ spring.spec)
    × ((u.status.active ≡ true) ↔ ((pos 10 ≤ℤ pos 15) × (pos 15 <ℤ pos 20)))
    × ((Schedule.reconcile parse_time seasonal key system).1.log
        ≡ record { request = update_set_status u; succeeded = true }
          ∷ record { request = get_set key; succeeded = true }
          ∷ [])
reconcile-decides_example =
    reconcile-decides parse_time seasonal key system {set = spring}
      {schedule = record { start_at = "start"; end_at = "end" }} {start_at = pos 10}
      {end_at = pos 20} refl refl refl refl
