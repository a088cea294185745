-- ===== src/Schedule.antt =====
-- The challenge set controller: internal/controller/challengeset_controller.go.
pub mod Window
pub mod Report
use kimo.Prelude.{
  String, ◌<>◌, Bool, true, false, Option, none, some, Result, ok, err, if◌then◌else◌,
}
use kimo.Prelude.Int.{pos, ltb_ℤ}
use kimo.Types.{Time, Duration, NamespacedName, ScheduleSpec, ChallengeSet}
use kimo.Cluster.{
  Api, get_set, update_set_status, M, Sys, pure, raise, call, attempt, ◌>>=◌, is_not_found,
}
use kimo.Instance.Reconcile.{seconds}
use kimo.Lifecycle.{time_sub}

abbrev pub default_set_requeue : Duration
default_set_requeue = seconds 30

-- The status that a run writes, and after which time it asks for the next run.
pub record Decision : Type 0 where
  pub active : Bool
  pub message : String
  pub requeue_after : Duration

abbrev pub decision : Bool → String → Duration → Decision
decision active message requeue_after = record {
  active = active;
  message = message;
  requeue_after = requeue_after;
}

-- The `switch` on the time.
unfoldable pub decide_at : Time → Time → Time → Decision
decide_at start_at end_at now =
    if ltb_ℤ now start_at
    then decision false "waiting for schedule to start" (time_sub start_at now)
    else if ltb_ℤ now end_at
    then decision true "" (time_sub end_at now)
    else decision false "schedule ended" default_set_requeue

-- `time.Parse(time.RFC3339, …)` is a parameter: it answers a time, or the text of its error.
module _ (parse_time : String → Result String Time) where
  with_end : Time → Result String Time → Time → Decision
  with_end start_at (ok end_at) now = decide_at start_at end_at now
  with_end start_at (err e) now =
      decision false ("invalid schedule.endAt: " <> e) default_set_requeue

  with_start : Result String Time → String → Time → Decision
  unfolding with_end
  with_start (ok start_at) end_text now = with_end start_at (parse_time end_text) now
  with_start (err e) end_text now =
      decision false ("invalid schedule.startAt: " <> e) default_set_requeue

  unfoldable pub decide : Option ScheduleSpec → Time → Decision
  unfolding with_start
  decide none now = decision true "" default_set_requeue
  decide (some schedule) now = with_start (parse_time schedule.start_at) schedule.end_at now

  module _ {W E : Type 0} (api : Api W E) where
    unfoldable pub set_status : ChallengeSet → Decision → M W E Duration
    set_status set d = do
      let set' = record set { status = record { active = d.active; message = d.message } }
      call (update_set_status set') (api.update_set_status set') >>= λ _. pure d.requeue_after

    unfoldable pub reconcile : NamespacedName → M W E Duration
    reconcile key =
        attempt (call (get_set key) (api.get_set key))
          (λ set s. set_status set (decide set.spec.schedule (api.clock s.world)) s)
          (λ e. if is_not_found api e then pure (pos 0) else raise e)
