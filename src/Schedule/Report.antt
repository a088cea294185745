-- ===== src/Schedule/Report.antt =====
-- What a run of the challenge set controller writes.
use kimo.Prelude.{String, ◌≡◌, refl, ◌↔◌, Result, ok, some, is_ok, arith, ◌∷◌, true}
use kimo.Prelude.Int.{◌≤ℤ◌, ◌<ℤ◌}
use kimo.Types.{Time, NamespacedName, ScheduleSpec, ChallengeSet}
use kimo.Cluster.{Api, Sys, get_set, update_set_status, effects}
use kimo.Schedule.{decide, set_status, reconcile}
use kimo.Schedule.Window.{decide-active_iff}

-- A run that reads a challenge set whose schedule parses makes one more call, whatever that call
-- answers: it writes the status of the set, with the metadata and the spec that it read, and
-- active exactly if the time after the read is not before the start and is before the end.
pub reconcile-decides :
    {W E : Type 0} (parse_time : String → Result String Time) (api : Api W E) (key : NamespacedName)
    (s : Sys W) {set : ChallengeSet} {schedule : ScheduleSpec} {start_at end_at : Time}
    → (api.get_set key s.world).0 ≡ ok set
    → set.spec.schedule ≡ some schedule
    → parse_time schedule.start_at ≡ ok start_at
    → parse_time schedule.end_at ≡ ok end_at
    → let now = api.clock (api.get_set key s.world).1 in
      (u : ChallengeSet) × (u.metadata ≡ set.metadata)
      × (u.spec ≡ set.spec)
      × ((u.status.active ≡ true) ↔ ((start_at ≤ℤ now) × (now <ℤ end_at)))
      × ((reconcile parse_time api key s).1.log
          ≡ record {
            request = update_set_status u;
            succeeded = is_ok (api.update_set_status u (api.get_set key s.world).1).0;
          }
            ∷ record { request = get_set key; succeeded = true }
            ∷ s.log)
unfolding reconcile set_status effects
reconcile-decides parse_time api key s {set} {schedule} found timed starts ends =
    let now = api.clock (api.get_set key s.world).1 in
    let d = decide parse_time (some schedule) now in
    (
      record set { status = record { active = d.active; message = d.message } },
      refl,
      refl,
      decide-active_iff parse_time schedule _ _ now starts ends,
      ground arith,
    )
