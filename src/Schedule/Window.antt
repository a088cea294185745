-- ===== src/Schedule/Window.antt =====
-- When a challenge set is active, and how long a decision stays right.
use kimo.Prelude.{subst, sym, ◌+◌, ◌^◌, ◌-◌, ◌≡◌, ◌≢◌, ◌↔◌, String, true, some, Result, ok, arith}
use native.Mathlib.Decide.{dec_lt}
use kimo.Prelude.Int.{int_laws, pos_part, neg_part, pos, ◌+ℤ◌, ◌-ℤ◌, ◌≤ℤ◌, ◌<ℤ◌, +ℤ_parts, -ℤ_parts}
use kimo.Types.{Time, ScheduleSpec}
use kimo.Lifecycle.Timing.{time_sub-eq}
use kimo.Schedule.{decide_at, decide}

-- A set whose schedule parses is active from its start on and before its end, and at no other time.
pub decide-active_iff :
    (parse_time : String → Result String Time) (schedule : ScheduleSpec)
    (start_at end_at now : Time)
    → parse_time schedule.start_at ≡ ok start_at
    → parse_time schedule.end_at ≡ ok end_at
    → ((decide parse_time (some schedule) now).active ≡ true)
      ↔ ((start_at ≤ℤ now) × (now <ℤ end_at))
unfolding decide decide_at
decide-active_iff parse_time schedule start_at end_at now p q = ground arith

-- A decision stays right until the run that it asks for: before the end of the schedule, the set
-- is as active at any time up to the requested one as it is now.
decide_at-stable :
    (start_at end_at now later : Time)
    → now <ℤ end_at
    → end_at ≤ℤ now +ℤ pos (2 ^ 63 - 1)
    → start_at ≤ℤ now +ℤ pos (2 ^ 63 - 1)
    → now ≤ℤ later
    → later <ℤ now +ℤ (decide_at start_at end_at now).requeue_after
    → (decide_at start_at end_at later).active ≡ (decide_at start_at end_at now).active
decide_at-stable start_at end_at now later during near near' after before =
    elim (dec_lt (pos_part now + neg_part start_at) (pos_part start_at + neg_part now)) [
      | yes early ↦
          let exact = time_sub-eq start_at now (omega arith) near' in
          let p = -ℤ_parts start_at now in
          let q = +ℤ_parts now (start_at -ℤ now) in unfold decide_at in ground arith
      | no late ↦
          let exact = time_sub-eq end_at now (omega arith) near in
          let p = -ℤ_parts end_at now in
          let q = +ℤ_parts now (end_at -ℤ now) in unfold decide_at in ground arith
    ]

-- At the run that is asked for, after a positive delay, the set is not as active as it is now.
decide_at-turns :
    (start_at end_at now : Time)
    → start_at <ℤ end_at
    → now <ℤ end_at
    → end_at ≤ℤ now +ℤ pos (2 ^ 63 - 1)
    → (pos 0 <ℤ (decide_at start_at end_at now).requeue_after)
      × ((decide_at start_at end_at (now +ℤ (decide_at start_at end_at now).requeue_after)).active
          ≢ (decide_at start_at end_at now).active)
decide_at-turns start_at end_at now ordered during near =
    elim (dec_lt (pos_part now + neg_part start_at) (pos_part start_at + neg_part now)) [
      | yes early ↦
          let exact = time_sub-eq start_at now (omega arith) (omega arith) in
          let p = -ℤ_parts start_at now in
          let q = +ℤ_parts now (start_at -ℤ now) in unfold decide_at in ground arith
      | no late ↦
          let exact = time_sub-eq end_at now (omega arith) near in
          let p = -ℤ_parts end_at now in
          let q = +ℤ_parts now (end_at -ℤ now) in unfold decide_at in ground arith
    ]

-- Before the end of a schedule, the next run is asked for after a positive delay, and for exactly
-- the time at which the set turns active or inactive: from now up to that run, the set is not as
-- active as now at the time of that run and at no other. The start lies before the end, and the end
-- within an int64 of now.
pub decide_at-flips :
    (start_at end_at now later : Time)
    → start_at <ℤ end_at
    → now <ℤ end_at
    → end_at ≤ℤ now +ℤ pos (2 ^ 63 - 1)
    → now ≤ℤ later
    → later ≤ℤ now +ℤ (decide_at start_at end_at now).requeue_after
    → (pos 0 <ℤ (decide_at start_at end_at now).requeue_after)
      × (((decide_at start_at end_at later).active ≢ (decide_at start_at end_at now).active)
          ↔ (later ≡ now +ℤ (decide_at start_at end_at now).requeue_after))
decide_at-flips start_at end_at now later ordered during near from upto =
    let (delay, turned) = decide_at-turns start_at end_at now ordered during near in
    let next = now +ℤ (decide_at start_at end_at now).requeue_after in
    (
      delay,
      (
        λ other. elim (dec_lt (pos_part later + neg_part next) (pos_part next + neg_part later)) [
          | yes before ↦ absurd (
              other
                (decide_at-stable start_at end_at now later during near (omega arith) from before))
          | no at_last ↦ omega (arith, int_laws)
        ],
        λ e.
            subst
              (λ x. (decide_at start_at end_at x).active ≢ (decide_at start_at end_at now).active)
              (sym e) turned,
      ),
    )
