-- ===== src/Types/Schedule.antt =====
-- api/v1alpha1/challengeset_types.go
use kimo.Prelude.{String, Bool, Option, List}
use kimo.Types.Meta.{ObjectMeta}

pub record ScheduleSpec : Type 0 where
  pub start_at : String
  pub end_at : String

pub record SetSpec : Type 0 where
  pub challenges : List String
  pub schedule : Option ScheduleSpec

pub record SetStatus : Type 0 where
  pub active : Bool
  pub message : String

pub record ChallengeSet : Type 0 where
  pub metadata : ObjectMeta
  pub spec : SetSpec
  pub status : SetStatus
