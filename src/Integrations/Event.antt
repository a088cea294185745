-- ===== src/Integrations/Event.antt =====
-- The event types and the event record of internal/integrations/backend.go.
use kimo.Prelude.{String}
use kimo.Types.{ChallengeInstance}

pub data EventType : Type 0 where
  event_creating event_running event_unhealthy event_expiring event_expired event_failed
        event_deleted :
      EventType

abbrev pub event_text : EventType → String
event_text event_creating = "instance.creating"
event_text event_running = "instance.running"
event_text event_unhealthy = "instance.unhealthy"
event_text event_expiring = "instance.expiring"
event_text event_expired = "instance.expired"
event_text event_failed = "instance.failed"
event_text event_deleted = "instance.deleted"

-- The field `Timestamp` is left out: no code of the repository sets it, and it stays zero.
pub record Event : Type 0 where
  pub type : EventType
  pub instance_name : String
  pub challenge : String
  pub team : String
  pub player : String
  pub endpoint : String
  pub reason : String

-- The literal `integrations.Event{…}` that the instance and the lifecycle controller share.
abbrev pub event_of : ChallengeInstance → EventType → String → Event
event_of instance' type reason = record {
  type = type;
  instance_name = instance'.metadata.name;
  challenge = instance'.spec.template_ref;
  team = instance'.spec.team;
  player = instance'.spec.player;
  endpoint = instance'.status.endpoint;
  reason = reason;
}
