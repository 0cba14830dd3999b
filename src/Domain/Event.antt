-- ===== src/Domain/Event.antt =====
-- internal/domain/container_event.go. The string types are data types; `other_event` stands for a string
-- that is none of the constants.
use docker_coredns_sync.Prelude.{
  Bool, List, Text, codes, false, if◌then◌else◌, nat_eq, text_beq, text_eq, true, ◌==◌,
}
use docker_coredns_sync.GoMap.{Map}
use docker_coredns_sync.Domain.Intent.{Time}

pub data EventType : Type 0 where
  die start stop initial_detection resync : EventType
  other_event : Text → EventType

-- IsValid
unfoldable pub is_valid : EventType → Bool
is_valid (other_event s) = false
is_valid _ = true

-- EventType(s)
unfoldable pub event_type_of_text : Text → EventType
unfolding text_beq
event_type_of_text s =
    if s == codes "die"
    then die
    else if s == codes "start"
    then start
    else if s == codes "stop"
    then stop
    else if s == codes "initial_detection"
    then initial_detection
    else if s == codes "resync"
    then resync
    else other_event s

pub data ContainerStatus : Type 0 where
  running removed : ContainerStatus

unfoldable pub is_running : ContainerStatus → Bool
is_running running = true
is_running removed = false

pub record Container : Type 0 where
  pub id : Text
  pub name : Text
  pub created : Time
  pub labels : Map Text Text

pub record ContainerEvent : Type 0 where
  pub container : Container
  pub event_type : EventType
  pub running_container_ids : List Text
