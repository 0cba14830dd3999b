-- ===== src/Event.antt =====
-- internal/event/docker_wire.go: the events of containers. The pauses between two connections to Docker
-- (Backoff) and the generator itself (Generator) stand in the modules below.
pub mod Backoff
pub mod Generator
use docker_coredns_sync.Prelude.{
  List, Option, Text, [], codes, if◌then◌else◌, nat_eq, none, not, some, text_eq, ℕ, ◌*◌, ◌/◌, ◌∷◌,
}
use docker_coredns_sync.GoMap.{Map, lookup}
use docker_coredns_sync.GoText.{trim_prefix}
use docker_coredns_sync.Domain.Intent.{Time}
use docker_coredns_sync.Domain.Event.{
  ContainerEvent, event_type_of_text, initial_detection, is_valid,
}

unfoldable pub first_name : List Text → Text
unfolding trim_prefix
first_name [] = []
first_name (name ∷ names) = trim_prefix name (codes "/")

-- fromContainerSummary, on the fields of the summary that it reads; created is in seconds.
unfoldable pub from_container_summary : Text → List Text → ℕ → Map Text Text → ContainerEvent
unfolding first_name
from_container_summary id names created labels = record {
  container = record {
    id = id;
    name = first_name names;
    created = created * 1000000000;
    labels = labels;
  };
  event_type = initial_detection;
  running_container_ids = [];
}

-- attributes["name"]
unfoldable pub or_empty : Option Text → Text
or_empty none = []
or_empty (some s) = s

-- fromEventsMessage, on the fields of the message that it reads: none is an unsupported event type.
unfoldable pub from_events_message : Text → Map Text Text → Text → Time → Option ContainerEvent
unfolding lookup or_empty is_valid event_type_of_text
from_events_message id attributes status time_nano =
    let event : ContainerEvent = record {
      container = record {
        id = id;
        name = or_empty (lookup attributes (codes "name"));
        created = time_nano;
        labels = attributes;
      };
      event_type = event_type_of_text status;
      running_container_ids = [];
    } in
    if not (is_valid event.event_type) then none else some event
