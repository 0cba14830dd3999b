-- ===== src/Core/Engine.antt =====
-- handleEvent of internal/core/engine.go, on the state tracker.
pub mod Reachable
pub mod Counts
pub mod Pass
pub mod Sync
pub mod Run
use docker_coredns_sync.Prelude.{
  Bool, List, Text, [], false, if◌then◌else◌, nat_eq, text_eq, true, ◌∷◌,
}
use docker_coredns_sync.GoMap.{insert}
use docker_coredns_sync.Config.{AppConfig, is_blank}
use docker_coredns_sync.Domain.Event.{
  Container, ContainerEvent, EventType, die, initial_detection, other_event, resync, running, start,
  stop,
}
use docker_coredns_sync.Domain.Intent.{RecordIntent, Time}
use docker_coredns_sync.State.{MemoryState, TextSet, mark_removed, retain_running, upsert}
use docker_coredns_sync.Core.Builder.{get_container_record_intents}

-- The running set of a resync event
unfoldable pub id_set : List Text → TextSet
unfolding insert
id_set [] = []
id_set (id ∷ ids) = insert (id_set ids) id tt

-- if len(intents) > 0 { Upsert }
unfoldable pub track : MemoryState → Container → List RecordIntent → Time → MemoryState
unfolding upsert
track s c [] now = s
track s c (ri ∷ intents) now = upsert s c.id c.name c.created (ri ∷ intents) running now

-- The cases of an event of a container that is named; `now` is the time of its handling.
unfoldable pub handle_container_event :
    AppConfig → Time → MemoryState → ContainerEvent → EventType → MemoryState
unfolding track mark_removed get_container_record_intents
handle_container_event cfg now s event initial_detection =
    track s event.container (get_container_record_intents event cfg) now
handle_container_event cfg now s event start =
    track s event.container (get_container_record_intents event cfg) now
handle_container_event cfg now s event stop = (mark_removed s event.container.id).0
handle_container_event cfg now s event die = (mark_removed s event.container.id).0
handle_container_event cfg now s event resync = s
handle_container_event cfg now s event (other_event t) = s

abbrev pub is_resync : EventType → Bool
is_resync resync = true
is_resync _ = false

-- handleEvent
unfoldable pub handle_event : AppConfig → Time → MemoryState → ContainerEvent → MemoryState
unfolding handle_container_event retain_running id_set
handle_event cfg now s event =
    if is_resync event.event_type
    then (retain_running s (id_set event.running_container_ids)).0
    else if is_blank event.container.id
    then s
    else handle_container_event cfg now s event event.event_type

-- The goroutine that takes the events one after the other, each with the time of its handling.
unfoldable pub handle_events : AppConfig → MemoryState → List (Time × ContainerEvent) → MemoryState
unfolding handle_event
handle_events cfg s [] = s
handle_events cfg s ((now, event) ∷ events) =
    handle_events cfg (handle_event cfg now s event) events
