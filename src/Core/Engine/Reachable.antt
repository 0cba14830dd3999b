-- ===== src/Core/Engine/Reachable.antt =====
-- What holds of the state tracker after any sequence of events.
use docker_coredns_sync.Prelude.{
  All, All-In, Bool-cases, In, List, Option-cases, Text, [], arith, inl, inr, nat_eq, refl, some,
  subst, text_eq, ◌∷◌, ◌≡◌,
}
use docker_coredns_sync.GoMap.{Map, contains}
use docker_coredns_sync.GoMap.Entries.{Entries, Entries-delete, Entries-insert, Entries-lookup}
use docker_coredns_sync.Config.{AppConfig, is_blank}
use docker_coredns_sync.Domain.Record.Valid.{IsWellFormed}
use docker_coredns_sync.Domain.Intent.{RecordIntent, Time}
use docker_coredns_sync.Domain.Event.{
  Container, ContainerEvent, EventType, die, initial_detection, other_event, resync, running, start,
  stop,
}
use docker_coredns_sync.State.{
  ContainerState, MemoryState, TextSet, get_all_desired_record_intents, mark_removed,
  new_memory_state, retain, retain_loop, retain_running, settle, upsert,
}
use docker_coredns_sync.State.Valid.{
  IsValid, mark_removed-IsValid, retain_running-IsValid, upsert-IsValid,
}
use docker_coredns_sync.State.Desired.{IsDesired, IsDesired-iff}
use docker_coredns_sync.State.Lookup.{tracked}
use docker_coredns_sync.Core.Builder.Sound.{Owned, intents-Owned}
use docker_coredns_sync.Core.Engine.{
  handle_container_event, handle_event, handle_events, id_set, track, is_resync,
}

-- The intent was built on this host, for the container of that id.
abbrev pub Local : AppConfig → Text → RecordIntent → Type 0
Local cfg id ri = IsWellFormed ri.rec × (ri.container_id ≡ id) × (ri.hostname ≡ cfg.hostname)

module _ (cfg : AppConfig) where
  abbrev LocalEntry : Text → ContainerState → Type 0
  LocalEntry id cs = All (Local cfg id) cs.record_intents

  pub record IsSound (s : MemoryState) : Type 0 where
    pub valid : IsValid s
    pub local : Entries LocalEntry s.containers

  retain-local :
      (ids : TextSet) (id : Text) (cs kept : ContainerState)
      → retain ids id cs ≡ some kept
      → cs.record_intents ≡ kept.record_intents
  unfolding retain
  retain-local ids id cs kept h = ground arith

  retain_loop-local :
      (ids : TextSet) (m : Map Text ContainerState)
      → Entries LocalEntry m
      → Entries LocalEntry (retain_loop ids m).0
  unfolding retain_loop settle
  retain_loop-local ids [] h = tt
  retain_loop-local ids ((id, cs) ∷ m) h = elim (Option-cases (retain ids id cs)) [
    | inl gone ↦ rw gone (retain_loop-local ids m h.1)
    | inr (kept, stays) ↦ rw stays (
      subst (All (Local cfg id)) (retain-local ids id cs kept stays) h.0,
      retain_loop-local ids m h.1,
    )
  ]

  retain_running-IsSound :
      (s : MemoryState) (ids : TextSet) → IsSound s → IsSound (retain_running s ids).0
  unfolding retain_running
  retain_running-IsSound s ids w = record {
    valid = retain_running-IsValid ids w.valid;
    local = retain_loop-local ids s.containers w.local;
  }

  mark_removed-IsSound : (s : MemoryState) (id : Text) → IsSound s → IsSound (mark_removed s id).0
  unfolding mark_removed
  mark_removed-IsSound s id w = elim (Bool-cases (contains s.containers id)) [
    | inl here ↦ record {
      valid = mark_removed-IsValid id w.valid;
      local = rw here (Entries-delete LocalEntry s.containers id w.local);
    }
    | inr absent ↦ record { valid = mark_removed-IsValid id w.valid; local = rw absent w.local }
  ]

  Owned-Local :
      (c : Container) (ris : List RecordIntent) → All (Owned cfg c) ris → All (Local cfg c.id) ris
  Owned-Local c [] h = tt
  Owned-Local c (ri ∷ ris) h =
      ((h.0.well_formed, h.0.container_id, h.0.hostname), Owned-Local c ris h.1)

  track-IsSound :
      (s : MemoryState) (c : Container) (ris : List RecordIntent) (now : Time)
      → All (Owned cfg c) ris
      → IsSound s
      → IsSound (track s c ris now)
  unfolding track upsert
  track-IsSound s c [] now h w = w
  track-IsSound s c (ri ∷ ris) now h w = record {
    valid = upsert-IsValid c.id c.name c.created (ri ∷ ris) running now w.valid;
    local = Entries-insert LocalEntry s.containers c.id _ (Owned-Local c (ri ∷ ris) h) w.local;
  }

  handle_container_event-IsSound :
      (now : Time) (s : MemoryState) (event : ContainerEvent) (kind : EventType)
      → IsSound s
      → IsSound (handle_container_event cfg now s event kind)
  unfolding handle_container_event
  handle_container_event-IsSound now s event die w = mark_removed-IsSound s event.container.id w
  handle_container_event-IsSound now s event stop w = mark_removed-IsSound s event.container.id w
  handle_container_event-IsSound now s event start w =
      track-IsSound s event.container _ now (intents-Owned event cfg) w
  handle_container_event-IsSound now s event initial_detection w =
      track-IsSound s event.container _ now (intents-Owned event cfg) w
  handle_container_event-IsSound now s event resync w = w
  handle_container_event-IsSound now s event (other_event t) w = w

  -- Every event keeps the state sound: valid, with intents of this host only, under their containers.
  pub handle_event-IsSound :
      (now : Time) (s : MemoryState) (event : ContainerEvent)
      → IsSound s
      → IsSound (handle_event cfg now s event)
  unfolding handle_event
  handle_event-IsSound now s event w = elim (Bool-cases (is_resync event.event_type)) [
    | inl resyncs ↦ rw resyncs (retain_running-IsSound s (id_set event.running_container_ids) w)
    | inr other ↦ elim (Bool-cases (is_blank event.container.id)) [
      | inl blank ↦ rw (other, blank) w
      | inr named ↦
          rw (other, named) (handle_container_event-IsSound now s event event.event_type w)
    ]
  ]

  handle_events-IsSound :
      (events : List (Time × ContainerEvent)) (s : MemoryState)
      → IsSound s
      → IsSound (handle_events cfg s events)
  unfolding handle_events
  handle_events-IsSound [] s w = w
  handle_events-IsSound ((now, event) ∷ events) s w =
      handle_events-IsSound events (handle_event cfg now s event)
        (handle_event-IsSound now s event w)

  new-IsSound : IsSound new_memory_state
  unfolding new_memory_state
  new-IsSound = record { valid = record { distinct = tt; entries = tt }; local = tt }

  -- After any sequence of events, each desired record intent is well formed, belongs to this host, and
  -- is one of the container that it names, which is tracked and runs.
  pub IsDesired-Local :
      (events : List (Time × ContainerEvent)) (ri : RecordIntent)
      → In ri (get_all_desired_record_intents (handle_events cfg new_memory_state events))
      → Local cfg ri.container_id ri × IsDesired (handle_events cfg new_memory_state events) ri
  IsDesired-Local events ri h =
      let s = handle_events cfg new_memory_state events in
      let w = handle_events-IsSound events new_memory_state new-IsSound in
      let d = (IsDesired-iff s ri w.valid).0 h in
      let (id, cs, found, runs, mem) = d in
      let here =
        All-In (Local cfg id) cs.record_intents ri
          (Entries-lookup LocalEntry s.containers id cs w.local (unfold tracked in found)) mem in
      ((here.0, refl, here.2), d)
