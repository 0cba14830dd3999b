-- ===== src/Examples/StateRuns.antt =====
-- Runs of the state tracker and of the event handler.
use docker_coredns_sync.Prelude.{
  All, In, List, Text, [], arith, codes, inl, nat_eq, none, refl, some, subst, sym, text_beq,
  text_eq, ◌<◌, ◌^◌, ◌↔◌, ◌∷◌, ◌≡◌, ◌≢◌,
}
use docker_coredns_sync.GoMap.{lookup}
use docker_coredns_sync.Domain.Event.{ContainerEvent, is_running, running}
use docker_coredns_sync.Domain.Intent.{Time, RecordIntent}
use docker_coredns_sync.GoNet.{parse_ip, is_v4}
use docker_coredns_sync.Domain.Hostname.{is_valid_hostname}
use docker_coredns_sync.Domain.Record.{new_from_kind}
use docker_coredns_sync.State.{
  MemoryState, get_all_desired_record_intents, new_memory_state, retain_running, ContainerState,
}
use docker_coredns_sync.State.Valid.{IsValid}
use docker_coredns_sync.State.Lookup.{fresh_entry, tracked}
use docker_coredns_sync.State.Resync.{IsRunning, Reports, debounce}
use docker_coredns_sync.State.Desired.{IsDesired, IsDesired-iff}
use docker_coredns_sync.Core.Builder.{get_container_record_intents}
use docker_coredns_sync.Core.Builder.Bounds.{intents-ttl}
use docker_coredns_sync.Core.Builder.Sound.{Owned, intents-Owned}
use docker_coredns_sync.Core.Engine.{handle_events}
use docker_coredns_sync.Core.Engine.Reachable.{Local, IsDesired-Local}
use docker_coredns_sync.Examples.Data.{address, config, labelled}

abbrev c1 : Text
c1 = codes "c1"

abbrev first_entry : ContainerState
first_entry = fresh_entry c1 (codes "web") 5 (address ∷ []) running 7

-- A state that tracks one container, which runs.
abbrev one : MemoryState
one = record { containers = (c1, first_entry) ∷ [] }

one-IsValid : IsValid one
one-IsValid = record { distinct = (tt, tt); entries = ((refl, omega arith), tt) }

found : tracked one c1 ≡ some (first_entry)
unfolding tracked lookup text_beq
found = refl

runs : IsRunning (first_entry)
unfolding is_running
runs = refl

debounce_example :
    (Reports [] c1 → tracked (retain_running (retain_running one []).0 []).0 c1 ≢ none)
    × ((¬ Reports [] c1)
        → (¬ Reports [] c1)
        → tracked (retain_running (retain_running one []).0 []).0 c1 ≡ none)
debounce_example = debounce one one-IsValid c1 found [] [] runs

IsDesired-iff_example : In address (get_all_desired_record_intents one) ↔ IsDesired one address
IsDesired-iff_example = IsDesired-iff one address one-IsValid

-- The event handler, on the start of a labelled container
abbrev started : List (Time × ContainerEvent)
started = (7, labelled) ∷ []

desired_run :
    get_all_desired_record_intents (handle_events config new_memory_state started) ≡ address ∷ []
unfolding get_all_desired_record_intents handle_events new_from_kind is_valid_hostname parse_ip
    is_v4 new_memory_state
desired_run = refl

mem : In address (get_all_desired_record_intents (handle_events config new_memory_state started))
mem = subst (In address) (sym desired_run) (inl refl)

IsDesired-Local_example :
    Local config c1 address × IsDesired (handle_events config new_memory_state started) address
IsDesired-Local_example = IsDesired-Local config started address mem

intents-Owned_example :
    All (Owned config labelled.container) (get_container_record_intents labelled config)
intents-Owned_example = intents-Owned labelled config

intents_given : get_container_record_intents labelled config ≡ address ∷ []
unfolding get_container_record_intents new_from_kind is_valid_hostname parse_ip is_v4
intents_given = refl

intents-ttl_example :
    All (λ (ri : RecordIntent). ri.ttl < 2 ^ 32) (get_container_record_intents labelled config)
intents-ttl_example = intents-ttl labelled config (omega arith)
