-- ===== src/State/Lookup.antt =====
-- The tracker against its abstract view: a function that gives each id its entry, if it has one.
-- Each method acts on that function pointwise.
use docker_coredns_sync.Prelude.{
  List, Option, Text, [], arith, if◌then◌else◌, length, nat_eq, none, refl, some, text_beq_iff,
  text_eq, true, ◌+◌, ◌==◌, ◌↔◌, ◌∷◌, ◌≡◌, ◌≢◌,
}
use docker_coredns_sync.GoMap.{Map, lookup}
use docker_coredns_sync.GoMap.Laws.{lookup-delete, lookup-insert}
use docker_coredns_sync.GoMap.Entries.{Entries-lookup}
use docker_coredns_sync.GoMap.Distinct.{Distinct, Fresh-lookup}
use docker_coredns_sync.Domain.Event.{ContainerStatus}
use docker_coredns_sync.Domain.Intent.{RecordIntent, Time}
use docker_coredns_sync.State.{
  ContainerState, MemoryState, TextSet, mark_removed, retain, retain_loop, retain_running, upsert,
}
use docker_coredns_sync.State.Valid.{IsValid, EntryFits}

-- The abstract view
unfoldable pub tracked : MemoryState → Text → Option ContainerState
tracked s id = lookup s.containers id

abbrev pub fresh_entry :
    Text → Text → Time → List RecordIntent → ContainerStatus → Time → ContainerState
fresh_entry id name created intents status now = record {
  container_id = id;
  container_name = name;
  created = created;
  last_updated = now;
  record_intents = intents;
  status = status;
  missed_resyncs = 0;
}

-- Upsert replaces the entry of its id as a whole, the missed resyncs included, and no other entry.
pub tracked-upsert :
    (s : MemoryState) (id name : Text) (created : Time) (intents : List RecordIntent)
    (status : ContainerStatus) (now : Time) (j : Text)
    → tracked (upsert s id name created intents status now) j
      ≡ (if id == j then some (fresh_entry id name created intents status now) else tracked s j)
unfolding tracked upsert
tracked-upsert s id name created intents status now j = lookup-insert s.containers id _ j

-- MarkRemoved drops the entry of its id and no other, and says whether there was one.
pub tracked-mark_removed :
    (s : MemoryState) (id : Text)
    → ((j : Text) → tracked (mark_removed s id).0 j ≡ (if id == j then none else tracked s j))
      × (((mark_removed s id).1 ≡ true) ↔ (tracked s id ≢ none))
unfolding tracked mark_removed
tracked-mark_removed s id =
    (λ j. ground (arith, lookup-delete s.containers id j, text_beq_iff id j), ground arith)

-- What RetainRunning makes of an entry, if there is one.
abbrev pub retained : TextSet → Text → Option ContainerState → Option ContainerState
retained running_ids id none = none
retained running_ids id (some cs) = retain running_ids id cs

module _ (running_ids : TextSet) where
  lookup-retain_loop :
      (m : Map Text ContainerState) (id : Text)
      → Distinct m
      → lookup (retain_loop running_ids m).0 id ≡ retained running_ids id (lookup m id)
  unfolding lookup retain_loop
  lookup-retain_loop [] id d = refl
  lookup-retain_loop ((j, cs) ∷ m) id d =
      ground (arith, lookup-retain_loop m id d.1, text_beq_iff j id, Fresh-lookup m j d.0)

  length-retain_loop :
      (m : Map Text ContainerState)
      → length (retain_loop running_ids m).0 + (retain_loop running_ids m).1 ≡ length m
  unfolding retain_loop
  length-retain_loop [] = omega arith
  length-retain_loop ((j, cs) ∷ m) = ground (arith, length-retain_loop m)

  -- In a valid state RetainRunning treats each entry by itself, as `retain` says, and returns how many
  -- it dropped.
  pub tracked-retain_running :
      (s : MemoryState)
      → IsValid s
      → ((id : Text)
          → tracked (retain_running s running_ids).0 id ≡ retained running_ids id (tracked s id))
        × (length (retain_running s running_ids).0.containers + (retain_running s running_ids).1
            ≡ length s.containers)
  unfolding tracked retain_running
  tracked-retain_running s v =
      (λ id. lookup-retain_loop s.containers id v.distinct, length-retain_loop s.containers)

-- The invariant, at an entry that is found.
pub Entries-tracked :
    (s : MemoryState)
    → IsValid s
    → (id : Text) {cs : ContainerState} → tracked s id ≡ some cs
    → EntryFits id cs
unfolding tracked
Entries-tracked s v id {cs} h = Entries-lookup EntryFits s.containers id cs v.entries h
