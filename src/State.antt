-- ===== src/State.antt =====
-- internal/state: the tracker of the containers that run. Each method holds the lock of MemoryState
-- for its whole body, so it is one step on the state.
pub mod Lookup
pub mod Valid
pub mod Resync
pub mod Desired
use docker_coredns_sync.Prelude.{
  Bool, List, Option, Text, [], false, if◌then◌else◌, leb, nat_eq, none, not, some, text_eq, true,
  ℕ, ◌++◌, ◌+◌, ◌∷◌,
}
use docker_coredns_sync.GoMap.{Map, contains, delete, insert}
use docker_coredns_sync.Domain.Event.{ContainerStatus, is_running, removed}
use docker_coredns_sync.Domain.Intent.{RecordIntent, Time}

-- containerState
pub record ContainerState : Type 0 where
  pub container_id : Text
  pub container_name : Text
  pub created : Time
  pub last_updated : Time
  pub record_intents : List RecordIntent
  pub status : ContainerStatus
  pub missed_resyncs : ℕ

pub record MemoryState : Type 0 where
  pub containers : Map Text ContainerState

-- NewMemoryState
unfoldable pub new_memory_state : MemoryState
new_memory_state = record { containers = [] }

-- A set of texts, map[string]struct{}
abbrev pub TextSet : Type 0
TextSet = Map Text (Unit {0})

-- Upsert; `now` is time.Now().
unfoldable pub upsert :
    MemoryState → Text → Text → Time → List RecordIntent → ContainerStatus → Time → MemoryState
unfolding insert
upsert s container_id container_name created intents status now = record {
  containers = insert s.containers container_id (record {
    container_id = container_id;
    container_name = container_name;
    created = created;
    last_updated = now;
    record_intents = intents;
    status = status;
    missed_resyncs = 0;
  });
}

-- resyncPruneThreshold
abbrev pub resync_prune_threshold : ℕ
resync_prune_threshold = 2

-- What RetainRunning does with one container: none deletes its entry.
unfoldable pub retain : TextSet → Text → ContainerState → Option ContainerState
unfolding contains is_running
retain running_ids id cs =
    if not (is_running cs.status)
    then some cs
    else if contains running_ids id
    then some (record cs { missed_resyncs = 0 })
    else if leb resync_prune_threshold (cs.missed_resyncs + 1)
    then none
    else some (record cs { missed_resyncs = cs.missed_resyncs + 1 })

-- The end of a round: the entry stays, or is deleted and counted.
unfoldable pub settle :
    Text → Option ContainerState → Map Text ContainerState × ℕ → Map Text ContainerState × ℕ
settle id none (rest, pruned) = (rest, pruned + 1)
settle id (some kept) (rest, pruned) = ((id, kept) ∷ rest, pruned)

-- The loop of RetainRunning: the map, and the number of entries removed.
unfoldable pub retain_loop : TextSet → Map Text ContainerState → Map Text ContainerState × ℕ
unfolding retain settle
retain_loop running_ids [] = ([], 0)
retain_loop running_ids ((id, cs) ∷ m) =
    settle id (retain running_ids id cs) (retain_loop running_ids m)

-- RetainRunning
unfoldable pub retain_running : MemoryState → TextSet → MemoryState × ℕ
unfolding retain_loop
retain_running s running_ids =
    let (containers, pruned) = retain_loop running_ids s.containers in
    (record { containers = containers }, pruned)

-- MarkRemoved
unfoldable pub mark_removed : MemoryState → Text → MemoryState × Bool
unfolding contains delete
mark_removed s container_id =
    if contains s.containers container_id
    then (record { containers = delete s.containers container_id }, true)
    else (s, false)

-- GetAllDesiredRecordIntents
unfoldable pub desired_of : Map Text ContainerState → List RecordIntent
unfolding is_running
desired_of [] = []
desired_of ((id, cs) ∷ m) =
    let rest = desired_of m in if is_running cs.status then cs.record_intents ++ rest else rest

unfoldable pub get_all_desired_record_intents : MemoryState → List RecordIntent
unfolding desired_of
get_all_desired_record_intents s = desired_of s.containers
