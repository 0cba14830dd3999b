-- ===== src/State/Valid.antt =====
-- The invariant of the tracker, under each method.
use docker_coredns_sync.Prelude.{
  Bool-cases, List, Option, Text, [], arith, inl, inr, nat_eq, none, refl, some, text_eq, ℕ, ◌<◌,
  ◌∷◌, ◌≡◌, ◌≢◌,
}
use docker_coredns_sync.GoMap.{Map, contains}
use docker_coredns_sync.GoMap.Entries.{Entries, Entries-delete, Entries-insert}
use docker_coredns_sync.GoMap.Distinct.{Distinct, Fresh, delete-Distinct, insert-Distinct}
use docker_coredns_sync.Domain.Event.{ContainerStatus}
use docker_coredns_sync.Domain.Intent.{RecordIntent, Time}
use docker_coredns_sync.State.{
  ContainerState, MemoryState, TextSet, mark_removed, new_memory_state, resync_prune_threshold,
  retain, retain_loop, retain_running, upsert, settle,
}

-- An entry stands under its own id, and has missed fewer resyncs than prune it.
abbrev pub EntryFits : Text → ContainerState → Type 0
EntryFits id cs = (cs.container_id ≡ id) × (cs.missed_resyncs < resync_prune_threshold)

pub record IsValid (s : MemoryState) : Type 0 where
  pub distinct : Distinct s.containers
  pub entries : Entries EntryFits s.containers

new_memory_state-IsValid : IsValid new_memory_state
unfolding new_memory_state
new_memory_state-IsValid = record { distinct = tt; entries = tt }

pub upsert-IsValid :
    {s : MemoryState} (id name : Text) (created : Time) (intents : List RecordIntent)
    (status : ContainerStatus) (now : Time)
    → IsValid s
    → IsValid (upsert s id name created intents status now)
unfolding upsert
upsert-IsValid {s} id name created intents status now v = record {
  distinct = insert-Distinct s.containers id _ v.distinct;
  entries = Entries-insert EntryFits s.containers id _ (refl, omega arith) v.entries;
}

pub mark_removed-IsValid : {s : MemoryState} (id : Text) → IsValid s → IsValid (mark_removed s id).0
unfolding mark_removed
mark_removed-IsValid {s} id v = elim (Bool-cases (contains s.containers id)) [
  | inl tracked ↦ rw tracked (record {
    distinct = delete-Distinct s.containers id v.distinct;
    entries = Entries-delete EntryFits s.containers id v.entries;
  })
  | inr absent ↦ rw absent v
]

module _ (running_ids : TextSet) where
  retain-fits :
      (id : Text) (cs kept : ContainerState)
      → EntryFits id cs
      → retain running_ids id cs ≡ some kept
      → EntryFits id kept
  unfolding retain
  retain-fits id cs kept f h = ground arith

  settle-Fresh :
      (id j : Text) (o : Option ContainerState) (r : Map Text ContainerState × ℕ)
      → id ≢ j
      → Fresh id r.0
      → Fresh id (settle j o r).0
  unfolding settle
  settle-Fresh id j none r ne f = f
  settle-Fresh id j (some kept) r ne f = (ne, f)

  retain_loop-Fresh :
      (id : Text) (m : Map Text ContainerState)
      → Fresh id m
      → Fresh id (retain_loop running_ids m).0
  unfolding retain_loop
  retain_loop-Fresh id [] f = tt
  retain_loop-Fresh id ((j, cs) ∷ m) f =
      settle-Fresh id j (retain running_ids j cs) _ f.0 (retain_loop-Fresh id m f.1)

  abbrev Fits : Map Text ContainerState → Type 0
  Fits m = Distinct m × Entries EntryFits m

  settle-Fits :
      (id : Text) (o : Option ContainerState) (r : Map Text ContainerState × ℕ)
      → ((kept : ContainerState) → o ≡ some kept → EntryFits id kept)
      → Fresh id r.0
      → Fits r.0
      → Fits (settle id o r).0
  unfolding settle
  settle-Fits id none r fits f h = h
  settle-Fits id (some kept) r fits f h = ((f, h.0), (fits kept refl, h.1))

  retain_loop-Fits : (m : Map Text ContainerState) → Fits m → Fits (retain_loop running_ids m).0
  unfolding retain_loop
  retain_loop-Fits [] h = (tt, tt)
  retain_loop-Fits ((id, cs) ∷ m) ((fresh, d), (fits, es)) =
      settle-Fits id (retain running_ids id cs) _ (λ kept. retain-fits id cs kept fits)
        (retain_loop-Fresh id m fresh) (retain_loop-Fits m (d, es))

  -- RetainRunning keeps a valid state valid: each id stands once, with its own entry, and no entry has
  -- missed two resyncs.
  pub retain_running-IsValid :
      {s : MemoryState} → IsValid s → IsValid (retain_running s running_ids).0
  unfolding retain_running
  retain_running-IsValid {s} v =
      let (d, f) = retain_loop-Fits s.containers (v.distinct, v.entries) in
      record { distinct = d; entries = f }
