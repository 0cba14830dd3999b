-- ===== src/State/Resync.antt =====
-- Resyncs: when RetainRunning prunes a container.
use docker_coredns_sync.Prelude.{Text, arith, nat_eq, none, some, text_eq, true, ◌↔◌, ◌≡◌, ◌≢◌}
use docker_coredns_sync.GoMap.{contains}
use docker_coredns_sync.Domain.Event.{is_running}
use docker_coredns_sync.State.{ContainerState, MemoryState, TextSet, retain, retain_running}
use docker_coredns_sync.State.Valid.{IsValid, retain_running-IsValid}
use docker_coredns_sync.State.Lookup.{Entries-tracked, tracked, tracked-retain_running}

abbrev pub IsRunning : ContainerState → Type 0
IsRunning cs = is_running cs.status ≡ true

abbrev pub Reports : TextSet → Text → Type 0
Reports ids id = contains ids id ≡ true

module _ (s : MemoryState) (v : IsValid s) (id : Text) {cs : ContainerState}
    (known : tracked s id ≡ some cs) where
  -- In a valid state a resync prunes a tracked container exactly when it runs, is not reported, and was missed by the
  -- resync before.
  pub pruned_iff :
      (ids : TextSet)
      → (tracked (retain_running s ids).0 id ≡ none)
        ↔ (IsRunning cs × (¬ Reports ids id) × (cs.missed_resyncs ≡ 1))
  unfolding retain
  pruned_iff ids =
      ground (arith, (tracked-retain_running ids s v).0 id, Entries-tracked s v id known)

  -- In a valid state, a tracked running container that one resync reports is kept through the next one, whatever that reports.
  -- One that two resyncs in a row do not report is gone.
  pub debounce :
      (first second : TextSet)
      → IsRunning cs
      → (Reports first id → tracked (retain_running (retain_running s first).0 second).0 id ≢ none)
        × ((¬ Reports first id)
            → (¬ Reports second id)
            → tracked (retain_running (retain_running s first).0 second).0 id ≡ none)
  unfolding retain
  debounce first second runs =
      let s' = (retain_running s first).0 in
      ground (
        arith,
        (tracked-retain_running first s v).0 id,
        (tracked-retain_running second s' (retain_running-IsValid first v)).0 id,
        Entries-tracked s v id known,
      )
