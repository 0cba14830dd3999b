-- ===== src/Core/Reconcile/Sound.antt =====
-- The invariant of the plan that step 2 of ReconcileAndValidate builds.
use docker_coredns_sync.Prelude.{
  All-In, Bool, Bool-cases, In, List, Option, Text, [], arith, false, inl, inr, nat_eq, none, refl,
  some, text_beq_iff, text_eq, true, ◌∷◌, ◌≡◌, ◌⊎◌,
}
use docker_coredns_sync.GoMap.{Map, contains, insert, lookup}
use docker_coredns_sync.GoMap.Entries.{Entries, Entries-insert, Entries-map}
use docker_coredns_sync.GoMap.Laws.{lookup-insert}
use docker_coredns_sync.State.{TextSet}
use docker_coredns_sync.Domain.Record
use docker_coredns_sync.Domain.Record.{Record}
use docker_coredns_sync.Domain.Intent.{RecordIntent, key}
use docker_coredns_sync.Core.NestedMaps.{NestedRecordMap}
use docker_coredns_sync.Core.Validation.{ValidationError, validate_record}
use docker_coredns_sync.Core.Validation.Rules.{Clashes}
use docker_coredns_sync.Core.Validation.Exact.{validate_record_returns, validate_record_iff}
use docker_coredns_sync.Core.Reconcile.{
  IntentMap, Plan, Verdict, add_keys, apply, evict, finish, insert_all, reconcile_loop, simulated,
  skip, without,
}
use docker_coredns_sync.Core.Reconcile.Known.{AllKnown}
use docker_coredns_sync.Core.Reconcile.Decide.{Allowed, Evicts, Keyed, decide-Decided}

lookup-insert_all :
    (m evictions : IntentMap) (k : Text)
    → lookup (insert_all m evictions) k ≡ none
    → (lookup m k ≡ none) × (lookup evictions k ≡ none)
unfolding insert_all lookup
lookup-insert_all m [] k h = (h, refl)
lookup-insert_all m ((j, r) ∷ evictions) k h =
    let (p, q) = lookup-insert_all (insert m j r) evictions k h in
    ground (arith, lookup-insert m j r k, text_beq_iff j k)

lookup-add_keys :
    (taken : TextSet) (m : IntentMap) (k : Text)
    → lookup taken k ≡ none
    → lookup m k ≡ none
    → lookup (add_keys taken m) k ≡ none
unfolding add_keys lookup
lookup-add_keys taken [] k p q = p
lookup-add_keys taken ((j, r) ∷ m) k p q =
    lookup-add_keys (insert taken j tt) m k
      (ground (arith, lookup-insert taken j tt k, text_beq_iff j k)) (ground arith)

absent : {V : Type 0} (m : Map Text V) (k : Text) → lookup m k ≡ none → contains m k ≡ false
unfolding contains
absent m k h = ground arith

In-without :
    (taken : TextSet) (actual : List RecordIntent) (r : RecordIntent)
    → In r actual
    → lookup taken (key r) ≡ none
    → In r (without taken actual)
unfolding without
In-without taken [] r h e = absurd h
In-without taken (x ∷ actual) r (inl same) e = rw (← same, absent taken (key r) e) (inl refl)
In-without taken (x ∷ actual) r (inr h) e = elim (Bool-cases (contains taken (key x))) [
  | inl gone ↦ rw gone (In-without taken actual r h e)
  | inr stays ↦ rw stays (inr (In-without taken actual r h e))
]

-- What neither map has is in the simulated state.
In-simulated :
    (to_remove evictions : IntentMap) (actual : List RecordIntent) (r : RecordIntent)
    → In r actual
    → lookup to_remove (key r) ≡ none
    → lookup evictions (key r) ≡ none
    → In r (simulated to_remove evictions actual)
unfolding simulated
In-simulated to_remove evictions actual r h p q =
    In-without (add_keys (add_keys [] to_remove) evictions) actual r h (
      lookup-add_keys (add_keys [] to_remove) evictions (key r)
        (lookup-add_keys [] to_remove (key r) (unfold lookup in refl) p) q)

Entries-insert_all :
    (P : Text → RecordIntent → Type 0) (m evictions : IntentMap)
    → Entries P m
    → Entries P evictions
    → Entries P (insert_all m evictions)
unfolding insert_all
Entries-insert_all P m [] h g = h
Entries-insert_all P m ((k, r) ∷ evictions) h g =
    Entries-insert_all P (insert m k r) evictions (Entries-insert P m k r g.0 h) g.1

-- No actual record that stays clashes with the record.
abbrev pub Fits : List RecordIntent → IntentMap → RecordIntent → Type 0
Fits actual to_remove d =
    (r : RecordIntent) → In r actual → lookup to_remove (key r) ≡ none → ¬ Clashes d.rec r.rec

-- A reason to remove a record: it is stale, or a desired record evicts it.
abbrev pub Removable :
    List RecordIntent → List RecordIntent → (RecordIntent → Bool) → RecordIntent → Type 0
Removable desired actual stale r =
    In r actual × ((stale r ≡ true) ⊎ ((d : RecordIntent) × In d desired × Evicts actual d r))

module _ (desired actual : List RecordIntent) (stale : RecordIntent → Bool)
    (start : IntentMap) where
  pub record IsSound (plan : Plan) : Type 0 where
    pub added :
        Entries
          (λ (k : Text) (d : RecordIntent). In d desired × Fits actual plan.to_remove d)
          plan.to_add
    pub removed : Entries (Keyed (Removable desired actual stale)) plan.to_remove
    pub kept : (k : Text) → lookup plan.to_remove k ≡ none → lookup start k ≡ none

  module _ (d : RecordIntent) (mem : In d desired) where
    finish-IsSound :
        (plan : Plan) (evictions : IntentMap)
        → Entries (Keyed (Evicts actual d)) evictions
        → validate_record d (simulated plan.to_remove evictions actual) ≡ some none
        → IsSound plan
        → IsSound (finish plan d evictions none)
    unfolding finish
    finish-IsSound plan evictions allowed valid s =
        let fewer = lookup-insert_all plan.to_remove evictions in
        let clear =
          ((validate_record_iff d (simulated plan.to_remove evictions actual)).0 valid).0 in
        record {
          added =
              Entries-insert
                (λ (k : Text) (x : RecordIntent).
                  In x desired × Fits actual (insert_all plan.to_remove evictions) x)
                plan.to_add (Record.key d.rec) d
                (
                  mem,
                  λ r here gone.
                      let (p, q) = fewer (key r) gone in
                      All-In (λ x. ¬ Clashes d.rec x.rec)
                        (simulated plan.to_remove evictions actual) r clear
                        (In-simulated plan.to_remove evictions actual r here p q),
                )
                (Entries-map plan.to_add
                  (λ k x h. (h.0, λ r here gone. h.1 r here (fewer (key r) gone).0)) s.added);
          removed =
              Entries-insert_all (Keyed (Removable desired actual stale)) plan.to_remove evictions
                s.removed
                (Entries-map evictions (λ k r h. (h.0, (h.1.0.0, inr (d, mem, h.1)))) allowed);
          kept = λ k gone. s.kept k (fewer k gone).0;
        }

    verdict-IsSound :
        (plan : Plan) (evictions : IntentMap) (error : Option ValidationError)
        → Entries (Keyed (Evicts actual d)) evictions
        → validate_record d (simulated plan.to_remove evictions actual) ≡ some error
        → IsSound plan
        → IsSound (finish plan d evictions error)
    unfolding finish
    verdict-IsSound plan evictions none allowed valid s =
        finish-IsSound plan evictions allowed valid s
    verdict-IsSound plan evictions (some error) allowed refused s = s

    apply-IsSound :
        (plan : Plan) (v : Verdict)
        → Allowed actual d v
        → IsSound plan
        → (end : Plan) × (apply actual plan d v ≡ some end) × IsSound end
    unfolding apply
    apply-IsSound plan skip allowed s = (plan, refl, s)
    apply-IsSound plan (evict evictions) allowed s =
        let (error, e) = validate_record_returns d (simulated plan.to_remove evictions actual) in
        (finish plan d evictions error, rw e refl, verdict-IsSound plan evictions error allowed e s)

  -- Step 2 never panics, and it keeps the plan sound.
  pub reconcile_loop-IsSound :
      (m : NestedRecordMap)
      → AllKnown actual m
      → (rest : List RecordIntent) → ((d : RecordIntent) → In d rest → In d desired)
      → (plan : Plan) → IsSound plan
      → (end : Plan) × (reconcile_loop m actual plan rest ≡ some end) × IsSound end
  unfolding reconcile_loop
  reconcile_loop-IsSound m known [] mem plan s = (plan, refl, s)
  reconcile_loop-IsSound m known (d ∷ rest) mem plan s =
      let (v, e, allowed) = decide-Decided actual d m known in
      let (next, g, s₁) = apply-IsSound d (mem d (inl refl)) plan v allowed s in
      let (end, f, s') = reconcile_loop-IsSound m known rest (λ x h. mem x (inr h)) next s₁ in
      (end, rw (e, g) f, s')
