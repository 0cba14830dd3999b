-- ===== src/Core/Reconcile/Safety.antt =====
-- What ReconcileAndValidate promises of the records that it adds, removes and leaves.
use docker_coredns_sync.Prelude.{
  Bool, Bool-cases, In, List, Option, Option-cases, Text, [], arith, inl, inr, nat_eq, none, refl,
  some, subst, sym, text_eq, true, ◌==◌, ◌∷◌, ◌≡◌, ◌≢◌, ◌⊎◌,
}
use docker_coredns_sync.GoMap as Map
use docker_coredns_sync.GoMap.{Map, contains, empty, lookup, values}
use docker_coredns_sync.GoMap.Entries.{Entries, Entries-map, Entries-lookup}
use docker_coredns_sync.Util as DefaultMap
use docker_coredns_sync.State.{TextSet}
use docker_coredns_sync.Domain.Kind.{RecordKind, kind_eq}
use docker_coredns_sync.Domain.Intent.{RecordIntent, key}
use docker_coredns_sync.Core.NestedMaps.{new_nested_record_map, peek_record_map}
use docker_coredns_sync.Core.Reconcile.{
  Actual, IntentMap, Plan, collect, is_stale, key_set, reconcile_plan, reconcile_and_validate,
}
use docker_coredns_sync.Core.Reconcile.Decide.{Keyed, Evicts}
use docker_coredns_sync.Core.Reconcile.Sound.{Fits, Removable, reconcile_loop-IsSound}
use docker_coredns_sync.Core.Reconcile.Collect.{collect-Collected}
use docker_coredns_sync.GoMap.Laws.{lookup_of_contains}
use docker_coredns_sync.Core.Reconcile.Stale.{IsDead, IsStale, is_stale_iff}
use docker_coredns_sync.Core.Validation.Rules.{Clashes}

In-values :
    (P : Text → RecordIntent → Type 0) (m : IntentMap) (r : RecordIntent)
    → Entries P m
    → In r (Map.values m)
    → (k : Text) × P k r
unfolding Map.values
In-values P [] r h mem = absurd mem
In-values P ((k, x) ∷ m) r h (inl e) = (k, subst (P k) (sym e) h.0)
In-values P ((k, x) ∷ m) r h (inr mem) = In-values P m r h.1 mem

values_of_lookup :
    (m : IntentMap) (k : Text) (r : RecordIntent) → lookup m k ≡ some r → In r (Map.values m)
unfolding Map.values lookup
values_of_lookup [] k r h = cc
values_of_lookup ((j, x) ∷ m) k r h = elim (Bool-cases (j == k)) [
  | inl same ↦ inl (ground arith)
  | inr differs ↦ inr (values_of_lookup m k r (ground arith))
]

nothing : (n : Text) (k : RecordKind) → peek_record_map new_nested_record_map n k ≡ none
unfolding peek_record_map DefaultMap.peek lookup
nothing n k = refl

stays :
    (plan : Plan) (start : IntentMap) (k : Text)
    → (lookup plan.to_remove k ≡ none → lookup start k ≡ none)
    → contains start k ≡ true
    → contains plan.to_remove k ≡ true
unfolding contains
stays plan start k kept h = ground (arith, kept)

module _ (desired actual : List RecordIntent) (hostname : Text) (live : Option TextSet) where
  abbrev stale : RecordIntent → Bool
  stale = is_stale hostname live (key_set desired)

  record Reached (plan : Plan) : Type 0 where
    added :
        Entries
          (λ (k : Text) (d : RecordIntent). In d desired × Fits actual plan.to_remove d)
          plan.to_add
    removed : Entries (Keyed (Removable desired actual stale)) plan.to_remove
    complete :
        (r : RecordIntent) → In r actual → stale r ≡ true → contains plan.to_remove (key r) ≡ true

  plan-Reached :
      (plan : Plan) × (reconcile_plan desired actual hostname live ≡ some plan) × Reached plan
  unfolding reconcile_plan
  plan-Reached =
      let empty : Actual = record { to_remove = []; by_name_kind = new_nested_record_map } in
      let start = collect hostname live (key_set desired) empty actual in
      let c =
        collect-Collected actual hostname live (key_set desired) actual (λ x. ⊥) empty (λ r h. h)
          (record {
            known = λ n k rm h. cc (h, nothing n k);
            removed = tt;
            complete = λ r h s. absurd h;
          }) in
      let (plan, e, s) =
        reconcile_loop-IsSound desired actual stale start.to_remove start.by_name_kind c.known
          desired (λ d h. h) (record { to_add = []; to_remove = start.to_remove })
          (record {
            added = tt;
            removed = Entries-map start.to_remove (λ k r h. (h.0, (h.1.0, inl h.1.1))) c.removed;
            kept = λ k gone. gone;
          }) in
      (
        plan,
        e,
        record {
          added = s.added;
          removed = s.removed;
          complete = λ r mem old.
              stays plan start.to_remove (key r) (s.kept (key r)) (c.complete r (inr mem) old);
        },
      )

  -- No removed record has this key.
  abbrev pub Stays : List RecordIntent → Text → Type 0
  Stays to_remove k = (x : RecordIntent) → In x to_remove → key x ≢ k

  -- The record is a desired one, and no actual record that stays clashes with it.
  abbrev pub Addable : List RecordIntent → RecordIntent → Type 0
  Addable to_remove d =
      In d desired
      × ((r : RecordIntent) → In r actual → Stays to_remove (key r) → ¬ Clashes d.rec r.rec)

  Stays-lookup :
      (plan : Plan)
      → Reached plan
      → (r : RecordIntent) → Stays (Map.values plan.to_remove) (key r)
      → lookup plan.to_remove (key r) ≡ none
  Stays-lookup plan s r stay = elim (Option-cases (lookup plan.to_remove (key r))) [
    | inl gone ↦ gone
    | inr (x, found) ↦
        let P = Keyed (Removable desired actual stale) in
        absurd (
          stay x (values_of_lookup plan.to_remove (key r) x found)
            (sym (Entries-lookup P plan.to_remove (key r) x s.removed found).0))
  ]

  module _ (to_add to_remove : List RecordIntent) where
    abbrev pub Returns : Type 0
    Returns = reconcile_and_validate desired actual hostname live ≡ some (to_add, to_remove)

    plan_of :
        Returns
        → (plan : Plan) × Reached plan
          × (Map.values plan.to_add ≡ to_add)
          × (Map.values plan.to_remove ≡ to_remove)
    unfolding reconcile_and_validate
    plan_of h = let (plan, e, s) = plan-Reached in (plan, s, ground arith, ground arith)

    -- What ReconcileAndValidate adds is desired, and it clashes with no actual record whose key is not
    -- the key of a removed one.
    pub added_lem : Returns → (d : RecordIntent) → In d to_add → Addable to_remove d
    added_lem h d mem =
        let (plan, s, e, f) = plan_of h in
        let (k, (wanted, fits)) =
          In-values (λ (k : Text) (x : RecordIntent). In x desired × Fits actual plan.to_remove x)
            plan.to_add d s.added (subst (In d) (sym e) mem) in
        (
          wanted,
          λ r here stay.
              fits r here (Stays-lookup plan s r (subst (λ xs. Stays xs (key r)) (sym f) stay)),
        )

    -- What ReconcileAndValidate removes is an actual record that is stale, or that a desired record evicts: one of its
    -- name that is forced, or older than an actual record of that name.
    pub removed_lem :
        Returns
        → (r : RecordIntent) → In r to_remove
        → In r actual
          × (IsStale desired hostname live r
              ⊎ ((d : RecordIntent) × In d desired × Evicts actual d r))
    removed_lem h r mem =
        let (plan, s, e, f) = plan_of h in
        let (k, (same, (here, why))) =
          In-values (Keyed (Removable desired actual stale)) plan.to_remove r s.removed
            (subst (In r) (sym f) mem) in
        (
          here,
          elim why [
            | inl old ↦ inl ((is_stale_iff desired hostname live r).0 old)
            | inr by ↦ inr by
          ],
        )

    -- For every stale actual record, ReconcileAndValidate removes one with its key.
    pub stale_removed :
        Returns
        → (r : RecordIntent) → In r actual
        → IsStale desired hostname live r
        → (x : RecordIntent) × In x to_remove × (key x ≡ key r)
    stale_removed h r mem old =
        let (plan, s, e, f) = plan_of h in
        let (x, found) =
          lookup_of_contains plan.to_remove (key r)
            (s.complete r mem ((is_stale_iff desired hostname live r).1 old)) in
        let P = Keyed (Removable desired actual stale) in
        (
          x,
          subst (In x) f (values_of_lookup plan.to_remove (key r) x found),
          sym (Entries-lookup P plan.to_remove (key r) x s.removed found).0,
        )

    -- ReconcileAndValidate removes a record of another host that is not known to be dead only if a desired record of its
    -- name evicts it: one that is forced, or older than an actual record of that name.
    pub live_host_safe :
        Returns
        → (r : RecordIntent) → In r to_remove
        → r.hostname ≢ hostname
        → ¬ IsDead live r.hostname
        → (d : RecordIntent) × In d desired × Evicts actual d r
    live_host_safe h r mem other alive = elim (removed_lem h r mem).1 [
      | inl old ↦ elim old.1 [ inl own ↦ absurd (other own) | inr dead ↦ absurd (alive dead) ]
      | inr by ↦ by
    ]

  -- ReconcileAndValidate returns on every input: it never panics, and each walk of its cycle checks ends.
  pub reconcile_returns :
      (o : List RecordIntent × List RecordIntent) × (reconcile_and_validate desired actual hostname
          live
        ≡ some o)
  unfolding reconcile_and_validate
  reconcile_returns =
      let (plan, e, s) = plan-Reached in
      ((Map.values plan.to_add, Map.values plan.to_remove), rw e refl)
