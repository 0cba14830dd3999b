-- ===== src/Core/Reconcile/Quiet.antt =====
-- ReconcileAndValidate on a registry that holds exactly what is desired.
use docker_coredns_sync.Prelude.{
  In, List, Option, Text, [], inr, nat_eq, none, refl, some, text_eq, ◌↔◌, ◌≡◌,
}
use docker_coredns_sync.GoMap.{lookup}
use docker_coredns_sync.Util as DefaultMap
use docker_coredns_sync.State.{TextSet}
use docker_coredns_sync.Domain.Kind.{RecordKind, kind_eq}
use docker_coredns_sync.Domain.Intent.{RecordIntent}
use docker_coredns_sync.Core.NestedMaps.{peek_record_map, new_nested_record_map}
use docker_coredns_sync.Core.Reconcile.{
  Actual, Plan, collect, key_set, reconcile_and_validate, reconcile_plan,
}
use docker_coredns_sync.Core.Reconcile.Placed.{collect-IsFilled}
use docker_coredns_sync.Core.Reconcile.Skips.{IsConsistent, loop_skips}

nothing_placed : (n : Text) (k : RecordKind) → peek_record_map new_nested_record_map n k ≡ none
unfolding peek_record_map DefaultMap.peek lookup
nothing_placed n k = refl

-- If the registry holds exactly the desired record intents, in whatever order and however often, each of
-- them is an address or a CNAME, and two that clash are the same one, then ReconcileAndValidate adds
-- nothing and removes nothing, whichever hosts are live.
pub reconcile_quiet :
    (desired actual : List RecordIntent) (hostname : Text) (live : Option TextSet)
    → ((r : RecordIntent) → In r actual ↔ In r desired)
    → IsConsistent desired
    → reconcile_and_validate desired actual hostname live ≡ some ([], [])
unfolding reconcile_and_validate reconcile_plan
reconcile_quiet desired actual hostname live same c =
    let empty : Actual = record { to_remove = []; by_name_kind = new_nested_record_map } in
    let start = collect hostname live (key_set desired) empty actual in
    let f =
      collect-IsFilled desired hostname live actual (λ x. ⊥) empty (λ r h. (same r).0 h)
        (record {
          untouched = refl;
          placed = record { own = λ n k rm h. absurd (cc (h, nothing_placed n k)) };
          present = λ r h. absurd h;
        }) in
    let plan : Plan = record { to_add = []; to_remove = start.to_remove } in
    rw
      (
        loop_skips desired c start.by_name_kind f.placed actual desired plan
            (λ d h. (h, f.present d (inr ((same d).1 h)))),
        f.untouched,
      )
      refl
