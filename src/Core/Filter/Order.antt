-- ===== src/Core/Filter/Order.antt =====
-- Which of two record intents wins, and a CNAME against a list of addresses.
use docker_coredns_sync.Prelude.{
  All, Bool, Bool-cases, In, List, [], ap, arith, false, if◌then◌else◌, inl, inr, nat_eq, not, refl,
  sym, text_eq, true, ◌&&◌, ◌<◌, ◌↔◌, ◌∙◌, ◌∷◌, ◌≡◌, ◌⊎◌,
}
use docker_coredns_sync.Domain.Intent.{RecordIntent}
use docker_coredns_sync.Core.Filter.{
  Ages, note_age, should_replace_existing, ages, no_ages, should_replace_all_existing,
}

all_replaced : RecordIntent → List RecordIntent → Bool
all_replaced new [] = true
all_replaced new (ri ∷ existing) = should_replace_existing new ri && all_replaced new existing

-- The tests behind the loop of shouldReplaceAllExisting.
verdict : RecordIntent → Ages → Bool
verdict new f =
    if f.any_force && not new.force
    then false
    else if new.force && f.all_non_force
    then true
    else if new.force && not f.all_force
    then (if f.new_created_before_all_old_with_force then true else false)
    else if f.new_created_before_all
    then true
    else false

-- How the flags hang together while the loop runs.
record Coherent (f : Ages) : Type 0 where
  forces : f.any_force ≡ not f.all_non_force
  none_forced : f.all_non_force ≡ true → f.new_created_before_all_old_with_force ≡ true
  all_forced :
      f.all_force ≡ true → f.new_created_before_all ≡ f.new_created_before_all_old_with_force

note_age-Coherent : (new ri : RecordIntent) (f : Ages) → Coherent f → Coherent (note_age new f ri)
unfolding note_age
note_age-Coherent new ri f h = record {
  forces = ground (arith, h.forces);
  none_forced = ground (arith, h.none_forced);
  all_forced = ground (arith, h.all_forced);
}

verdict-note_age :
    (new ri : RecordIntent) (f : Ages)
    → Coherent f
    → verdict new (note_age new f ri) ≡ (should_replace_existing new ri && verdict new f)
unfolding verdict note_age should_replace_existing
verdict-note_age new ri f h = ground (arith, h.forces, h.none_forced, h.all_forced)

and_assoc : (a b c : Bool) → (a && (b && c)) ≡ ((b && a) && c)
and_assoc a b c = ground arith

verdict-ages :
    (new : RecordIntent) (existing : List RecordIntent) (f : Ages)
    → Coherent f
    → verdict new (ages new existing f) ≡ (all_replaced new existing && verdict new f)
unfolding ages all_replaced
verdict-ages new [] f h = refl
verdict-ages new (ri ∷ existing) f h =
    verdict-ages new existing (note_age new f ri) (note_age-Coherent new ri f h)
    ∙ (ap (λ b. all_replaced new existing && b) (verdict-note_age new ri f h)
        ∙ and_assoc (all_replaced new existing) (should_replace_existing new ri) (verdict new f))

verdict-no_ages : (new : RecordIntent) → verdict new no_ages ≡ true
unfolding verdict
verdict-no_ages new = ground arith

and_true : (b : Bool) → (b && true) ≡ b
and_true b = ground arith

should_replace_all-all_replaced :
    (new : RecordIntent) (existing : List RecordIntent)
    → should_replace_all_existing new existing ≡ all_replaced new existing
should_replace_all-all_replaced new [] = unfold should_replace_all_existing all_replaced in refl
should_replace_all-all_replaced new (ri ∷ existing) =
    let all = ri ∷ existing in
    let step : should_replace_all_existing new all ≡ verdict new (ages new all no_ages) =
      unfold should_replace_all_existing verdict in refl in
    step
    ∙ (verdict-ages new all no_ages
          (record { forces = refl; none_forced = λ _. refl; all_forced = λ _. refl })
        ∙ (ap (λ b. all_replaced new all && b) (verdict-no_ages new)
            ∙ and_true (all_replaced new all)))

all_replaced_iff :
    (new : RecordIntent) (existing : List RecordIntent)
    → (all_replaced new existing ≡ true)
      ↔ All (λ ri. should_replace_existing new ri ≡ true) existing
unfolding all_replaced
all_replaced_iff new [] = (λ h. tt, λ h. refl)
all_replaced_iff new (ri ∷ existing) = (
  λ h. (ground arith, (all_replaced_iff new existing).0 (ground arith)),
  λ h. ground (arith, h.0, (all_replaced_iff new existing).1 h.1),
)

some_refuses :
    (new : RecordIntent) (existing : List RecordIntent)
    → all_replaced new existing ≡ false
    → (a : RecordIntent) × In a existing × (should_replace_existing new a ≡ false)
unfolding all_replaced
some_refuses new [] h = absurd (ground arith)
some_refuses new (ri ∷ existing) h = elim (Bool-cases (should_replace_existing new ri)) [
  | inl wins ↦ let (a, there, e) = some_refuses new existing (ground arith) in (a, inr there, e)
  | inr loses ↦ (ri, inl refl, loses)
]

-- shouldReplaceAllExisting asks of each existing record what shouldReplaceExisting asks.
pub should_replace_all_existing-All :
    (new : RecordIntent) (existing : List RecordIntent)
    → (should_replace_all_existing new existing ≡ true)
      ↔ All (λ ri. should_replace_existing new ri ≡ true) existing
should_replace_all_existing-All new existing =
    rw (should_replace_all-all_replaced new existing) (all_replaced_iff new existing)

-- Where it refuses, there is an existing record that is not replaced.
pub not_all_replaced :
    (new : RecordIntent) (existing : List RecordIntent)
    → should_replace_all_existing new existing ≡ false
    → (a : RecordIntent) × In a existing × (should_replace_existing new a ≡ false)
not_all_replaced new existing h =
    some_refuses new existing (sym (should_replace_all-all_replaced new existing) ∙ h)

-- Nothing replaces itself.
pub should_replace_existing_irrefl : (x : RecordIntent) → should_replace_existing x x ≡ false
unfolding should_replace_existing
should_replace_existing_irrefl x = ground arith

-- What replaces a record intent replaces all that this one replaces.
pub should_replace_existing_trans :
    (x y z : RecordIntent)
    → should_replace_existing x y ≡ true
    → should_replace_existing y z ≡ true
    → should_replace_existing x z ≡ true
unfolding should_replace_existing
should_replace_existing_trans x y z p q = ground arith

-- One record intent beats another: it is forced and the other is not, or both are alike and it is older.
abbrev pub Beats : RecordIntent → RecordIntent → Type 0
Beats x y = ((x.force ≡ true) × (y.force ≡ false)) ⊎ ((x.force ≡ y.force) × (x.created < y.created))

-- shouldReplaceExisting is that order.
pub should_replace_existing_iff :
    (x y : RecordIntent) → (should_replace_existing x y ≡ true) ↔ Beats x y
unfolding should_replace_existing
should_replace_existing_iff x y = (λ h. ground (arith, h), λ h. ground (arith, h))

keeps_trans :
    (x y z : RecordIntent)
    → should_replace_existing x y ≡ false
    → should_replace_existing y z ≡ false
    → should_replace_existing x z ≡ false
unfolding should_replace_existing
keeps_trans x y z p q = ground arith

pub not-Beats_iff : (x y : RecordIntent) → (should_replace_existing x y ≡ false) ↔ (¬ Beats x y)
not-Beats_iff x y = (
  λ h b. ground (arith, h, (should_replace_existing_iff x y).1 b),
  λ h. elim (Bool-cases (should_replace_existing x y)) [
    | inl wins ↦ absurd (h ((should_replace_existing_iff x y).0 wins))
    | inr loses ↦ loses
  ],
)

-- What does not beat a record intent that does not beat a third one does not beat that.
pub not-Beats_trans : (x y z : RecordIntent) → ¬ Beats x y → ¬ Beats y z → ¬ Beats x z
not-Beats_trans x y z p q =
    (not-Beats_iff x z).0 (keeps_trans x y z ((not-Beats_iff x y).1 p) ((not-Beats_iff y z).1 q))
