-- ===== src/Core/Validation/Cycle.antt =====
-- The walk of the cycle check, on chains that end and on chains that do not.
use docker_coredns_sync.Prelude.{
  Bool-cases, Option-cases, Text, [], arith, false, inl, inr, length, nat_eq, refl, some, suc,
  text_beq_iff, text_eq, true, zero, ℕ, ◌+◌, ◌<◌, ◌∙◌, ◌∷◌, ◌≡◌, ◌⊎◌,
}
use native.Mathlib.Nat.{suc-add}
use docker_coredns_sync.GoMap.{Map, contains, insert, lookup}
use docker_coredns_sync.GoMap.Laws.{contains_of_lookup, lookup-insert}
use docker_coredns_sync.GoMap.Distinct.{Distinct, insert-Distinct}
use docker_coredns_sync.Core.Validation.{walk}
use docker_coredns_sync.Core.Validation.Walk.{
  Ends, Loops, follow, Ends-of_step, Loops-of_return, Loops-of_step, follow-append, keys_le,
}

length-insert_new :
    {V : Type 0} (m : Map Text V) (k : Text) (v : V)
    → contains m k ≡ false
    → length (insert m k v) ≡ suc (length m)
unfolding lookup contains insert
length-insert_new [] k v h = refl
length-insert_new ((j, w) ∷ m) k v h = ground (arith, length-insert_new m k v)

module _ (forward : Map Text Text) where
  -- The names seen are names of the map, and each of them leads to the current name.
  pub record Visited (seen : Map Text (Unit {0})) (cur : Text) : Type 0 where
    pub distinct : Distinct seen
    pub known : (k : Text) → contains seen k ≡ true → contains forward k ≡ true
    pub leads :
        (k : Text)
        → contains seen k ≡ true
        → (n : ℕ) × (follow (lookup forward) (suc n) k ≡ some cur)

  pub Visited-nil : (cur : Text) → Visited [] cur
  unfolding lookup contains
  Visited-nil cur = record { distinct = tt; known = λ k h. cc; leads = λ k h. cc }

  contains-insert_cases :
      (seen : Map Text (Unit {0})) (cur k : Text)
      → contains (insert seen cur tt) k ≡ true
      → (cur ≡ k) ⊎ (contains seen k ≡ true)
  unfolding contains
  contains-insert_cases seen cur k h =
      ground (arith, lookup-insert seen cur tt k, text_beq_iff cur k)

  Visited-insert :
      (seen : Map Text (Unit {0})) (cur v : Text)
      → lookup forward cur ≡ some v
      → Visited seen cur
      → Visited (insert seen cur tt) v
  Visited-insert seen cur v found h = record {
    distinct = insert-Distinct seen cur tt h.distinct;
    known = λ k c. elim (contains-insert_cases seen cur k c) [
      | inl e ↦ rw (← e) (contains_of_lookup forward cur v found)
      | inr old ↦ h.known k old
    ];
    leads = λ k c. elim (contains-insert_cases seen cur k c) [
      | inl e ↦ (0, rw (← e) (unfold follow in ground arith))
      | inr old ↦
          let (n, path) = h.leads k old in
          let more : follow (lookup forward) (suc n + 1) k ≡ some v =
            follow-append (lookup forward) (suc n) 1 k cur path ∙ unfold follow in ground arith in
          (n + 1, rw suc-add at more)
    ];
  }

  -- With fuel for the names not seen yet the walk returns: true on a chain that never ends, and false
  -- on a chain that ends.
  pub walk_decides :
      (fuel : ℕ) (seen : Map Text (Unit {0})) (cur : Text)
      → Visited seen cur
      → length forward < fuel + length seen
      → ((walk fuel forward seen cur ≡ some true) × Loops (lookup forward) cur)
        ⊎ ((walk fuel forward seen cur ≡ some false) × Ends (lookup forward) cur)
  unfolding walk
  walk_decides zero seen cur h enough =
      absurd (omega (arith, keys_le seen forward h.distinct h.known))
  walk_decides (suc fuel) seen cur h enough = elim (Option-cases (lookup forward cur)) [
    | inl stop ↦ inr (rw (stop, walk), (0, cur, unfold follow in refl, stop))
    | inr (v, found) ↦ elim (Bool-cases (contains seen cur)) [
      | inl again ↦
          let (n, back) = h.leads cur again in
          inl (rw (found, walk, again), Loops-of_return (lookup forward) n cur back)
      | inr new ↦
          elim (walk_decides fuel (insert seen cur tt) v (Visited-insert seen cur v found h)
            (omega (arith, length-insert_new seen cur tt new))) [
              | inl (e, loops) ↦
                  inl (rw (found, walk, new) e, Loops-of_step (lookup forward) cur v found loops)
              | inr (e, ends) ↦
                  inr (rw (found, walk, new) e, Ends-of_step (lookup forward) cur v found ends)
            ]
    ]
  ]
