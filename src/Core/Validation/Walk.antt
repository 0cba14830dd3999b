-- ===== src/Core/Validation/Walk.antt =====
-- The walk of the cycle check: its fuel is enough, and it tells a chain that ends from one that
-- does not.
use docker_coredns_sync.Prelude.{
  Option, Option-cases, Text, [], ap, arith, inl, inr, length, nat_eq, none, some, suc, sym,
  text_beq_iff, text_eq, true, zero, ℕ, ◌+◌, ◌-◌, ◌<◌, ◌∙◌, ◌∷◌, ◌≡◌, ◌≢◌, ◌≤◌,
}
use docker_coredns_sync.GoMap.{Map, contains, delete, lookup}
use docker_coredns_sync.GoMap.Laws.{lookup-delete}
use docker_coredns_sync.GoMap.Distinct.{Distinct, Fresh, Fresh-lookup}
use native.Mathlib.Nat.{zero-add, suc-add}
use native.Mathlib.Decide.{dec_lt}

module _ {V : Type 0} where
  length-delete-le : (m : Map Text V) (k : Text) → length (delete m k) ≤ length m
  unfolding delete
  length-delete-le [] k = omega arith
  length-delete-le ((j, v) ∷ m) k = ground (arith, length-delete-le m k)

  length-delete :
      (m : Map Text V) (k : Text) → contains m k ≡ true → suc (length (delete m k)) ≤ length m
  unfolding lookup contains delete
  length-delete [] k h = cc
  length-delete ((j, v) ∷ m) k h = ground (arith, length-delete m k, length-delete-le m k)

  contains-tail :
      (k : Text) (v : V) (s : Map Text V) (j : Text)
      → Fresh k s
      → contains s j ≡ true
      → (contains ((k, v) ∷ s) j ≡ true) × (k ≢ j)
  unfolding lookup contains
  contains-tail k v s j fresh h = ground (arith, Fresh-lookup s k fresh, text_beq_iff k j)

  contains-head : (k : Text) (v : V) (s : Map Text V) → contains ((k, v) ∷ s) k ≡ true
  unfolding lookup contains
  contains-head k v s = ground (arith, text_beq_iff k k)

  contains-delete :
      (m : Map Text V) (k j : Text) → k ≢ j → contains m j ≡ true → contains (delete m k) j ≡ true
  unfolding contains
  contains-delete m k j ne h = ground (arith, lookup-delete m k j, text_beq_iff k j)

-- A map whose keys are all keys of another has no more entries than that.
pub keys_le :
    {V W : Type 0} (s : Map Text V) (m : Map Text W)
    → Distinct s
    → ((k : Text) → contains s k ≡ true → contains m k ≡ true)
    → length s ≤ length m
keys_le [] m d sub = omega arith
keys_le ((k, v) ∷ s) m d sub = omega (
  arith,
  keys_le s (delete m k) d.1 (λ j h.
      let (there, ne) = contains-tail k v s j d.0 h in contains-delete m k j ne (sub j there)),
  length-delete m k (sub k (contains-head k v s)),
)

-- A chain of names: where n steps lead from a name, if they lead anywhere.
unfoldable pub follow : (Text → Option Text) → ℕ → Text → Option Text
follow next zero cur = some cur
follow next (suc n) cur = elim (next cur) [ none ↦ none | some v ↦ follow next n v ]

-- Some number of steps leads to a name that leads nowhere.
abbrev pub Ends : (Text → Option Text) → Text → Type 0
Ends next cur = (n : ℕ) × (last : Text) × (follow next n cur ≡ some last) × (next last ≡ none)

-- Every number of steps leads somewhere.
abbrev pub Loops : (Text → Option Text) → Text → Type 0
Loops next cur = (n : ℕ) → follow next n cur ≢ none

module _ (next : Text → Option Text) where
  follow_step :
      (n : ℕ) (cur v : Text) → next cur ≡ some v → follow next (suc n) cur ≡ follow next n v
  unfolding follow
  follow_step n cur v h = ground arith

  follow_stop : (n : ℕ) (cur : Text) → next cur ≡ none → follow next (suc n) cur ≡ none
  unfolding follow
  follow_stop n cur h = ground arith

  follow_head :
      (n : ℕ) (cur mid : Text)
      → follow next (suc n) cur ≡ some mid
      → (v : Text) × (next cur ≡ some v) × (follow next n v ≡ some mid)
  unfolding follow
  follow_head n cur mid h = ground arith

  pub follow-append :
      (m n : ℕ) (cur mid : Text)
      → follow next m cur ≡ some mid
      → follow next (m + n) cur ≡ follow next n mid
  follow-append zero n cur mid h =
      let e : cur ≡ mid = unfold follow in ground arith in rw (zero-add, e)
  follow-append (suc m) n cur mid h =
      let (v, first, rest) = follow_head m cur mid h in
      rw suc-add (follow_step (m + n) cur v first ∙ follow-append m n v mid rest)

  -- A chain that ends does not go on for ever.
  pub Ends-not-Loops : (cur : Text) → Ends next cur → ¬ Loops next cur
  Ends-not-Loops cur (n, last, h, stop) loops =
      loops (n + 1) (follow-append n 1 cur last h ∙ follow_stop 0 last stop)

  -- What is nowhere after some steps is nowhere after more.
  follow-none : (m n : ℕ) (cur : Text) → follow next m cur ≡ none → follow next (m + n) cur ≡ none
  follow-none zero n cur h = absurd (unfold follow in ground arith)
  follow-none (suc m) n cur h = elim (Option-cases (next cur)) [
    | inl stop ↦ rw suc-add (follow_stop (m + n) cur stop)
    | inr (v, first) ↦
        rw suc-add (
          follow_step (m + n) cur v first ∙ follow-none m n v (sym (follow_step m cur v first) ∙ h))
  ]

  module _ (k : ℕ) (cur : Text) (back : follow next (suc k) cur ≡ some cur) where
    Loops_below : (bound n : ℕ) → n < bound → follow next n cur ≢ none
    Loops_below zero n lt h = absurd (omega arith)
    Loops_below (suc bound) n lt h = elim (dec_lt k n) [
      | yes past ↦
          let e : suc k + (n - suc k) ≡ n = omega arith in
          Loops_below bound (n - suc k) (omega arith) (
            sym (follow-append (suc k) (n - suc k) cur cur back)
            ∙ (ap (λ i. follow next i cur) e ∙ h))
      | no within ↦
          let e : n + (suc k - n) ≡ suc k = omega arith in
          cc (follow-none n (suc k - n) cur h, ap (λ i. follow next i cur) e, back)
    ]

    -- A name that a chain comes back to.
    pub Loops-of_return : Loops next cur
    Loops-of_return n = Loops_below (suc n) n (omega arith)

  pub Loops-of_step : (cur v : Text) → next cur ≡ some v → Loops next v → Loops next cur
  Loops-of_step cur v first loops zero h = absurd (unfold follow in ground arith)
  Loops-of_step cur v first loops (suc n) h = loops n (sym (follow_step n cur v first) ∙ h)

  pub Ends-of_step : (cur v : Text) → next cur ≡ some v → Ends next v → Ends next cur
  Ends-of_step cur v first (n, last, h, stop) = (suc n, last, follow_step n cur v first ∙ h, stop)
