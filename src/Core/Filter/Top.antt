-- ===== src/Core/Filter/Top.antt =====
-- The best of some candidates, without the code's comparison: one that none of them beats.
use docker_coredns_sync.Prelude.{
  Bool, Bool-cases, In, List, Option, [], arith, false, if◌then◌else◌, inl, inr, nat_eq, none, refl,
  some, subst, sym, text_eq, true, ◌↔◌, ◌∙◌, ◌∷◌, ◌≡◌, ◌⊎◌,
}
use docker_coredns_sync.Domain.Intent.{RecordIntent}
use docker_coredns_sync.Core.Filter.{should_replace_existing}
use docker_coredns_sync.Core.Filter.Dedup.{better}
use docker_coredns_sync.Core.Filter.Order.{Beats, not-Beats_trans, should_replace_existing_iff}

-- The best of the candidates of a list that satisfy P: none if there is none.
abbrev pub Top : (RecordIntent → Type 0) → List RecordIntent → Option RecordIntent → Type 0
Top P ris none = (c : RecordIntent) → In c ris → ¬ P c
Top P ris (some r) = In r ris × P r × ((c : RecordIntent) → In c ris → P c → ¬ Beats c r)

-- The winner among acc and the candidates that a test accepts: a later one must replace it.
abbrev pub best :
    (RecordIntent → Bool) → List RecordIntent → Option RecordIntent → Option RecordIntent
best p [] acc = acc
best p (ri ∷ ris) acc = best p ris (if p ri then better acc ri else acc)

not-Beats_self : (x : RecordIntent) → ¬ Beats x x
not-Beats_self x (inl h) = ground (arith, h)
not-Beats_self x (inr h) = omega (arith, h.1)

not-Beats_back : (x y : RecordIntent) → Beats x y → ¬ Beats y x
not-Beats_back x y p q = ground (arith, p, q)

some_inj : (a b : RecordIntent) → ◌≡◌ {A = Option RecordIntent} (some a) (some b) → a ≡ b
some_inj a b h = ground (arith, h)

-- What holds of a winner over acc.
abbrev Over : Option RecordIntent → RecordIntent → Type 0
Over acc r = (c : RecordIntent) → acc ≡ some c → ¬ Beats c r

better-Over :
    (acc : Option RecordIntent) (ri : RecordIntent)
    → (a : RecordIntent) × (better acc ri ≡ some a)
      × ((acc ≡ some a) ⊎ (ri ≡ a))
      × (¬ Beats ri a)
      × Over acc a
better-Over none ri = (ri, refl, inr refl, not-Beats_self ri, λ c h. absurd (ground (arith, h)))
better-Over (some e) ri = elim (Bool-cases (should_replace_existing ri e)) [
  | inl wins ↦ (
    ri,
    rw wins refl,
    inr refl,
    not-Beats_self ri,
    λ c h.
        subst (λ x. ¬ Beats x ri) (some_inj e c h)
          (not-Beats_back ri e ((should_replace_existing_iff ri e).0 wins)),
  )
  | inr loses ↦ (
    e,
    rw loses refl,
    inl refl,
    λ b. absurd (ground (arith, loses, (should_replace_existing_iff ri e).1 b)),
    λ c h. subst (λ x. ¬ Beats x e) (some_inj e c h) (not-Beats_self e),
  )
]

module _ (p : RecordIntent → Bool) where
  -- A candidate: acc, or one of the list that the test accepts
  abbrev Candidate : Option RecordIntent → List RecordIntent → RecordIntent → Type 0
  Candidate acc ris c = (acc ≡ some c) ⊎ (In c ris × (p c ≡ true))

  best-Over :
      (ris : List RecordIntent) (acc : Option RecordIntent) (r : RecordIntent)
      → best p ris acc ≡ some r
      → Candidate acc ris r × ((c : RecordIntent) → Candidate acc ris c → ¬ Beats c r)
  best-Over [] acc r h = (
    inl h,
    λ c m. elim m [
      | inl e ↦ subst (λ x. ¬ Beats x r) (some_inj r c (sym h ∙ e)) (not-Beats_self r)
      | inr gone ↦ absurd gone.0
    ],
  )
  best-Over (ri ∷ ris) acc r h = elim (Bool-cases (p ri)) [
    | inl yes_p ↦
        let (a, e, src, own, over) = better-Over acc ri in
        let (from, top) =
          best-Over ris (better acc ri) r
            (subst (λ b. best p ris (if b then better acc ri else acc) ≡ some r) yes_p h) in
        (
          elim from [
            | inl is ↦ elim src [
              | inl old ↦ inl (old ∙ sym e ∙ is)
              | inr new ↦
                  let same : ri ≡ r = new ∙ some_inj a r (sym e ∙ is) in
                  inr (inl (sym same), subst (λ x. p x ≡ true) same yes_p)
            ]
            | inr there ↦ inr (inr there.0, there.1)
          ],
          λ c m. elim m [
            | inl old ↦ not-Beats_trans c a r (over c old) (top a (inl e))
            | inr (inl is, q) ↦
                subst (λ x. ¬ Beats x r) (sym is) (not-Beats_trans ri a r own (top a (inl e)))
            | inr (inr there, q) ↦ top c (inr (there, q))
          ],
        )
    | inr no_p ↦
        let (from, top) =
          best-Over ris acc r
            (subst (λ b. best p ris (if b then better acc ri else acc) ≡ some r) no_p h) in
        (
          elim from [ inl is ↦ inl is | inr there ↦ inr (inr there.0, there.1) ],
          λ c m. elim m [
            | inl old ↦ top c (inl old)
            | inr (inl is, q) ↦ absurd (ground (arith, no_p, subst (λ x. p x ≡ true) is q))
            | inr (inr there, q) ↦ top c (inr (there, q))
          ],
        )
  ]

  best-none :
      (ris : List RecordIntent) (acc : Option RecordIntent)
      → best p ris acc ≡ none
      → (acc ≡ none) × ((c : RecordIntent) → In c ris → p c ≡ false)
  best-none [] acc h = (h, λ c m. absurd m)
  best-none (ri ∷ ris) acc h = elim (Bool-cases (p ri)) [
    | inl yes_p ↦
        let (a, e, src, own, over) = better-Over acc ri in
        let (gone, rest) =
          best-none ris (better acc ri)
            (subst (λ b. best p ris (if b then better acc ri else acc) ≡ none) yes_p h) in
        absurd (ground (arith, e, gone))
    | inr no_p ↦
        let (gone, rest) =
          best-none ris acc
            (subst (λ b. best p ris (if b then better acc ri else acc) ≡ none) no_p h) in
        (
          gone,
          λ c m. elim m [
            | inl is ↦ subst (λ x. p x ≡ false) (sym is) no_p
            | inr there ↦ rest c there
          ],
        )
  ]

  module _ (P : RecordIntent → Type 0) (decides : (ri : RecordIntent) → (p ri ≡ true) ↔ P ri) where
    best_winner :
        (ris : List RecordIntent) (o : Option RecordIntent) → best p ris none ≡ o → Top P ris o
    best_winner ris none h =
        λ c m q. absurd (ground (arith, (best-none ris none h).1 c m, (decides c).1 q))
    best_winner ris (some r) h =
        let (from, top) = best-Over ris none r h in
        elim from [
          | inl nothing ↦ absurd (ground (arith, nothing))
          | inr there ↦ (there.0, (decides r).0 there.1, λ c m q. top c (inr (m, (decides c).1 q)))
        ]

    -- The winner of the code's comparison is the best of the candidates.
    pub best-Top : (ris : List RecordIntent) → Top P ris (best p ris none)
    best-Top ris = best_winner ris (best p ris none) refl
