-- ===== src/GoMap/Distinct.antt =====
-- Maps in which no key stands twice.
use docker_coredns_sync.Prelude.{
  Bool-cases, Eq, In, [], arith, inl, inr, nat_eq, none, refl, some, text_eq, ◌==◌, ◌∷◌, ◌≡◌, ◌≢◌,
}
use docker_coredns_sync.GoMap.{Map, delete, insert, lookup, values}
use docker_coredns_sync.GoMap.Entries.{Entries, Entries-delete, Entries-insert}

module _ {ℓ} {K V : Type ℓ} where
  abbrev pub Fresh : K → Map K V → Type ℓ
  Fresh k = Entries (λ j _. k ≢ j)

  abbrev pub Distinct : Map K V → Type ℓ
  Distinct [] = Unit
  Distinct ((k, v) ∷ m) = Fresh k m × Distinct m

  module _ ⦃e : Eq K⦄ where
    pub insert-Distinct : (m : Map K V) (k : K) (v : V) → Distinct m → Distinct (insert m k v)
    unfolding insert
    insert-Distinct [] k v d = (tt, tt)
    insert-Distinct ((j, w) ∷ m) k v d = elim (Bool-cases (j == k)) [
      | inl same ↦ rw same d
      | inr other ↦ rw other (
        Entries-insert (λ i _. j ≢ i) m k v (λ p. ground (arith, e.beq_iff j k)) d.0,
        insert-Distinct m k v d.1,
      )
    ]

    pub delete-Distinct : (m : Map K V) (k : K) → Distinct m → Distinct (delete m k)
    unfolding delete
    delete-Distinct [] k d = tt
    delete-Distinct ((j, w) ∷ m) k d = elim (Bool-cases (j == k)) [
      | inl same ↦ rw same (delete-Distinct m k d.1)
      | inr other ↦ rw other (Entries-delete (λ i _. j ≢ i) m k d.0, delete-Distinct m k d.1)
    ]

    pub Fresh-lookup : (m : Map K V) (k : K) → Fresh k m → lookup m k ≡ none
    unfolding lookup
    Fresh-lookup [] k f = refl
    Fresh-lookup ((j, w) ∷ m) k f = ground (arith, f.0, e.beq_iff j k, Fresh-lookup m k f.1)

module _ {K V : Type 0} ⦃e : Eq K⦄ where
  -- Every value that an iteration meets is found under its key, and the other way round.
  pub lookup_of_In :
      (m : Map K V) (v : V) → Distinct m → In v (values m) → (k : K) × (lookup m k ≡ some v)
  unfolding lookup values
  lookup_of_In ((j, w) ∷ m) v d (inl p) = (j, ground (arith, e.beq_iff j j))
  lookup_of_In ((j, w) ∷ m) v d (inr h) =
      let (k, found) = lookup_of_In m v d.1 h in
      (k, ground (arith, e.beq_iff j k, Fresh-lookup m j d.0))
  lookup_of_In [] v d h = absurd h

  pub In-of_lookup : (m : Map K V) (k : K) (v : V) → lookup m k ≡ some v → In v (values m)
  unfolding lookup values
  In-of_lookup [] k v h = cc
  In-of_lookup ((j, w) ∷ m) k v h = elim (Bool-cases (j == k)) [
    | inl same ↦ inl (ground arith)
    | inr other ↦ inr (In-of_lookup m k v (ground arith))
  ]
