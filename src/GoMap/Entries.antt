-- ===== src/GoMap/Entries.antt =====
-- Predicates over the entries of a map, and maps in which no key stands twice.
use docker_coredns_sync.Prelude.{
  Bool-cases, Eq, [], arith, inl, inr, nat_eq, some, subst, sym, text_eq, ◌==◌, ◌∷◌, ◌≡◌,
}
use docker_coredns_sync.GoMap.{Map, lookup, insert, delete}

module _ {ℓ κ} {K V : Type ℓ} (P : K → V → Type κ) where
  abbrev pub Entries : Map K V → Type κ
  Entries [] = Unit
  Entries ((k, v) ∷ m) = P k v × Entries m

  module _ ⦃e : Eq K⦄ where
    pub Entries-insert : (m : Map K V) (k : K) (v : V) → P k v → Entries m → Entries (insert m k v)
    unfolding insert
    Entries-insert [] k v p h = (p, tt)
    Entries-insert ((j, w) ∷ m) k v p h = elim (Bool-cases (j == k)) [
      | inl same ↦ rw same (subst (λ i. P i v) (sym ((e.beq_iff j k).0 same)) p, h.1)
      | inr other ↦ rw other (h.0, Entries-insert m k v p h.1)
    ]

    pub Entries-delete : (m : Map K V) (k : K) → Entries m → Entries (delete m k)
    unfolding delete
    Entries-delete [] k h = tt
    Entries-delete ((j, w) ∷ m) k h = elim (Bool-cases (j == k)) [
      | inl same ↦ rw same (Entries-delete m k h.1)
      | inr other ↦ rw other (h.0, Entries-delete m k h.1)
    ]

    pub Entries-lookup : (m : Map K V) (k : K) (v : V) → Entries m → lookup m k ≡ some v → P k v
    unfolding lookup
    Entries-lookup [] k v h e = cc
    Entries-lookup ((j, w) ∷ m) k v h found = elim (Bool-cases (j == k)) [
      | inl same ↦ subst (λ i. P i v) ((e.beq_iff j k).0 same) (subst (P j) (ground arith) h.0)
      | inr other ↦ Entries-lookup m k v h.1 (ground arith)
    ]

module _ {K V : Type 0} {P Q : K → V → Type 0} where
  pub Entries-map : (m : Map K V) → ((k : K) (v : V) → P k v → Q k v) → Entries P m → Entries Q m
  Entries-map [] f h = tt
  Entries-map ((k, v) ∷ m) f h = (f k v h.0, Entries-map m f h.1)
