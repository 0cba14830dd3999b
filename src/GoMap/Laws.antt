-- ===== src/GoMap/Laws.antt =====
-- What a lookup finds after a write or a deletion.
use docker_coredns_sync.Prelude.{
  Eq, [], arith, false, if◌then◌else◌, nat_eq, none, refl, some, text_eq, true, ◌==◌, ◌∷◌, ◌≡◌, ◌≢◌,
  ◌⊎◌,
}
use docker_coredns_sync.GoMap.{Map, lookup, contains, insert, delete}

module _ {ℓ} {K V : Type ℓ} ⦃e : Eq K⦄ where
  pub lookup-insert :
      (m : Map K V) (k : K) (v : V) (j : K)
      → lookup (insert m k v) j ≡ (if k == j then some v else lookup m j)
  unfolding lookup insert
  lookup-insert [] k v j = refl
  lookup-insert ((i, w) ∷ m) k v j =
      ground (arith, e.beq_iff k j, e.beq_iff i k, e.beq_iff i j, lookup-insert m k v j)

  pub lookup-delete :
      (m : Map K V) (k j : K) → lookup (delete m k) j ≡ (if k == j then none else lookup m j)
  unfolding lookup delete
  lookup-delete [] k j = ground arith
  lookup-delete ((i, w) ∷ m) k j =
      ground (arith, e.beq_iff k j, e.beq_iff i k, e.beq_iff i j, lookup-delete m k j)

  pub lookup-insert_self : (m : Map K V) (k : K) (v : V) → lookup (insert m k v) k ≡ some v
  lookup-insert_self m k v = ground (arith, lookup-insert m k v k, e.beq_iff k k)

  pub lookup-insert_ne :
      (m : Map K V) (k : K) (v : V) (j : K) → k ≢ j → lookup (insert m k v) j ≡ lookup m j
  lookup-insert_ne m k v j h = ground (arith, lookup-insert m k v j, e.beq_iff k j)

  pub lookup-insert_cases :
      (m : Map K V) (k : K) (v : V) (j : K) (w : V)
      → lookup (insert m k v) j ≡ some w
      → ((k ≡ j) × (v ≡ w)) ⊎ ((k ≢ j) × (lookup m j ≡ some w))
  lookup-insert_cases m k v j w h = ground (arith, lookup-insert m k v j, e.beq_iff k j)

  pub contains-insert_self : (m : Map K V) (k : K) (v : V) → contains (insert m k v) k ≡ true
  unfolding contains
  contains-insert_self m k v = ground (arith, lookup-insert_self m k v)

  pub contains_of_lookup : (m : Map K V) (k : K) (v : V) → lookup m k ≡ some v → contains m k ≡ true
  unfolding contains
  contains_of_lookup m k v h = ground arith

  pub lookup_of_contains :
      (m : Map K V) (k : K) → contains m k ≡ true → (v : V) × (lookup m k ≡ some v)
  unfolding contains
  lookup_of_contains m k h = ground arith

  pub not-contains_iff : (m : Map K V) (k : K) → contains m k ≡ false → lookup m k ≡ none
  unfolding contains
  not-contains_iff m k h = ground arith
