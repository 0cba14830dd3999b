-- ===== src/GoMap.antt =====
-- Go's built-in maps, which every component uses: an association list in which a key stands once.
-- Go leaves the order of iteration open. Here it is the order in which the keys were first written.
pub mod Laws
pub mod Entries
pub mod Distinct
use docker_coredns_sync.Prelude.{
  Bool, Eq, List, Option, [], false, if◌then◌else◌, nat_eq, none, some, text_eq, true, ◌==◌, ◌∷◌,
}

abbrev pub Map {ℓ} : Type ℓ → Type ℓ → Type ℓ
Map K V = List (K × V)

-- make(map[K]V)
abbrev pub empty {ℓ} : {K V : Type ℓ} → Map K V
empty = []

module _ {ℓ} {K V : Type ℓ} where
  -- for k := range m, for _, v := range m
  unfoldable pub keys : Map K V → List K
  keys [] = []
  keys ((k, v) ∷ m) = k ∷ keys m

  unfoldable pub values : Map K V → List V
  values [] = []
  values ((k, v) ∷ m) = v ∷ values m

module _ {ℓ} {K V : Type ℓ} ⦃e : Eq K⦄ where
  -- v, ok := m[k]
  unfoldable pub lookup : Map K V → K → Option V
  lookup [] k = none
  lookup ((j, v) ∷ m) k = if j == k then some v else lookup m k

  -- _, ok := m[k]
  unfoldable pub contains : Map K V → K → Bool
  unfolding lookup
  contains m k = elim (lookup m k) [ none ↦ false | some _ ↦ true ]

  -- m[k] = v
  unfoldable pub insert : Map K V → K → V → Map K V
  insert [] k v = (k, v) ∷ []
  insert ((j, w) ∷ m) k v = if j == k then (j, v) ∷ m else (j, w) ∷ insert m k v

  -- delete(m, k)
  unfoldable pub delete : Map K V → K → Map K V
  delete [] k = []
  delete ((j, w) ∷ m) k = if j == k then delete m k else (j, w) ∷ delete m k
