-- ===== src/Util.antt =====
-- internal/util: a map that makes a default value for a missing key.
pub mod Laws
use docker_coredns_sync.Prelude.{Bool, Eq, List, Option, [], nat_eq, none, some, text_eq}
use docker_coredns_sync.GoMap as Map
use docker_coredns_sync.GoMap.{Map, insert, lookup}

-- DefaultMap. The factories of the program build a constant, so the factory is that value.
pub record DefaultMap {ℓ} (K V : Type ℓ) (factory : V) : Type ℓ where
  pub internal : Map K V

-- NewDefaultMap
unfoldable pub new_default_map {ℓ} : {K V : Type ℓ} (factory : V) → DefaultMap K V factory
new_default_map factory = record { internal = [] }

module _ {ℓ} {K V : Type ℓ} {factory : V} where
  -- Keys and Values
  unfoldable pub keys : DefaultMap K V factory → List K
  keys d = Map.keys d.internal

  unfoldable pub values : DefaultMap K V factory → List V
  values d = Map.values d.internal

  module _ ⦃e : Eq K⦄ where
    -- Get: a missing key is written
    unfoldable pub get : DefaultMap K V factory → K → V × DefaultMap K V factory
    get d key = elim (Map.lookup d.internal key) [
      | some val ↦ (val, d)
      | none ↦ (factory, record { internal = Map.insert d.internal key factory })
    ]

    unfoldable pub peek : DefaultMap K V factory → K → Option V
    peek d key = Map.lookup d.internal key

    unfoldable pub contains : DefaultMap K V factory → K → Bool
    contains d key = Map.contains d.internal key

    unfoldable pub set : DefaultMap K V factory → K → V → DefaultMap K V factory
    set d key value = record { internal = Map.insert d.internal key value }

    unfoldable pub delete : DefaultMap K V factory → K → DefaultMap K V factory
    delete d key = record { internal = Map.delete d.internal key }
