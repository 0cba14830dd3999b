-- ===== src/Util/Laws.antt =====
-- A read that writes its default, and the write after it.
use docker_coredns_sync.Prelude.{
  Eq, Option, arith, if◌then◌else◌, nat_eq, none, some, text_eq, ◌==◌, ◌≡◌,
}
use docker_coredns_sync.GoMap.Laws.{lookup-insert}
use docker_coredns_sync.Util
use docker_coredns_sync.Util.{DefaultMap, get, peek, set}

abbrev pub or_default {ℓ} : {V : Type ℓ} → V → Option V → V
or_default factory none = factory
or_default factory (some val) = val

module _ {ℓ} {K V : Type ℓ} {factory : V} ⦃e : Eq K⦄ (d : DefaultMap K V factory) (key : K) where
  -- Get returns the value of its key, or the default.
  pub get_lem : (Util.get d key).0 ≡ or_default factory (Util.peek d key)
  unfolding Util.get Util.peek
  get_lem = ground arith

  -- Get changes what is found under no key but its own, where the default is found if nothing was.
  pub peek-get :
      (j : K)
      → Util.peek (Util.get d key).1 j
        ≡ (if key == j then some (or_default factory (Util.peek d key)) else Util.peek d j)
  unfolding Util.get Util.peek
  peek-get j = ground (arith, lookup-insert d.internal key factory j, e.beq_iff key j)

  pub peek-set :
      (v : V) (j : K)
      → Util.peek (Util.set d key v) j ≡ (if key == j then some v else Util.peek d j)
  unfolding Util.set Util.peek
  peek-set v j = lookup-insert d.internal key v j

module _ {ℓ} {K V : Type ℓ} {factory : V} ⦃e : Eq K⦄ (d : DefaultMap K V factory) (key : K) where
  -- The write of a value that a read has made, as the nested maps do it.
  pub peek-set-get :
      (v : V) (j : K)
      → Util.peek (Util.set (Util.get d key).1 key v) j
        ≡ (if key == j then some v else Util.peek d j)
  peek-set-get v j = ground (arith, peek-set (Util.get d key).1 key v j, peek-get d key j)
