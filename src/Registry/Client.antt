-- ===== src/Registry/Client.antt =====
-- internal/registry: the etcd client as calls that change a world, and the calls that Register, Remove,
-- List and GetLiveHostnames make, with their errors. An error of the client is the text of its message;
-- contexts are left out.
pub mod Inversion
pub mod Store
pub mod Listed
pub mod Live
pub mod Remove
pub mod Fuel
use docker_coredns_sync.Prelude.{
  Bool, List, Option, Result, Text, [], codes, err, if◌then◌else◌, nat_eq, none, not, ok, some,
  text_eq, true, ℕ, ◌++◌, ◌/◌, ◌∷◌,
}
use docker_coredns_sync.GoText.Decimal.{ℤ, pos, int_eq}
use docker_coredns_sync.GoMap.{keys}
use docker_coredns_sync.Config.{EtcdConfig, heartbeat_key_prefix}
use docker_coredns_sync.Domain.Intent.{RecordIntent, key}
use docker_coredns_sync.State.{TextSet}
use docker_coredns_sync.Registry.{Json, Kvs, get_live_hostnames, list_intents, marshal_etcd_value}
use docker_coredns_sync.Registry.Path.{key_base_for_fqdn}
use docker_coredns_sync.Registry.Index.{get_next_indexed_key}

-- clientv3.WithPrefix, WithKeysOnly, WithSerializable
pub data GetOption : Type 0 where
  with_prefix with_keys_only with_serializable : GetOption

abbrev pub Call : Type 0 → Type 0 → Type 0
Call World A = World → Result Text A × World

-- etcdClient, as far as the registry calls it. A lease is its number.
pub record EtcdClient (World : Type 0) : Type 0 where
  pub get : Text → List GetOption → Call World Kvs
  -- the last argument is that of WithLease
  pub put : Text → Text → Option ℕ → Call World (Unit {0})
  pub delete : Text → Call World (Unit {0})
  pub grant : ℤ → Call World ℕ
  pub revoke : ℕ → Call World (Unit {0})
  pub keep_alive : ℕ → Call World (Unit {0})
  -- Txn.Then, with an OpDelete for each key, and Commit
  pub delete_all : List Text → Call World (Unit {0})
  -- Txn.If, for a key whose CreateRevision is 0, Then, with an OpPut under a lease, and Commit: whether
  -- it succeeded
  pub create : Text → Text → ℕ → Call World Bool
  pub close : Call World (Unit {0})

-- registryMetrics
pub record RegistryMetrics (World : Type 0) : Type 0 where
  pub inc_etcd_error : World → World
  pub inc_lock_failure : World → World

-- EtcdRegistry, without the state of the heartbeat
pub record EtcdRegistry (World : Type 0) : Type 0 where
  pub client : EtcdClient World
  pub cfg : EtcdConfig
  pub hostname : Text
  pub heartbeat_ttl : ℤ
  pub metrics : Option (RegistryMetrics World)

-- The errors that the methods return, with the texts that they hold.
pub data RegistryError : Type 0 where
  list_indices_failed put_failed list_keys_failed list_failed list_heartbeats_failed :
      Text → Text → RegistryError
  marshal_failed : Text → RegistryError
  compute_key_failed : Text → RegistryError → RegistryError
  batch_failed : ℕ → ℕ → Text → RegistryError
  out_of_fuel : RegistryError

-- What a method does: its result, and the world after it.
abbrev pub Action : Type 0 → Type 0 → Type 0
Action World A = World → Result RegistryError A × World

abbrev pub key_or_fuel : Option Text → Result RegistryError Text
key_or_fuel none = err out_of_fuel
key_or_fuel (some key) = ok key

abbrev pub in_context : {A : Type 0} → Text → Result RegistryError A → Result RegistryError A
in_context fqdn (ok a) = ok a
in_context fqdn (err e) = err (compute_key_failed fqdn e)

abbrev pub value_or_error : Text → Option Text → Result RegistryError Text
value_or_error fqdn none = err (marshal_failed fqdn)
value_or_error fqdn (some value) = ok value

module _ {World : Type 0} where
  infixl 5 ◌>>=◌
  abbrev pub ◌>>=◌ : {A B : Type 0} → Action World A → (A → Action World B) → Action World B
  ◌>>=◌ m f w = let (r, w') = m w in elim r [ ok a ↦ f a w' | err e ↦ (err e, w') ]

  unfoldable pub return : {A : Type 0} → Result RegistryError A → Action World A
  return r w = (r, w)

  -- NewEtcdRegistry, SetMetrics
  unfoldable pub new_etcd_registry : EtcdClient World → EtcdConfig → Text → ℤ → EtcdRegistry World
  new_etcd_registry client cfg hostname heartbeat_ttl = record {
    client = client;
    cfg = cfg;
    hostname = hostname;
    heartbeat_ttl = heartbeat_ttl;
    metrics = none;
  }

  unfoldable pub set_metrics : EtcdRegistry World → RegistryMetrics World → EtcdRegistry World
  set_metrics er m = record er { metrics = some m }

  unfoldable pub tick_error : Option (RegistryMetrics World) → World → World
  tick_error none w = w
  tick_error (some m) w = m.inc_etcd_error w

  unfoldable pub tick_lock_failure : Option (RegistryMetrics World) → World → World
  tick_lock_failure none w = w
  tick_lock_failure (some m) w = m.inc_lock_failure w

  module _ (er : EtcdRegistry World) where
    -- incEtcdError, incLockFailure
    unfoldable pub inc_etcd_error : World → World
    unfolding tick_error
    inc_etcd_error w = tick_error er.metrics w

    unfoldable pub inc_lock_failure : World → World
    unfolding tick_lock_failure
    inc_lock_failure w = tick_lock_failure er.metrics w

    unfoldable pub settle :
        {A : Type 0}
        → (Text → RegistryError)
        → Result Text A × World
        → Result RegistryError A × World
    unfolding inc_etcd_error
    settle wrap (ok a, w) = (ok a, w)
    settle wrap (err e, w) = (err (wrap e), inc_etcd_error w)

    -- if err != nil { er.incEtcdError(); return fmt.Errorf(...) }
    unfoldable pub checked : {A : Type 0} → Call World A → (Text → RegistryError) → Action World A
    unfolding settle
    checked op wrap w = settle wrap (op w)

    -- getNextIndexedKey
    unfoldable pub next_indexed_key : Text → Action World Text
    unfolding checked return key_base_for_fqdn get_next_indexed_key keys
    next_indexed_key fqdn = do
      let base = key_base_for_fqdn er.cfg.path_prefix fqdn
      kvs ←
          checked (er.client.get base (with_prefix ∷ with_keys_only ∷ with_serializable ∷ []))
            (list_indices_failed base)
      return (key_or_fuel (get_next_indexed_key base (keys kvs)))

    unfoldable pub next_key_of : Text → Action World Text
    unfolding next_indexed_key
    next_key_of fqdn w = let (r, w') = next_indexed_key fqdn w in (in_context fqdn r, w')

    unfoldable pub read_live : Action World (Option TextSet)
    unfolding checked return get_live_hostnames keys
    read_live = do
      let prefix = heartbeat_key_prefix ++ codes "/"
      kvs ←
          checked (er.client.get prefix (with_prefix ∷ with_keys_only ∷ []))
            (list_heartbeats_failed heartbeat_key_prefix)
      return (ok (get_live_hostnames true er.hostname (keys kvs)))

    -- GetLiveHostnames: none is nil; active is hbActive.
    unfoldable pub live_hostnames : Bool → Action World (Option TextSet)
    unfolding read_live
    live_hostnames active w = if not active then (ok none, w) else read_live w

    module _ (json : Json) where
      -- Register
      unfoldable pub register : RecordIntent → Action World (Unit {0})
      unfolding next_key_of checked return marshal_etcd_value
      register ri = do
        let fqdn = ri.rec.name
        key ← next_key_of fqdn
        value ← return (value_or_error fqdn (marshal_etcd_value json ri))
        checked (er.client.put key value none) (put_failed key)

      -- List
      unfoldable pub list : Action World (List RecordIntent)
      unfolding checked return list_intents
      list = do
        let prefix = er.cfg.path_prefix
        kvs ←
            checked (er.client.get prefix (with_prefix ∷ with_serializable ∷ []))
              (list_failed prefix)
        return (ok (list_intents json prefix kvs))
