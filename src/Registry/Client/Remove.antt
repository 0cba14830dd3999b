-- ===== src/Registry/Client/Remove.antt =====
-- Remove of internal/registry/etcd_registry.go.
pub mod Exact
use docker_coredns_sync.Prelude.{
  List, Option, Result, Text, [], drop, err, if◌then◌else◌, length, ltb, nat_eq, none, ok, some,
  suc, take, text_eq, zero, ℕ, ◌+◌, ◌∷◌,
}
use docker_coredns_sync.Domain.Intent.{RecordIntent}
use docker_coredns_sync.Registry.{Json, keys_to_delete}
use docker_coredns_sync.Registry.Path.{key_base_for_fqdn}
use docker_coredns_sync.Registry.Client.{
  ◌>>=◌, Action, EtcdRegistry, RegistryError, batch_failed, checked, list_keys_failed, with_prefix,
  inc_etcd_error,
}

-- batchSize
abbrev pub batch_size : ℕ
batch_size = 64

-- if firstErr == nil { firstErr = ... }
unfoldable pub keep_first : Option RegistryError → RegistryError → Option RegistryError
keep_first none e = some e
keep_first (some first) e = some first

unfoldable pub min_nat : ℕ → ℕ → ℕ
min_nat a b = if ltb b a then b else a

abbrev pub error_of : Option RegistryError → Result RegistryError (Unit {0})
error_of none = ok tt
error_of (some e) = err e

module _ {World : Type 0} (er : EtcdRegistry World) where
  -- One batch: keys [start:end]
  unfoldable pub settle_batch :
      ℕ → ℕ → Option RegistryError → Result Text (Unit {0}) × World → Option RegistryError × World
  unfolding keep_first inc_etcd_error
  settle_batch start end first (ok done, w) = (first, w)
  settle_batch start end first (err e, w) =
      (keep_first first (batch_failed start end e), inc_etcd_error er w)

  -- The loop over the batches, on the keys from start on, of n keys in all. One round for each key is
  -- enough.
  unfoldable pub delete_batches :
      ℕ → ℕ → ℕ → List Text → Option RegistryError → World → Option RegistryError × World
  unfolding settle_batch min_nat
  delete_batches zero n start rest first w = (first, w)
  delete_batches (suc f) n start [] first w = (first, w)
  delete_batches (suc f) n start (k ∷ rest) first w =
      let deleted = er.client.delete_all (take batch_size (k ∷ rest)) w in
      let (first', w') = settle_batch start (min_nat (start + batch_size) n) first deleted in
      delete_batches f n (start + batch_size) (drop batch_size (k ∷ rest)) first' w'

  unfoldable pub delete_keys : List Text → Action World (Unit {0})
  unfolding delete_batches
  delete_keys to_delete w =
      let (first, w') = delete_batches (length to_delete) (length to_delete) 0 to_delete none w in
      (error_of first, w')

  -- Remove
  unfoldable pub remove : Json → RecordIntent → Action World (Unit {0})
  unfolding checked key_base_for_fqdn keys_to_delete delete_keys
  remove json ri = do
    let base = key_base_for_fqdn er.cfg.path_prefix ri.rec.name
    kvs ← checked er (er.client.get base (with_prefix ∷ [])) (list_keys_failed base)
    delete_keys (keys_to_delete json base kvs ri)
