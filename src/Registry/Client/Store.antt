-- ===== src/Registry/Client/Store.antt =====
-- What etcd documents of the calls of Register, Remove and List, and what Register leaves in the store.
use docker_coredns_sync.Prelude.{
  In, List, Option, Option-cases, Result, Text, [], ap, arith, err, if◌then◌else◌, inl, inr, length,
  nat_eq, none, ok, refl, some, subst, sym, text_eq, true, ℕ, ◌<◌, ◌==◌, ◌^◌, ◌↔◌, ◌∙◌, ◌∷◌, ◌≡◌,
  ◌≢◌,
}
use docker_coredns_sync.GoMap.{empty, keys}
use docker_coredns_sync.GoText.{has_prefix}
use docker_coredns_sync.Domain.Intent.{RecordIntent, key}
use docker_coredns_sync.GoText.Cut.{has_prefix-append}
use docker_coredns_sync.Registry.{Json, Kvs, marshal_etcd_value}
use docker_coredns_sync.Registry.Path.{key_base_for_fqdn}
use docker_coredns_sync.Registry.Index.{get_next_indexed_key, index_key}
use docker_coredns_sync.Registry.Index.Fresh.{next_key_fresh}
use docker_coredns_sync.Registry.Client.{
  ◌>>=◌, EtcdClient, EtcdRegistry, GetOption, RegistryError, checked, in_context, key_or_fuel,
  list_indices_failed, next_indexed_key, next_key_of, put_failed, register, return, value_or_error,
  with_keys_only, with_prefix, with_serializable,
}
use docker_coredns_sync.Registry.Client.Inversion.{>>=-ok, checked-ok, return-ok}

module _ {World : Type 0} (value_at : World → Text → Option Text) where
  -- A response holds the pairs of the store under a prefix, and no other.
  abbrev pub Lists : World → Text → Kvs → Type 0
  Lists w prefix kvs =
      (key value : Text)
      → In (key, value) kvs ↔ ((has_prefix key prefix ≡ true) × (value_at w key ≡ some value))

  abbrev pub ListsKeys : World → Text → Kvs → Type 0
  ListsKeys w prefix kvs =
      (key : Text) → In key (keys kvs) ↔ ((has_prefix key prefix ≡ true) × (value_at w key ≢ none))

  -- What etcd documents of the client's calls. With WithPrefix a read is of all keys under a prefix, and a
  -- read that is not serializable is linearizable.
  pub record KeepsStore (client : EtcdClient World) : Type 0 where
    pub get_lists :
        (prefix : Text) (opts : List GetOption) (w w' : World) (kvs : Kvs)
        → In with_prefix opts
        → (In with_serializable opts → ⊥)
        → (In with_keys_only opts → ⊥)
        → client.get prefix opts w ≡ (ok kvs, w')
        → Lists w prefix kvs
    pub get_lists_keys :
        (prefix : Text) (opts : List GetOption) (w w' : World) (kvs : Kvs)
        → In with_prefix opts
        → (In with_serializable opts → ⊥)
        → client.get prefix opts w ≡ (ok kvs, w')
        → ListsKeys w prefix kvs
    pub get_few :
        (prefix : Text) (opts : List GetOption) (w w' : World) (kvs : Kvs)
        → client.get prefix opts w ≡ (ok kvs, w')
        → length (keys kvs) < 2 ^ 62
    pub get_keeps :
        (prefix : Text) (opts : List GetOption) (w : World) (key : Text)
        → value_at (client.get prefix opts w).1 key ≡ value_at w key
    pub put_writes :
        (key value : Text) (lease : Option ℕ) (w w' : World) (k : Text)
        → client.put key value lease w ≡ (ok tt, w')
        → value_at w' k ≡ (if key == k then some value else value_at w k)
    pub deletes :
        (ks : List Text) (w w' : World) (k : Text)
        → client.delete_all ks w ≡ (ok tt, w')
        → (In k ks → value_at w' k ≡ none) × ((In k ks → ⊥) → value_at w' k ≡ value_at w k)

  -- The members that answer the serializable reads are up to date, which etcd does not promise.
  pub record ReadsCurrent (client : EtcdClient World) : Type 0 where
    pub serializable_lists :
        (prefix : Text) (opts : List GetOption) (w w' : World) (kvs : Kvs)
        → In with_prefix opts
        → In with_serializable opts
        → (In with_keys_only opts → ⊥)
        → client.get prefix opts w ≡ (ok kvs, w')
        → Lists w prefix kvs
    pub serializable_lists_keys :
        (prefix : Text) (opts : List GetOption) (w w' : World) (kvs : Kvs)
        → In with_prefix opts
        → In with_serializable opts
        → client.get prefix opts w ≡ (ok kvs, w')
        → ListsKeys w prefix kvs

module _ {World : Type 0} (value_at : World → Text → Option Text) (er : EtcdRegistry World)
    (store : KeepsStore value_at er.client) (current : ReadsCurrent value_at er.client)
    (json : Json) (ri : RecordIntent) where
  -- The store after a write at one key.
  abbrev pub Written : World → World → Text → Text → Type 0
  Written w w' key value =
      (k : Text) → value_at w' k ≡ (if key == k then some value else value_at w k)

  -- One pair is new: the record intent's, at an indexed key of its name.
  abbrev pub Registered : World → World → Type 0
  Registered w w' =
      let base = key_base_for_fqdn er.cfg.path_prefix ri.rec.name in
      (idx : ℕ) × (value : Text) × (marshal_etcd_value json ri ≡ some value)
      × (value_at w (index_key base idx) ≡ none)
      × Written w w' (index_key base idx) value

  key_or_fuel-ok : (o : Option Text) (key : Text) → key_or_fuel o ≡ ok key → o ≡ some key
  key_or_fuel-ok none key h = absurd (ground arith)
  key_or_fuel-ok (some k) key h = ground arith

  in_context-ok :
      (fqdn : Text) (r : Result RegistryError Text) (key : Text)
      → in_context fqdn r ≡ ok key
      → r ≡ ok key
  in_context-ok fqdn (ok k) key h = h
  in_context-ok fqdn (err e) key h = absurd (ground arith)

  value_or_error-ok :
      (fqdn : Text) (o : Option Text) (value : Text)
      → value_or_error fqdn o ≡ ok value
      → o ≡ some value
  value_or_error-ok fqdn none value h = absurd (ground arith)
  value_or_error-ok fqdn (some v) value h = ground arith

  none-ne-some : {A : Type 0} {o : Option A} {a : A} → o ≡ some a → o ≡ none → ⊥
  none-ne-some h z = cc

  index_key-prefix : (base : Text) (idx : ℕ) → has_prefix (index_key base idx) base ≡ true
  unfolding index_key
  index_key-prefix base idx = has_prefix-append base _

  -- Where getNextIndexedKey is answered, nothing is stored at the key.
  abbrev FreeKey : Text → World → Text → World → Type 0
  FreeKey base w key w₁ =
      (idx : ℕ) × (key ≡ index_key base idx)
      × (value_at w key ≡ none)
      × ((k : Text) → value_at w₁ k ≡ value_at w k)

  free_entry :
      (base : Text) (w w₁ : World) (kvs : Kvs) (opts : List GetOption) (key : Text)
      → In with_prefix opts
      → In with_serializable opts
      → er.client.get base opts w ≡ (ok kvs, w₁)
      → get_next_indexed_key base (keys kvs) ≡ some key
      → FreeKey base w key w₁
  free_entry base w w₁ kvs opts key prefixed serializable answered found =
      let (idx, e, positive, unused) =
        next_key_fresh base (keys kvs) (store.get_few base opts w w₁ kvs answered) in
      let same : key ≡ index_key base idx = cc in
      (
        idx,
        same,
        elim (Option-cases (value_at w key)) [
          | inl nothing ↦ nothing
          | inr (v, there) ↦
              let listed =
                (current.serializable_lists_keys base opts w w₁ kvs prefixed serializable answered
                    key).1
                  (
                    subst (λ k. has_prefix k base ≡ true) (sym same) (index_key-prefix base idx),
                    λ z. absurd (none-ne-some there z),
                  ) in
              absurd (unused (subst (λ k. In k (keys kvs)) same listed))
        ],
        λ k.
            subst (λ (r : Result Text Kvs × World). value_at r.1 k ≡ value_at w k) answered
              (store.get_keeps base opts w k),
      )

  next_key_of-FreeKey :
      (fqdn : Text) (w w₁ : World) (key : Text)
      → next_key_of er fqdn w ≡ (ok key, w₁)
      → FreeKey (key_base_for_fqdn er.cfg.path_prefix fqdn) w key w₁
  unfolding next_key_of next_indexed_key
  next_key_of-FreeKey fqdn w w₁ key h =
      let base = key_base_for_fqdn er.cfg.path_prefix fqdn in
      let opts = with_prefix ∷ with_keys_only ∷ with_serializable ∷ [] in
      let inner : next_indexed_key er fqdn w ≡ (ok key, w₁) = λ i. (
        in_context-ok fqdn (next_indexed_key er fqdn w).0 key (ap (λ p. p.0) h) i,
        ap (λ p. p.1) h i,
      ) in
      let (kvs, w₂, answered, returned) =
        >>=-ok (checked er (er.client.get base opts) (list_indices_failed base))
          (λ (kvs : Kvs). return (key_or_fuel (get_next_indexed_key base (keys kvs)))) w key w₁
          inner in
      let (found, same) =
        return-ok (key_or_fuel (get_next_indexed_key base (keys kvs))) w₂ key w₁ returned in
      subst (FreeKey base w key) same (
        free_entry base w w₂ kvs opts key (inl refl) (inr (inr (inl refl)))
          (checked-ok er (er.client.get base opts) (list_indices_failed base) w kvs w₂ answered)
          (key_or_fuel-ok _ key found))

  -- If the member of etcd that answers the serializable read of getNextIndexedKey is up to date and
  -- Register returns no error, then it has written the value that marshalEtcdValue makes of the record
  -- intent at an indexed key of its name at which nothing was stored, and has changed nothing else in the
  -- store.
  pub register-Registered : (w w' : World) → register er json ri w ≡ (ok tt, w') → Registered w w'
  unfolding register
  register-Registered w w' h =
      let fqdn = ri.rec.name in
      let base = key_base_for_fqdn er.cfg.path_prefix fqdn in
      let write =
        λ (key value : Text). checked er (er.client.put key value none) (put_failed key) in
      let marshalled = return (value_or_error fqdn (marshal_etcd_value json ri)) in
      let (key, w₁, found, rest) =
        >>=-ok (next_key_of er fqdn) (λ (key : Text). marshalled >>= write key) w tt w' h in
      let (value, w₂, made, put) = >>=-ok marshalled (write key) w₁ tt w' rest in
      let (is_value, same) =
        return-ok (value_or_error fqdn (marshal_etcd_value json ri)) w₁ value w₂ made in
      let (idx, e, empty, kept) = next_key_of-FreeKey fqdn w w₁ key found in
      let written : Written w w' key value = λ k.
        store.put_writes key value none w₂ w' k
          (checked-ok er (er.client.put key value none) (put_failed key) w₂ tt w' put)
        ∙ ap (λ (o : Option Text). if key == k then some value else o)
            (ap (λ (x : World). value_at x k) (sym same) ∙ kept k) in
      (
        idx,
        value,
        value_or_error-ok fqdn _ value is_value,
        subst (λ k. value_at w k ≡ none) e empty,
        subst (λ k. Written w w' k value) e written,
      )
