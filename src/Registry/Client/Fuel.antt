-- ===== src/Registry/Client/Fuel.antt =====
-- Register always finds an index: the loop of getNextIndexedKey has enough fuel.
use docker_coredns_sync.Prelude.{
  Option, Result, Text, [], ap, arith, err, nat_eq, none, ok, refl, some, subst, text_eq, ◌∷◌, ◌≡◌,
  ◌≢◌,
}
use docker_coredns_sync.GoMap.{keys}
use docker_coredns_sync.Domain.Intent.{RecordIntent}
use docker_coredns_sync.Registry.{Json, marshal_etcd_value}
use docker_coredns_sync.Registry.Path.{key_base_for_fqdn}
use docker_coredns_sync.Registry.Index.{get_next_indexed_key}
use docker_coredns_sync.Registry.Index.Fresh.{next_key_returns}
use docker_coredns_sync.Registry.Client.{
  Action, Call, EtcdRegistry, RegistryError, checked, compute_key_failed, in_context, key_or_fuel,
  next_indexed_key, next_key_of, out_of_fuel, register, return, settle, value_or_error, ◌>>=◌,
  put_failed, list_indices_failed, with_prefix, with_keys_only, with_serializable,
}

-- A result that is not an error.
abbrev Avoids : {A : Type 0} → RegistryError → Result RegistryError A → Type 0
Avoids e r = r ≢ err e

err_inj :
    {A : Type 0} (e f : RegistryError) → ◌≡◌ {A = Result RegistryError A} (err e) (err f) → e ≡ f
err_inj e f h = cc

module _ {World : Type 0} where
  -- An action that does not end in an error
  abbrev Never : {A : Type 0} → RegistryError → Action World A → Type 0
  Never e m = (w : World) → Avoids e (m w).0

  return-Never :
      {A : Type 0} (e : RegistryError) (r : Result RegistryError A)
      → Avoids e r
      → Never e (return r)
  unfolding return
  return-Never e r h w = h

  settled :
      {A B : Type 0} (e : RegistryError) (r : Result RegistryError A × World)
      (f : A → Action World B)
      → Avoids e r.0
      → ((a : A) → Never e (f a))
      → (s : Result RegistryError B × World)
      → (elim r.0 [ ok a ↦ f a r.1 | err x ↦ (err x, r.1) ]) ≡ s
      → Avoids e s.0
  settled e (ok a, w) f p q s is = subst (λ x. Avoids e x.0) is (q a w)
  settled {B = B} e (err x, w) f p q s is =
      subst (λ (y : Result RegistryError B × World). Avoids e y.0) is
        (λ h. p (ap err (err_inj x e h)))

  >>=-Never :
      {A B : Type 0} (e : RegistryError) (m : Action World A) (f : A → Action World B)
      → Never e m
      → ((a : A) → Never e (f a))
      → Never e (m >>= f)
  >>=-Never e m f p q w = settled e (m w) f (p w) q ((m >>= f) w) refl

  module _ (er : EtcdRegistry World) where
    settle-Avoids :
        {A : Type 0} (e : RegistryError) (wrap : Text → RegistryError) (r : Result Text A × World)
        → ((t : Text) → wrap t ≢ e)
        → Avoids e (settle er wrap r).0
    unfolding settle
    settle-Avoids e wrap (ok a, w) p = λ h. absurd (ground (arith, h))
    settle-Avoids e wrap (err t, w) p = λ h. p t (err_inj (wrap t) e h)

    checked-Never :
        {A : Type 0} (e : RegistryError) (op : Call World A) (wrap : Text → RegistryError)
        → ((t : Text) → wrap t ≢ e)
        → Never e (checked er op wrap)
    unfolding checked
    checked-Never e op wrap p w = settle-Avoids e wrap (op w) p

    key_or_fuel-Avoids :
        (o : Option Text) → ((key : Text) × (o ≡ some key)) → Avoids out_of_fuel (key_or_fuel o)
    key_or_fuel-Avoids none h = absurd (ground (arith, h.1))
    key_or_fuel-Avoids (some k) h = λ p. absurd (ground (arith, p))

    next_indexed_key-Never : (fqdn : Text) → Never out_of_fuel (next_indexed_key er fqdn)
    unfolding next_indexed_key
    next_indexed_key-Never fqdn =
        let base = key_base_for_fqdn er.cfg.path_prefix fqdn in
        >>=-Never out_of_fuel
          (checked er (er.client.get base (with_prefix ∷ with_keys_only ∷ with_serializable ∷ []))
            (list_indices_failed base))
          (λ kvs. return (key_or_fuel (get_next_indexed_key base (keys kvs))))
          (checked-Never out_of_fuel
            (er.client.get base (with_prefix ∷ with_keys_only ∷ with_serializable ∷ []))
            (list_indices_failed base) (λ t h. absurd (ground (arith, h))))
          (λ kvs. return-Never out_of_fuel (key_or_fuel (get_next_indexed_key base (keys kvs))) (
            key_or_fuel-Avoids (get_next_indexed_key base (keys kvs))
              (next_key_returns base (keys kvs))))

    in_context-Avoids :
        (fqdn : Text) (r : Result RegistryError Text)
        → Avoids out_of_fuel r
        → Avoids (compute_key_failed fqdn out_of_fuel) (in_context fqdn r)
    in_context-Avoids fqdn (ok k) p = λ h. absurd (ground (arith, h))
    in_context-Avoids fqdn (err e) p = λ h. p (ap err (ground (arith, h)))

    next_key_of-Never :
        (fqdn : Text) → Never (compute_key_failed fqdn out_of_fuel) (next_key_of er fqdn)
    unfolding next_key_of
    next_key_of-Never fqdn w =
        in_context-Avoids fqdn (next_indexed_key er fqdn w).0 (next_indexed_key-Never fqdn w)

    value_or_error-Avoids :
        (fqdn : Text) (o : Option Text)
        → Avoids (compute_key_failed fqdn out_of_fuel) (value_or_error fqdn o)
    value_or_error-Avoids fqdn none = λ h. absurd (ground (arith, h))
    value_or_error-Avoids fqdn (some value) = λ h. absurd (ground (arith, h))

    -- Whatever etcd returns, Register does not fail for want of fuel.
    pub register_fuel :
        (json : Json) (ri : RecordIntent) (w : World)
        → (register er json ri w).0 ≢ err (compute_key_failed ri.rec.name out_of_fuel)
    unfolding register
    register_fuel json ri =
        let fqdn = ri.rec.name in
        let e = compute_key_failed fqdn out_of_fuel in
        >>=-Never e (next_key_of er fqdn)
          (λ key.
            return (value_or_error fqdn (marshal_etcd_value json ri))
            >>= (λ value. checked er (er.client.put key value none) (put_failed key)))
          (next_key_of-Never fqdn)
          (λ key.
            >>=-Never e (return (value_or_error fqdn (marshal_etcd_value json ri)))
              (λ value. checked er (er.client.put key value none) (put_failed key))
              (return-Never e (value_or_error fqdn (marshal_etcd_value json ri))
                (value_or_error-Avoids fqdn (marshal_etcd_value json ri)))
              (λ value.
                checked-Never e (er.client.put key value none) (put_failed key)
                  (λ t h. absurd (ground (arith, h)))))
