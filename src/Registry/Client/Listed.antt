-- ===== src/Registry/Client/Listed.antt =====
-- List after Register.
use docker_coredns_sync.Prelude.{
  Bool, In, List, Option, Text, [], ap, append_assoc, arith, codes, if◌then◌else◌, inl, inr, nat_eq,
  none, ok, refl, some, subst, sym, text_beq_iff, text_eq, true, ℕ, ◌++◌, ◌∙◌, ◌∷◌, ◌≡◌,
}
use docker_coredns_sync.GoText.{has_prefix}
use docker_coredns_sync.GoText.Cut.{has_prefix-append, has_prefix_inv}
use docker_coredns_sync.Domain.Intent.{RecordIntent, key}
use docker_coredns_sync.Domain.Record.Valid.{IsWellFormed}
use docker_coredns_sync.Registry.{
  Json, Kvs, cons_intent, list_intents, marshal_etcd_value, to_wire, unmarshal_etcd_value,
}
use docker_coredns_sync.Registry.Path.{key_base_for_fqdn, trim_slashes}
use docker_coredns_sync.Registry.Wire.{unmarshal-marshal}
use docker_coredns_sync.Registry.Index.{index_key}
use docker_coredns_sync.Registry.Client.{
  EtcdRegistry, list, list_failed, checked, register, return, with_keys_only, with_prefix,
  with_serializable,
}
use docker_coredns_sync.Registry.Client.Inversion.{ok-eq, checked-ok, return-ok, >>=-ok}
use docker_coredns_sync.Registry.Client.Store.{KeepsStore, ReadsCurrent, Lists, register-Registered}

cons_intent-In :
    (o : Option RecordIntent) (ri : RecordIntent) (rest : List RecordIntent)
    → In ri rest
    → In ri (cons_intent o rest)
unfolding cons_intent
cons_intent-In none ri rest h = h
cons_intent-In (some x) ri rest h = inr h

pub list_intents-In :
    (json : Json) (prefix key raw : Text) (ri : RecordIntent) (kvs : Kvs)
    → In (key, raw) kvs
    → unmarshal_etcd_value json key raw prefix ≡ some ri
    → In ri (list_intents json prefix kvs)
unfolding list_intents cons_intent
list_intents-In json prefix key raw ri [] m h = absurd m
list_intents-In json prefix key raw ri ((k, r) ∷ kvs) (inl e) h =
    let at_head : unmarshal_etcd_value json k r prefix ≡ some ri =
      subst (λ (p : Text × Text). unmarshal_etcd_value json p.0 p.1 prefix ≡ some ri) e h in
    rw at_head (inl refl)
list_intents-In json prefix key raw ri ((k, r) ∷ kvs) (inr m) h =
    cons_intent-In (unmarshal_etcd_value json k r prefix) ri (list_intents json prefix kvs)
      (list_intents-In json prefix key raw ri kvs m h)

under_slash :
    (P J X prefix : Text)
    → has_prefix (P ++ codes "/") prefix ≡ true
    → has_prefix ((P ++ (b'/' ∷ J)) ++ X) prefix ≡ true
under_slash P J X prefix h =
    let (t, e) = has_prefix_inv (P ++ codes "/") prefix h in
    let all : (P ++ (b'/' ∷ J)) ++ X ≡ prefix ++ (t ++ (J ++ X)) =
      append_assoc P (b'/' ∷ J) X
      ∙ sym (append_assoc P (codes "/") (J ++ X))
      ∙ ap (λ (s : Text). s ++ (J ++ X)) e
      ∙ append_assoc prefix t (J ++ X) in
    rw all (has_prefix-append prefix (t ++ (J ++ X)))

-- The options of the read of List
no_keys_only : ¬ In with_keys_only (with_prefix ∷ with_serializable ∷ [])
no_keys_only (inl e) = absurd (ground (arith, e))
no_keys_only (inr (inl e)) = absurd (ground (arith, e))
no_keys_only (inr (inr h)) = h

-- The key of a name is under a path prefix that ends in one slash at most.
under_path_prefix :
    (prefix fqdn : Text) (idx : ℕ)
    → has_prefix (trim_slashes prefix ++ codes "/") prefix ≡ true
    → has_prefix (index_key (key_base_for_fqdn prefix fqdn) idx) prefix ≡ true
unfolding key_base_for_fqdn index_key
under_path_prefix prefix fqdn idx one_slash = under_slash (trim_slashes prefix) _ _ prefix one_slash

module _ {World : Type 0} (value_at : World → Text → Option Text) (er : EtcdRegistry World)
    (store : KeepsStore value_at er.client) (current : ReadsCurrent value_at er.client)
    (json : Json) where
  list-Lists :
      (w w' : World) (intents : List RecordIntent)
      → list er json w ≡ (ok intents, w')
      → (kvs : Kvs) × Lists value_at w er.cfg.path_prefix kvs
        × (intents ≡ list_intents json er.cfg.path_prefix kvs)
  unfolding list
  list-Lists w w' intents h =
      let prefix = er.cfg.path_prefix in
      let opts = with_prefix ∷ with_serializable ∷ [] in
      let (kvs, w₁, answered, returned) =
        >>=-ok (checked er (er.client.get prefix opts) (list_failed prefix))
          (λ (kvs : Kvs). return (ok (list_intents json prefix kvs))) w intents w' h in
      let (same, kept) = return-ok (ok (list_intents json prefix kvs)) w₁ intents w' returned in
      (
        kvs,
        current.serializable_lists prefix opts w w₁ kvs (inl refl) (inr (inl refl)) no_keys_only
            (checked-ok er (er.client.get prefix opts) (list_failed prefix) w kvs w₁ answered),
        ok-eq (list_intents json prefix kvs) intents same,
      )

  -- When the members of etcd that answer serializable reads are up to date, the JSON coder reads back what it wrote for a record intent
  -- with a well-formed record, and the path prefix ends in one slash at most, then what Register stored
  -- without an error is among the record intents that the next List gives.
  pub list-register :
      (ri : RecordIntent) (w w' w'' : World) (intents : List RecordIntent)
      → ((raw : Text) → marshal_etcd_value json ri ≡ some raw → json.decode raw ≡ some (to_wire ri))
      → IsWellFormed ri.rec
      → has_prefix (trim_slashes er.cfg.path_prefix ++ codes "/") er.cfg.path_prefix ≡ true
      → register er json ri w ≡ (ok tt, w')
      → list er json w' ≡ (ok intents, w'')
      → In ri intents
  list-register ri w w' w'' intents back well one_slash registered listed =
      let prefix = er.cfg.path_prefix in
      let (idx, raw, made, empty, written) =
        register-Registered value_at er store current json ri w w' registered in
      let (kvs, lists, same) = list-Lists w' w'' intents listed in
      let key = index_key (key_base_for_fqdn prefix ri.rec.name) idx in
      let there : In (key, raw) kvs = (lists key raw).1 (
        under_path_prefix prefix ri.rec.name idx one_slash,
        written key
            ∙ ap (λ (b : Bool). if b then some raw else value_at w key)
                ((text_beq_iff key key).1 refl),
      ) in
      subst (In ri) (sym same) (
        list_intents-In json prefix key raw ri kvs there
          (unmarshal-marshal json prefix raw ri idx made (back raw made) well))
