-- ===== src/Registry/Client/Remove/Exact.antt =====
-- What Remove takes away from the store.
use docker_coredns_sync.Prelude.{
  Bool-cases, In, In-append_cases, In-append_left, In-append_right, List, Option, Result, Text, [],
  ap, append_assoc, arith, codes, drop, err, inl, inr, length, length-drop-le, nat_eq, none, ok,
  refl, some, subst, suc, take, take-append-drop, text_beq, text_beq_iff, text_eq, true, zero, ℕ,
  ◌++◌, ◌+◌, ◌∙◌, ◌∷◌, ◌≡◌, ◌≤◌, ◌⊎◌,
}
use docker_coredns_sync.Registry.{Json, Kvs, keys_to_delete}
use docker_coredns_sync.Registry.Path.{key_base_for_fqdn}
use docker_coredns_sync.Registry.Wire.{Selected, keys_to_delete_iff}
use docker_coredns_sync.GoText.Cut.{has_prefix_inv, has_prefix-append}
use docker_coredns_sync.Domain.Intent.{RecordIntent, key}
use docker_coredns_sync.Registry.Client.Inversion.{>>=-ok, checked-ok}
use docker_coredns_sync.GoText.{has_prefix}
use docker_coredns_sync.Registry.Client.{
  EtcdRegistry, RegistryError, checked, with_keys_only, with_serializable, list_keys_failed,
  with_prefix,
}
use docker_coredns_sync.Registry.Client.Store.{KeepsStore}
use docker_coredns_sync.Registry.Client.Remove.{
  batch_size, delete_batches, error_of, keep_first, min_nat, settle_batch, delete_keys, remove,
}

pub In-cases : (k : Text) (xs : List Text) → In k xs ⊎ (In k xs → ⊥)
In-cases k [] = inr (λ h. h)
In-cases k (x ∷ xs) = elim (Bool-cases (text_beq k x)) [
  | inl same ↦ inl (inl ((text_beq_iff k x).0 same))
  | inr other ↦ elim (In-cases k xs) [
    | inl there ↦ inl (inr there)
    | inr missing ↦ inr (λ h. elim h [
      | inl e ↦ absurd (ground (arith, text_beq_iff k x))
      | inr there ↦ missing there
    ])
  ]
]

no_keys_only : ¬ In with_keys_only (with_prefix ∷ [])
no_keys_only (inl e) = absurd (ground (arith, e))
no_keys_only (inr h) = h

no_serializable : ¬ In with_serializable (with_prefix ∷ [])
no_serializable (inl e) = absurd (ground (arith, e))
no_serializable (inr h) = h

error_of-ok : (o : Option RegistryError) → error_of o ≡ ok tt → o ≡ none
error_of-ok none h = refl
error_of-ok (some e) h = absurd (ground arith)

module _ {World : Type 0} (value_at : World → Text → Option Text) (er : EtcdRegistry World)
    (store : KeepsStore value_at er.client) where
  settle_batch-none :
      (start end : ℕ) (first : Option RegistryError) (r : Result Text (Unit {0}) × World)
      → (settle_batch er start end first r).0 ≡ none
      → (first ≡ none) × (r ≡ (ok tt, (settle_batch er start end first r).1))
  unfolding settle_batch keep_first
  settle_batch-none start end first (ok tt, w) h = (h, refl)
  settle_batch-none start end none (err e, w) h = absurd (ground arith)
  settle_batch-none start end (some f) (err e, w) h = absurd (ground arith)

  delete_batches-none :
      (f n start : ℕ) (rest : List Text) (first : Option RegistryError) (w : World)
      → (delete_batches er f n start rest first w).0 ≡ none
      → first ≡ none
  unfolding delete_batches
  delete_batches-none zero n start rest first w h = h
  delete_batches-none (suc f) n start [] first w h = h
  delete_batches-none (suc f) n start (k ∷ rest) first w h =
      let r =
        settle_batch er start (min_nat (start + batch_size) n) first
          (er.client.delete_all (take batch_size (k ∷ rest)) w) in
      (settle_batch-none start (min_nat (start + batch_size) n) first
        (er.client.delete_all (take batch_size (k ∷ rest)) w)
        (delete_batches-none f n (start + batch_size) (drop batch_size (k ∷ rest)) r.0 r.1 h)).0

  -- The keys are gone, and the others are as they were.
  abbrev pub Gone : List Text → World → World → Type 0
  Gone ks w w' =
      (k : Text) → (In k ks → value_at w' k ≡ none) × ((In k ks → ⊥) → value_at w' k ≡ value_at w k)

  Gone-append :
      (xs ys : List Text) (w w₁ w' : World) → Gone xs w w₁ → Gone ys w₁ w' → Gone (xs ++ ys) w w'
  Gone-append xs ys w w₁ w' g h k = elim (In-cases k ys) [
    | inl late ↦ (λ m. (h k).0 late, λ out. absurd (out (In-append_right k xs ys late)))
    | inr not_late ↦ (
      λ m. elim (In-append_cases k xs ys m) [
        | inl early ↦ (h k).1 not_late ∙ (g k).0 early
        | inr late ↦ absurd (not_late late)
      ],
      λ out. (h k).1 not_late ∙ (g k).1 (λ early. out (In-append_left k xs ys early)),
    )
  ]

  delete_batches-Gone :
      (f n start : ℕ) (rest : List Text) (first : Option RegistryError) (w : World)
      → length rest ≤ f
      → (delete_batches er f n start rest first w).0 ≡ none
      → Gone rest w (delete_batches er f n start rest first w).1
  unfolding delete_batches
  delete_batches-Gone zero n start [] first w enough h = λ k. (λ m. absurd m, λ out. refl)
  delete_batches-Gone zero n start (x ∷ xs) first w enough h = absurd (omega arith)
  delete_batches-Gone (suc f) n start [] first w enough h = λ k. (λ m. absurd m, λ out. refl)
  delete_batches-Gone (suc f) n start (x ∷ xs) first w enough h =
      let end = min_nat (start + batch_size) n in
      let deleted = er.client.delete_all (take batch_size (x ∷ xs)) w in
      let r = settle_batch er start end first deleted in
      let later = drop batch_size (x ∷ xs) in
      let clean : r.0 ≡ none = delete_batches-none f n (start + batch_size) later r.0 r.1 h in
      let (was_none, done) = settle_batch-none start end first deleted clean in
      subst (λ ks. Gone ks w (delete_batches er f n (start + batch_size) later r.0 r.1).1)
        (take-append-drop batch_size (x ∷ xs))
        (Gone-append (take batch_size (x ∷ xs)) later w r.1 _
          (λ k. store.deletes (take batch_size (x ∷ xs)) w r.1 k done)
          (delete_batches-Gone f n (start + batch_size) later r.0 r.1
            (omega (arith, length-drop-le 63 xs)) h))

  module _ (json : Json) (ri : RecordIntent) where
    -- The pairs of the name that match the record intent are gone, and all else is as it was.
    abbrev pub Removed : World → World → Type 0
    Removed w w' =
        (key : Text)
        → ((value : Text)
            → value_at w key ≡ some value
            → Selected json (key_base_for_fqdn er.cfg.path_prefix ri.rec.name) ri key value
            → value_at w' key ≡ none)
          × (((value : Text)
                → value_at w key ≡ some value
                → ¬ Selected json (key_base_for_fqdn er.cfg.path_prefix ri.rec.name) ri key value)
              → value_at w' key ≡ value_at w key)

    delete_keys-Gone :
        (ks : List Text) (w w' : World) → delete_keys er ks w ≡ (ok tt, w') → Gone ks w w'
    unfolding delete_keys
    delete_keys-Gone ks w w' h =
        let clean = error_of-ok _ (ap (λ (p : Result RegistryError (Unit {0}) × World). p.0) h) in
        subst (Gone ks w) (ap (λ (p : Result RegistryError (Unit {0}) × World). p.1) h)
          (delete_batches-Gone (length ks) (length ks) 0 ks none w (omega arith) clean)

    under_base : (b key : Text) → has_prefix key (b ++ codes "/") ≡ true → has_prefix key b ≡ true
    under_base b key h =
        let (t, e) = has_prefix_inv key (b ++ codes "/") h in
        rw (e ∙ append_assoc b (codes "/") t) (has_prefix-append b _)

    -- If Remove returns no error, then every stored pair that is under the base of the record's name and
    -- whose value matches the record intent is gone from the store, and what is stored at any other key
    -- is unchanged.
    pub remove-Removed : (w w' : World) → remove er json ri w ≡ (ok tt, w') → Removed w w'
    unfolding remove
    remove-Removed w w' h key =
        let base = key_base_for_fqdn er.cfg.path_prefix ri.rec.name in
        let opts = with_prefix ∷ [] in
        let (kvs, w₁, answered, deleted) =
          >>=-ok (checked er (er.client.get base opts) (list_keys_failed base))
            (λ (kvs : Kvs). delete_keys er (keys_to_delete json base kvs ri)) w tt w' h in
        let got =
          checked-ok er (er.client.get base opts) (list_keys_failed base) w kvs w₁ answered in
        let kept : value_at w₁ key ≡ value_at w key =
          subst (λ (r : Result Text Kvs × World). value_at r.1 key ≡ value_at w key) got
            (store.get_keeps base opts w key) in
        let lists =
          store.get_lists base opts w w₁ kvs (inl refl) no_serializable no_keys_only got in
        let (gone, same) = delete_keys-Gone (keys_to_delete json base kvs ri) w₁ w' deleted key in
        (
          λ value stored s. gone (
              (keys_to_delete_iff json base ri kvs key).1
                (value, (lists key value).1 (under_base base key s.0, stored), s)),
          λ none_selected.
              same (λ m.
                let (value, mem, s) = (keys_to_delete_iff json base ri kvs key).0 m in
                none_selected value ((lists key value).0 mem).1 s)
              ∙ kept,
        )
