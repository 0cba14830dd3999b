-- ===== src/Registry/Lock/Transaction.antt =====
-- The whole lock transaction, and the locks of its keys.
use docker_coredns_sync.Prelude.{
  Bool-cases, In, List, Option, Result, Text, [], ap, append-nil, append_assoc, err, inl, inr, map,
  nat_eq, ok, refl, some, subst, sym, text_beq, text_beq_iff, text_eq, ℕ, ◌++◌, ◌∙◌, ◌∷◌, ◌≡◌, ◌⊎◌,
}
use docker_coredns_sync.GoMap.{insert, keys}
use docker_coredns_sync.GoText.{insert_text, sort_texts, text_leb}
use docker_coredns_sync.State.{TextSet}
use docker_coredns_sync.Registry.Client.{EtcdRegistry}
use docker_coredns_sync.Registry.Lock.{
  HeldLease, LockError, Runtime, TransactionError, acquire_all, acquire_key, fn_error, lock_key_of,
  lock_transaction, next_key, not_locked, release, run_locked, unique, unique_keys,
}
use docker_coredns_sync.Registry.Lock.Held.{
  AllHeld, AllHeld-append, KeepsLocks, KeyHolds, acquire_key-KeyHolds,
}
use mathlib.Core.List.{reverse}

insert_text-In : (s k : Text) (ts : List Text) → (k ≡ s) ⊎ In k ts → In k (insert_text s ts)
unfolding insert_text
insert_text-In s k [] h = h
insert_text-In s k (t ∷ ts) h = elim (Bool-cases (text_leb s t)) [
  | inl le ↦ rw le h
  | inr gt ↦ rw gt (elim h [
    | inl e ↦ inr (insert_text-In s k ts (inl e))
    | inr (inl e) ↦ inl e
    | inr (inr m) ↦ inr (insert_text-In s k ts (inr m))
  ])
]

sort_texts-In : (k : Text) (ts : List Text) → In k ts → In k (sort_texts ts)
unfolding sort_texts
sort_texts-In k (t ∷ ts) (inl e) = insert_text-In t k (sort_texts ts) (inl e)
sort_texts-In k (t ∷ ts) (inr m) = insert_text-In t k (sort_texts ts) (inr (sort_texts-In k ts m))
sort_texts-In k [] h = absurd h

keys-insert-In : (m : TextSet) (j k : Text) → (k ≡ j) ⊎ In k (keys m) → In k (keys (insert m j tt))
unfolding keys insert
keys-insert-In [] j k h = h
keys-insert-In ((i, u) ∷ m) j k h = elim (Bool-cases (text_beq i j)) [
  | inl same ↦
      rw same (elim h [ inl e ↦ inl (e ∙ sym ((text_beq_iff i j).0 same)) | inr there ↦ there ])
  | inr other ↦ rw other (elim h [
    | inl e ↦ inr (keys-insert-In m j k (inl e))
    | inr (inl e) ↦ inl e
    | inr (inr there) ↦ inr (keys-insert-In m j k (inr there))
  ])
]

unique-In :
    (ks : List Text) (uniq : TextSet) (k : Text)
    → In k ks ⊎ In k (keys uniq)
    → In k (keys (unique ks uniq))
unfolding unique
unique-In [] uniq k (inl m) = absurd m
unique-In [] uniq k (inr m) = m
unique-In (j ∷ ks) uniq k (inl (inl e)) =
    unique-In ks (insert uniq j tt) k (inr (keys-insert-In uniq j k (inl e)))
unique-In (j ∷ ks) uniq k (inl (inr m)) = unique-In ks (insert uniq j tt) k (inl m)
unique-In (j ∷ ks) uniq k (inr m) =
    unique-In ks (insert uniq j tt) k (inr (keys-insert-In uniq j k (inr m)))

unique_keys-In : (ks : List Text) (k : Text) → In k ks → In k (unique_keys ks)
unfolding unique_keys
unique_keys-In ks k m = sort_texts-In k (keys (unique ks [])) (unique-In ks [] k (inl m))

abbrev pub lock_keys : List HeldLease → List Text
lock_keys [] = []
lock_keys (h ∷ hs) = h.lock_key ∷ lock_keys hs

lock_keys-append :
    (xs : List HeldLease) (h : HeldLease)
    → lock_keys (xs ++ (h ∷ [])) ≡ lock_keys xs ++ (h.lock_key ∷ [])
lock_keys-append [] h = refl
lock_keys-append (x ∷ xs) h = ap (◌∷◌ x.lock_key) (lock_keys-append xs h)

map-In : (k : Text) (ks : List Text) → In k ks → In (lock_key_of k) (map lock_key_of ks)
map-In k [] h = h
map-In k (j ∷ ks) (inl e) = inl (ap lock_key_of e)
map-In k (j ∷ ks) (inr m) = inr (map-In k ks m)

module _ {World : Type 0} (IsHeld : World → Text → ℕ → Type 0) where
  held_of_In :
      (hs : List HeldLease) (w : World) (key : Text)
      → AllHeld IsHeld hs w
      → In key (lock_keys hs)
      → (h : HeldLease) × In h hs × (h.lock_key ≡ key) × IsHeld w key h.lease
  held_of_In [] w key a m = absurd m
  held_of_In (h ∷ hs) w key a (inl e) =
      (h, inl refl, sym e, subst (λ k. IsHeld w k h.lease) (sym e) a.0)
  held_of_In (h ∷ hs) w key a (inr m) =
      let (x, there, same, held) = held_of_In hs w key a.1 m in (x, inr there, same, held)

  module _ (er : EtcdRegistry World) (run : Runtime World) (locks : KeepsLocks er run IsHeld) where
    -- All keys of the list are acquired, after those that were.
    abbrev AllHold : List HeldLease → List Text → Result LockError (List HeldLease) × World → Type 0
    AllHold before ks (err e, w) = Unit
    AllHold before ks (ok hs, w) =
        AllHeld IsHeld hs w × (lock_keys hs ≡ lock_keys before ++ map lock_key_of ks)

    next_key-AllHold :
        (fuel : ℕ) (key : Text) (ks : List Text) (before : List HeldLease)
        (r : Result LockError HeldLease × World)
        → KeyHolds IsHeld er run locks before key r
        → ((hs : List HeldLease) (w : World)
            → AllHeld IsHeld hs w
            → AllHold hs ks (acquire_all er run fuel ks hs w))
        → AllHold before (key ∷ ks) (next_key er run (acquire_all er run fuel ks) before r)
    unfolding next_key
    next_key-AllHold fuel key ks before (err e, w) h rest = tt
    next_key-AllHold fuel key ks before (ok held, w) h rest =
        shift (acquire_all er run fuel ks (before ++ (held ∷ [])) w)
          (rest (before ++ (held ∷ [])) w (AllHeld-append IsHeld before held w h.0 h.1))
      where
        shift :
            (r : Result LockError (List HeldLease) × World)
            → AllHold (before ++ (held ∷ [])) ks r
            → AllHold before (key ∷ ks) r
        shift (err e, w') a = tt
        shift (ok hs, w') a = (
          a.0,
          a.1
              ∙ ap (λ (l : List Text). l ++ map lock_key_of ks) (lock_keys-append before held)
              ∙ append_assoc (lock_keys before) (held.lock_key ∷ []) (map lock_key_of ks)
              ∙ ap (λ (k : Text). lock_keys before ++ (k ∷ map lock_key_of ks)) h.2,
        )

    acquire_all-AllHold :
        (fuel : ℕ) (ks : List Text) (before : List HeldLease) (w : World)
        → AllHeld IsHeld before w
        → AllHold before ks (acquire_all er run fuel ks before w)
    unfolding acquire_all
    acquire_all-AllHold fuel [] before w a = (a, sym (append-nil (lock_keys before)))
    acquire_all-AllHold fuel (key ∷ ks) before w a =
        next_key-AllHold fuel key ks before (acquire_key er run fuel key w)
          (acquire_key-KeyHolds IsHeld er run locks before fuel key w a)
          (λ hs w₁ b. acquire_all-AllHold fuel ks hs w₁ b)

    module _ {Error : Type 0} (fn : World → Option Error × World) where
      -- The function ran in a world in which every key was held under one of the leases, and its error is
      -- that of the transaction; then the same leases and their keys were released, the last one first.
      abbrev pub RanLocked : List Text → Option (TransactionError Error) → World → Type 0
      RanLocked ks e w' =
          (w₁ : World) × (hs : List HeldLease) × AllHeld IsHeld hs w₁
          × ((k : Text)
              → In k ks
              → (h : HeldLease) × In h hs
                × (h.lock_key ≡ lock_key_of k)
                × IsHeld w₁ (lock_key_of k) h.lease)
          × (lock_keys hs ≡ map lock_key_of (unique_keys ks))
          × (e ≡ fn_error (fn w₁).0)
          × (w' ≡ release er run (reverse hs) (fn w₁).1)

      run_locked-RanLocked :
          (ks : List Text) (r : Result LockError (List HeldLease) × World)
          → AllHold [] (unique_keys ks) r
          → ((x : LockError) × ((run_locked er run fn r).0 ≡ some (not_locked x)))
            ⊎ RanLocked ks (run_locked er run fn r).0 (run_locked er run fn r).1
      unfolding run_locked
      run_locked-RanLocked ks (err x, w) a = inl (x, refl)
      run_locked-RanLocked ks (ok hs, w) a = inr (
        w,
        hs,
        a.0,
        λ k m. held_of_In hs w (lock_key_of k) a.0 (
            subst (In (lock_key_of k)) (sym a.1)
              (map-In k (unique_keys ks) (unique_keys-In ks k m))),
        a.1,
        refl,
        refl,
      )

      -- If a created key stays under its lease while that is kept alive, then a transaction either ends
      -- with an error of the locks, or it ran its function in a world in which the lock key of every
      -- given key was held under a lease, returns the function's error, and has then released these keys
      -- and leases, one for each key, in the reverse of the sorted order.
      pub lock_transaction-RanLocked :
          (fuel : ℕ) (ks : List Text) (w : World)
          → ((x : LockError) × ((lock_transaction er run fuel ks fn w).0 ≡ some (not_locked x)))
            ⊎ RanLocked ks
                (lock_transaction er run fuel ks fn w).0
                (lock_transaction er run fuel ks fn w).1
      unfolding lock_transaction
      lock_transaction-RanLocked fuel ks w =
          run_locked-RanLocked ks (acquire_all er run fuel (unique_keys ks) [] w)
            (acquire_all-AllHold fuel (unique_keys ks) [] w tt)
