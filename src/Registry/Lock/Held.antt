-- ===== src/Registry/Lock/Held.antt =====
-- The locks that are held while the function of a transaction runs.
use docker_coredns_sync.Prelude.{
  Bool, Bool-cases, List, Option, Result, Text, [], err, false, inl, inr, ltb, nat_eq, none, ok,
  refl, some, suc, text_eq, true, zero, ℕ, ◌++◌, ◌-◌, ◌∷◌, ◌≡◌,
}
use docker_coredns_sync.GoText.Decimal.{ℤ, int_eq}
use docker_coredns_sync.Registry.Client.{EtcdRegistry}
use docker_coredns_sync.Registry.Lock.{
  HeldLease, LockError, Runtime, keep_lease, acquire_key, acquire_loop, after_commit, attempt,
  give_up, lock_key_of, whole, whole_seconds, with_lease,
}

-- What etcd documents of a key that was created under a lease that is kept alive: the key stays under
-- that lease during the calls of the loop. IsHeld w k l is that the key k is there under the lease l.
pub record KeepsLocks {World : Type 0} (er : EtcdRegistry World) (run : Runtime World)
    (IsHeld : World → Text → ℕ → Type 0) : Type 0 where
  pub created :
      (key value : Text) (lease : ℕ) (w w₁ w₂ : World)
      → er.client.create key value lease w ≡ (ok true, w₁)
      → er.client.keep_alive lease w₁ ≡ (ok tt, w₂)
      → IsHeld w₂ key lease
  pub grant_holds :
      (ttl : ℤ) (w : World) (k : Text) (l : ℕ) → IsHeld w k l → IsHeld (er.client.grant ttl w).1 k l
  pub create_holds :
      (key value : Text) (lease : ℕ) (w : World) (k : Text) (l : ℕ)
      → IsHeld w k l
      → IsHeld (er.client.create key value lease w).1 k l
  pub keep_alive_holds :
      (lease : ℕ) (w : World) (k : Text) (l : ℕ)
      → IsHeld w k l
      → IsHeld (er.client.keep_alive lease w).1 k l
  pub sleep_holds :
      (d : ℕ) (w : World) (k : Text) (l : ℕ) → IsHeld w k l → IsHeld (run.sleep d w) k l

module _ {World : Type 0} (IsHeld : World → Text → ℕ → Type 0) where
  abbrev pub AllHeld : List HeldLease → World → Type 0
  AllHeld [] w = Unit
  AllHeld (h ∷ hs) w = IsHeld w h.lock_key h.lease × AllHeld hs w

  pub AllHeld-append :
      (xs : List HeldLease) (h : HeldLease) (w : World)
      → AllHeld xs w
      → IsHeld w h.lock_key h.lease
      → AllHeld (xs ++ (h ∷ [])) w
  AllHeld-append [] h w a i = (i, tt)
  AllHeld-append (x ∷ xs) h w a i = (a.0, AllHeld-append xs h w a.1 i)

  AllHeld-map :
      (hs : List HeldLease) (w w' : World)
      → ((k : Text) (l : ℕ) → IsHeld w k l → IsHeld w' k l)
      → AllHeld hs w
      → AllHeld hs w'
  AllHeld-map [] w w' f a = tt
  AllHeld-map (h ∷ hs) w w' f a = (f h.lock_key h.lease a.0, AllHeld-map hs w w' f a.1)

  module _ (er : EtcdRegistry World) (run : Runtime World) (locks : KeepsLocks er run IsHeld)
      (before : List HeldLease) where
    -- After the loop of a key: what was held still is, and so is the key if the loop has it.
    abbrev LoopHolds : Text → Result LockError (Option HeldLease) × World → Type 0
    LoopHolds lock_key (err e, w) = Unit
    LoopHolds lock_key (ok none, w) = Unit
    LoopHolds lock_key (ok (some h), w) =
        AllHeld before w × IsHeld w h.lock_key h.lease × (h.lock_key ≡ lock_key)

    keep_lease-LoopHolds :
        (lock_key : Text) (lease : ℕ) (r : Result Text (Unit {0}) × World)
        → (r.0 ≡ ok tt → IsHeld r.1 lock_key lease)
        → AllHeld before r.1
        → LoopHolds lock_key (keep_lease er run lock_key lease r)
    unfolding keep_lease
    keep_lease-LoopHolds lock_key lease (err e, w) new a = tt
    keep_lease-LoopHolds lock_key lease (ok tt, w) new a = (a, new refl, refl)

    after_commit-LoopHolds :
        (retry : World → Result LockError (Option HeldLease) × World) (lock_key : Text) (lease : ℕ)
        (w : World) (r : Result Text Bool × World)
        → er.client.create lock_key er.hostname lease w ≡ r
        → AllHeld before r.1
        → ((w₁ : World) → AllHeld before w₁ → LoopHolds lock_key (retry w₁))
        → LoopHolds lock_key (after_commit er run retry lock_key lease r)
    unfolding after_commit
    after_commit-LoopHolds retry lock_key lease w (err e, w₁) same a again = tt
    after_commit-LoopHolds retry lock_key lease w (ok false, w₁) same a again =
        let d = run.duration er.cfg.lock_retry_interval in
        again (run.sleep d w₁)
          (AllHeld-map before w₁ (run.sleep d w₁) (λ k l. locks.sleep_holds d w₁ k l) a)
    after_commit-LoopHolds retry lock_key lease w (ok true, w₁) same a again =
        let r = er.client.keep_alive lease w₁ in
        keep_lease-LoopHolds lock_key lease r
          (λ kept. locks.created lock_key er.hostname lease w w₁ r.1 same (λ i. (kept i, r.1)))
          (AllHeld-map before w₁ r.1 (λ k l. locks.keep_alive_holds lease w₁ k l) a)

    attempt-LoopHolds :
        (retry : World → Result LockError (Option HeldLease) × World) (lock_key : Text) (lease : ℕ)
        (o : Option Text) (w : World)
        → AllHeld before w
        → ((w₁ : World) → AllHeld before w₁ → LoopHolds lock_key (retry w₁))
        → LoopHolds lock_key (attempt er run retry lock_key lease o w)
    unfolding attempt
    attempt-LoopHolds retry lock_key lease (some e) w a again = tt
    attempt-LoopHolds retry lock_key lease none w a again =
        let r = er.client.create lock_key er.hostname lease w in
        after_commit-LoopHolds retry lock_key lease w r refl
          (AllHeld-map before w r.1 (λ k l. locks.create_holds lock_key er.hostname lease w k l) a)
          again

    acquire_loop-LoopHolds :
        (f : ℕ) (lock_key : Text) (lease start : ℕ) (w : World)
        → AllHeld before w
        → LoopHolds lock_key (acquire_loop er run f lock_key lease start w)
    unfolding acquire_loop
    acquire_loop-LoopHolds zero lock_key lease start w a = tt
    acquire_loop-LoopHolds (suc f) lock_key lease start w a =
        elim (Bool-cases (ltb (run.now w - start) (whole_seconds er.cfg.lock_timeout))) [
          | inl more ↦ rw more (
              attempt-LoopHolds (acquire_loop er run f lock_key lease start) lock_key lease
                (run.ctx_err w) w a (λ w₁ a₁. acquire_loop-LoopHolds f lock_key lease start w₁ a₁))
          | inr over ↦ rw over tt
        ]

    -- After a key: what was held still is, and so is the key if it is acquired.
    abbrev pub KeyHolds : Text → Result LockError HeldLease × World → Type 0
    KeyHolds key (err e, w) = Unit
    KeyHolds key (ok h, w) =
        AllHeld before w × IsHeld w h.lock_key h.lease × (h.lock_key ≡ lock_key_of key)

    give_up-KeyHolds :
        (key : Text) (lease : ℕ) (r : Result LockError (Option HeldLease) × World)
        → LoopHolds (lock_key_of key) r
        → KeyHolds key (give_up er run key lease r)
    unfolding give_up
    give_up-KeyHolds key lease (err e, w) h = tt
    give_up-KeyHolds key lease (ok none, w) h = tt
    give_up-KeyHolds key lease (ok (some held), w) h = h

    with_lease-KeyHolds :
        (fuel : ℕ) (key : Text) (r : Result Text ℕ × World)
        → AllHeld before r.1
        → KeyHolds key (with_lease er run fuel key r)
    unfolding with_lease
    with_lease-KeyHolds fuel key (err e, w) a = tt
    with_lease-KeyHolds fuel key (ok lease, w) a =
        give_up-KeyHolds key lease (acquire_loop er run fuel (lock_key_of key) lease (run.now w) w)
          (acquire_loop-LoopHolds fuel (lock_key_of key) lease (run.now w) w a)

    pub acquire_key-KeyHolds :
        (fuel : ℕ) (key : Text) (w : World)
        → AllHeld before w
        → KeyHolds key (acquire_key er run fuel key w)
    unfolding acquire_key
    acquire_key-KeyHolds fuel key w a =
        let ttl = whole er.cfg.lock_ttl in
        with_lease-KeyHolds fuel key (er.client.grant ttl w)
          (AllHeld-map before w (er.client.grant ttl w).1 (λ k l. locks.grant_holds ttl w k l) a)
