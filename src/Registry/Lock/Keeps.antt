-- ===== src/Registry/Lock/Keeps.antt =====
-- What a lock transaction leaves as it was: a predicate that each call keeps, the whole transaction keeps.
use docker_coredns_sync.Prelude.{
  All, All-append, All-reverse, Bool, Bool-cases, List, Option, Result, Text, [], err, false, inl,
  inr, ltb, nat_eq, none, ok, refl, some, subst, suc, sym, text_eq, true, zero, ℕ, ◌++◌, ◌-◌, ◌∷◌,
  ◌≡◌,
}
use docker_coredns_sync.GoText.Decimal.{ℤ, int_eq}
use docker_coredns_sync.Registry.Client.{EtcdRegistry, inc_etcd_error, inc_lock_failure}
use docker_coredns_sync.Registry.Lock.{
  HeldLease, LockError, Runtime, acquire_all, acquire_key, acquire_loop, after_commit, attempt,
  give_up, keep_lease, lock_key_of, lock_transaction, next_key, release, run_locked, unique_keys,
  whole, whole_seconds, with_lease,
}
use mathlib.Core.List.{reverse}

-- Each call of the transaction keeps P, where it creates and deletes lock keys only.
pub record CallsKeep {World : Type 0} (er : EtcdRegistry World) (run : Runtime World)
    (P : World → Type 0) : Type 0 where
  pub grant_keeps : (ttl : ℤ) (w : World) → P w → P (er.client.grant ttl w).1
  pub create_keeps :
      (key value : Text) (lease : ℕ) (w : World)
      → P w
      → P (er.client.create (lock_key_of key) value lease w).1
  pub keep_alive_keeps : (lease : ℕ) (w : World) → P w → P (er.client.keep_alive lease w).1
  pub revoke_keeps : (lease : ℕ) (w : World) → P w → P (er.client.revoke lease w).1
  pub delete_keeps : (key : Text) (w : World) → P w → P (er.client.delete (lock_key_of key) w).1
  pub sleep_keeps : (d : ℕ) (w : World) → P w → P (run.sleep d w)
  pub cancel_keeps : (lease : ℕ) (w : World) → P w → P (run.cancel lease w)
  pub error_keeps : (w : World) → P w → P (inc_etcd_error er w)
  pub failure_keeps : (w : World) → P w → P (inc_lock_failure er w)

module _ {World : Type 0} (er : EtcdRegistry World) (run : Runtime World) (P : World → Type 0)
    (keep : CallsKeep er run P) where
  -- The world of a result is in P, and a lease that comes with it stands under the lock key.
  abbrev LoopKeeps : Text → Result LockError (Option HeldLease) × World → Type 0
  LoopKeeps key (err e, w) = P w
  LoopKeeps key (ok none, w) = P w
  LoopKeeps key (ok (some h), w) = P w × (h.lock_key ≡ lock_key_of key)

  keep_lease-keeps :
      (key : Text) (lease : ℕ) (r : Result Text (Unit {0}) × World)
      → P r.1
      → LoopKeeps key (keep_lease er run (lock_key_of key) lease r)
  unfolding keep_lease
  keep_lease-keeps key lease (ok done, w) p = (p, refl)
  keep_lease-keeps key lease (err e, w) p =
      let w₁ = run.cancel lease (inc_etcd_error er w) in
      keep.revoke_keeps lease (er.client.delete (lock_key_of key) w₁).1 (
        keep.delete_keeps key w₁
          (keep.cancel_keeps lease (inc_etcd_error er w) (keep.error_keeps w p)))

  after_commit-keeps :
      (retry : World → Result LockError (Option HeldLease) × World) (key : Text) (lease : ℕ)
      (r : Result Text Bool × World)
      → P r.1
      → ((w : World) → P w → LoopKeeps key (retry w))
      → LoopKeeps key (after_commit er run retry (lock_key_of key) lease r)
  unfolding after_commit
  after_commit-keeps retry key lease (err e, w) p again = keep.error_keeps w p
  after_commit-keeps retry key lease (ok true, w) p again =
      keep_lease-keeps key lease (er.client.keep_alive lease w) (keep.keep_alive_keeps lease w p)
  after_commit-keeps retry key lease (ok false, w) p again =
      let d = run.duration er.cfg.lock_retry_interval in
      again (run.sleep d w) (keep.sleep_keeps d w p)

  attempt-keeps :
      (retry : World → Result LockError (Option HeldLease) × World) (key : Text) (lease : ℕ)
      (o : Option Text) (w : World)
      → P w
      → ((x : World) → P x → LoopKeeps key (retry x))
      → LoopKeeps key (attempt er run retry (lock_key_of key) lease o w)
  unfolding attempt
  attempt-keeps retry key lease (some e) w p again = p
  attempt-keeps retry key lease none w p again =
      after_commit-keeps retry key lease (er.client.create (lock_key_of key) er.hostname lease w)
        (keep.create_keeps key er.hostname lease w p) again

  acquire_loop-keeps :
      (f : ℕ) (key : Text) (lease start : ℕ) (w : World)
      → P w
      → LoopKeeps key (acquire_loop er run f (lock_key_of key) lease start w)
  unfolding acquire_loop
  acquire_loop-keeps zero key lease start w p = p
  acquire_loop-keeps (suc f) key lease start w p =
      elim (Bool-cases (ltb (run.now w - start) (whole_seconds er.cfg.lock_timeout))) [
        | inl more ↦ rw more (
            attempt-keeps (acquire_loop er run f (lock_key_of key) lease start) key lease
              (run.ctx_err w) w p (λ x q. acquire_loop-keeps f key lease start x q))
        | inr over ↦ rw over p
      ]

  abbrev KeyKeeps : Text → Result LockError HeldLease × World → Type 0
  KeyKeeps key (err e, w) = P w
  KeyKeeps key (ok h, w) = P w × (h.lock_key ≡ lock_key_of key)

  give_up-keeps :
      (key : Text) (lease : ℕ) (r : Result LockError (Option HeldLease) × World)
      → LoopKeeps key r
      → KeyKeeps key (give_up er run key lease r)
  unfolding give_up
  give_up-keeps key lease (err e, w) p = p
  give_up-keeps key lease (ok (some held), w) p = p
  give_up-keeps key lease (ok none, w) p =
      keep.revoke_keeps lease (inc_lock_failure er w) (keep.failure_keeps w p)

  with_lease-keeps :
      (fuel : ℕ) (key : Text) (r : Result Text ℕ × World)
      → P r.1
      → KeyKeeps key (with_lease er run fuel key r)
  unfolding with_lease
  with_lease-keeps fuel key (err e, w) p = keep.error_keeps w p
  with_lease-keeps fuel key (ok lease, w) p =
      give_up-keeps key lease (acquire_loop er run fuel (lock_key_of key) lease (run.now w) w)
        (acquire_loop-keeps fuel key lease (run.now w) w p)

  -- Leases under lock keys
  abbrev OnLocks : List HeldLease → Type 0
  OnLocks hs = All (λ (h : HeldLease). (key : Text) × (h.lock_key ≡ lock_key_of key)) hs

  abbrev AllKeep : Result LockError (List HeldLease) × World → Type 0
  AllKeep (err e, w) = P w
  AllKeep (ok hs, w) = P w × OnLocks hs

  next_key-keeps :
      (rest : List HeldLease → World → Result LockError (List HeldLease) × World) (key : Text)
      (before : List HeldLease) (r : Result LockError HeldLease × World)
      → OnLocks before
      → KeyKeeps key r
      → ((hs : List HeldLease) (w : World) → OnLocks hs → P w → AllKeep (rest hs w))
      → AllKeep (next_key er run rest before r)
  unfolding next_key
  next_key-keeps rest key before (err e, w) on p more = p
  next_key-keeps rest key before (ok held, w) on p more =
      more (before ++ (held ∷ [])) w
        (All-append (λ (h : HeldLease). (k : Text) × (h.lock_key ≡ lock_key_of k)) before
          (held ∷ []) on ((key, p.1), tt))
        p.0

  acquire_all-keeps :
      (fuel : ℕ) (ks : List Text) (before : List HeldLease) (w : World)
      → OnLocks before
      → P w
      → AllKeep (acquire_all er run fuel ks before w)
  unfolding acquire_all acquire_key
  acquire_all-keeps fuel [] before w on p = (p, on)
  acquire_all-keeps fuel (key ∷ ks) before w on p =
      let ttl = whole er.cfg.lock_ttl in
      next_key-keeps (acquire_all er run fuel ks) key before (acquire_key er run fuel key w) on
        (with_lease-keeps fuel key (er.client.grant ttl w) (keep.grant_keeps ttl w p))
        (λ hs x on' q. acquire_all-keeps fuel ks hs x on' q)

  delete_held :
      (lock_key : Text) (w : World)
      → ((key : Text) × (lock_key ≡ lock_key_of key))
      → P w
      → P (er.client.delete lock_key w).1
  delete_held lock_key w on p =
      subst (λ k. P (er.client.delete k w).1) (sym on.1) (keep.delete_keeps on.0 w p)

  release-keeps : (hs : List HeldLease) (w : World) → OnLocks hs → P w → P (release er run hs w)
  unfolding release
  release-keeps [] w on p = p
  release-keeps (h ∷ hs) w on p =
      let w₁ = run.cancel h.lease w in
      let w₂ = (er.client.delete h.lock_key w₁).1 in
      release-keeps hs (er.client.revoke h.lease w₂).1 on.1 (
        keep.revoke_keeps h.lease w₂
          (delete_held h.lock_key w₁ on.0 (keep.cancel_keeps h.lease w p)))

  run_locked-keeps :
      {Error : Type 0} (fn : World → Option Error × World)
      (r : Result LockError (List HeldLease) × World)
      → ((w : World) → P w → P (fn w).1)
      → AllKeep r
      → P (run_locked er run fn r).1
  unfolding run_locked
  run_locked-keeps fn (err e, w) f p = p
  run_locked-keeps fn (ok hs, w) f p =
      release-keeps (reverse hs) (fn w).1 (All-reverse _ hs p.1) (f w p.0)

  pub lock_transaction-keeps :
      {Error : Type 0} (fuel : ℕ) (ks : List Text) (fn : World → Option Error × World) (w : World)
      → ((x : World) → P x → P (fn x).1)
      → P w
      → P (lock_transaction er run fuel ks fn w).1
  unfolding lock_transaction
  lock_transaction-keeps fuel ks fn w f p =
      run_locked-keeps fn (acquire_all er run fuel (unique_keys ks) [] w) f
        (acquire_all-keeps fuel (unique_keys ks) [] w tt p)
