-- ===== src/Registry/Lock/Ends.antt =====
-- How a lock transaction ends: the retry loop, and the errors before the function is run.
use docker_coredns_sync.Prelude.{
  Bool, Bool-cases, List, Option, Result, Text, [], ap, arith, err, false, inl, inr, ltb, nat_eq,
  none, ok, some, suc, text_eq, true, zero, ℕ, ◌*◌, ◌++◌, ◌+◌, ◌-◌, ◌∷◌, ◌≡◌, ◌≢◌, ◌≤◌,
}
use docker_coredns_sync.GoText.Decimal.{int_eq}
use docker_coredns_sync.Registry.Client.{EtcdRegistry}
use docker_coredns_sync.Registry.Lock.{
  HeldLease, LockError, Runtime, acquire_all, fn_error, lock_transaction, run_locked, unique_keys,
  acquire_loop, after_commit, attempt, keep_lease, no_fuel, whole_seconds, acquire_key, give_up,
  lock_key_of, next_key, whole, with_lease, TransactionError, not_locked,
}

fn_error-fn :
    {Error : Type 0} (o : Option Error) (e : LockError)
    → ◌≡◌ {A = Option (TransactionError Error)} (fn_error o) (some (not_locked e))
    → ⊥
fn_error-fn none e h = cc
fn_error-fn (some x) e h = absurd (ground (arith, h))

module _ {World Error : Type 0} (er : EtcdRegistry World) (run : Runtime World) where
  run_locked_skips :
      (fn other : World → Option Error × World) (r : Result LockError (List HeldLease) × World)
      (e : LockError) (w' : World)
      → run_locked er run fn r ≡ (some (not_locked e), w')
      → run_locked er run other r ≡ (some (not_locked e), w')
  unfolding run_locked
  run_locked_skips fn other (err x, w) e w' h = h
  run_locked_skips fn other (ok leases, w) e w' h =
      absurd (fn_error-fn (fn w).0 e (ap (λ (p : Option (TransactionError Error) × World). p.0) h))

  -- If a transaction ends with an error of the locks, then the function was not run: with any other
  -- function the transaction ends the same way, in the same world.
  pub lock_error_skips :
      (fuel : ℕ) (ks : List Text) (fn other : World → Option Error × World) (w w' : World)
      (e : LockError)
      → lock_transaction er run fuel ks fn w ≡ (some (not_locked e), w')
      → lock_transaction er run fuel ks other w ≡ (some (not_locked e), w')
  unfolding lock_transaction
  lock_error_skips fuel ks fn other w w' e h =
      run_locked_skips fn other (acquire_all er run fuel (unique_keys ks) [] w) e w' h

abbrev HasFuel : {World A : Type 0} → Result LockError A × World → Type 0
HasFuel r = r.0 ≢ err no_fuel

round_time : (f d a b c end : ℕ) → end ≤ a + suc f * d → a ≤ b → b + d ≤ c → end ≤ c + f * d
round_time f d a b c end h p q = grind arith

-- What the termination rests on: no call of a round turns the clock back, and a sleep lasts as long as
-- it is asked to.
pub record KeepsTime {World : Type 0} (er : EtcdRegistry World) (run : Runtime World) : Type 0 where
  pub create_time :
      (key value : Text) (lease : ℕ) (w : World)
      → run.now w ≤ run.now (er.client.create key value lease w).1
  pub sleep_time : (d : ℕ) (w : World) → run.now w + d ≤ run.now (run.sleep d w)

module _ {World : Type 0} (er : EtcdRegistry World) (run : Runtime World)
    (time : KeepsTime er run) where
  keep_lease-fuel :
      (lock_key : Text) (lease : ℕ) (r : Result Text (Unit {0}) × World)
      → HasFuel (keep_lease er run lock_key lease r)
  unfolding keep_lease
  keep_lease-fuel lock_key lease (ok kept, w) h = absurd (ground (arith, h))
  keep_lease-fuel lock_key lease (err e, w) h = absurd (ground (arith, h))

  after_commit-fuel :
      (retry : World → Result LockError (Option HeldLease) × World) (lock_key : Text) (lease : ℕ)
      (r : Result Text Bool × World)
      → HasFuel (retry (run.sleep (run.duration er.cfg.lock_retry_interval) r.1))
      → HasFuel (after_commit er run retry lock_key lease r)
  unfolding after_commit
  after_commit-fuel retry lock_key lease (err e, w) again h = absurd (ground (arith, h))
  after_commit-fuel retry lock_key lease (ok true, w) again h =
      keep_lease-fuel lock_key lease (er.client.keep_alive lease w) h
  after_commit-fuel retry lock_key lease (ok false, w) again h = again h

  attempt-fuel :
      (retry : World → Result LockError (Option HeldLease) × World) (lock_key : Text) (lease : ℕ)
      (o : Option Text) (w : World)
      → HasFuel (
          retry (
            run.sleep
              (run.duration er.cfg.lock_retry_interval)
              (er.client.create lock_key er.hostname lease w).1))
      → HasFuel (attempt er run retry lock_key lease o w)
  unfolding attempt
  attempt-fuel retry lock_key lease (some e) w again h = absurd (ground (arith, h))
  attempt-fuel retry lock_key lease none w again h =
      after_commit-fuel retry lock_key lease (er.client.create lock_key er.hostname lease w) again h

  -- With a time of the loop that its rounds of sleep fill, the fuel is enough.
  acquire_loop-fuel :
      (f : ℕ) (lock_key : Text) (lease start : ℕ) (w : World)
      → start + whole_seconds er.cfg.lock_timeout
        ≤ run.now w + f * run.duration er.cfg.lock_retry_interval
      → HasFuel (acquire_loop er run (suc f) lock_key lease start w)
  unfolding acquire_loop
  acquire_loop-fuel zero lock_key lease start w enough =
      elim (Bool-cases (ltb (run.now w - start) (whole_seconds er.cfg.lock_timeout))) [
        | inl more ↦ absurd (ground arith)
        | inr over ↦ rw over (λ h. absurd (ground (arith, h)))
      ]
  acquire_loop-fuel (suc f) lock_key lease start w enough =
      elim (Bool-cases (ltb (run.now w - start) (whole_seconds er.cfg.lock_timeout))) [
        | inl more ↦
            let d = run.duration er.cfg.lock_retry_interval in
            let w₁ = (er.client.create lock_key er.hostname lease w).1 in
            rw more (
              attempt-fuel (acquire_loop er run (suc f) lock_key lease start) lock_key lease
                (run.ctx_err w) w
                (acquire_loop-fuel f lock_key lease start (run.sleep d w₁) (
                  round_time f d (run.now w) (run.now w₁) (run.now (run.sleep d w₁)) _ enough
                    (time.create_time lock_key er.hostname lease w) (time.sleep_time d w₁))))
        | inr over ↦ rw over (λ h. absurd (ground (arith, h)))
      ]

  give_up-fuel :
      (key : Text) (lease : ℕ) (r : Result LockError (Option HeldLease) × World)
      → HasFuel r
      → HasFuel (give_up er run key lease r)
  unfolding give_up
  give_up-fuel key lease (err e, w) fuel h = fuel (ground (arith, h))
  give_up-fuel key lease (ok (some held), w) fuel h = absurd (ground (arith, h))
  give_up-fuel key lease (ok none, w) fuel h = absurd (ground (arith, h))

  module _ (f : ℕ)
      (enough : whole_seconds er.cfg.lock_timeout
        ≤ f * run.duration er.cfg.lock_retry_interval) where
    with_lease-fuel :
        (key : Text) (r : Result Text ℕ × World) → HasFuel (with_lease er run (suc f) key r)
    unfolding with_lease
    with_lease-fuel key (err e, w) h = absurd (ground (arith, h))
    with_lease-fuel key (ok lease, w) h =
        give_up-fuel key lease (acquire_loop er run (suc f) (lock_key_of key) lease (run.now w) w)
          (acquire_loop-fuel f (lock_key_of key) lease (run.now w) w (omega (arith, enough))) h

    next_key-fuel :
        (rest : List HeldLease → World → Result LockError (List HeldLease) × World)
        (leases : List HeldLease) (r : Result LockError HeldLease × World)
        → HasFuel r
        → ((ls : List HeldLease) (w : World) → HasFuel (rest ls w))
        → HasFuel (next_key er run rest leases r)
    unfolding next_key
    next_key-fuel rest leases (err e, w) fuel more h = fuel (ground (arith, h))
    next_key-fuel rest leases (ok held, w) fuel more h = more (leases ++ (held ∷ [])) w h

    acquire_all-fuel :
        (ks : List Text) (leases : List HeldLease) (w : World)
        → HasFuel (acquire_all er run (suc f) ks leases w)
    unfolding acquire_all acquire_key
    acquire_all-fuel [] leases w h = absurd (ground (arith, h))
    acquire_all-fuel (key ∷ ks) leases w h =
        next_key-fuel (acquire_all er run (suc f) ks) leases (acquire_key er run (suc f) key w)
          (with_lease-fuel key (er.client.grant (whole er.cfg.lock_ttl) w))
          (λ ls w₁. acquire_all-fuel ks ls w₁) h

    run_locked-fuel :
        {Error : Type 0} (fn : World → Option Error × World)
        (r : Result LockError (List HeldLease) × World)
        → HasFuel r
        → (run_locked er run fn r).0 ≢ some (not_locked no_fuel)
    unfolding run_locked
    run_locked-fuel fn (err e, w) fuel h = fuel (ground (arith, h))
    run_locked-fuel fn (ok leases, w) fuel h = fn_error-fn (fn w).0 no_fuel h

    -- The retry loop ends: if the rounds of sleep of the fuel fill the lock timeout, no call turns the
    -- clock back and a sleep lasts as long as it is asked to, then the transaction does not run out of
    -- fuel, whatever the calls of the client return.
    pub lock_transaction_ends :
        {Error : Type 0} (ks : List Text) (fn : World → Option Error × World) (w : World)
        → (lock_transaction er run (suc f) ks fn w).0 ≢ some (not_locked no_fuel)
    unfolding lock_transaction
    lock_transaction_ends ks fn w =
        run_locked-fuel fn (acquire_all er run (suc f) (unique_keys ks) [] w)
          (acquire_all-fuel (unique_keys ks) [] w)
