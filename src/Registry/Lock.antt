-- ===== src/Registry/Lock.antt =====
-- LockTransaction of internal/registry/etcd_registry.go. The clock, the sleep and the context are
-- parameters, as calls on the world; a number of seconds of the configuration is a float64 in units of
-- 2^-1074.
pub mod Ends
pub mod Held
pub mod Keeps
pub mod Transaction
use docker_coredns_sync.Prelude.{
  Bool, List, Option, Result, Text, [], codes, err, false, if◌then◌else◌, ltb, nat_eq, none, ok,
  some, suc, text_eq, true, zero, ℕ, ◌%◌, ◌*◌, ◌++◌, ◌+◌, ◌-◌, ◌/◌, ◌^◌, ◌∷◌,
}
use docker_coredns_sync.GoMap.{insert, keys, delete}
use docker_coredns_sync.GoText.{sort_texts}
use docker_coredns_sync.GoText.Decimal.{ℤ, pos, negsuc, int_eq}
use docker_coredns_sync.Config.{EtcdConfig}
use docker_coredns_sync.State.{TextSet}
use docker_coredns_sync.Event.Backoff.{wrap}
use docker_coredns_sync.Registry.Client.{EtcdRegistry, inc_etcd_error, inc_lock_failure}
use mathlib.Core.List.{reverse}

-- heldLease; its cancel function is that of the lease.
pub record HeldLease : Type 0 where
  pub lock_key : Text
  pub lease : ℕ

-- What the transaction uses of the packages time and context: time.Now in nanoseconds, time.Sleep,
-- ctx.Err, the cancel function of the keepalive of a lease, and time.Duration(x * float64(time.Second)).
pub record Runtime (World : Type 0) : Type 0 where
  pub now : World → ℕ
  pub sleep : ℕ → World → World
  pub ctx_err : World → Option Text
  pub cancel : ℕ → World → World
  pub duration : ℤ → ℕ

-- Why a lock is not acquired
pub data LockError : Type 0 where
  lease_failed cancelled not_acquired : Text → LockError
  acquire_failed keepalive_failed : Text → Text → LockError
  no_fuel : LockError

pub data TransactionError (Error : Type 0) : Type 0 where
  not_locked : LockError → TransactionError Error
  fn_failed : Error → TransactionError Error

abbrev pub fn_error : {Error : Type 0} → Option Error → Option (TransactionError Error)
fn_error none = none
fn_error (some e) = some (fn_failed e)

-- uniq
unfoldable pub unique : List Text → TextSet → TextSet
unfolding insert
unique [] uniq = uniq
unique (k ∷ ks) uniq = unique ks (insert uniq k tt)

-- uniqueKeys, sorted
unfoldable pub unique_keys : List Text → List Text
unfolding unique keys sort_texts
unique_keys ks = sort_texts (keys (unique ks []))

unfoldable pub lock_key_of : Text → Text
lock_key_of key = codes "/locks/" ++ key

-- int64(x), for a float64 in its range
unfoldable pub whole : ℤ → ℤ
whole (pos n) = pos (n / 2 ^ 1074)
whole (negsuc n) = elim (suc n / 2 ^ 1074) [ zero ↦ pos 0 | suc m ↦ negsuc m ]

-- A bound on a time that has passed: one below 0 is as good as 0.
abbrev pub or_zero : ℤ → ℕ
or_zero (pos n) = n
or_zero (negsuc n) = 0

-- time.Duration(x) * time.Second, in nanoseconds, an int64 product
unfoldable pub seconds : ℤ → ℤ
unfolding wrap
seconds (pos n) = wrap (n * 1000000000)
seconds (negsuc n) = wrap ((2 ^ 64 - (n + 1) % 2 ^ 64) * 1000000000)

-- The bound that time.Since(start) is compared with
unfoldable pub whole_seconds : ℤ → ℕ
unfolding whole seconds
whole_seconds x = or_zero (seconds (whole x))

module _ {World : Type 0} (er : EtcdRegistry World) (run : Runtime World) where
  -- The release of the locks, in the order of the list
  unfoldable pub release : List HeldLease → World → World
  release [] w = w
  release (l ∷ leases) w =
      let (r, w₁) = er.client.delete l.lock_key (run.cancel l.lease w) in
      let (s, w₂) = er.client.revoke l.lease w₁ in release leases w₂

  -- The end of a round in which the transaction created the key.
  unfoldable pub keep_lease :
      Text → ℕ → Result Text (Unit {0}) × World → Result LockError (Option HeldLease) × World
  unfolding inc_etcd_error
  keep_lease lock_key lease (ok kept, w) =
      (ok (some (record { lock_key = lock_key; lease = lease })), w)
  keep_lease lock_key lease (err e, w) =
      let w₁ = run.cancel lease (inc_etcd_error er w) in
      let (r₂, w₂) = er.client.delete lock_key w₁ in
      let (r₃, w₃) = er.client.revoke lease w₂ in (err (keepalive_failed lock_key e), w₃)

  -- The rest of a round, after the commit; retry goes on with the loop.
  unfoldable pub after_commit :
      (World → Result LockError (Option HeldLease) × World)
      → Text
      → ℕ
      → Result Text Bool × World
      → Result LockError (Option HeldLease) × World
  unfolding keep_lease
  after_commit retry lock_key lease (err e, w) =
      (err (acquire_failed lock_key e), inc_etcd_error er w)
  after_commit retry lock_key lease (ok true, w) =
      keep_lease lock_key lease (er.client.keep_alive lease w)
  after_commit retry lock_key lease (ok false, w) =
      retry (run.sleep (run.duration er.cfg.lock_retry_interval) w)

  -- One round
  unfoldable pub attempt :
      (World → Result LockError (Option HeldLease) × World)
      → Text
      → ℕ
      → Option Text
      → World
      → Result LockError (Option HeldLease) × World
  unfolding after_commit
  attempt retry lock_key lease (some e) w = (err (cancelled e), w)
  attempt retry lock_key lease none w =
      after_commit retry lock_key lease (er.client.create lock_key er.hostname lease w)

  -- The retry loop, which began at start: none where it ends without the lock.
  unfoldable pub acquire_loop :
      ℕ → Text → ℕ → ℕ → World → Result LockError (Option HeldLease) × World
  unfolding attempt whole_seconds
  acquire_loop zero lock_key lease start w = (err no_fuel, w)
  acquire_loop (suc f) lock_key lease start w =
      let retry = acquire_loop f lock_key lease start in
      if ltb (run.now w - start) (whole_seconds er.cfg.lock_timeout)
      then attempt retry lock_key lease (run.ctx_err w) w
      else (ok none, w)

  -- if !acquired
  unfoldable pub give_up :
      Text → ℕ → Result LockError (Option HeldLease) × World → Result LockError HeldLease × World
  unfolding inc_lock_failure
  give_up key lease (err e, w) = (err e, w)
  give_up key lease (ok (some held), w) = (ok held, w)
  give_up key lease (ok none, w) =
      let (r, w') = er.client.revoke lease (inc_lock_failure er w) in (err (not_acquired key), w')

  unfoldable pub with_lease : ℕ → Text → Result Text ℕ × World → Result LockError HeldLease × World
  unfolding acquire_loop give_up lock_key_of
  with_lease fuel key (err e, w) = (err (lease_failed e), inc_etcd_error er w)
  with_lease fuel key (ok lease, w) =
      give_up key lease (acquire_loop fuel (lock_key_of key) lease (run.now w) w)

  -- The body of the loop over the keys
  unfoldable pub acquire_key : ℕ → Text → World → Result LockError HeldLease × World
  unfolding with_lease
  acquire_key fuel key w = with_lease fuel key (er.client.grant (whole er.cfg.lock_ttl) w)

  unfoldable pub next_key :
      (List HeldLease → World → Result LockError (List HeldLease) × World)
      → List HeldLease
      → Result LockError HeldLease × World
      → Result LockError (List HeldLease) × World
  next_key rest leases (err e, w) = (err e, w)
  next_key rest leases (ok held, w) = rest (leases ++ (held ∷ [])) w

  unfoldable pub acquire_all :
      ℕ → List Text → List HeldLease → World → Result LockError (List HeldLease) × World
  unfolding next_key acquire_key
  acquire_all fuel [] leases w = (ok leases, w)
  acquire_all fuel (key ∷ ks) leases w =
      next_key (acquire_all fuel ks) leases (acquire_key fuel key w)

  unfoldable pub run_locked :
      {Error : Type 0}
      → (World → Option Error × World)
      → Result LockError (List HeldLease) × World
      → Option (TransactionError Error) × World
  unfolding release
  run_locked fn (err e, w) = (some (not_locked e), w)
  run_locked fn (ok leases, w) = let (e, w') = fn w in (fn_error e, release (reverse leases) w')

  -- LockTransaction
  unfoldable pub lock_transaction :
      {Error : Type 0}
      → ℕ
      → List Text
      → (World → Option Error × World)
      → World
      → Option (TransactionError Error) × World
  unfolding unique_keys acquire_all run_locked
  lock_transaction fuel ks fn w = run_locked fn (acquire_all fuel (unique_keys ks) [] w)
