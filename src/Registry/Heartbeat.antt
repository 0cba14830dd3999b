-- ===== src/Registry/Heartbeat.antt =====
-- The heartbeat of internal/registry/etcd_registry.go: the lease under which this host's liveness key
-- stands. The fields that hbMu guards are a value; a section under hbMu is one step on it.
pub mod Interleaving
use docker_coredns_sync.Prelude.{
  Bool, List, Option, Result, Text, [], err, false, if◌then◌else◌, ltb, nat_eq, none, ok, some, suc,
  text_eq, true, zero, ℕ, ◌*◌, ◌∷◌,
}
use docker_coredns_sync.GoText.Decimal.{ℤ, int_eq}
use docker_coredns_sync.Registry.{heartbeat_key}
use docker_coredns_sync.Registry.Client.{EtcdRegistry, inc_etcd_error}

-- hbLease, whether hbCancel is set, and hbActive
pub record Heartbeat : Type 0 where
  pub lease : ℕ
  pub has_cancel : Bool
  pub active : Bool

unfoldable pub no_heartbeat : Heartbeat
no_heartbeat = record { lease = 0; has_cancel = false; active = false }

-- The sections of StartHeartbeat, maintainHeartbeat, reestablishHeartbeat and stopHeartbeat
pub data Section : Type 0 where
  started re_established : ℕ → Section
  lost stopped : Section

unfoldable pub section : Heartbeat → Section → Heartbeat
section hb (started lease) = record { lease = lease; has_cancel = true; active = true }
section hb (re_established lease) = record hb { lease = lease; active = true }
section hb lost = record hb { active = false }
section hb stopped = record { lease = 0; has_cancel = false; active = false }

-- Sections in the order in which they take the lock
unfoldable pub sections : Heartbeat → List Section → Heartbeat
unfolding section
sections hb [] = hb
sections hb (s ∷ ss) = sections (section hb s) ss

pub data HeartbeatError : Type 0 where
  grant_failed keepalive_failed : Text → HeartbeatError
  put_failed : Text → Text → HeartbeatError

-- The keepalive context and channel: its cancel function, whether its Err is set, the loop that drains
-- the channel until it is closed, and the select between its end and a pause: whether the pause was
-- over first.
pub record HeartbeatRuntime (World : Type 0) : Type 0 where
  pub cancel : World → World
  pub is_done : World → Bool
  pub drain : World → World
  pub pause : ℕ → World → Bool × World

-- initialBackoff and maxBackoff, in nanoseconds
abbrev pub initial_backoff : ℕ
initial_backoff = 1000000000

abbrev pub max_backoff : ℕ
max_backoff = 30000000000

-- The backoff of the next round
unfoldable pub grow : ℕ → ℕ
grow backoff =
    if ltb backoff max_backoff
    then (if ltb max_backoff (backoff * 2) then max_backoff else backoff * 2)
    else backoff

module _ {World : Type 0} (er : EtcdRegistry World) where
  -- bestEffortCleanup
  unfoldable pub best_effort_cleanup : ℕ → Text → World → World
  best_effort_cleanup lease key w =
      let (r, w₁) = er.client.delete key w in let (s, w₂) = er.client.revoke lease w₁ in w₂

  -- grantAndKeepAlive, from its last call backwards
  unfoldable pub after_keep_alive :
      Text → ℕ → Result Text (Unit {0}) × World → Result HeartbeatError ℕ × World
  unfolding best_effort_cleanup
  after_keep_alive key lease (err e, w) =
      (err (keepalive_failed e), best_effort_cleanup lease key w)
  after_keep_alive key lease (ok kept, w) = (ok lease, w)

  unfoldable pub after_put :
      Text → ℕ → Result Text (Unit {0}) × World → Result HeartbeatError ℕ × World
  unfolding best_effort_cleanup after_keep_alive
  after_put key lease (err e, w) = (err (put_failed key e), best_effort_cleanup lease key w)
  after_put key lease (ok done, w) = after_keep_alive key lease (er.client.keep_alive lease w)

  unfoldable pub after_grant : Text → Result Text ℕ × World → Result HeartbeatError ℕ × World
  unfolding after_put
  after_grant key (err e, w) = (err (grant_failed e), w)
  after_grant key (ok lease, w) = after_put key lease (er.client.put key er.hostname (some lease) w)

  unfoldable pub grant_and_keep_alive : Text → World → Result HeartbeatError ℕ × World
  unfolding after_grant
  grant_and_keep_alive key w = after_grant key (er.client.grant er.heartbeat_ttl w)

  module _ (run : HeartbeatRuntime World) where
    unfoldable pub settle_start :
        Heartbeat → Result HeartbeatError ℕ × World → Option HeartbeatError × Heartbeat × World
    unfolding inc_etcd_error section
    settle_start hb (err e, w) = (some e, hb, run.cancel (inc_etcd_error er w))
    settle_start hb (ok lease, w) = (none, section hb (started lease), w)

    -- StartHeartbeat, up to the start of the goroutine
    unfoldable pub start_heartbeat : Heartbeat → World → Option HeartbeatError × Heartbeat × World
    unfolding settle_start grant_and_keep_alive heartbeat_key
    start_heartbeat hb w = settle_start hb (grant_and_keep_alive (heartbeat_key er.hostname) w)

    -- The rest of a round of reestablishHeartbeat; retry goes on with the loop.
    unfoldable pub after_pause :
        (World → Option (Bool × Heartbeat × World))
        → Heartbeat
        → Bool × World
        → Option (Bool × Heartbeat × World)
    after_pause retry hb (false, w) = some (false, hb, w)
    after_pause retry hb (true, w) = retry w

    unfoldable pub after_attempt :
        (World → Option (Bool × Heartbeat × World))
        → ℕ
        → Heartbeat
        → Result HeartbeatError ℕ × World
        → Option (Bool × Heartbeat × World)
    unfolding after_pause inc_etcd_error section
    after_attempt retry backoff hb (ok lease, w) = some (true, section hb (re_established lease), w)
    after_attempt retry backoff hb (err e, w) =
        after_pause retry hb (run.pause backoff (inc_etcd_error er w))

    -- reestablishHeartbeat, for a number of rounds: none while it still tries after them.
    unfoldable pub reestablish :
        ℕ → Text → ℕ → Heartbeat → World → Option (Bool × Heartbeat × World)
    unfolding after_attempt grant_and_keep_alive grow
    reestablish zero key backoff hb w = none
    reestablish (suc f) key backoff hb w =
        let retry = reestablish f key (grow backoff) hb in
        if run.is_done w
        then some (false, hb, w)
        else after_attempt retry backoff hb (grant_and_keep_alive key w)

    unfoldable pub go_on :
        (Heartbeat → World → Option (Heartbeat × World))
        → Option (Bool × Heartbeat × World)
        → Option (Heartbeat × World)
    go_on more none = none
    go_on more (some (false, hb, w)) = some (hb, w)
    go_on more (some (true, hb, w)) = more hb w

    -- maintainHeartbeat, where no other section comes between its own: none while it goes on after the
    -- rounds.
    unfoldable pub maintain : ℕ → Text → Heartbeat → World → Option (Heartbeat × World)
    unfolding go_on reestablish section
    maintain zero key hb w = none
    maintain (suc f) key hb w =
        let w' = run.drain w in
        let more = maintain f key in
        if run.is_done w'
        then some (hb, w')
        else go_on more (reestablish f key initial_backoff (section hb lost) w')

    unfoldable pub tear_down : Heartbeat → Heartbeat → World → Heartbeat × World
    unfolding heartbeat_key
    tear_down old hb w =
        let w₁ = run.cancel w in
        let (r, w₂) = er.client.delete (heartbeat_key er.hostname) w₁ in
        let (s, w₃) = er.client.revoke old.lease w₂ in (hb, w₃)

    -- stopHeartbeat, StopHeartbeat
    unfoldable pub stop_heartbeat : Heartbeat → World → Heartbeat × World
    unfolding section tear_down
    stop_heartbeat hb w =
        let hb' = section hb stopped in if hb.has_cancel then tear_down hb hb' w else (hb', w)

    -- Close
    unfoldable pub close : Heartbeat → World → Result Text (Unit {0}) × Heartbeat × World
    unfolding stop_heartbeat
    close hb w =
        let (hb', w₁) = stop_heartbeat hb w in let (r, w₂) = er.client.close w₁ in (r, hb', w₂)
