-- ===== src/Registry/Heartbeat/Interleaving.antt =====
-- The goroutine of maintainHeartbeat beside StartHeartbeat and StopHeartbeat: each section under hbMu is
-- one step, and so is each check of the keepalive context.
use docker_coredns_sync.Prelude.{Bool, arith, false, nat_eq, refl, text_eq, true, ℕ, ◌≡◌}
use docker_coredns_sync.Registry.Heartbeat.{
  Heartbeat, lost, no_heartbeat, re_established, section, started, stopped,
}

-- Where the goroutine is: not started, draining the channel of a lease, about to mark the host inactive,
-- retrying, about to record the lease that it was granted, or at its end.
pub data Goroutine : Type 0 where
  unstarted noticing retrying ended : Goroutine
  draining granted : ℕ → Goroutine

pub record Daemon : Type 0 where
  pub hb : Heartbeat
  pub goroutine : Goroutine
  -- kaCtx is cancelled
  pub is_cancelled : Bool

abbrev pub at_start : Daemon
at_start = record { hb = no_heartbeat; goroutine = unstarted; is_cancelled = false }

pub data Step : Daemon → Daemon → Type 0 where
  start_fails :
      (hb : Heartbeat) (b : Bool)
      → Step
          (record { hb = hb; goroutine = unstarted; is_cancelled = b })
          (record { hb = hb; goroutine = unstarted; is_cancelled = b })
  start :
      (hb : Heartbeat) (b : Bool) (lease : ℕ)
      → Step
          (record { hb = hb; goroutine = unstarted; is_cancelled = b })
          (record { hb = section hb (started lease); goroutine = draining lease; is_cancelled = b })
  -- The channel is closed, and the context is not cancelled yet.
  notice :
      (hb : Heartbeat) (lease : ℕ)
      → Step
          (record { hb = hb; goroutine = draining lease; is_cancelled = false })
          (record { hb = hb; goroutine = noticing; is_cancelled = false })
  -- The channel is closed because the context is cancelled.
  finish :
      (hb : Heartbeat) (lease : ℕ)
      → Step
          (record { hb = hb; goroutine = draining lease; is_cancelled = true })
          (record { hb = hb; goroutine = ended; is_cancelled = true })
  lose :
      (hb : Heartbeat) (b : Bool)
      → Step
          (record { hb = hb; goroutine = noticing; is_cancelled = b })
          (record { hb = section hb lost; goroutine = retrying; is_cancelled = b })
  -- A round of reestablishHeartbeat whose check of the context came before its calls: they succeed, or
  -- they fail.
  grant :
      (hb : Heartbeat) (b : Bool) (lease : ℕ)
      → Step
          (record { hb = hb; goroutine = retrying; is_cancelled = b })
          (record { hb = hb; goroutine = granted lease; is_cancelled = b })
  retry :
      (hb : Heartbeat) (b : Bool)
      → Step
          (record { hb = hb; goroutine = retrying; is_cancelled = b })
          (record { hb = hb; goroutine = retrying; is_cancelled = b })
  leave :
      (hb : Heartbeat)
      → Step
          (record { hb = hb; goroutine = retrying; is_cancelled = true })
          (record { hb = hb; goroutine = ended; is_cancelled = true })
  re_establish :
      (hb : Heartbeat) (b : Bool) (lease : ℕ)
      → Step
          (record { hb = hb; goroutine = granted lease; is_cancelled = b })
          (record {
            hb = section hb (re_established lease);
            goroutine = draining lease;
            is_cancelled = b;
          })
  -- The context is cancelled, by StopHeartbeat or by its parent.
  cancel :
      (hb : Heartbeat) (g : Goroutine) (b : Bool)
      → Step
          (record { hb = hb; goroutine = g; is_cancelled = b })
          (record { hb = hb; goroutine = g; is_cancelled = true })
  -- The section of StopHeartbeat
  stop :
      (hb : Heartbeat) (g : Goroutine) (b : Bool)
      → Step
          (record { hb = hb; goroutine = g; is_cancelled = b })
          (record { hb = section hb stopped; goroutine = g; is_cancelled = b })

pub data Reach : Daemon → Type 0 where
  here : Reach at_start
  next : {d d' : Daemon} → Reach d → Step d d' → Reach d'

-- Where the goroutine is while the host counts as active.
abbrev pub Maintained : Goroutine → ℕ → Bool → Type 0
Maintained (draining l) lease b = lease ≡ l
Maintained noticing lease b = Unit
Maintained ended lease b = b ≡ true
Maintained unstarted lease b = ⊥
Maintained retrying lease b = ⊥
Maintained (granted l) lease b = ⊥

abbrev IsSound : Daemon → Type 0
IsSound d = d.hb.active ≡ true → Maintained d.goroutine d.hb.lease d.is_cancelled

after_cancel :
    (g : Goroutine) (lease : ℕ) (b : Bool) → Maintained g lease b → Maintained g lease true
after_cancel (draining l) lease b h = h
after_cancel noticing lease b h = tt
after_cancel ended lease b h = refl
after_cancel unstarted lease b h = h
after_cancel retrying lease b h = h
after_cancel (granted l) lease b h = h

Step-IsSound : {d d' : Daemon} → Step d d' → IsSound d → IsSound d'
unfolding section
Step-IsSound (start_fails hb b) s = s
Step-IsSound (start hb b lease) s = λ h. refl
Step-IsSound (notice hb lease) s = λ h. tt
Step-IsSound (finish hb lease) s = λ h. refl
Step-IsSound (lose hb b) s = λ h. absurd (ground (arith, h))
Step-IsSound (grant hb b lease) s = s
Step-IsSound (retry hb b) s = s
Step-IsSound (leave hb) s = λ h. refl
Step-IsSound (re_establish hb b lease) s = λ h. refl
Step-IsSound (cancel hb g b) s = λ h. after_cancel g hb.lease b (s h)
Step-IsSound (stop hb g b) s = λ h. absurd (ground (arith, h))

-- However the goroutine, StartHeartbeat, StopHeartbeat and the cancellation of the context interleave:
-- while hbActive is set, the goroutine drains the keepalive channel of the lease hbLease, or is about to
-- clear hbActive since that channel is closed, or has ended since the context is cancelled.
pub daemon-Maintained :
    {d : Daemon} → Reach d → d.hb.active ≡ true → Maintained d.goroutine d.hb.lease d.is_cancelled
unfolding no_heartbeat
daemon-Maintained here = λ h. absurd (ground (arith, h))
daemon-Maintained (next r s) = Step-IsSound s (daemon-Maintained r)
