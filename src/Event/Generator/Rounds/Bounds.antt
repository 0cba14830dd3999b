-- ===== src/Event/Generator/Rounds/Bounds.antt =====
-- The bounds of the pauses between two cycles.
use docker_coredns_sync.Prelude.{
  All, Bool-cases, List, [], arith, if◌then◌else◌, inl, inr, nat_eq, suc, text_eq, zero, ℕ, ◌+◌,
  ◌/◌, ◌<◌, ◌^◌, ◌∷◌, ◌≤◌,
}
use docker_coredns_sync.GoText.Decimal.{ℤ, pos, negsuc, int_eq}
use docker_coredns_sync.Domain.Intent.{Time}
use docker_coredns_sync.Event.Backoff.{
  Within, next_backoff, next_backoff-Within, stable_connection, wrap,
}
use docker_coredns_sync.Event.Generator.{
  Cycle, DockerGenerator, default_generator, if_positive, jitter, run_once, with_reconnect_backoff,
}
use docker_coredns_sync.Event.Generator.Rounds.{
  Round, Trace, finish_round, last_trace, prepend, rounds, subscribe,
}

-- rand.Int63n(n) lies in 0 .. n - 1.
abbrev pub IsRandom : (ℕ → ℕ) → Type 0
IsRandom int63n = (n : ℕ) → 0 < n → int63n n < n

abbrev HasRandom : Round → Type 0
HasRandom r = IsRandom r.int63n

jitter-Within :
    (initial max : ℕ) (d : ℤ) (int63n : ℕ → ℕ)
    → max < 2 ^ 62
    → IsRandom int63n
    → Within initial max d
    → Within initial (max + max / 4) (jitter d int63n)
unfolding jitter wrap
jitter-Within initial max (pos zero) int63n small random h = omega arith
jitter-Within initial max (pos (suc d)) int63n small random h =
    ground (arith, random (suc d / 4 + 1) (omega arith))
jitter-Within initial max (negsuc d) int63n small random h = absurd h

abbrev pub Bounded : DockerGenerator → Trace → Type 0
Bounded dw t = All (Within dw.reconnect_initial (dw.reconnect_max + dw.reconnect_max / 4)) t.pauses

module _ (dw : DockerGenerator) (ordered : dw.reconnect_initial ≤ dw.reconnect_max)
    (small : dw.reconnect_max < 2 ^ 62) where
  finish_round-Bounded :
      (backoff : ℤ) (r : Round) (c : Cycle) (rest : ℤ → Trace)
      → IsRandom r.int63n
      → Within dw.reconnect_initial dw.reconnect_max backoff
      → ((next : ℤ) → Within dw.reconnect_initial dw.reconnect_max next → Bounded dw (rest next))
      → Bounded dw (finish_round dw backoff r c rest)
  unfolding finish_round prepend last_trace
  finish_round-Bounded backoff r c rest random h more =
      let first : Within dw.reconnect_initial dw.reconnect_max (pos dw.reconnect_initial) =
        (omega arith, ordered) in
      let stable = stable_connection c.connected_at r.ended_at dw.reconnect_max in
      let pause : ℤ = if stable then pos dw.reconnect_initial else backoff in
      let within : Within dw.reconnect_initial dw.reconnect_max pause = elim (Bool-cases stable) [
        | inl e ↦ rw e first
        | inr e ↦ rw e h
      ] in
      elim (Bool-cases r.is_cancelled) [
        | inl over ↦ rw over tt
        | inr on ↦ rw on (elim (Bool-cases r.slept) [
          | inl slept ↦ rw slept (
            jitter-Within dw.reconnect_initial dw.reconnect_max pause r.int63n small random within,
            more (next_backoff pause (pos dw.reconnect_max))
                (next_backoff-Within dw.reconnect_initial dw.reconnect_max pause small within),
          )
          | inr cut ↦ rw cut (
            jitter-Within dw.reconnect_initial dw.reconnect_max pause r.int63n small random within,
            tt,
          )
        ])
      ]

  rounds-Bounded :
      (rs : List Round) (since : Time) (backoff : ℤ) (room : ℕ)
      → All HasRandom rs
      → Within dw.reconnect_initial dw.reconnect_max backoff
      → Bounded dw (rounds dw rs since backoff room)
  unfolding rounds last_trace
  rounds-Bounded [] since backoff room random h = tt
  rounds-Bounded (r ∷ rs) since backoff room random h =
      let c = run_once r.listing r.items since r.requested_at room in
      finish_round-Bounded backoff r c (λ next. rounds dw rs c.since next c.room) random.0 h
        (λ next within. rounds-Bounded rs c.since next c.room random.1 within)

  subscribe-Bounded :
      (rs : List Round) (now : Time) (room : ℕ)
      → All HasRandom rs
      → Bounded dw (subscribe dw rs now room)
  unfolding subscribe
  subscribe-Bounded rs now room random =
      rounds-Bounded rs now (pos dw.reconnect_initial) room random (omega arith, ordered)

if_positive-lt :
    (d : ℤ) (old bound : ℕ) → if_positive d 0 < bound → old < bound → if_positive d old < bound
unfolding if_positive
if_positive-lt (pos zero) old bound h k = k
if_positive-lt (pos (suc n)) old bound h k = h
if_positive-lt (negsuc n) old bound h k = k

options_ordered :
    (initial max : ℤ)
    → if_positive initial 0 < 2 ^ 62
    → if_positive max 0 < 2 ^ 62
    → let dw = with_reconnect_backoff initial max default_generator in
      (dw.reconnect_initial ≤ dw.reconnect_max) × (dw.reconnect_max < 2 ^ 62)
unfolding with_reconnect_backoff default_generator
options_ordered initial max a b =
    ground (
      arith,
      if_positive-lt initial 1000000000 (2 ^ 62) a,
      if_positive-lt max 30000000000 (2 ^ 62) b,
    )

-- Whatever the two durations given to WithReconnectBackoff, if they are below 2^62 nanoseconds, and
-- Int63n(n) lies in 0 .. n - 1, then each pause of Subscribe is at least the initial backoff and at most a
-- quarter more than the maximum one, whatever Docker answers.
pub pauses-Bounded :
    (initial max : ℤ) (rs : List Round) (now : Time) (room : ℕ)
    → if_positive initial 0 < 2 ^ 62
    → if_positive max 0 < 2 ^ 62
    → All HasRandom rs
    → Bounded
        (with_reconnect_backoff initial max default_generator)
        (subscribe (with_reconnect_backoff initial max default_generator) rs now room)
pauses-Bounded initial max rs now room a b random =
    let dw = with_reconnect_backoff initial max default_generator in
    let (ordered, small) = options_ordered initial max a b in
    subscribe-Bounded dw ordered small rs now room random
