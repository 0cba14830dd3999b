-- ===== src/Event/Generator/Rounds/Observed.antt =====
-- What the observers of the connection see.
use docker_coredns_sync.Prelude.{
  All, Bool, Bool-cases, List, [], arith, false, if◌then◌else◌, inl, inr, map, nat_eq, refl, suc,
  text_eq, true, ℕ, ◌++◌, ◌+◌, ◌∙◌, ◌∷◌, ◌≡◌, ◌≢◌,
}
use docker_coredns_sync.GoText.Decimal.{ℤ, pos, int_eq}
use docker_coredns_sync.Domain.Intent.{Time}
use docker_coredns_sync.Domain.Event.{ContainerEvent}
use docker_coredns_sync.Event.Backoff.{stable_connection}
use docker_coredns_sync.Event.Generator.{jitter, Cycle, DockerGenerator, run_once}
use docker_coredns_sync.Event.Generator.Rounds.{
  Round, Trace, finish_round, is_connected, last_trace, prepend, rounds, subscribe, up_call,
}
use docker_coredns_sync.HttpServer.{
  Status, calls, connected, readiness, ready, set_docker_connected,
}

abbrev pub last_or : Bool → List Bool → Bool
last_or b [] = b
last_or b (c ∷ cs) = last_or c cs

last_or-append : (xs ys : List Bool) (b : Bool) → last_or b (xs ++ ys) ≡ last_or (last_or b xs) ys
last_or-append [] ys b = refl
last_or-append (x ∷ xs) ys b = last_or-append xs ys x

-- The number of connections
abbrev pub ups : List Bool → ℕ
ups [] = 0
ups (true ∷ cs) = suc (ups cs)
ups (false ∷ cs) = ups cs

ups-append : (xs ys : List Bool) → ups (xs ++ ys) ≡ ups xs + ups ys
ups-append [] ys = omega arith
ups-append (true ∷ xs) ys = omega (arith, ups-append xs ys)
ups-append (false ∷ xs) ys = ups-append xs ys

-- The observer's last call is with false.
record IsSettled (t : Trace) : Type 0 where
  down : (b : Bool) → last_or b t.connections ≡ false

prepend-IsSettled :
    (events : List ContainerEvent) (connections : List Bool) (disconnects : ℕ) (ps : List ℤ)
    (t : Trace)
    → IsSettled t
    → IsSettled (prepend events connections disconnects ps t)
unfolding prepend
prepend-IsSettled events connections disconnects ps t s = record {
  down = λ b. last_or-append connections t.connections b ∙ s.down (last_or b connections);
}

last_trace-IsSettled : IsSettled last_trace
unfolding last_trace
last_trace-IsSettled = record { down = λ b. refl }

drops_match : (up : Bool) → ups (up_call up ++ (false ∷ [])) ≡ (if up then 1 else 0)
drops_match true = refl
drops_match false = refl

finish_round-IsSettled :
    (dw : DockerGenerator) (backoff : ℤ) (r : Round) (c : Cycle) (rest : ℤ → Trace)
    → ((next : ℤ) → IsSettled (rest next))
    → IsSettled (finish_round dw backoff r c rest)
unfolding finish_round
finish_round-IsSettled dw backoff r c rest more =
    let up = is_connected c.connected_at in
    let stable = stable_connection c.connected_at r.ended_at dw.reconnect_max in
    let slept_for = jitter (if stable then pos dw.reconnect_initial else backoff) r.int63n ∷ [] in
    elim (Bool-cases r.is_cancelled) [
      | inl over ↦
          rw over (prepend-IsSettled c.events (up_call up) 0 [] last_trace last_trace-IsSettled)
      | inr on ↦ rw on (elim (Bool-cases r.slept) [
        | inl slept ↦ rw slept (prepend-IsSettled c.events _ _ slept_for _ (more _))
        | inr cut ↦ rw cut (prepend-IsSettled c.events _ _ slept_for _ last_trace-IsSettled)
      ])
    ]

rounds-IsSettled :
    (dw : DockerGenerator) (rs : List Round) (since : Time) (backoff : ℤ) (room : ℕ)
    → IsSettled (rounds dw rs since backoff room)
unfolding rounds
rounds-IsSettled dw [] since backoff room = last_trace-IsSettled
rounds-IsSettled dw (r ∷ rs) since backoff room =
    let c = run_once r.listing r.items since r.requested_at room in
    finish_round-IsSettled dw backoff r c (λ next. rounds dw rs c.since next c.room)
      (λ next. rounds-IsSettled dw rs c.since next c.room)

finish_round-connections :
    (dw : DockerGenerator) (backoff : ℤ) (r : Round) (c : Cycle) (rest : ℤ → Trace)
    → r.is_cancelled ≡ false
    → ((next : ℤ) → (rest next).disconnects ≡ ups (rest next).connections)
    → (finish_round dw backoff r c rest).disconnects
      ≡ ups (finish_round dw backoff r c rest).connections
unfolding finish_round prepend last_trace
finish_round-connections dw backoff r c rest on more =
    let up = is_connected c.connected_at in
    let calls = up_call up ++ (false ∷ []) in
    rw on (elim (Bool-cases r.slept) [
      | inl slept ↦
          rw slept (omega (arith, more _, ups-append calls (rest _).connections, drops_match up))
      | inr cut ↦ rw cut (omega (arith, ups-append calls (false ∷ []), drops_match up))
    ])

finish_round-disconnects :
    (dw : DockerGenerator) (backoff : ℤ) (r : Round) (c : Cycle) (rest rest' : ℤ → Trace)
    → ((next : ℤ) → (rest next).disconnects ≡ (rest' next).disconnects)
    → (finish_round dw backoff r c rest).disconnects
      ≡ (finish_round dw backoff r c rest').disconnects
unfolding finish_round prepend
finish_round-disconnects dw backoff r c rest rest' same = elim (Bool-cases r.is_cancelled) [
  | inl over ↦ rw over refl
  | inr on ↦ rw on (elim (Bool-cases r.slept) [
    | inl slept ↦ rw slept (omega (arith, same _))
    | inr cut ↦ rw cut refl
  ])
]

-- No cycle of the rounds ends with a cancelled context.
abbrev pub Uncancelled : List Round → Type 0
Uncancelled rs = All (λ (r : Round). r.is_cancelled ≡ false) rs

rounds-connections :
    (dw : DockerGenerator) (rs : List Round) (since : Time) (backoff : ℤ) (room : ℕ)
    → Uncancelled rs
    → (rounds dw rs since backoff room).disconnects
      ≡ ups (rounds dw rs since backoff room).connections
unfolding rounds last_trace
rounds-connections dw [] since backoff room on = refl
rounds-connections dw (r ∷ rs) since backoff room on =
    let c = run_once r.listing r.items since r.requested_at room in
    finish_round-connections dw backoff r c (λ next. rounds dw rs c.since next c.room) on.0
      (λ next. rounds-connections dw rs c.since next c.room on.1)

rounds-cancelled :
    (dw : DockerGenerator) (rs : List Round) (r : Round) (since : Time) (backoff : ℤ) (room : ℕ)
    → r.is_cancelled ≡ true
    → (rounds dw (rs ++ (r ∷ [])) since backoff room).disconnects
      ≡ (rounds dw rs since backoff room).disconnects
unfolding rounds finish_round prepend last_trace
rounds-cancelled dw [] r since backoff room over = rw over refl
rounds-cancelled dw (x ∷ rs) r since backoff room over =
    let c = run_once x.listing x.items since x.requested_at room in
    finish_round-disconnects dw backoff x c (λ next. rounds dw (rs ++ (r ∷ [])) c.since next c.room)
      (λ next. rounds dw rs c.since next c.room)
      (λ next. rounds-cancelled dw rs r c.since next c.room over)

-- As long as no cycle ends with a cancelled context, the disconnect observer is called exactly once for
-- each connection of Subscribe, and a cycle after them that a cancelled context ends adds no call.
pub disconnects_counted :
    (dw : DockerGenerator) (rs : List Round) (r : Round) (now : Time) (room : ℕ)
    → Uncancelled rs
    → r.is_cancelled ≡ true
    → let t = subscribe dw rs now room in
      (t.disconnects ≡ ups t.connections)
      × ((subscribe dw (rs ++ (r ∷ [])) now room).disconnects ≡ t.disconnects)
unfolding subscribe
disconnects_counted dw rs r now room on over = (
  rounds-connections dw rs now (pos dw.reconnect_initial) room on,
  rounds-cancelled dw rs r now (pos dw.reconnect_initial) room over,
)

connected_calls-last :
    (cs : List Bool) (s : Status)
    → (calls s (map connected cs)).docker_connected ≡ last_or s.docker_connected cs
unfolding calls set_docker_connected
connected_calls-last [] s = refl
connected_calls-last (c ∷ cs) s = connected_calls-last cs (set_docker_connected s c)

readiness_down : (s : Status) (now : Time) → s.docker_connected ≡ false → readiness s now ≢ ready
unfolding readiness
readiness_down s now h e = elim (Bool-cases s.dry_run) [
  | inl no_writes ↦ absurd (ground (arith, e))
  | inr writes ↦ absurd (ground (arith, e))
]

-- Once Subscribe has ended, and its observer has made its calls on the readiness status, the daemon is not
-- ready, whatever Docker answered.
pub ended-not_ready :
    (dw : DockerGenerator) (rs : List Round) (since : Time) (room : ℕ) (s : Status) (now : Time)
    → readiness (calls s (map connected (subscribe dw rs since room).connections)) now ≢ ready
unfolding subscribe
ended-not_ready dw rs since room s now =
    let t = subscribe dw rs since room in
    let settled = rounds-IsSettled dw rs since (pos dw.reconnect_initial) room in
    readiness_down (calls s (map connected t.connections)) now
      (connected_calls-last t.connections s ∙ settled.down s.docker_connected)
