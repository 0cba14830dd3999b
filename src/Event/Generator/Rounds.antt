-- ===== src/Event/Generator/Rounds.antt =====
-- The goroutine of Subscribe: its cycles, its reports to the observers and its pauses.
pub mod Bounds
pub mod Observed
use docker_coredns_sync.Prelude.{
  Bool, List, Option, Result, Text, [], false, if◌then◌else◌, nat_eq, none, some, text_eq, true, ℕ,
  ◌++◌, ◌+◌, ◌∷◌,
}
use docker_coredns_sync.GoText.Decimal.{ℤ, pos, negsuc, int_eq}
use docker_coredns_sync.Domain.Intent.{Time}
use docker_coredns_sync.Domain.Event.{ContainerEvent}
use docker_coredns_sync.Event.Backoff.{next_backoff, stable_connection}
use docker_coredns_sync.Event.Generator.{Cycle, DockerGenerator, Item, Summary, jitter, run_once}

-- What a round meets: the answers of Docker, the time at which the stream is requested and that at which
-- it has ended, whether the context is cancelled by then, rand.Int63n at the jitter, and whether the
-- pause is over before the context is cancelled.
pub record Round : Type 0 where
  pub listing : Result Text (List Summary)
  pub items : List Item
  pub requested_at : Time
  pub ended_at : Time
  pub is_cancelled : Bool
  pub int63n : ℕ → ℕ
  pub slept : Bool

-- What the goroutine does: the events that the engine takes, the calls of the connection observer, the
-- number of calls of the disconnect observer, and the pauses.
pub record Trace : Type 0 where
  pub events : List ContainerEvent
  pub connections : List Bool
  pub disconnects : ℕ
  pub pauses : List ℤ

-- The deferred setConnected(false)
unfoldable pub last_trace : Trace
last_trace = record { events = []; connections = false ∷ []; disconnects = 0; pauses = [] }

abbrev pub is_connected : Option Time → Bool
is_connected none = false
is_connected (some t) = true

unfoldable pub prepend : List ContainerEvent → List Bool → ℕ → List ℤ → Trace → Trace
prepend events connections disconnects ps t = record {
  events = events ++ t.events;
  connections = connections ++ t.connections;
  disconnects = disconnects + t.disconnects;
  pauses = ps ++ t.pauses;
}

-- setConnected(true) of runOnce
abbrev pub up_call : Bool → List Bool
up_call true = true ∷ []
up_call false = []

-- The rest of a round after runOnce; rest is the loop after it, on the next backoff.
unfoldable pub finish_round : DockerGenerator → ℤ → Round → Cycle → (ℤ → Trace) → Trace
unfolding last_trace prepend stable_connection jitter next_backoff
finish_round dw backoff r c rest =
    let up = is_connected c.connected_at in
    let pause =
      if stable_connection c.connected_at r.ended_at dw.reconnect_max
      then pos dw.reconnect_initial
      else backoff in
    let calls = up_call up ++ (false ∷ []) in
    let drops = if up then 1 else 0 in
    let slept = jitter pause r.int63n ∷ [] in
    if r.is_cancelled
    then prepend c.events (up_call up) 0 [] last_trace
    else if r.slept
    then prepend c.events calls drops slept (rest (next_backoff pause (pos dw.reconnect_max)))
    else prepend c.events calls drops slept last_trace

-- The loop of Subscribe; with no round left the context is cancelled.
unfoldable pub rounds : DockerGenerator → List Round → Time → ℤ → ℕ → Trace
unfolding last_trace finish_round run_once
rounds dw [] since backoff room = last_trace
rounds dw (r ∷ rs) since backoff room =
    let c = run_once r.listing r.items since r.requested_at room in
    finish_round dw backoff r c (λ next. rounds dw rs c.since next c.room)

-- Subscribe, which begins at now
unfoldable pub subscribe : DockerGenerator → List Round → Time → ℕ → Trace
unfolding rounds
subscribe dw rs now room = rounds dw rs now (pos dw.reconnect_initial) room
