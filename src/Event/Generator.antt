-- ===== src/Event/Generator.antt =====
-- internal/event/docker_generator.go: the options, and the connection cycles of Subscribe. What Docker
-- answers is an argument: the listing of a cycle, and the items of its stream in the order in which the
-- loop takes them. The context is cancelled once the engine has taken as many events as there is room for,
-- at the end of a stream's items, or where a round says so.
pub mod Delivered
pub mod Rounds
use docker_coredns_sync.Prelude.{
  List, Option, Result, Text, [], err, if◌then◌else◌, ltb, nat_eq, none, ok, some, suc, text_eq,
  zero, ℕ, ◌++◌, ◌+◌, ◌/◌, ◌∷◌,
}
use docker_coredns_sync.GoMap.{Map}
use docker_coredns_sync.GoText.Decimal.{ℤ, pos, negsuc, int_eq}
use docker_coredns_sync.Domain.Intent.{Time}
use docker_coredns_sync.Domain.Event.{ContainerEvent, resync}
use docker_coredns_sync.Event.{from_container_summary, from_events_message}
use docker_coredns_sync.Event.Backoff.{wrap}

-- DockerGenerator, without its client and callbacks; durations are in nanoseconds.
pub record DockerGenerator : Type 0 where
  pub buffer_size : ℕ
  pub reconnect_initial : ℕ
  pub reconnect_max : ℕ

-- NewDockerGenerator before its options
unfoldable pub default_generator : DockerGenerator
default_generator = record {
  buffer_size = 100;
  reconnect_initial = 1000000000;
  reconnect_max = 30000000000;
}

-- n if it is positive, and else what was set before
unfoldable pub if_positive : ℤ → ℕ → ℕ
if_positive (pos zero) old = old
if_positive (pos (suc n)) old = suc n
if_positive (negsuc n) old = old

-- WithEventBufferSize
unfoldable pub with_event_buffer_size : ℤ → DockerGenerator → DockerGenerator
unfolding if_positive
with_event_buffer_size n dw = record dw { buffer_size = if_positive n dw.buffer_size }

-- WithReconnectBackoff
unfoldable pub with_reconnect_backoff : ℤ → ℤ → DockerGenerator → DockerGenerator
unfolding if_positive
with_reconnect_backoff initial max dw =
    let first = if_positive initial dw.reconnect_initial in
    let last = if_positive max dw.reconnect_max in
    record dw { reconnect_initial = first; reconnect_max = if ltb last first then first else last }

-- container.Summary, as far as it is read
pub record Summary : Type 0 where
  pub id : Text
  pub names : List Text
  pub created : ℕ
  pub labels : Map Text Text

-- events.Message, as far as it is read
pub record Message : Type 0 where
  pub id : Text
  pub attributes : Map Text Text
  pub status : Text
  pub time_nano : ℕ

-- What the loop of runOnce receives: a message, a value of the error channel, which may be nil, and the
-- end of either channel
pub data Item : Type 0 where
  message : Message → Item
  error_value : Option Text → Item
  errors_closed messages_closed : Item

pub data CycleError : Type 0 where
  listing_failed stream_failed : Text → CycleError

unfoldable pub detection : Summary → ContainerEvent
unfolding from_container_summary
detection c = from_container_summary c.id c.names c.created c.labels

unfoldable pub converted : Message → Option ContainerEvent
unfolding from_events_message
converted m = from_events_message m.id m.attributes m.status m.time_nano

unfoldable pub ids : List Summary → List Text
ids [] = []
ids (c ∷ cs) = c.id ∷ ids cs

unfoldable pub resync_event : List Text → ContainerEvent
resync_event running_ids = record {
  container = record { id = []; name = []; created = 0; labels = [] };
  event_type = resync;
  running_container_ids = running_ids;
}

-- The detection events and the resync event
unfoldable pub announced : List Summary → List Text → List ContainerEvent
unfolding detection resync_event
announced [] running_ids = resync_event running_ids ∷ []
announced (c ∷ cs) running_ids = detection c ∷ announced cs running_ids

-- The sends of events: those that the engine takes, and the room that is left; none when the context is
-- cancelled before all are sent.
unfoldable pub send_all : List ContainerEvent → ℕ → List ContainerEvent × Option ℕ
send_all [] room = ([], some room)
send_all (e ∷ es) zero = ([], none)
send_all (e ∷ es) (suc room) = let (sent, left) = send_all es room in (e ∷ sent, left)

-- if msg.TimeNano > 0 { *since = ... }
unfoldable pub resume_at : Message → Time → Time
resume_at m since = if ltb 0 m.time_nano then m.time_nano else since

-- What a cycle leaves: the events that the engine took, where the next cycle resumes, the time of the
-- connection, which is none where there was none, its error, and the room that is left.
pub record Cycle : Type 0 where
  pub events : List ContainerEvent
  pub since : Time
  pub connected_at : Option Time
  pub error : Option CycleError
  pub room : ℕ

unfoldable pub stream_end : Time → Time → Option CycleError → ℕ → Cycle
stream_end since connected_at error room = record {
  events = [];
  since = since;
  connected_at = some connected_at;
  error = error;
  room = room;
}

unfoldable pub add_event : ContainerEvent → Cycle → Cycle
add_event event c = record c { events = event ∷ c.events }

-- The send of the event of a message; rest is the loop after it.
unfoldable pub send_event : Option ContainerEvent → Time → Time → ℕ → (ℕ → Cycle) → Cycle
unfolding stream_end add_event
send_event none since connected_at room rest = rest room
send_event (some event) since connected_at zero rest = stream_end since connected_at none zero
send_event (some event) since connected_at (suc room) rest = add_event event (rest room)

-- The loop of runOnce
unfoldable pub stream : List Item → Time → Time → ℕ → Cycle
unfolding stream_end send_event resume_at converted
stream [] since connected_at room = stream_end since connected_at none room
stream (errors_closed ∷ items) since connected_at room = stream_end since connected_at none room
stream (messages_closed ∷ items) since connected_at room = stream_end since connected_at none room
stream (error_value (some e) ∷ items) since connected_at room =
    stream_end since connected_at (some (stream_failed e)) room
stream (error_value none ∷ items) since connected_at room = stream items since connected_at room
stream (message m ∷ items) since connected_at room =
    let next = resume_at m since in
    send_event (converted m) next connected_at room (λ left. stream items next connected_at left)

unfoldable pub not_connected : List ContainerEvent → Time → Option CycleError → ℕ → Cycle
not_connected events since error room = record {
  events = events;
  since = since;
  connected_at = none;
  error = error;
  room = room;
}

unfoldable pub after_listing : List ContainerEvent × Option ℕ → List Item → Time → Time → Cycle
unfolding stream not_connected
after_listing (sent, none) items since connected_at = not_connected sent since none 0
after_listing (sent, some room) items since connected_at =
    let c = stream items since connected_at room in record c { events = sent ++ c.events }

-- runOnce; connected_at is the time at which the stream is requested.
unfoldable pub run_once : Result Text (List Summary) → List Item → Time → Time → ℕ → Cycle
unfolding not_connected after_listing send_all announced ids
run_once (err e) items since connected_at room =
    not_connected [] since (some (listing_failed e)) room
run_once (ok summaries) items since connected_at room =
    after_listing (send_all (announced summaries (ids summaries)) room) items since connected_at

-- jitter, by rand.Int63n
unfoldable pub jitter : ℤ → (ℕ → ℕ) → ℤ
unfolding wrap
jitter (pos zero) int63n = pos zero
jitter (pos (suc d)) int63n = wrap (suc d + int63n (suc d / 4 + 1))
jitter (negsuc d) int63n = negsuc d
