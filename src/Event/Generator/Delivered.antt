-- ===== src/Event/Generator/Delivered.antt =====
-- The events of a connection cycle.
use docker_coredns_sync.Prelude.{
  List, Option, Text, [], ap, map, nat_eq, none, ok, refl, some, suc, sym, take, text_eq, zero, ℕ,
  ◌++◌, ◌∙◌, ◌∷◌, ◌≡◌,
}
use docker_coredns_sync.Domain.Intent.{Time}
use docker_coredns_sync.Domain.Event.{ContainerEvent}
use docker_coredns_sync.Event.Generator.{
  Cycle, Item, Message, Summary, add_event, after_listing, announced, converted, detection,
  error_value, errors_closed, ids, message, messages_closed, not_connected, resume_at, resync_event,
  run_once, send_all, send_event, stream, stream_end,
}

-- The messages before the stream ends, and the events of those that are supported
abbrev pub until_end : List Item → List Message
until_end [] = []
until_end (message m ∷ items) = m ∷ until_end items
until_end (error_value none ∷ items) = until_end items
until_end (error_value (some e) ∷ items) = []
until_end (errors_closed ∷ items) = []
until_end (messages_closed ∷ items) = []

abbrev pub supported_of : Option ContainerEvent → List ContainerEvent → List ContainerEvent
supported_of none events = events
supported_of (some event) events = event ∷ events

abbrev pub supported : List Message → List ContainerEvent
supported [] = []
supported (m ∷ ms) = supported_of (converted m) (supported ms)

send_event-events :
    (o : Option ContainerEvent) (since at : Time) (room : ℕ) (rest : ℕ → Cycle)
    (events : List ContainerEvent)
    → ((left : ℕ) → (rest left).events ≡ take left events)
    → (send_event o since at room rest).events ≡ take room (supported_of o events)
unfolding send_event stream_end add_event
send_event-events none since at room rest events h = h room
send_event-events (some event) since at zero rest events h = refl
send_event-events (some event) since at (suc room) rest events h = ap (◌∷◌ event) (h room)

take-nil : {A : Type 0} (n : ℕ) → take {A = A} n [] ≡ []
take-nil zero = refl
take-nil (suc n) = refl

stream-events :
    (items : List Item) (since at : Time) (room : ℕ)
    → (stream items since at room).events ≡ take room (supported (until_end items))
unfolding stream stream_end
stream-events [] since at room = sym (take-nil room)
stream-events (errors_closed ∷ items) since at room = sym (take-nil room)
stream-events (messages_closed ∷ items) since at room = sym (take-nil room)
stream-events (error_value (some e) ∷ items) since at room = sym (take-nil room)
stream-events (error_value none ∷ items) since at room = stream-events items since at room
stream-events (message m ∷ items) since at room =
    let next = resume_at m since in
    send_event-events (converted m) next at room (λ left. stream items next at left)
      (supported (until_end items)) (λ left. stream-events items next at left)

abbrev Splits :
    List ContainerEvent → List ContainerEvent → ℕ → List ContainerEvent × Option ℕ → Type 0
Splits es ys room (sent, none) = take room (es ++ ys) ≡ sent
Splits es ys room (sent, some left) = take room (es ++ ys) ≡ sent ++ take left ys

send_all-Splits : (es ys : List ContainerEvent) (room : ℕ) → Splits es ys room (send_all es room)
unfolding send_all
send_all-Splits [] ys room = refl
send_all-Splits (e ∷ es) ys zero = refl
send_all-Splits (e ∷ es) ys (suc room) = grown (send_all es room) (send_all-Splits es ys room)
  where
    grown :
        (r : List ContainerEvent × Option ℕ)
        → Splits es ys room r
        → Splits (e ∷ es) ys (suc room) (e ∷ r.0, r.1)
    grown (sent, none) h = ap (◌∷◌ e) h
    grown (sent, some left) h = ap (◌∷◌ e) h

after_listing-events :
    (es : List ContainerEvent) (r : List ContainerEvent × Option ℕ) (items : List Item)
    (since at : Time) (room : ℕ)
    → Splits es (supported (until_end items)) room r
    → (after_listing r items since at).events ≡ take room (es ++ supported (until_end items))
unfolding after_listing not_connected
after_listing-events es (sent, none) items since at room h = sym h
after_listing-events es (sent, some left) items since at room h =
    ap (λ (ys : List ContainerEvent). sent ++ ys) (stream-events items since at left) ∙ sym h

announced-append :
    (cs : List Summary) (running_ids : List Text) (ys : List ContainerEvent)
    → announced cs running_ids ++ ys ≡ map detection cs ++ (resync_event running_ids ∷ ys)
unfolding announced
announced-append [] running_ids ys = refl
announced-append (c ∷ cs) running_ids ys =
    ap (◌∷◌ (detection c)) (announced-append cs running_ids ys)

-- The events of a cycle whose listing succeeds are, up to the room of the engine, the detection events of
-- the listed containers, a resync event with their ids, and then the events of the messages of a supported
-- type, in the order of the stream up to its end.
pub run_once-events :
    (summaries : List Summary) (items : List Item) (since at : Time) (room : ℕ)
    → (run_once (ok summaries) items since at room).events
      ≡ take room
          (map detection summaries ++ (resync_event (ids summaries) ∷ supported (until_end items)))
unfolding run_once
run_once-events summaries items since at room =
    after_listing-events (announced summaries (ids summaries)) _ items since at room
      (send_all-Splits (announced summaries (ids summaries)) (supported (until_end items)) room)
    ∙ ap (λ (es : List ContainerEvent). take room es)
        (announced-append summaries (ids summaries) (supported (until_end items)))
