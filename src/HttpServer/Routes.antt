-- ===== src/HttpServer/Routes.antt =====
-- Handler of internal/httpserver/server.go, and the reasons that Ready gives in status.go. The multiplexer of
-- net/http is a parameter, as is the metrics handler: what is registered is a map from patterns to handlers.
use docker_coredns_sync.Prelude.{
  Bool, Bool-cases, Option, Text, ap, arith, codes, false, if◌then◌else◌, inl, inr, nat_eq, none,
  not, refl, some, text_beq, text_eq, true, ℕ, ◌++◌, ◌↔◌, ◌≡◌, ◌≢◌,
}
use docker_coredns_sync.GoMap.{Map, empty, insert, lookup}
use docker_coredns_sync.Domain.Intent.{Time}
use docker_coredns_sync.HttpServer.{
  Readiness, Status, dry, never_reconciled, not_connected, readiness, ready, reconcile_failed,
  stale_reconcile,
}

pub record Response : Type 0 where
  pub code : ℕ
  pub body : Text

-- http.StatusOK and http.StatusServiceUnavailable
abbrev pub status_ok : ℕ
status_ok = 200

abbrev pub status_unavailable : ℕ
status_unavailable = 503

-- The reason of Ready
unfoldable pub reason : Readiness → Text
reason ready = codes "ok"
reason dry = codes "dry-run mode: records are not applied"
reason not_connected = codes "docker event stream not connected"
reason (reconcile_failed e) = codes "last reconciliation failed: " ++ e
reason never_reconciled = codes "no successful reconciliation yet"
reason stale_reconcile =
    codes "last successful reconciliation is older than the readiness threshold"

abbrev pub is_ready : Readiness → Bool
is_ready ready = true
is_ready dry = false
is_ready not_connected = false
is_ready (reconcile_failed e) = false
is_ready never_reconciled = false
is_ready stale_reconcile = false

-- The handlers of /healthz and /readyz
unfoldable pub healthz : Response
healthz = record { code = status_ok; body = codes "ok" }

unfoldable pub answer : Readiness → Response
unfolding reason
answer r =
    if not (is_ready r)
    then record { code = status_unavailable; body = reason r }
    else record { code = status_ok; body = codes "ok" }

unfoldable pub readyz : Status → Time → Response
unfolding readiness answer
readyz s now = answer (readiness s now)

abbrev pub Routes : Type 0
Routes = Map Text (Time → Response)

unfoldable pub add_status : Option Status → Routes → Routes
unfolding insert healthz readyz
add_status none mux = mux
add_status (some s) mux =
    insert (insert mux (codes "/healthz") (λ now. healthz)) (codes "/readyz") (λ now. readyz s now)

unfoldable pub add_metrics : Option (Time → Response) → Routes → Routes
unfolding insert
add_metrics none mux = mux
add_metrics (some h) mux = insert mux (codes "/metrics") h

-- Handler: what is registered on the multiplexer
unfoldable pub handler : Option Status → Option (Time → Response) → Routes
unfolding add_status add_metrics
handler status metrics = add_metrics metrics (add_status status empty)

-- Close of a Server, by the error of its listener: whether that is net.ErrClosed comes with it.
unfoldable pub close_error : Option (Text × Bool) → Option Text
close_error none = none
close_error (some (e, is_closed)) = if not is_closed then some e else none

ready_of : (r : Readiness) → is_ready r ≡ true → r ≡ ready
ready_of ready h = refl
ready_of dry h = cc
ready_of not_connected h = cc
ready_of (reconcile_failed e) h = cc
ready_of never_reconciled h = cc
ready_of stale_reconcile h = cc

answer-code :
    (r : Readiness)
    → (((answer r).code ≡ 200) ↔ (r ≡ ready)) × (((answer r).code ≡ 503) ↔ (r ≢ ready))
unfolding answer
answer-code r = elim (Bool-cases (is_ready r)) [
  | inl up ↦ rw up (
    (λ h. ready_of r up, λ h. refl),
    (λ h. absurd (omega (arith, h)), λ h. absurd (h (ready_of r up))),
  )
  | inr down ↦
      let unready : r ≢ ready = λ e. absurd (cc (ap is_ready e, down)) in
      rw down ((λ h. absurd (omega (arith, h)), λ h. absurd (unready h)), (λ h. unready, λ h. refl))
]

-- What a request for a path is answered, if the path is registered
abbrev pub Answers : Option Status → Option (Time → Response) → Text → Time → Response → Type 0
Answers status metrics path now r =
    (h : Time → Response) × (lookup (handler status metrics) path ≡ some h) × (h now ≡ r)

readyz_found :
    (s : Status) (metrics : Option (Time → Response))
    → lookup (handler (some s) metrics) (codes "/readyz") ≡ some (λ now. readyz s now)
unfolding handler lookup text_beq
readyz_found s none = refl
readyz_found s (some h) = refl

-- With a status, a request for /readyz is answered, with the code 200 exactly when the status is ready,
-- and with 503 otherwise, whether or not metrics are served.
pub readyz_iff :
    (s : Status) (metrics : Option (Time → Response)) (now : Time)
    → (r : Response) × Answers (some s) metrics (codes "/readyz") now r
      × ((r.code ≡ 200) ↔ (readiness s now ≡ ready))
      × ((r.code ≡ 503) ↔ (readiness s now ≢ ready))
unfolding readyz
readyz_iff s metrics now =
    let (ok_iff, unavailable_iff) = answer-code (readiness s now) in
    (readyz s now, (λ t. readyz s t, readyz_found s metrics, refl), ok_iff, unavailable_iff)
