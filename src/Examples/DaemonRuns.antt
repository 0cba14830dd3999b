-- ===== src/Examples/DaemonRuns.antt =====
-- Runs of the heartbeat, the event generator, the readiness endpoint and the application.
use docker_coredns_sync.Prelude.{
  Bool-cases, In, List, Result, Text, [], ap, arith, codes, err, false, if◌then◌else◌, inl, inr,
  map, nat_beq, nat_beq_iff, nat_eq, none, ok, refl, some, subst, sym, take, text_eq, true, ℕ, ◌++◌,
  ◌<◌, ◌^◌, ◌↔◌, ◌∙◌, ◌∷◌, ◌≡◌, ◌≢◌, ◌⊎◌,
}
use docker_coredns_sync.GoText.Decimal.{pos, int_eq}
use docker_coredns_sync.Config.Load.{default_config}
use docker_coredns_sync.Config.Tls.{Certificates, client_tls, client_tls_iff}
use docker_coredns_sync.Config.{uses_tls}
use docker_coredns_sync.Event.Generator.{
  if_positive, Item, Message, Summary, default_generator, detection, error_value, ids, message,
  messages_closed, resync_event, run_once, with_reconnect_backoff,
}
use docker_coredns_sync.Event.Generator.Delivered.{run_once-events, supported, until_end}
use docker_coredns_sync.Event.Generator.Rounds.{Round, subscribe}
use docker_coredns_sync.Event.Generator.Rounds.Bounds.{Bounded, pauses-Bounded}
use docker_coredns_sync.Event.Generator.Rounds.Observed.{disconnects_counted, ended-not_ready, ups}
use docker_coredns_sync.HttpServer.{calls, connected, new_status, readiness, ready}
use docker_coredns_sync.HttpServer.Routes.{Answers, Response, readyz_iff}
use docker_coredns_sync.Registry.Heartbeat.{section, Heartbeat, no_heartbeat}
use docker_coredns_sync.Registry.Heartbeat.Interleaving.{
  Step, Daemon, Reach, cancel, daemon-Maintained, finish, grant, granted, here, lose, next, notice,
  re_establish, ended,
}
use docker_coredns_sync.App.{Factories, Handle, run_with_deps}
use docker_coredns_sync.App.Handles.{OpensHandles, run_leaks_nothing}

-- StopHeartbeat comes between a grant and its record: the host stays active after it.
abbrev raced : Daemon
raced = record {
  hb = record { lease = 2; has_cancel = false; active = true };
  goroutine = ended;
  is_cancelled = true;
}

raced-Reach : Reach raced
unfolding no_heartbeat section
raced-Reach =
    let hb₁ : Heartbeat = record { lease = 1; has_cancel = true; active = true } in
    let hb₂ : Heartbeat = record { lease = 1; has_cancel = true; active = false } in
    let hb₃ : Heartbeat = record { lease = 0; has_cancel = false; active = false } in
    let hb₄ : Heartbeat = record { lease = 2; has_cancel = false; active = true } in
    let r₁ =
      next here (Step.start (record { lease = 0; has_cancel = false; active = false }) false 1) in
    let r₂ = next r₁ (notice hb₁ 1) in
    let r₃ = next r₂ (lose hb₁ false) in
    let r₄ = next r₃ (grant hb₂ false 2) in
    let r₅ = next r₄ (Step.stop hb₂ (granted 2) false) in
    let r₆ = next r₅ (cancel hb₃ (granted 2) false) in
    let r₇ = next r₆ (re_establish hb₃ true 2) in next r₇ (finish hb₄ 2)

daemon-Maintained_example : raced.is_cancelled ≡ true
daemon-Maintained_example = daemon-Maintained raced-Reach refl

-- A container and a message of each kind
abbrev web : Summary
web = record { id = codes "c1"; names = codes "/web" ∷ []; created = 5; labels = [] }

abbrev died : Message
died = record { id = codes "c1"; attributes = []; status = codes "die"; time_nano = 9 }

abbrev paused : Message
paused = record { id = codes "c1"; attributes = []; status = codes "pause"; time_nano = 7 }

abbrev items : List Item
items = message paused ∷ error_value none ∷ message died ∷ messages_closed ∷ message died ∷ []

run_once-events_example :
    (run_once (ok (web ∷ [])) items 0 1 10).events
    ≡ take 10
        (map detection (web ∷ []) ++ (resync_event (ids (web ∷ [])) ∷ supported (until_end items)))
run_once-events_example = run_once-events (web ∷ []) items 0 1 10

abbrev round : Round
round = record {
  listing = ok (web ∷ []);
  items = items;
  requested_at = 1;
  ended_at = 20;
  is_cancelled = false;
  int63n = λ n. 0;
  slept = true;
}

below_limit : if_positive (pos 3) 0 < 2 ^ 62
unfolding if_positive
below_limit = omega arith

below_limit_2 : if_positive (pos 2) 0 < 2 ^ 62
unfolding if_positive
below_limit_2 = omega arith

below_one : (n : ℕ) → 0 < n → 0 < n
below_one n h = h

pauses-Bounded_example :
    Bounded (with_reconnect_backoff (pos 3) (pos 2) default_generator) (
      subscribe (with_reconnect_backoff (pos 3) (pos 2) default_generator) (round ∷ round ∷ []) 0 9)
pauses-Bounded_example =
    pauses-Bounded (pos 3) (pos 2) (round ∷ round ∷ []) 0 9 below_limit below_limit_2
      (below_one, (below_one, tt))

-- A round that ends with the context
abbrev last_round : Round
last_round = record round { is_cancelled = true }

disconnects_counted_example :
    let t = subscribe default_generator (round ∷ round ∷ []) 0 9 in
    (t.disconnects ≡ ups t.connections)
    × ((subscribe default_generator (round ∷ round ∷ last_round ∷ []) 0 9).disconnects
        ≡ t.disconnects)
disconnects_counted_example =
    disconnects_counted default_generator (round ∷ round ∷ []) last_round 0 9 (refl, (refl, tt))
      refl

ended-not_ready_example :
    readiness
      (calls
        (new_status 15)
        (map connected (subscribe default_generator (round ∷ []) 0 9).connections))
      30
    ≢ ready
ended-not_ready_example = ended-not_ready default_generator (round ∷ []) 0 9 (new_status 15) 30

readyz_iff_example :
    (r : Response) × Answers (some (new_status 15)) none (codes "/readyz") 4 r
    × ((r.code ≡ 200) ↔ (readiness (new_status 15) 4 ≡ ready))
    × ((r.code ≡ 503) ↔ (readiness (new_status 15) 4 ≢ ready))
readyz_iff_example = readyz_iff (new_status 15) none 4

abbrev no_files : Certificates ℕ ℕ
no_files = record {
  load_key_pair = λ c k. err (codes "no file");
  read_file = λ f. err (codes "no file");
  pool_from_pem = λ pem. none;
}

client_tls_iff_example :
    (client_tls no_files default_config.etcd ≡ ok none) ↔ (uses_tls default_config.etcd ≡ false)
client_tls_iff_example = client_tls_iff no_files default_config.etcd

-- The open handles
abbrev dropped : Handle → List Handle → List Handle
dropped h [] = []
dropped h (k ∷ ks) = if nat_beq k h then dropped h ks else k ∷ dropped h ks

abbrev factories : Factories (List Handle)
factories = record {
  docker_client = λ w. (ok 1, 1 ∷ w);
  etcd_client = λ cfg w. (err (codes "refused"), w);
  listen = λ addr w. (ok 3, 3 ∷ w);
  close = λ h w. (none, dropped h w);
  duration = λ d. d;
}

dropped-In : (h k : Handle) (w : List Handle) → In k (dropped h w) → (k ≢ h) × In k w
dropped-In h k [] m = absurd m
dropped-In h k (x ∷ w) m = elim (Bool-cases (nat_beq x h)) [
  | inl same ↦
      let (other, there) =
        dropped-In h k w
          (subst (In k) (ap (λ b. if b then dropped h w else x ∷ dropped h w) same) m) in
      (other, inr there)
  | inr apart ↦ elim (subst (In k) (ap (λ b. if b then dropped h w else x ∷ dropped h w) apart) m) [
    | inl e ↦ (λ f. absurd (cc (apart, (nat_beq_iff x h).1 (sym e ∙ f))), inl e)
    | inr m' ↦ let (other, there) = dropped-In h k w m' in (other, inr there)
  ]
]

opened_head :
    (n h k : Handle) (w w' : List Handle)
    → ◌≡◌ {A = Result Text Handle × List Handle} (ok n, n ∷ w) (ok h, w')
    → In k w'
    → (k ≡ h) ⊎ In k w
opened_head n h k w w' e m =
    let opened : In k (n ∷ w) =
      subst (In k) (sym (ap (λ (r : Result Text Handle × List Handle). r.1) e)) m in
    elim opened [ inl f ↦ inl (f ∙ ground (arith, e)) | inr old ↦ inr old ]

factories-OpensHandles : OpensHandles factories (λ w k. In k w)
factories-OpensHandles = record {
  opens_docker = λ w w' h k e m. opened_head 1 h k w w' e m;
  no_docker = λ w w' e k f m. absurd (ground (arith, f));
  opens_etcd = λ cfg w w' h k e m. absurd (ground (arith, e));
  no_etcd = λ cfg w w' e k f m.
      subst (In k) (sym (ap (λ (r : Result Text Handle × List Handle). r.1) f)) m;
  opens_listener = λ addr w w' h k e m. opened_head 3 h k w w' e m;
  no_listener = λ addr w w' e k f m. absurd (ground (arith, f));
  closes = λ h k w m. dropped-In h k w m;
}

still_open :
    In {A = Handle} 9 (run_with_deps factories (λ app w. (none, w)) default_config (9 ∷ [])).1
unfolding run_with_deps
still_open = inl refl

run_leaks_nothing_example : In {A = Handle} 9 (9 ∷ [])
run_leaks_nothing_example =
    run_leaks_nothing factories (λ w k. In k w) factories-OpensHandles (λ app w. (none, w))
      default_config (9 ∷ []) 9 (λ app x h m. m) still_open
