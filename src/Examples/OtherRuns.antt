-- ===== src/Examples/OtherRuns.antt =====
-- Runs of the records, the readiness status and the pauses.
use docker_coredns_sync.Prelude.{
  List, [], codes, false, nat_eq, none, ok, refl, some, text_eq, true, ◌+◌, ◌↔◌, ◌∷◌, ◌≡◌, ◌≤◌,
}
use docker_coredns_sync.GoNet.{is_v4, parse_ip}
use docker_coredns_sync.GoText.Decimal.{pos, int_eq}
use docker_coredns_sync.Domain.Hostname.{is_valid_hostname}
use docker_coredns_sync.Domain.Kind.{kind_eq, record_a}
use docker_coredns_sync.Domain.Record.{new_from_kind}
use docker_coredns_sync.Domain.Record.Valid.{
  IsWellFormed, new_from_kind_complete, new_from_kind_sound,
}
use docker_coredns_sync.Domain.Intent.{Time}
use docker_coredns_sync.HttpServer.{
  Call, calls, connected, new_status, readiness, ready, reconciled, stale_reconcile,
}
use docker_coredns_sync.HttpServer.Ready.{ready_iff, last_connected, last_dry_mode, last_reconcile}
use docker_coredns_sync.Event.Backoff.{pauses}
use docker_coredns_sync.Examples.Data.{app_a, app_name}

built : new_from_kind record_a app_name (codes "10.0.0.1") ≡ ok app_a
unfolding new_from_kind is_valid_hostname parse_ip is_v4
built = refl

new_from_kind_sound_example : IsWellFormed app_a × (app_a ≡ app_a)
new_from_kind_sound_example = new_from_kind_sound record_a app_name (codes "10.0.0.1") built

new_from_kind_complete_example : new_from_kind record_a app_name (codes "10.0.0.1") ≡ ok app_a
new_from_kind_complete_example = new_from_kind_complete app_a new_from_kind_sound_example.0

valid : is_valid_hostname (codes "a.b") ≡ true
unfolding is_valid_hostname
valid = refl

-- Docker connected, and a reconciliation that succeeded at 100
abbrev history : List Call
history = connected true ∷ reconciled (some (codes "down")) 90 ∷ reconciled none 100 ∷ []

ready_iff_example : (readiness (calls (new_status 15) history) 110 ≡ ready) ↔ (
    (last_dry_mode false history ≡ false)
    × (last_connected false history ≡ true)
    × ((t : Time) × (last_reconcile none history ≡ some (none, t)) × (110 ≤ t + 15)))
ready_iff_example = ready_iff 15 history 110

test_ready :
    (readiness (calls (new_status 15) history) 110 ≡ ready)
    × (readiness (calls (new_status 15) history) 116 ≡ stale_reconcile)
unfolding readiness calls new_status
test_ready = (refl, refl)

test_pauses :
    pauses (pos 1) (pos 3) (pos 1) (false ∷ false ∷ false ∷ true ∷ [])
    ≡ pos 1 ∷ pos 2 ∷ pos 3 ∷ pos 1 ∷ []
unfolding pauses
test_pauses = refl
