-- ===== src/HttpServer/Ready.antt =====
-- Readiness as a matter of the calls that were made.
use docker_coredns_sync.Prelude.{
  Bool, List, Option, Text, [], arith, false, nat_eq, none, refl, some, text_eq, true, ℕ, ◌+◌, ◌↔◌,
  ◌∷◌, ◌≡◌, ◌≤◌,
}
use docker_coredns_sync.Domain.Intent.{Time}
use docker_coredns_sync.HttpServer.{
  Call, Status, age_check, calls, connected, dry_mode, error_check, new_status, readiness, ready,
  reconciled, record_reconcile, set_docker_connected, set_dry_run,
}

-- What the calls say last, if they say anything: of the connection, of dry-run mode, and of the
-- reconciliation, whose result comes with its time.
abbrev pub last_connected : Bool → List Call → Bool
last_connected b [] = b
last_connected b (connected c ∷ cs) = last_connected c cs
last_connected b (dry_mode d ∷ cs) = last_connected b cs
last_connected b (reconciled e now ∷ cs) = last_connected b cs

abbrev pub last_dry_mode : Bool → List Call → Bool
last_dry_mode b [] = b
last_dry_mode b (connected c ∷ cs) = last_dry_mode b cs
last_dry_mode b (dry_mode d ∷ cs) = last_dry_mode d cs
last_dry_mode b (reconciled e now ∷ cs) = last_dry_mode b cs

abbrev pub last_reconcile : Option (Option Text × Time) → List Call → Option (Option Text × Time)
last_reconcile o [] = o
last_reconcile o (connected c ∷ cs) = last_reconcile o cs
last_reconcile o (dry_mode d ∷ cs) = last_reconcile o cs
last_reconcile o (reconciled e now ∷ cs) = last_reconcile (some (e, now)) cs

abbrev Recorded : Option (Option Text × Time) → Status → Type 0
Recorded none s = (s.last_reconcile_err ≡ none) × (s.last_reconcile_success ≡ none)
Recorded (some (none, t)) s = (s.last_reconcile_err ≡ none) × (s.last_reconcile_success ≡ some t)
Recorded (some (some e, t)) s = s.last_reconcile_err ≡ some e

kept_connected :
    (o : Option (Option Text × Time)) (s : Status) (b : Bool)
    → Recorded o s
    → Recorded o (set_docker_connected s b)
unfolding set_docker_connected
kept_connected none s b r = r
kept_connected (some (none, t)) s b r = r
kept_connected (some (some e, t)) s b r = r

kept_dry :
    (o : Option (Option Text × Time)) (s : Status) (b : Bool)
    → Recorded o s
    → Recorded o (set_dry_run s b)
unfolding set_dry_run
kept_dry none s b r = r
kept_dry (some (none, t)) s b r = r
kept_dry (some (some e, t)) s b r = r

record Summary (cs : List Call) (s s' : Status) (o : Option (Option Text × Time)) : Type 0 where
  is_connected : s'.docker_connected ≡ last_connected s.docker_connected cs
  is_dry : s'.dry_run ≡ last_dry_mode s.dry_run cs
  threshold : s'.ready_threshold ≡ s.ready_threshold
  is_recorded : Recorded (last_reconcile o cs) s'

summary :
    (cs : List Call) (s : Status) (o : Option (Option Text × Time))
    → Recorded o s
    → Summary cs s (calls s cs) o
unfolding calls set_docker_connected set_dry_run record_reconcile
summary [] s o r = record { is_connected = refl; is_dry = refl; threshold = refl; is_recorded = r }
summary (connected b ∷ cs) s o r =
    let t = summary cs (set_docker_connected s b) o (kept_connected o s b r) in
    record {
      is_connected = t.is_connected;
      is_dry = t.is_dry;
      threshold = t.threshold;
      is_recorded = t.is_recorded;
    }
summary (dry_mode b ∷ cs) s o r =
    let t = summary cs (set_dry_run s b) o (kept_dry o s b r) in
    record {
      is_connected = t.is_connected;
      is_dry = t.is_dry;
      threshold = t.threshold;
      is_recorded = t.is_recorded;
    }
summary (reconciled none now ∷ cs) s o r =
    let t = summary cs (record_reconcile s none now) (some (none, now)) (refl, refl) in
    record {
      is_connected = t.is_connected;
      is_dry = t.is_dry;
      threshold = t.threshold;
      is_recorded = t.is_recorded;
    }
summary (reconciled (some e) now ∷ cs) s o r =
    let t = summary cs (record_reconcile s (some e) now) (some (some e, now)) refl in
    record {
      is_connected = t.is_connected;
      is_dry = t.is_dry;
      threshold = t.threshold;
      is_recorded = t.is_recorded;
    }

ready_of_Recorded :
    (s : Status) (o : Option (Option Text × Time)) (now : Time) (dry_run is_up : Bool)
    (threshold : ℕ)
    → s.dry_run ≡ dry_run
    → s.docker_connected ≡ is_up
    → s.ready_threshold ≡ threshold
    → Recorded o s
    → (readiness s now ≡ ready) ↔ (
        (dry_run ≡ false)
        × (is_up ≡ true)
        × ((t : Time) × (o ≡ some (none, t)) × (now ≤ t + threshold)))
unfolding readiness error_check age_check
ready_of_Recorded s none now dry_run is_up threshold p q e r = ground arith
ready_of_Recorded s (some (none, t)) now dry_run is_up threshold p q e r =
    (λ h. (ground arith, ground arith, (t, refl, ground arith)), λ h. ground arith)
ready_of_Recorded s (some (some e, t)) now dry_run is_up threshold p q f r = ground arith

-- The daemon is ready exactly when it is not in dry-run mode, Docker is connected, and the last
-- reconciliation succeeded and is not older than the threshold.
pub ready_iff :
    (threshold : ℕ) (cs : List Call) (now : Time)
    → (readiness (calls (new_status threshold) cs) now ≡ ready) ↔ (
        (last_dry_mode false cs ≡ false)
        × (last_connected false cs ≡ true)
        × ((t : Time) × (last_reconcile none cs ≡ some (none, t)) × (now ≤ t + threshold)))
unfolding new_status
ready_iff threshold cs now =
    let s = new_status threshold in
    let t = summary cs s none (refl, refl) in
    ready_of_Recorded (calls s cs) (last_reconcile none cs) now (last_dry_mode false cs)
      (last_connected false cs) threshold t.is_dry t.is_connected t.threshold t.is_recorded
