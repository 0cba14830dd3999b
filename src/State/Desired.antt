-- ===== src/State/Desired.antt =====
-- Which record intents the reconciliation loop is given.
use docker_coredns_sync.Prelude.{
  Bool-cases, In, In-append_cases, In-append_left, In-append_right, List, Text, [], arith,
  if◌then◌else◌, inl, inr, nat_eq, some, text_beq_iff, text_eq, ◌++◌, ◌==◌, ◌↔◌, ◌∷◌, ◌≡◌,
}
use docker_coredns_sync.GoMap.{Map, lookup}
use docker_coredns_sync.GoMap.Distinct.{Distinct, Fresh-lookup}
use docker_coredns_sync.Domain.Event.{is_running}
use docker_coredns_sync.Domain.Intent.{RecordIntent}
use docker_coredns_sync.State.{
  ContainerState, MemoryState, desired_of, get_all_desired_record_intents,
}
use docker_coredns_sync.State.Valid.{IsValid}
use docker_coredns_sync.State.Lookup.{tracked}
use docker_coredns_sync.State.Resync.{IsRunning}

-- The intent is one of a tracked container that runs.
abbrev pub IsDesired : MemoryState → RecordIntent → Type 0
IsDesired s ri =
    (id : Text) × (cs : ContainerState) × (tracked s id ≡ some cs)
    × IsRunning cs
    × In ri cs.record_intents

contributed : ContainerState → List RecordIntent
unfolding is_running
contributed cs = if is_running cs.status then cs.record_intents else []

desired-contributed :
    (id : Text) (cs : ContainerState) (m : Map Text ContainerState)
    → desired_of ((id, cs) ∷ m) ≡ contributed cs ++ desired_of m
unfolding desired_of contributed
desired-contributed id cs m = ground arith

contributed_inv :
    (cs : ContainerState) (ri : RecordIntent)
    → In ri (contributed cs)
    → IsRunning cs × In ri cs.record_intents
unfolding contributed
contributed_inv cs ri h = elim (Bool-cases (is_running cs.status)) [
  | inl runs ↦ (runs, rw runs at h)
  | inr stopped ↦ absurd (rw stopped at h)
]

desired-nil : (ri : RecordIntent) → ¬ In ri (desired_of [])
unfolding desired_of
desired-nil ri h = h

In-contributed :
    (c cs : ContainerState) (ri : RecordIntent)
    → c ≡ cs
    → IsRunning cs
    → In ri cs.record_intents
    → In ri (contributed c)
unfolding contributed
In-contributed c cs ri e runs h = rw (e, runs) h

In-desired :
    (m : Map Text ContainerState) (ri : RecordIntent)
    → Distinct m
    → In ri (desired_of m)
    → (id : Text) × (cs : ContainerState) × (lookup m id ≡ some cs)
      × IsRunning cs
      × In ri cs.record_intents
unfolding lookup
In-desired [] ri d h = absurd (desired-nil ri h)
In-desired ((j, cs) ∷ m) ri d h =
    elim (In-append_cases ri (contributed cs) (desired_of m)
      (rw (desired-contributed j cs m) at h)) [
        | inl here ↦
            let (runs, mem) = contributed_inv cs ri here in
            (j, cs, ground (arith, text_beq_iff j j), runs, mem)
        | inr there ↦
            let (id, c, found, runs, mem) = In-desired m ri d.1 there in
            (id, c, ground (arith, text_beq_iff j id, Fresh-lookup m j d.0), runs, mem)
      ]

desired_of-lookup :
    (m : Map Text ContainerState) (ri : RecordIntent) (id : Text) (cs : ContainerState)
    → lookup m id ≡ some cs
    → IsRunning cs
    → In ri cs.record_intents
    → In ri (desired_of m)
unfolding lookup
desired_of-lookup [] ri id cs found runs h = cc
desired_of-lookup ((j, c) ∷ m) ri id cs found runs h =
    rw (desired-contributed j c m) (elim (Bool-cases (j == id)) [
      | inl same ↦
          In-append_left ri (contributed c) (desired_of m)
            (In-contributed c cs ri (ground arith) runs h)
      | inr differs ↦
          In-append_right ri (contributed c) (desired_of m)
            (desired_of-lookup m ri id cs (ground arith) runs h)
    ])

-- In a valid state, the intents that GetAllDesiredRecordIntents returns are those of the tracked
-- containers that run.
pub IsDesired-iff :
    (s : MemoryState) (ri : RecordIntent)
    → IsValid s
    → In ri (get_all_desired_record_intents s) ↔ IsDesired s ri
unfolding get_all_desired_record_intents tracked
IsDesired-iff s ri v = (
  In-desired s.containers ri v.distinct,
  λ d. desired_of-lookup s.containers ri d.0 d.1 d.2 d.3 d.4,
)
