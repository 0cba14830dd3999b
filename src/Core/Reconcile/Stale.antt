-- ===== src/Core/Reconcile/Stale.antt =====
-- Which actual records step 1 of ReconcileAndValidate removes, said without the sets of keys.
use docker_coredns_sync.Prelude.{
  Bool-cases, In, List, Option, Text, [], ap, arith, false, inl, inr, nat_eq, none, refl, some, sym,
  text_beq_iff, text_eq, true, ◌↔◌, ◌∙◌, ◌∷◌, ◌≡◌, ◌⊎◌,
}
use docker_coredns_sync.GoMap.{contains, insert, lookup}
use docker_coredns_sync.GoMap.Laws.{lookup-insert}
use docker_coredns_sync.State.{TextSet}
use docker_coredns_sync.Domain.Intent.{RecordIntent, key}
use docker_coredns_sync.Core.Reconcile.{is_orphaned, is_stale, key_set}

-- A desired record has this key.
abbrev pub Wanted : List RecordIntent → Text → Type 0
Wanted desired k = (d : RecordIntent) × In d desired × (key d ≡ k)

-- Garbage collection is on, and the host is none of the live ones.
abbrev pub IsDead : Option TextSet → Text → Type 0
IsDead none host = ⊥
IsDead (some live) host = contains live host ≡ false

-- No desired record has the record's key, and its host is this one or a dead one.
abbrev pub IsStale : List RecordIntent → Text → Option TextSet → RecordIntent → Type 0
IsStale desired hostname live r =
    (¬ Wanted desired (key r)) × ((r.hostname ≡ hostname) ⊎ IsDead live r.hostname)

contains-insert_iff :
    (m : TextSet) (k j : Text)
    → (contains (insert m k tt) j ≡ true) ↔ ((k ≡ j) ⊎ (contains m j ≡ true))
unfolding contains
contains-insert_iff m k j = ground (arith, lookup-insert m k tt j, text_beq_iff k j)

contains-key_set :
    (desired : List RecordIntent) (k : Text)
    → (contains (key_set desired) k ≡ true) ↔ Wanted desired k
unfolding key_set
contains-key_set [] k = (λ h. absurd (unfold contains lookup in ground arith), λ h. absurd h.1)
contains-key_set (d ∷ desired) k = (
  λ h. elim ((contains-insert_iff (key_set desired) (key d) k).0 h) [
    | inl here ↦ (d, inl refl, here)
    | inr there ↦ let (x, mem, e) = (contains-key_set desired k).0 there in (x, inr mem, e)
  ],
  λ h. (contains-insert_iff (key_set desired) (key d) k).1 (elim h.1 [
    | inl same ↦ inl (ap key (sym same) ∙ h.2)
    | inr mem ↦ inr ((contains-key_set desired k).1 (h.0, mem, h.2))
  ]),
)

is_orphaned_iff :
    (live : Option TextSet) (r : RecordIntent)
    → (is_orphaned live r ≡ true) ↔ IsDead live r.hostname
unfolding is_orphaned
is_orphaned_iff none r = (λ h. absurd (ground arith), λ h. absurd h)
is_orphaned_iff (some live) r = ground arith

stale_parts :
    (hostname : Text) (live : Option TextSet) (keep : TextSet) (r : RecordIntent)
    → (is_stale hostname live keep r ≡ true)
      ↔ ((contains keep (key r) ≡ false) × ((r.hostname ≡ hostname) ⊎ (is_orphaned live r ≡ true)))
unfolding is_stale
stale_parts hostname live keep r = ground (arith, text_beq_iff r.hostname hostname)

-- Step 1 removes the actual records that no desired one stands for, if they are this host's own or a
-- dead host's.
pub is_stale_iff :
    (desired : List RecordIntent) (hostname : Text) (live : Option TextSet) (r : RecordIntent)
    → (is_stale hostname live (key_set desired) r ≡ true) ↔ IsStale desired hostname live r
is_stale_iff desired hostname live r =
    let parts = stale_parts hostname live (key_set desired) r in
    let wanted = contains-key_set desired (key r) in
    let dead = is_orphaned_iff live r in
    (
      λ h. (
        λ w. cc (wanted.1 w, (parts.0 h).0),
        elim (parts.0 h).1 [ inl own ↦ inl own | inr orphaned ↦ inr (dead.0 orphaned) ],
      ),
      λ h. parts.1 (
        elim (Bool-cases (contains (key_set desired) (key r))) [
          | inl yes_ ↦ absurd (h.0 (wanted.0 yes_))
          | inr no_ ↦ no_
        ],
        elim h.1 [ inl own ↦ inl own | inr gone ↦ inr (dead.1 gone) ],
      ),
    )
