-- ===== src/Core/Validation/Exact.antt =====
-- ValidateRecord against its rules, stated without its flags and its walk.
use docker_coredns_sync.Prelude.{
  All, List, Option, Option-cases, Text, [], arith, false, if◌then◌else◌, inl, inr, length, nat_eq,
  none, some, subst, suc, text_beq_iff, text_eq, true, ◌&&◌, ◌==◌, ◌↔◌, ◌∷◌, ◌≡◌, ◌≢◌, ◌⊎◌,
}
use mathlib.Core.Path.{fun_ext}
use docker_coredns_sync.GoMap.{Map, insert, lookup}
use docker_coredns_sync.GoMap.Laws.{lookup-insert}
use docker_coredns_sync.Domain.Kind.{kind_beq_iff, kind_eq, record_cname}
use docker_coredns_sync.Domain.Record.{Record, is_cname}
use docker_coredns_sync.Domain.Intent.{RecordIntent}
use docker_coredns_sync.Core.Validation.{
  ValidationError, forward_loop, forward_map, has_cycle, validate_record,
}
use docker_coredns_sync.Core.Validation.Walk.{Ends, Ends-not-Loops, Loops}
use docker_coredns_sync.Core.Validation.Cycle.{walk_decides, Visited-nil}
use docker_coredns_sync.Core.Validation.Rules.{Clashes, rules_iff, validate_parts}

-- The value of the first CNAME record of a name.
abbrev pub first_target : List RecordIntent → Text → Option Text
first_target [] n = none
first_target (ri ∷ existing) n =
    if is_cname ri.rec && ri.rec.name == n then some ri.rec.value else first_target existing n

-- Where a name leads once the new CNAME stands beside the existing records.
abbrev pub target : Record → List RecordIntent → Text → Option Text
target new existing n = if new.name == n then some new.value else first_target existing n

abbrev found_or : Option Text → Option Text → Option Text
found_or none o = o
found_or (some v) o = some v

lookup-forward_loop :
    (existing : List RecordIntent) (m : Map Text Text) (n : Text)
    → lookup (forward_loop existing m) n ≡ found_or (lookup m n) (first_target existing n)
unfolding forward_loop
lookup-forward_loop [] m n = ground arith
lookup-forward_loop (ri ∷ existing) m n = ground (
  arith,
  lookup-forward_loop existing m n,
  lookup-forward_loop existing (insert m ri.rec.name ri.rec.value) n,
  lookup-insert m ri.rec.name ri.rec.value n,
  text_beq_iff ri.rec.name n,
)

lookup-forward_map :
    (new : Record) (existing : List RecordIntent) (n : Text)
    → lookup (forward_map new existing) n ≡ target new existing n
unfolding forward_map lookup
lookup-forward_map new existing n = ground (
  arith,
  lookup-insert (forward_loop existing []) new.name new.value n,
  lookup-forward_loop existing [] n,
)

module _ (new : Record) (existing : List RecordIntent) where
  -- The cycle check says yes on a chain that never ends, and no on a chain that ends.
  has_cycle_decides :
      ((has_cycle new existing ≡ some true) × Loops (target new existing) new.name)
      ⊎ ((has_cycle new existing ≡ some false) × Ends (target new existing) new.name)
  unfolding has_cycle
  has_cycle_decides =
      let forward = forward_map new existing in
      let same : lookup forward ≡ target new existing = fun_ext (lookup-forward_map new existing) in
      elim (walk_decides forward (suc (length forward)) [] new.name (Visited-nil forward new.name)
        (omega arith)) [
          | inl (e, loops) ↦ inl (e, subst (λ next. Loops next new.name) same loops)
          | inr (e, ends) ↦ inr (e, subst (λ next. Ends next new.name) same ends)
        ]

  has_cycle-false_iff : (has_cycle new existing ≡ some false) ↔ Ends (target new existing) new.name
  has_cycle-false_iff = elim has_cycle_decides [
    | inl (e, loops) ↦
        (λ h. cc, λ ends. absurd (Ends-not-Loops (target new existing) new.name ends loops))
    | inr (e, ends) ↦ (λ h. ends, λ _. e)
  ]

is_cname_iff : (r : Record) → (is_cname r ≡ true) ↔ (r.kind ≡ record_cname)
unfolding is_cname
is_cname_iff r = kind_beq_iff r.kind record_cname

-- ValidateRecord accepts a record exactly when it clashes with no existing one and, if it is a CNAME,
-- the chain of CNAMEs from its name ends.
pub validate_record_iff :
    (new : RecordIntent) (existing : List RecordIntent)
    → (validate_record new existing ≡ some none) ↔ (
        All (λ ri. ¬ Clashes new.rec ri.rec) existing
        × (new.rec.kind ≡ record_cname → Ends (target new.rec existing) new.rec.name))
validate_record_iff new existing = (
  λ h.
      let (pass, acyclic) = (validate_parts new existing).0 h in
      (
        (rules_iff new.rec existing).0 pass,
        λ k. (has_cycle-false_iff new.rec existing).0 (acyclic ((is_cname_iff new.rec).1 k)),
      ),
  λ h. (validate_parts new existing).1 (
    (rules_iff new.rec existing).1 h.0,
    λ c. (has_cycle-false_iff new.rec existing).1 (h.1 ((is_cname_iff new.rec).0 c)),
  ),
)

never_none :
    (new : RecordIntent) (existing : List RecordIntent) → validate_record new existing ≢ none
unfolding validate_record
never_none new existing h = elim (has_cycle_decides new.rec existing) [
  | inl (e, loops) ↦ ground (arith, h, e)
  | inr (e, ends) ↦ ground (arith, h, e)
]

-- The walk of the cycle check ends, so ValidateRecord returns.
pub validate_record_returns :
    (new : RecordIntent) (existing : List RecordIntent)
    → (v : Option ValidationError) × (validate_record new existing ≡ some v)
validate_record_returns new existing = elim (Option-cases (validate_record new existing)) [
  | inl e ↦ absurd (never_none new existing e)
  | inr (v, e) ↦ (v, e)
]
