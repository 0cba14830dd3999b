-- ===== src/Core/Validation.antt =====
-- ValidateRecord of internal/core/validation.go. An error is a constructor of `ValidationError`, and
-- none inside is the nil error. The result is none where the fuel of the cycle walk runs out.
pub mod Walk
pub mod Cycle
pub mod Rules
pub mod Exact
use docker_coredns_sync.Prelude.{
  Bool, List, Option, Text, [], false, if◌then◌else◌, length, nat_eq, none, not, some, suc, text_eq,
  true, zero, ℕ, ◌&&◌, ◌==◌, ◌>>=◌, ◌||◌, ◌∷◌,
}
use docker_coredns_sync.GoMap.{Map, contains, insert, lookup}
use docker_coredns_sync.Domain.Kind.{kind_eq}
use docker_coredns_sync.Domain.Record.{Record, is_a, is_aaaa, is_cname, is_address}
use docker_coredns_sync.Domain.Intent.{RecordIntent}

pub data ValidationError : Type 0 where
  cname_beside_address address_beside_cname multiple_cnames : ValidationError
  duplicate_a duplicate_aaaa cname_cycle : ValidationError

pub record Flags : Type 0 where
  pub same_name_cname : Bool
  pub same_name_any_address : Bool
  pub dup_a_value : Bool
  pub dup_aaaa_value : Bool

abbrev pub no_flags : Flags
no_flags = record {
  same_name_cname = false;
  same_name_any_address = false;
  dup_a_value = false;
  dup_aaaa_value = false;
}

-- One round of the loop that sets the flags; an unknown kind is only logged.
unfoldable pub flag : Record → Flags → Record → Flags
unfolding is_a is_aaaa is_cname
flag new_r f r =
    let same_name = r.name == new_r.name in
    let same_value = r.value == new_r.value in
    if is_a r
    then record f {
      same_name_any_address = same_name || f.same_name_any_address;
      dup_a_value = (same_name && same_value && is_a new_r) || f.dup_a_value;
    }
    else if is_aaaa r
    then record f {
      same_name_any_address = same_name || f.same_name_any_address;
      dup_aaaa_value = (same_name && same_value && is_aaaa new_r) || f.dup_aaaa_value;
    }
    else if is_cname r
    then record f { same_name_cname = same_name || f.same_name_cname }
    else f

unfoldable pub flags : Record → List RecordIntent → Flags → Flags
unfolding flag
flags new_r [] f = f
flags new_r (ri ∷ existing) f = flags new_r existing (flag new_r f ri.rec)

-- The map `forward`, before the new record is written: the first CNAME of a name counts.
unfoldable pub forward_loop : List RecordIntent → Map Text Text → Map Text Text
unfolding is_cname contains insert
forward_loop [] forward = forward
forward_loop (ri ∷ existing) forward = forward_loop existing (
    if is_cname ri.rec && not (contains forward ri.rec.name)
    then insert forward ri.rec.name ri.rec.value
    else forward)

unfoldable pub forward_map : Record → List RecordIntent → Map Text Text
unfolding forward_loop
forward_map new_r existing = insert (forward_loop existing []) new_r.name new_r.value

-- The loop that follows `forward` from the new name: true when it comes to a name that it has seen,
-- none when the fuel runs out.
unfoldable pub walk : ℕ → Map Text Text → Map Text (Unit {0}) → Text → Option Bool
walk zero forward seen cur = none
walk (suc fuel) forward seen cur = elim (lookup forward cur) [
  | none ↦ some false
  | some v ↦ elim (contains seen cur) [
    | true ↦ some true
    | false ↦ walk fuel forward (insert seen cur tt) v
  ]
]

-- A name is seen once, so one round more than there are names is enough.
unfoldable pub has_cycle : Record → List RecordIntent → Option Bool
unfolding walk
has_cycle new_r existing =
    let forward = forward_map new_r existing in walk (suc (length forward)) forward [] new_r.name

unfoldable pub cycle_error : Bool → Option ValidationError
cycle_error true = some cname_cycle
cycle_error false = none

-- ValidateRecord: none when the fuel of the walk runs out, else the error, if any.
unfoldable pub validate_record : RecordIntent → List RecordIntent → Option (Option ValidationError)
unfolding is_a is_aaaa is_cname is_address cycle_error
validate_record new_ri existing =
    let new_r = new_ri.rec in
    let f = flags new_r existing no_flags in
    if is_cname new_r && f.same_name_any_address
    then some (some cname_beside_address)
    else if is_address new_r && f.same_name_cname
    then some (some address_beside_cname)
    else if is_cname new_r && f.same_name_cname
    then some (some multiple_cnames)
    else if is_a new_r && f.dup_a_value
    then some (some duplicate_a)
    else if is_aaaa new_r && f.dup_aaaa_value
    then some (some duplicate_aaaa)
    else if is_cname new_r
    then (do cycle ← has_cycle new_r existing; some (cycle_error cycle))
    else some none
