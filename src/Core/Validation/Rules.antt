-- ===== src/Core/Validation/Rules.antt =====
-- The rules 1 to 3 of ValidateRecord: which existing records a new one clashes with.
use docker_coredns_sync.Prelude.{
  All, Bool, List, Text, [], arith, false, nat_eq, none, refl, some, text_beq, text_beq_iff,
  text_eq, true, ◌&&◌, ◌==◌, ◌||◌, ◌↔◌, ◌∷◌, ◌≡◌, ◌⊎◌,
}
use docker_coredns_sync.Domain.Kind.{
  RecordKind, kind_beq, kind_beq_iff, kind_eq, record_a, record_aaaa, record_cname, other_kind,
}
use docker_coredns_sync.Domain.Record.{Record, is_a, is_aaaa, is_cname, is_address}
use docker_coredns_sync.Domain.Intent.{RecordIntent}
use docker_coredns_sync.Core.Validation.{Flags, flag, flags, has_cycle, no_flags, validate_record}

abbrev pub IsAddressKind : RecordKind → Type 0
IsAddressKind k = (k ≡ record_a) ⊎ (k ≡ record_aaaa)

-- Two records may not stand together: a CNAME stands alone under its name, and an address is not
-- repeated within its family.
abbrev pub Clashes : Record → Record → Type 0
Clashes new r =
    (r.name ≡ new.name)
    × (((new.kind ≡ record_cname) × (IsAddressKind r.kind ⊎ (r.kind ≡ record_cname)))
        ⊎ ((IsAddressKind new.kind
            × ((r.kind ≡ record_cname) ⊎ ((r.kind ≡ new.kind) × (r.value ≡ new.value))))))

clashes : Record → Record → Bool
unfolding text_beq kind_beq is_address is_cname
clashes new r =
    r.name == new.name
    && ((is_cname new && (is_address r || is_cname r))
        || (is_address new && (is_cname r || (r.kind == new.kind && r.value == new.value))))

clashes_iff : (new r : Record) → (clashes new r ≡ true) ↔ Clashes new r
unfolding clashes
clashes_iff new r = ground (
  arith,
  text_beq_iff r.name new.name,
  text_beq_iff r.value new.value,
  kind_beq_iff r.kind new.kind,
  kind_beq_iff r.kind record_cname,
  kind_beq_iff r.kind record_a,
  kind_beq_iff r.kind record_aaaa,
  kind_beq_iff new.kind record_cname,
  kind_beq_iff new.kind record_a,
  kind_beq_iff new.kind record_aaaa,
)

-- The tests of the rules 1 to 3 on the flags.
pub rejects : Record → Flags → Bool
unfolding is_a is_aaaa is_cname is_address
rejects new f =
    (is_cname new && f.same_name_any_address)
    || (is_address new && f.same_name_cname)
    || (is_cname new && f.same_name_cname)
    || (is_a new && f.dup_a_value)
    || (is_aaaa new && f.dup_aaaa_value)

-- By the kinds of the two records.
rejects-flag_kinds :
    (k l : RecordKind) (n m v w : Text) (f : Flags)
    → let new : Record = record { name = n; kind = k; value = v } in
      let r : Record = record { name = m; kind = l; value = w } in
      rejects new (flag new f r) ≡ (clashes new r || rejects new f)
unfolding rejects flag clashes
rejects-flag_kinds record_a record_a n m v w f = ground arith
rejects-flag_kinds record_a l n m v w f = ground arith
rejects-flag_kinds record_aaaa record_a n m v w f = ground arith
rejects-flag_kinds record_aaaa l n m v w f = ground arith
rejects-flag_kinds record_cname record_a n m v w f = ground arith
rejects-flag_kinds record_cname l n m v w f = ground arith
rejects-flag_kinds (other_kind s) record_a n m v w f = ground arith
rejects-flag_kinds (other_kind s) l n m v w f = ground arith

rejects-flag :
    (new r : Record) (f : Flags) → rejects new (flag new f r) ≡ (clashes new r || rejects new f)
rejects-flag new r f = rejects-flag_kinds new.kind r.kind new.name r.name new.value r.value f

clashes_any : Record → List RecordIntent → Bool
clashes_any new [] = false
clashes_any new (ri ∷ existing) = clashes new ri.rec || clashes_any new existing

rejects-flags :
    (new : Record) (existing : List RecordIntent) (f : Flags)
    → rejects new (flags new existing f) ≡ (clashes_any new existing || rejects new f)
unfolding flags clashes_any
rejects-flags new [] f = refl
rejects-flags new (ri ∷ existing) f =
    ground (arith, rejects-flags new existing (flag new f ri.rec), rejects-flag new ri.rec f)

rejects-no_flags : (new : Record) → rejects new no_flags ≡ false
unfolding rejects
rejects-no_flags new = ground arith

clashes_any_iff :
    (new : Record) (existing : List RecordIntent)
    → (clashes_any new existing ≡ false) ↔ All (λ ri. ¬ Clashes new ri.rec) existing
unfolding clashes_any
clashes_any_iff new [] = (λ h. tt, λ h. refl)
clashes_any_iff new (ri ∷ existing) = (
  λ h. (
    λ c. ground (arith, (clashes_iff new ri.rec).1 c),
    (clashes_any_iff new existing).0 (ground arith),
  ),
  λ h. ground (
    arith,
    (clashes_any_iff new existing).1 h.1,
    λ (e : clashes new ri.rec ≡ true). h.0 ((clashes_iff new ri.rec).0 e),
  ),
)

-- ValidateRecord accepts by its rules 1 to 3 exactly the records that clash with no existing one.
pub rules_iff :
    (new : Record) (existing : List RecordIntent)
    → (rejects new (flags new existing no_flags) ≡ false)
      ↔ All (λ ri. ¬ Clashes new ri.rec) existing
rules_iff new existing =
    rw (rejects-flags new existing no_flags, rejects-no_flags new)
      (
        λ h. (clashes_any_iff new existing).0 (ground arith),
        λ h. ground (arith, (clashes_any_iff new existing).1 h),
      )

pub validate_parts :
    (new : RecordIntent) (existing : List RecordIntent)
    → (validate_record new existing ≡ some none) ↔ (
        (rejects new.rec (flags new.rec existing no_flags) ≡ false)
        × (is_cname new.rec ≡ true → has_cycle new.rec existing ≡ some false))
unfolding validate_record rejects
validate_parts new existing = ground arith
