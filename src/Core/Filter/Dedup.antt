-- ===== src/Core/Filter/Dedup.antt =====
-- Step 1 of FilterRecordIntents: the record intents for one address record, and the CNAMEs of one name.
use docker_coredns_sync.Prelude.{
  Bool, Bool-cases, Option, Text, arith, false, if◌then◌else◌, inl, inr, nat_eq, none, refl, some,
  text_beq_iff, text_eq, ◌&&◌, ◌==◌, ◌>>=◌, ◌≡◌, ◌≢◌,
}
use docker_coredns_sync.GoMap as Map
use docker_coredns_sync.Domain.Kind.{RecordKind, kind_beq_ne, kind_eq, record_cname, kind_beq_iff}
use docker_coredns_sync.Domain.Record.{is_cname}
use docker_coredns_sync.Domain.Intent.{RecordIntent}
use docker_coredns_sync.Core.NestedMaps.{
  NestedRecordMap, peek_name_kind_record, peek_record_map, set_record, RecordMap,
}
use docker_coredns_sync.Core.NestedMaps.View.{peek_record_map-update, peek-set_record}
use docker_coredns_sync.Core.Filter.{first, keep_address, should_replace_existing}
use docker_coredns_sync.Core.Filter.Good.{AllGood, set_record-AllGood}
use docker_coredns_sync.Core.Validation.Rules.{IsAddressKind}

-- The winner so far, and one more candidate.
abbrev pub better : Option RecordIntent → RecordIntent → Option RecordIntent
better none ri = some ri
better (some existing) ri = if should_replace_existing ri existing then some ri else some existing

abbrev pub has_key : RecordIntent → Text → RecordKind → Text → Bool
has_key ri n k v = (ri.rec.name == n && ri.rec.kind == k) && ri.rec.value == v

-- The CNAME of a name.
unfoldable pub cname_at : NestedRecordMap → Text → Option RecordIntent
cname_at m n = do record_map ← peek_record_map m n record_cname; first (Map.values record_map)

pub record Stepped (m : NestedRecordMap) (ri : RecordIntent) (m' : NestedRecordMap) : Type 0 where
  pub good : AllGood m'
  pub addresses :
      (n : Text) (k : RecordKind) (v : Text)
      → IsAddressKind k
      → peek_name_kind_record m' n k v ≡ (
          if has_key ri n k v
          then better (peek_name_kind_record m n k v) ri
          else peek_name_kind_record m n k v)
  pub cnames :
      (n : Text)
      → cname_at m' n
        ≡ (if is_cname ri.rec && ri.rec.name == n then better (cname_at m n) ri else cname_at m n)

module _ (m : NestedRecordMap) (ri : RecordIntent) (good : AllGood m) where
  peek_record_map-set_record :
      (n : Text) (k : RecordKind)
      → ri.rec.kind ≢ k
      → peek_record_map (set_record m ri.rec.name ri.rec.kind ri.rec.value ri) n k
        ≡ peek_record_map m n k
  unfolding set_record
  peek_record_map-set_record n k differ = ground (
    arith,
    peek_record_map-update m ri.rec.name ri.rec.kind
        (λ (record_map : RecordMap). Map.insert record_map ri.rec.value ri) n k,
    kind_beq_iff ri.rec.kind k,
  )

  cname_at-set_record :
      (n : Text)
      → ri.rec.kind ≢ record_cname
      → cname_at (set_record m ri.rec.name ri.rec.kind ri.rec.value ri) n ≡ cname_at m n
  unfolding cname_at
  cname_at-set_record n address = rw (peek_record_map-set_record n record_cname address)

  is_cname_of_address : ri.rec.kind ≢ record_cname → is_cname ri.rec ≡ false
  unfolding is_cname
  is_cname_of_address address = kind_beq_ne ri.rec.kind record_cname address

  -- An address that is written.
  set_address-Stepped :
      ri.rec.kind ≢ record_cname
      → better (peek_name_kind_record m ri.rec.name ri.rec.kind ri.rec.value) ri ≡ some ri
      → Stepped m ri (set_record m ri.rec.name ri.rec.kind ri.rec.value ri)
  set_address-Stepped address wins = record {
    good = set_record-AllGood m ri.rec.name ri.rec.kind ri address refl good;
    addresses = λ n k v h. ground (
      arith,
      peek-set_record m ri.rec.name ri.rec.kind ri.rec.value ri n k v,
      text_beq_iff ri.rec.name n,
      kind_beq_iff ri.rec.kind k,
      text_beq_iff ri.rec.value v,
    );
    cnames = λ n. rw (is_cname_of_address address) (cname_at-set_record n address);
  }

  -- An address that loses against the one that stands there.
  keep_old-Stepped :
      ri.rec.kind ≢ record_cname
      → better (peek_name_kind_record m ri.rec.name ri.rec.kind ri.rec.value) ri
        ≡ peek_name_kind_record m ri.rec.name ri.rec.kind ri.rec.value
      → Stepped m ri m
  keep_old-Stepped address loses = record {
    good = good;
    addresses = λ n k v h. ground (
      arith,
      text_beq_iff ri.rec.name n,
      kind_beq_iff ri.rec.kind k,
      text_beq_iff ri.rec.value v,
    );
    cnames = λ n. rw (is_cname_of_address address);
  }

  pub keep_address-Stepped :
      (o : Option RecordIntent)
      → ri.rec.kind ≢ record_cname
      → peek_name_kind_record m ri.rec.name ri.rec.kind ri.rec.value ≡ o
      → Stepped m ri (keep_address m ri.rec.kind ri o)
  unfolding keep_address
  keep_address-Stepped none address found = set_address-Stepped address (rw found)
  keep_address-Stepped (some existing) address found =
      elim (Bool-cases (should_replace_existing ri existing)) [
        | inl wins ↦ rw wins (set_address-Stepped address (rw (found, wins)))
        | inr loses ↦ rw loses (keep_old-Stepped address (rw (found, loses)))
      ]
