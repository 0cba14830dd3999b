-- ===== src/Core/Filter/DedupCname.antt =====
-- Step 1 of FilterRecordIntents at a CNAME, and the whole of step 1.
use docker_coredns_sync.Prelude.{
  Bool-cases, Option-cases, Text, [], ap, arith, false, if◌then◌else◌, inl, inr, nat_eq, none, refl,
  some, text_beq_iff, text_eq, ◌&&◌, ◌==◌, ◌∙◌, ◌∷◌, ◌≡◌,
}
use docker_coredns_sync.GoMap as Map
use docker_coredns_sync.Domain.Kind.{RecordKind, kind_beq_iff, kind_eq, record_cname}
use docker_coredns_sync.Domain.Record.{is_cname}
use docker_coredns_sync.Domain.Intent.{RecordIntent}
use docker_coredns_sync.Core.NestedMaps.{
  NestedRecordMap, RecordMap, delete_record, peek_name_kind_record, peek_name_kind_records,
  peek_record_map, set_record, update,
}
use docker_coredns_sync.Core.NestedMaps.View.{peek_record_map-update}
use docker_coredns_sync.Core.Filter.{first, keep_cname, should_replace_existing}
use docker_coredns_sync.Core.Filter.Good.{AllGood, one-IsGood}
use docker_coredns_sync.Core.Filter.Dedup.{Stepped, better, cname_at}

abbrev Written : NestedRecordMap → RecordIntent → NestedRecordMap → Type 0
Written m ri m' =
    (n : Text) (k : RecordKind)
    → peek_record_map m' n k ≡ (
        if ri.rec.name == n && record_cname == k
        then some ((ri.rec.value, ri) ∷ [])
        else peek_record_map m n k)

module _ (m : NestedRecordMap) (ri : RecordIntent) (good : AllGood m)
    (cname : ri.rec.kind ≡ record_cname) where
  -- A CNAME that takes the place of what stood under its name.
  Written-AllGood : (m' : NestedRecordMap) → Written m ri m' → AllGood m'
  Written-AllGood m' w n k rm found = elim (Bool-cases (ri.rec.name == n && record_cname == k)) [
    | inl same ↦
        let names : ri.rec.name ≡ n = ground (arith, text_beq_iff ri.rec.name n) in
        let kinds : record_cname ≡ k = ground (arith, kind_beq_iff record_cname k) in
        let maps : ((ri.rec.value, ri) ∷ []) ≡ rm = ground (arith, w n k) in
        rw (← names, ← kinds, ← maps)
          (one-IsGood ri.rec.name record_cname ri (ground (arith, cname)))
    | inr differs ↦ good n k rm (ground (arith, w n k))
  ]

  Written-Stepped :
      (m' : NestedRecordMap)
      → Written m ri m'
      → better (cname_at m ri.rec.name) ri ≡ some ri
      → Stepped m ri m'
  unfolding peek_name_kind_record cname_at is_cname first Map.values
  Written-Stepped m' w wins = record {
    good = Written-AllGood m' w;
    addresses = λ n k v address. ground (arith, w n k, cname);
    cnames = λ n. ground (arith, w n record_cname, cname, text_beq_iff ri.rec.name n);
  }

  set_first-Written :
      peek_record_map m ri.rec.name record_cname ≡ none
      → Written m ri (set_record m ri.rec.name record_cname ri.rec.value ri)
  unfolding set_record Map.insert
  set_first-Written absent n k = ground (
    arith,
    peek_record_map-update m ri.rec.name record_cname
        (λ (record_map : RecordMap). Map.insert record_map ri.rec.value ri) n k,
  )

  -- Deleting the one CNAME of a name and writing another.
  replace-Written :
      (e : RecordIntent)
      → peek_record_map m ri.rec.name record_cname ≡ some ((e.rec.value, e) ∷ [])
      → Written m ri (
          set_record
            (delete_record m ri.rec.name record_cname e.rec.value)
            ri.rec.name
            record_cname
            ri.rec.value
            ri)
  unfolding set_record delete_record Map.insert Map.delete
  replace-Written e found n k =
      let drop = λ (record_map : RecordMap). Map.delete record_map e.rec.value in
      let m' = update m ri.rec.name record_cname drop in
      ground (
        arith,
        peek_record_map-update m ri.rec.name record_cname drop ri.rec.name record_cname,
        peek_record_map-update m ri.rec.name record_cname drop n k,
        peek_record_map-update m' ri.rec.name record_cname
            (λ (record_map : RecordMap). Map.insert record_map ri.rec.value ri) n k,
        text_beq_iff ri.rec.name ri.rec.name,
        kind_beq_iff record_cname record_cname,
        text_beq_iff e.rec.value e.rec.value,
      )

  cname_at_one :
      (e : RecordIntent)
      → peek_record_map m ri.rec.name record_cname ≡ some ((e.rec.value, e) ∷ [])
      → cname_at m ri.rec.name ≡ some e
  unfolding cname_at first Map.values
  cname_at_one e found = ground arith

  keep_old_cname-Stepped :
      (e : RecordIntent)
      → cname_at m ri.rec.name ≡ some e
      → should_replace_existing ri e ≡ false
      → Stepped m ri m
  unfolding is_cname
  keep_old_cname-Stepped e found loses = record {
    good = good;
    addresses = λ n k v address. ground (arith, cname, kind_beq_iff ri.rec.kind k);
    cnames = λ n. ground (arith, cname, text_beq_iff ri.rec.name n);
  }

  pub keep_cname-Stepped :
      (m' : NestedRecordMap) × (keep_cname m ri (peek_name_kind_records m ri.rec.name record_cname)
        ≡ some m')
      × Stepped m ri m'
  unfolding peek_name_kind_records keep_cname first Map.values
  keep_cname-Stepped = elim (Option-cases (peek_record_map m ri.rec.name record_cname)) [
    | inl absent ↦ (
      set_record m ri.rec.name record_cname ri.rec.value ri,
      rw absent,
      Written-Stepped _ (set_first-Written absent) (unfold cname_at in rw absent),
    )
    | inr (rm, found) ↦
        let (e, single) = (good ri.rec.name record_cname rm found).single refl in
        let one : peek_record_map m ri.rec.name record_cname ≡ some ((e.rec.value, e) ∷ []) =
          found ∙ ap some single in
        elim (Bool-cases (should_replace_existing ri e)) [
          | inl wins ↦ (
            set_record (delete_record m ri.rec.name record_cname e.rec.value) ri.rec.name
                record_cname ri.rec.value ri,
            rw (one, wins),
            Written-Stepped _ (replace-Written e one) (rw (cname_at_one e one, wins)),
          )
          | inr loses ↦ (m, rw (one, loses), keep_old_cname-Stepped e (cname_at_one e one) loses)
        ]
  ]
