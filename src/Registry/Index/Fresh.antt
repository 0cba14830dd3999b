-- ===== src/Registry/Index/Fresh.antt =====
-- The key of getNextIndexedKey against the keys that are in use.
use docker_coredns_sync.Prelude.{
  Bool-cases, In, List, Option, Text, [], ap, append_assoc, arith, codes, false, inl, inr, length,
  nat_eq, none, refl, some, suc, sym, text_eq, true, zero, ℕ, ◌++◌, ◌+◌, ◌<◌, ◌^◌, ◌∙◌, ◌∷◌, ◌≡◌,
  ◌≢◌, ◌≤◌, ◌⊎◌,
}
use docker_coredns_sync.GoMap.{contains, insert, delete, lookup, keys}
use docker_coredns_sync.GoMap.Laws.{lookup-delete, lookup-insert}
use docker_coredns_sync.GoText.Decimal.{
  int_beq_iff, int_eq, pos, ℤ, atoi, parse, parse-print, print, scan,
}
use docker_coredns_sync.GoText.Cut.{drop_prefix-append}
use docker_coredns_sync.Registry.Index.{
  IntSet, next_index, get_next_indexed_key, index_key, index_of, note_index, number_of,
  used_indices,
}

length-delete : (m : IntSet) (k : ℤ) → length (delete m k) ≤ length m
unfolding delete
length-delete [] k = omega arith
length-delete ((j, u) ∷ m) k = ground (arith, length-delete m k)

length-delete_found : (m : IntSet) (k : ℤ) → contains m k ≡ true → length (delete m k) < length m
unfolding delete contains lookup
length-delete_found [] k h = absurd (ground arith)
length-delete_found ((j, u) ∷ m) k h =
    ground (arith, length-delete m k, length-delete_found m k, int_beq_iff j k)

contains-delete : (m : IntSet) (k j : ℤ) → k ≢ j → contains (delete m k) j ≡ contains m j
unfolding contains
contains-delete m k j ne = ground (arith, lookup-delete m k j, int_beq_iff k j)

-- The loop looks at no index below the one it starts at.
next_index_agree :
    (f : ℕ) (m m' : IntSet) (i : ℕ)
    → ((j : ℕ) → i ≤ j → contains m (pos j) ≡ contains m' (pos j))
    → next_index f m i ≡ next_index f m' i
unfolding next_index
next_index_agree zero m m' i h = refl
next_index_agree (suc f) m m' i h =
    rw (h i (omega arith), next_index_agree f m m' (i + 1) (λ j le. h j (omega arith))) refl

-- One round for each index in use, and one more, are enough.
next_index_returns :
    (f : ℕ) (m : IntSet) (i : ℕ)
    → length m < f
    → (idx : ℕ) × (next_index f m i ≡ some idx)
      × (contains m (pos idx) ≡ false)
      × (i ≤ idx)
      × (idx < i + f)
unfolding next_index
next_index_returns zero m i h = absurd (omega arith)
next_index_returns (suc f) m i h = elim (Bool-cases (contains m (pos i))) [
  | inl used ↦
      let m' = delete m (pos i) in
      let agree : (j : ℕ) → i + 1 ≤ j → contains m' (pos j) ≡ contains m (pos j) =
        λ j le. contains-delete m (pos i) (pos j) (ground arith) in
      let (idx, e, free, le, near) =
        next_index_returns f m' (i + 1) (ground (arith, length-delete_found m (pos i) used)) in
      (
        idx,
        rw used (sym (next_index_agree f m' m (i + 1) agree) ∙ e),
        sym (agree idx le) ∙ free,
        omega arith,
        omega arith,
      )
  | inr free ↦ (i, rw free refl, free, omega arith, omega arith)
]

length-insert : (m : IntSet) (k : ℤ) → length (insert m k tt) ≤ suc (length m)
unfolding insert
length-insert [] k = omega arith
length-insert ((j, u) ∷ m) k = ground (arith, length-insert m k)

length-note_index : (o : Option ℤ) (m : IntSet) → length (note_index o m) ≤ suc (length m)
unfolding note_index
length-note_index none m = omega arith
length-note_index (some n) m = length-insert m n

length-used_indices :
    (base : Text) (keys : List Text) → length (used_indices base keys) ≤ length keys
unfolding used_indices
length-used_indices base [] = omega arith
length-used_indices base (key ∷ keys) = omega (
  arith,
  length-note_index (index_of base key) (used_indices base keys),
  length-used_indices base keys,
)

contains-note_index :
    (o : Option ℤ) (m : IntSet) (n : ℤ)
    → (o ≡ some n) ⊎ (contains m n ≡ true)
    → contains (note_index o m) n ≡ true
unfolding note_index contains
contains-note_index none m n h = ground arith
contains-note_index (some k) m n h = ground (arith, lookup-insert m k tt n, int_beq_iff k n)

contains-used_indices :
    (base : Text) (keys : List Text) (key : Text) (n : ℤ)
    → In key keys
    → index_of base key ≡ some n
    → contains (used_indices base keys) n ≡ true
unfolding used_indices
contains-used_indices base [] key n h e = absurd h
contains-used_indices base (k ∷ keys) key n (inl same) e =
    contains-note_index (index_of base k) (used_indices base keys) n
      (inl (ap (index_of base) (sym same) ∙ e))
contains-used_indices base (k ∷ keys) key n (inr h) e =
    contains-note_index (index_of base k) (used_indices base keys) n
      (inr (contains-used_indices base keys key n h e))

atoi_of_parse : (s : Text) (n : ℕ) → parse s ≡ some n → n < 2 ^ 63 → atoi s ≡ some (pos n)
unfolding atoi parse scan
atoi_of_parse [] n h lt = absurd (ground arith)
atoi_of_parse (c ∷ s) n h lt = ground arith

index_of-index_key :
    (base : Text) (n : ℕ) → n < 2 ^ 63 → index_of base (index_key base n) ≡ some (pos n)
unfolding index_of index_key number_of
index_of-index_key base n lt =
    let e : base ++ (b'/' ∷ b'x' ∷ print n) ≡ (base ++ codes "/") ++ (b'x' ∷ print n) =
      sym (append_assoc base (codes "/") (b'x' ∷ print n)) in
    rw (e, drop_prefix-append (base ++ codes "/") (b'x' ∷ print n))
      (atoi_of_parse (print n) n (parse-print n) lt)

-- If etcd returns fewer than 2^62 keys for the base, getNextIndexedKey returns a key that is the base,
-- a slash, an x and a number from 1, and that is none of the keys returned.
pub next_key_fresh :
    (base : Text) (keys : List Text)
    → length keys < 2 ^ 62
    → (idx : ℕ) × (get_next_indexed_key base keys ≡ some (index_key base idx))
      × (0 < idx)
      × (¬ In (index_key base idx) keys)
unfolding get_next_indexed_key
next_key_fresh base keys few =
    let existing = used_indices base keys in
    let (idx, e, free, le, near) =
      next_index_returns (suc (length existing)) existing 1 (omega arith) in
    let small : idx < 2 ^ 63 = omega (arith, length-used_indices base keys) in
    (
      idx,
      rw e refl,
      omega arith,
      λ h. cc (
        contains-used_indices base keys (index_key base idx) (pos idx) h
            (index_of-index_key base idx small),
        free,
      ),
    )

-- getNextIndexedKey finds an index, whatever etcd returns.
pub next_key_returns :
    (base : Text) (keys : List Text) → (key : Text) × (get_next_indexed_key base keys ≡ some key)
unfolding get_next_indexed_key
next_key_returns base keys =
    let existing = used_indices base keys in
    let (idx, e, free, le, near) =
      next_index_returns (suc (length existing)) existing 1 (omega arith) in
    (index_key base idx, rw e refl)
