-- ===== src/Registry/Index.antt =====
-- getNextIndexedKey of internal/registry/etcd_registry.go, on the keys that etcd returns for its base.
pub mod Fresh
use docker_coredns_sync.Prelude.{
  List, Option, Text, [], codes, if◌then◌else◌, length, nat_eq, none, some, suc, text_eq, zero, ℕ,
  ◌++◌, ◌+◌, ◌/◌, ◌==◌, ◌>>=◌, ◌∷◌,
}
use docker_coredns_sync.GoMap.{Map, contains, insert, keys}
use docker_coredns_sync.GoText.{drop_prefix}
use docker_coredns_sync.GoText.Decimal.{ℤ, pos, atoi, print, int_eq}

-- map[int]struct{}
abbrev pub IntSet : Type 0
IntSet = Map ℤ (Unit {0})

unfoldable pub number_of : Text → Option ℤ
unfolding atoi
number_of [] = none
number_of (c ∷ s) = if c == b'x' then atoi s else none

-- The index of a key under its base: none for a key that is left out.
unfoldable pub index_of : Text → Text → Option ℤ
unfolding number_of drop_prefix
index_of base key = do suffix ← drop_prefix key (base ++ codes "/"); number_of suffix

unfoldable pub note_index : Option ℤ → IntSet → IntSet
unfolding insert
note_index none existing = existing
note_index (some n) existing = insert existing n tt

-- The loop over the keys
unfoldable pub used_indices : Text → List Text → IntSet
unfolding note_index index_of
used_indices base [] = []
used_indices base (key ∷ keys) = note_index (index_of base key) (used_indices base keys)

-- The loop for the first free index: none when the fuel runs out. One round for each index in use, and
-- one more, are enough.
unfoldable pub next_index : ℕ → IntSet → ℕ → Option ℕ
unfolding contains
next_index zero existing idx = none
next_index (suc f) existing idx =
    let rest = next_index f existing (idx + 1) in
    if contains existing (pos idx) then rest else some idx

unfoldable pub index_key : Text → ℕ → Text
unfolding print
index_key base idx = base ++ (b'/' ∷ b'x' ∷ print idx)

unfoldable pub get_next_indexed_key : Text → List Text → Option Text
unfolding next_index used_indices index_key
get_next_indexed_key base keys =
    let existing = used_indices base keys in
    do idx ← next_index (suc (length existing)) existing 1; some (index_key base idx)
