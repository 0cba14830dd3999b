-- ===== src/Examples/OnePair.antt =====
-- An etcd store with room for one pair and one lock, for the runs.
use docker_coredns_sync.Prelude.{
  Bool, Bool-cases, In, List, Option, Result, Text, [], ap, arith, codes, err, false, if◌then◌else◌,
  inl, inr, length, nat_eq, none, ok, refl, some, subst, sym, text_beq, text_beq_iff, text_eq, true,
  ℕ, ◌*◌, ◌+◌, ◌<◌, ◌^◌, ◌↔◌, ◌∙◌, ◌∷◌, ◌≡◌, ◌≢◌, ◌≤◌,
}
use docker_coredns_sync.GoMap.{keys}
use docker_coredns_sync.GoText.{has_prefix}
use docker_coredns_sync.GoText.Decimal.{pos, int_eq}
use docker_coredns_sync.Registry.{Kvs}
use docker_coredns_sync.Registry.Client.{EtcdClient, EtcdRegistry}
use docker_coredns_sync.Registry.Client.Store.{KeepsStore, ReadsCurrent}
use docker_coredns_sync.Registry.Lock.{Runtime}
use docker_coredns_sync.Registry.Lock.Ends.{KeepsTime}
use docker_coredns_sync.Registry.Lock.Held.{KeepsLocks}
use docker_coredns_sync.Config.{EtcdConfig}

pub record Mem : Type 0 where
  pub pair : Option (Text × Text)
  pub lock : Option (Text × ℕ)
  pub clock : ℕ

-- The value of a pair at a key
abbrev pub at_key : Option (Text × Text) → Text → Option Text
at_key none k = none
at_key (some (key, value)) k = if text_beq key k then some value else none

abbrev pub value_at : Mem → Text → Option Text
value_at w k = at_key w.pair k

abbrev pub listed : Option (Text × Text) → Text → Kvs
listed none prefix = []
listed (some (key, value)) prefix = if has_prefix key prefix then (key, value) ∷ [] else []

-- A put at another key than that of the pair finds no room.
abbrev pub put_pair : Option (Text × Text) → Text → Text → Mem → Result Text (Unit {0}) × Mem
put_pair none key value w = (ok tt, record w { pair = some (key, value) })
put_pair (some (k, v)) key value w =
    if text_beq k key
    then (ok tt, record w { pair = some (key, value) })
    else (err (codes "full"), w)

abbrev pub is_in : Text → List Text → Bool
is_in k [] = false
is_in k (x ∷ xs) = if text_beq k x then true else is_in k xs

abbrev pub without : Option (Text × Text) → List Text → Option (Text × Text)
without none ks = none
without (some (k, v)) ks = if is_in k ks then none else some (k, v)

abbrev pub create_lock : Option (Text × ℕ) → Text → ℕ → Mem → Result Text Bool × Mem
create_lock none key lease w = (ok true, record w { lock = some (key, lease) })
create_lock (some (k, l)) key lease w = (ok false, w)

abbrev pub without_lock : Option (Text × ℕ) → Text → Option (Text × ℕ)
without_lock none key = none
without_lock (some (k, l)) key = if text_beq k key then none else some (k, l)

abbrev pub client : EtcdClient Mem
client = record {
  get = λ prefix opts w. (ok (listed w.pair prefix), w);
  put = λ key value lease w. put_pair w.pair key value w;
  delete = λ key w.
      (ok tt, record w { pair = without w.pair (key ∷ []); lock = without_lock w.lock key });
  grant = λ ttl w. (ok 7, w);
  revoke = λ lease w. (ok tt, w);
  keep_alive = λ lease w. (ok tt, w);
  delete_all = λ ks w. (ok tt, record w { pair = without w.pair ks });
  create = λ key value lease w. create_lock w.lock key lease w;
  close = λ w. (ok tt, w);
}

abbrev pub runtime : Runtime Mem
runtime = record {
  now = λ w. w.clock;
  sleep = λ d w. record w { clock = w.clock + d };
  ctx_err = λ w. none;
  cancel = λ lease w. w;
  duration = λ d. 100000000;
}

is_in_iff : (k : Text) (ks : List Text) → (is_in k ks ≡ true) ↔ In k ks
is_in_iff k [] = (λ h. absurd (ground (arith, h)), λ h. absurd h)
is_in_iff k (x ∷ xs) = elim (Bool-cases (text_beq k x)) [
  | inl same ↦ rw same (λ h. inl ((text_beq_iff k x).0 same), λ h. refl)
  | inr other ↦ rw other (
    λ h. inr ((is_in_iff k xs).0 h),
    λ h. elim h [
      | inl e ↦ absurd (cc (other, (text_beq_iff k x).1 e))
      | inr m ↦ (is_in_iff k xs).1 m
    ],
  )
]

at_same : (k v key value : Text) → at_key (some (k, v)) key ≡ some value → (k ≡ key) × (v ≡ value)
at_same k v key value h = elim (Bool-cases (text_beq k key)) [
  | inl same ↦ ((text_beq_iff k key).0 same, ground (arith, same, h))
  | inr other ↦ absurd (ground (arith, other, h))
]

at_self : (k v key value : Text) → k ≡ key → v ≡ value → at_key (some (k, v)) key ≡ some value
at_self k v key value e f = rw ((text_beq_iff k key).1 e) (ap (λ (x : Text). some x) f)

listed-In :
    (k v prefix key value : Text)
    → In (key, value) (listed (some (k, v)) prefix)
    → (has_prefix k prefix ≡ true) × (k ≡ key) × (v ≡ value)
listed-In k v prefix key value h = elim (Bool-cases (has_prefix k prefix)) [
  | inl yes_prefix ↦
      let m : In (key, value) ((k, v) ∷ []) =
        subst (λ b. In {A = Text × Text} (key, value) (if b then (k, v) ∷ [] else [])) yes_prefix
          h in
      elim m [
        | inl e ↦ (
          yes_prefix,
          sym (ap (λ (p : Text × Text). p.0) e),
          sym (ap (λ (p : Text × Text). p.1) e),
        )
        | inr gone ↦ absurd gone
      ]
  | inr no_prefix ↦
      absurd
        (subst (λ b. In {A = Text × Text} (key, value) (if b then (k, v) ∷ [] else [])) no_prefix h)
]

listed-Lists :
    (o : Option (Text × Text)) (prefix key value : Text)
    → In (key, value) (listed o prefix)
      ↔ ((has_prefix key prefix ≡ true) × (at_key o key ≡ some value))
listed-Lists none prefix key value = (λ h. absurd h, λ h. absurd (ground (arith, h.1)))
listed-Lists (some (k, v)) prefix key value = (
  λ h.
      let (p, e, f) = listed-In k v prefix key value h in
      (subst (λ x. has_prefix x prefix ≡ true) e p, at_self k v key value e f),
  λ h.
      let (e, f) = at_same k v key value h.1 in
      rw (subst (λ x. has_prefix x prefix ≡ true) (sym e) h.0) (inl (λ i. (sym e i, sym f i))),
)

keys_of_listed :
    (o : Option (Text × Text)) (prefix key : Text)
    → In key (keys (listed o prefix)) ↔ ((has_prefix key prefix ≡ true) × (at_key o key ≢ none))
unfolding keys
keys_of_listed none prefix key = (λ h. absurd h, λ h. absurd (h.1 refl))
keys_of_listed (some (k, v)) prefix key = elim (Bool-cases (has_prefix k prefix)) [
  | inl under ↦ rw under (
    λ h. elim h [
      | inl e ↦ (
        subst (λ x. has_prefix x prefix ≡ true) (sym e) under,
        λ z. absurd (ground (arith, z, (text_beq_iff k key).1 (sym e))),
      )
      | inr gone ↦ absurd gone
    ],
    λ h. elim (Bool-cases (text_beq k key)) [
      | inl same ↦ inl (sym ((text_beq_iff k key).0 same))
      | inr other ↦ absurd (h.1 (rw other refl))
    ],
  )
  | inr apart ↦ rw apart (
    λ h. absurd h,
    λ h. elim (Bool-cases (text_beq k key)) [
      | inl same ↦ absurd (
          cc (
            apart,
            subst (λ x. has_prefix x prefix ≡ true) (sym ((text_beq_iff k key).0 same)) h.0,
          ))
      | inr other ↦ absurd (h.1 (rw other refl))
    ],
  )
]

listed_few : (o : Option (Text × Text)) (prefix : Text) → length (keys (listed o prefix)) < 2 ^ 62
unfolding keys
listed_few none prefix = omega arith
listed_few (some (k, v)) prefix = elim (Bool-cases (has_prefix k prefix)) [
  | inl under ↦ rw under (omega arith)
  | inr apart ↦ rw apart (omega arith)
]

overwritten :
    (j v key value k : Text)
    → j ≡ key
    → (if text_beq key k then some value else none)
      ≡ (if text_beq key k then some value else at_key (some (j, v)) k)
overwritten j v key value k e = elim (Bool-cases (text_beq key k)) [
  | inl same ↦ rw same refl
  | inr other ↦ rw other (rw e (rw other refl))
]

put_pair_writes :
    (o : Option (Text × Text)) (key value : Text) (w w' : Mem) (k : Text)
    → o ≡ w.pair
    → put_pair o key value w ≡ (ok tt, w')
    → value_at w' k ≡ (if text_beq key k then some value else value_at w k)
put_pair_writes none key value w w' k e h =
    subst (λ (x : Mem). value_at x k ≡ (if text_beq key k then some value else value_at w k))
      (ap (λ (r : Result Text (Unit {0}) × Mem). r.1) h)
      (ap (λ (o : Option (Text × Text)). if text_beq key k then some value else at_key o k) e)
put_pair_writes (some (j, v)) key value w w' k e h = elim (Bool-cases (text_beq j key)) [
  | inl same ↦
      subst (λ (x : Mem). value_at x k ≡ (if text_beq key k then some value else value_at w k))
        (ap (λ (r : Result Text (Unit {0}) × Mem). r.1) (stored same h))
        (overwritten j v key value k ((text_beq_iff j key).0 same)
          ∙ ap (λ (o : Option (Text × Text)). if text_beq key k then some value else at_key o k) e)
  | inr other ↦ absurd (ground (arith, other, h))
]
  where
    stored :
        text_beq j key ≡ true
        → put_pair (some (j, v)) key value w ≡ (ok tt, w')
        → ◌≡◌ {A = Result Text (Unit {0}) × Mem}
            (ok tt, record w { pair = some (key, value) })
            (ok tt, w')
    stored same h =
        sym (
          ap
            (λ b.
              if b then (ok tt, record w { pair = some (key, value) }) else (err (codes "full"), w))
            same)
        ∙ h

not_at : (j v k : Text) → (text_beq j k ≡ true → ⊥) → none ≡ at_key (some (j, v)) k
not_at j v k h = elim (Bool-cases (text_beq j k)) [
  | inl same ↦ absurd (h same)
  | inr other ↦ rw other refl
]

without_deletes :
    (o : Option (Text × Text)) (ks : List Text) (k : Text)
    → (In k ks → at_key (without o ks) k ≡ none)
      × ((In k ks → ⊥) → at_key (without o ks) k ≡ at_key o k)
without_deletes none ks k = (λ m. refl, λ out. refl)
without_deletes (some (j, v)) ks k = elim (Bool-cases (is_in j ks)) [
  | inl gone ↦ rw gone (
    λ m. refl,
    λ out.
        not_at j v k (λ same.
          out (subst (λ x. In x ks) ((text_beq_iff j k).0 same) ((is_in_iff j ks).0 gone))),
  )
  | inr kept ↦ rw kept (
    λ m. sym (
        not_at j v k (λ same. absurd (
          cc (
            kept,
            (is_in_iff j ks).1 (subst (λ x. In x ks) (sym ((text_beq_iff j k).0 same)) m),
          )))),
    λ out. refl,
  )
]

answer-eq :
    (kvs listing : Kvs) (w w' : Mem)
    → ◌≡◌ {A = Result Text Kvs × Mem} (ok listing, w) (ok kvs, w')
    → listing ≡ kvs
answer-eq kvs listing w w' h = ground (arith, h)

pub client-KeepsStore : KeepsStore value_at client
client-KeepsStore = record {
  get_lists = λ prefix opts w w' kvs prefixed linear values e key value.
      subst
        (λ (x : Kvs).
          In (key, value) x ↔ ((has_prefix key prefix ≡ true) × (value_at w key ≡ some value)))
        (answer-eq kvs (listed w.pair prefix) w w' e) (listed-Lists w.pair prefix key value);
  get_lists_keys = λ prefix opts w w' kvs prefixed linear e key.
      subst
        (λ (x : Kvs). In key (keys x) ↔ ((has_prefix key prefix ≡ true) × (value_at w key ≢ none)))
        (answer-eq kvs (listed w.pair prefix) w w' e) (keys_of_listed w.pair prefix key);
  get_few = λ prefix opts w w' kvs e.
      subst (λ (x : Kvs). length (keys x) < 2 ^ 62) (answer-eq kvs (listed w.pair prefix) w w' e)
        (listed_few w.pair prefix);
  get_keeps = λ prefix opts w key. refl;
  put_writes = λ key value lease w w' k e. put_pair_writes w.pair key value w w' k refl e;
  deletes = λ ks w w' k e.
      subst
        (λ (x : Mem).
          (In k ks → value_at x k ≡ none) × ((In k ks → ⊥) → value_at x k ≡ value_at w k))
        (ap (λ (r : Result Text (Unit {0}) × Mem). r.1) e) (without_deletes w.pair ks k);
}

pub client-ReadsCurrent : ReadsCurrent value_at client
client-ReadsCurrent = record {
  serializable_lists = λ prefix opts w w' kvs prefixed serializable values e key value.
      subst
        (λ (x : Kvs).
          In (key, value) x ↔ ((has_prefix key prefix ≡ true) × (value_at w key ≡ some value)))
        (answer-eq kvs (listed w.pair prefix) w w' e) (listed-Lists w.pair prefix key value);
  serializable_lists_keys = λ prefix opts w w' kvs prefixed serializable e key.
      subst
        (λ (x : Kvs). In key (keys x) ↔ ((has_prefix key prefix ≡ true) × (value_at w key ≢ none)))
        (answer-eq kvs (listed w.pair prefix) w w' e) (keys_of_listed w.pair prefix key);
}

-- The lock is held under a lease.
abbrev pub IsHeld : Mem → Text → ℕ → Type 0
IsHeld w k l = w.lock ≡ some (k, l)

abbrev pub etcd : EtcdConfig
etcd = record {
  endpoints = codes "http://e:2379" ∷ [];
  path_prefix = codes "/skydns";
  username = [];
  password = [];
  tls = record { ca_file = []; cert_file = []; key_file = []; insecure_skip_verify = false };
  lock_ttl = pos (5 * 2 ^ 1074);
  lock_timeout = pos (2 * 2 ^ 1074);
  lock_retry_interval = pos (2 ^ 1071);
}

abbrev pub store : EtcdRegistry Mem
store = record {
  client = client;
  cfg = etcd;
  hostname = codes "h1";
  heartbeat_ttl = pos 30;
  metrics = none;
}

create_lock-created :
    (o : Option (Text × ℕ)) (key : Text) (lease : ℕ) (w w₁ : Mem)
    → create_lock o key lease w ≡ (ok true, w₁)
    → w₁.lock ≡ some (key, lease)
create_lock-created none key lease w w₁ h = sym (ap (λ (r : Result Text Bool × Mem). r.1.lock) h)
create_lock-created (some (k, l)) key lease w w₁ h = absurd (ground (arith, h))

create_lock-holds :
    (o : Option (Text × ℕ)) (key : Text) (lease : ℕ) (w : Mem) (k : Text) (l : ℕ)
    → o ≡ some (k, l)
    → w.lock ≡ some (k, l)
    → (create_lock o key lease w).1.lock ≡ some (k, l)
create_lock-holds none key lease w k l e h = absurd (ground (arith, e))
create_lock-holds (some (j, m)) key lease w k l e h = h

pub store-KeepsLocks : KeepsLocks store runtime IsHeld
store-KeepsLocks = record {
  created = λ key value lease w w₁ w₂ e f.
      ap (λ (r : Result Text (Unit {0}) × Mem). r.1.lock) (sym f)
      ∙ create_lock-created w.lock key lease w w₁ e;
  grant_holds = λ ttl w k l h. h;
  create_holds = λ key value lease w k l h. create_lock-holds w.lock key lease w k l h h;
  keep_alive_holds = λ lease w k l h. h;
  sleep_holds = λ d w k l h. h;
}

create_lock-clock :
    (o : Option (Text × ℕ)) (key : Text) (lease : ℕ) (w : Mem)
    → w.clock ≤ (create_lock o key lease w).1.clock
create_lock-clock none key lease w = omega arith
create_lock-clock (some (k, l)) key lease w = omega arith

pub store-KeepsTime : KeepsTime store runtime
store-KeepsTime = record {
  create_time = λ key value lease w. create_lock-clock w.lock key lease w;
  sleep_time = λ d w. omega arith;
}
