-- ===== src/Registry/Client/Live.antt =====
-- What GetLiveHostnames returns.
use docker_coredns_sync.Prelude.{
  All, Bool, Bool-cases, In, In-All, List, Option, Text, [], ap, arith, codes, if◌then◌else◌, inl,
  inr, nat_eq, none, ok, refl, some, subst, sym, text_beq, text_beq_iff, text_eq, true, ◌++◌, ◌||◌,
  ◌↔◌, ◌∙◌, ◌∷◌, ◌≡◌, ◌≢◌, ◌⊎◌,
}
use docker_coredns_sync.GoMap.{contains, insert, keys, lookup}
use docker_coredns_sync.GoMap.Laws.{lookup-insert}
use docker_coredns_sync.GoText.{has_prefix, trim_prefix}
use docker_coredns_sync.GoText.Cut.{has_prefix-append, has_prefix_inv, trim_prefix-append}
use docker_coredns_sync.Config.{heartbeat_key_prefix, is_blank}
use docker_coredns_sync.State.{TextSet}
use docker_coredns_sync.Registry.{Kvs, get_live_hostnames, heartbeat_key, live_loop}
use docker_coredns_sync.Registry.Client.{
  EtcdRegistry, checked, list_heartbeats_failed, live_hostnames, read_live, return, with_prefix,
  with_keys_only,
}
use docker_coredns_sync.Registry.Client.Inversion.{ok-eq, checked-ok, return-ok, >>=-ok}
use docker_coredns_sync.Registry.Client.{with_serializable}
use docker_coredns_sync.Registry.Client.Store.{KeepsStore, ListsKeys}

contains-insert :
    (m : TextSet) (k j : Text) → contains (insert m k tt) j ≡ (text_beq k j || contains m j)
unfolding contains
contains-insert m k j = ground (arith, lookup-insert m k tt j)

abbrev under : Text
under = heartbeat_key_prefix ++ codes "/"

tail_of : Text → Text
tail_of [] = []
tail_of (c ∷ s) = s

cancel_left : (u s t : Text) → u ++ s ≡ u ++ t → s ≡ t
cancel_left [] s t e = e
cancel_left (c ∷ u) s t e = cancel_left u s t (unfold tail_of in ap tail_of e)

-- A key under a prefix that is cut off
cut : (u key : Text) → has_prefix key u ≡ true → key ≡ u ++ trim_prefix key u
cut u key h =
    let (t, e) = has_prefix_inv key u h in
    e
    ∙ ap (λ (s : Text). u ++ s)
        (sym (ap (λ (k : Text). trim_prefix k u) e ∙ trim_prefix-append u t))

-- One round of the loop
add_host : Text → TextSet → TextSet
unfolding insert
add_host hostname live = if is_blank hostname then live else insert live hostname tt

contains-add_host :
    (hostname h : Text) (live : TextSet)
    → h ≢ []
    → (contains (add_host hostname live) h ≡ true) ↔ ((contains live h ≡ true) ⊎ (h ≡ hostname))
unfolding add_host
contains-add_host [] h live full = (λ c. inl c, λ c. elim c [ inl a ↦ a | inr e ↦ absurd (full e) ])
contains-add_host (x ∷ s) h live full =
    let written = contains-insert live (x ∷ s) h in
    let same = text_beq_iff (x ∷ s) h in
    (
      λ c. elim (Bool-cases (text_beq (x ∷ s) h)) [
        | inl e ↦ inr (sym (same.0 e))
        | inr ne ↦ inl (sym (written ∙ ap (λ b. b || contains live h) ne) ∙ c)
      ],
      λ c. elim c [
        | inl a ↦ ground (arith, written, a)
        | inr e ↦ written ∙ ap (λ b. b || contains live h) (same.1 (sym e))
      ],
    )

contains-note :
    (u key h : Text) (live : TextSet)
    → has_prefix key u ≡ true
    → h ≢ []
    → (contains (add_host (trim_prefix key u) live) h ≡ true)
      ↔ ((contains live h ≡ true) ⊎ (u ++ h ≡ key))
contains-note u key h live p full =
    let host = trim_prefix key u in
    let e = cut u key p in
    let rule = contains-add_host host h live full in
    (
      λ c. elim (rule.0 c) [ inl a ↦ inl a | inr x ↦ inr (ap (λ (s : Text). u ++ s) x ∙ sym e) ],
      λ c. rule.1 (elim c [ inl a ↦ inl a | inr x ↦ inr (cancel_left u h host (x ∙ e)) ]),
    )

live_loop_iff :
    (ks : List Text) (h : Text) (live : TextSet)
    → All (λ key. has_prefix key under ≡ true) ks
    → h ≢ []
    → (contains (live_loop ks live) h ≡ true) ↔ ((contains live h ≡ true) ⊎ In (under ++ h) ks)
unfolding live_loop add_host
live_loop_iff [] h live p full = (λ c. inl c, λ c. elim c [ inl a ↦ a | inr m ↦ absurd m ])
live_loop_iff (key ∷ ks) h live p full =
    let step = contains-note under key h live p.0 full in
    let rest = live_loop_iff ks h (add_host (trim_prefix key under) live) p.1 full in
    (
      λ c. elim (rest.0 c) [
        | inl a ↦ elim (step.0 a) [ inl x ↦ inl x | inr e ↦ inr (inl e) ]
        | inr m ↦ inr (inr m)
      ],
      λ c. elim c [
        | inl a ↦ rest.1 (inl (step.1 (inl a)))
        | inr (inl e) ↦ rest.1 (inl (step.1 (inr e)))
        | inr (inr m) ↦ rest.1 (inr m)
      ],
    )

under-heartbeat_key : (h : Text) → under ++ h ≡ heartbeat_key h
unfolding heartbeat_key
under-heartbeat_key h = refl

under-prefix : (h : Text) → has_prefix (heartbeat_key h) under ≡ true
under-prefix h =
    subst (λ k. has_prefix k under ≡ true) (under-heartbeat_key h) (has_prefix-append under h)

contains-empty : (h : Text) → contains {V = Unit {0}} [] h ≡ true → ⊥
unfolding contains lookup
contains-empty h e = absurd (ground (arith, e))

or_right : (a b : Bool) → b ≡ true → (a || b) ≡ true
or_right a b h = ground arith

no_serializable : ¬ In with_serializable (with_prefix ∷ with_keys_only ∷ [])
no_serializable (inl e) = absurd (ground (arith, e))
no_serializable (inr (inl e)) = absurd (ground (arith, e))
no_serializable (inr (inr h)) = h

module _ {World : Type 0} (value_at : World → Text → Option Text) (er : EtcdRegistry World)
    (store : KeepsStore value_at er.client) where
  read_live-Lists :
      (w w' : World) (o : Option TextSet)
      → read_live er w ≡ (ok o, w')
      → (kvs : Kvs) × ListsKeys value_at w under kvs
        × (o ≡ get_live_hostnames true er.hostname (keys kvs))
  unfolding read_live
  read_live-Lists w w' o h =
      let opts = with_prefix ∷ with_keys_only ∷ [] in
      let wrap = list_heartbeats_failed heartbeat_key_prefix in
      let (kvs, w₁, answered, returned) =
        >>=-ok (checked er (er.client.get under opts) wrap)
          (λ (kvs : Kvs). return (ok (get_live_hostnames true er.hostname (keys kvs)))) w o w' h in
      let (same, kept) =
        return-ok (ok (get_live_hostnames true er.hostname (keys kvs))) w₁ o w' returned in
      (
        kvs,
        store.get_lists_keys under opts w w₁ kvs (inl refl) no_serializable
            (checked-ok er (er.client.get under opts) wrap w kvs w₁ answered),
        ok-eq (get_live_hostnames true er.hostname (keys kvs)) o same,
      )

  set_of :
      (ks : List Text) (live : TextSet) (h : Text)
      → some live ≡ get_live_hostnames true er.hostname ks
      → contains live h ≡ (text_beq er.hostname h || contains (live_loop ks []) h)
  unfolding get_live_hostnames
  set_of ks live h e =
      let is : live ≡ insert (live_loop ks []) er.hostname tt = ground (arith, e) in
      ap (λ (s : TextSet). contains s h) is ∙ contains-insert (live_loop ks []) er.hostname h

  -- If GetLiveHostnames, while this host heartbeats, returns a set of hosts, then a name that is not empty
  -- is in it exactly when it is this host's or a liveness key of that name is stored.
  pub live_hostnames_iff :
      (w w' : World) (live : TextSet) (h : Text)
      → live_hostnames er true w ≡ (ok (some live), w')
      → h ≢ []
      → (contains live h ≡ true) ↔ ((h ≡ er.hostname) ⊎ (value_at w (heartbeat_key h) ≢ none))
  unfolding live_hostnames
  live_hostnames_iff w w' live h e full =
      let (kvs, lists, is) = read_live-Lists w w' (some live) e in
      let ks = keys kvs in
      let found = set_of ks live h is in
      let all = In-All (λ key. has_prefix key under ≡ true) ks (λ a m. ((lists a).0 m).0) in
      let loop = live_loop_iff ks h [] all full in
      let stored = lists (heartbeat_key h) in
      let same = text_beq_iff er.hostname h in
      (
        λ c. elim (Bool-cases (text_beq er.hostname h)) [
          | inl own ↦ inl (sym (same.0 own))
          | inr other ↦
              let looped = sym (found ∙ ap (λ b. b || contains (live_loop ks []) h) other) ∙ c in
              elim (loop.0 looped) [
                | inl nothing ↦ absurd (contains-empty h nothing)
                | inr m ↦ inr (stored.0 (subst (λ k. In k ks) (under-heartbeat_key h) m)).1
              ]
        ],
        λ c. elim c [
          | inl own ↦ found ∙ ap (λ b. b || contains (live_loop ks []) h) (same.1 (sym own))
          | inr there ↦
              let m : In (under ++ h) ks =
                subst (λ k. In k ks) (sym (under-heartbeat_key h))
                  (stored.1 (under-prefix h, there)) in
              found ∙ or_right (text_beq er.hostname h) _ (loop.1 (inr m))
        ],
      )
