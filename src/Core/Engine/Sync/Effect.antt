-- ===== src/Core/Engine/Sync/Effect.antt =====
-- What the writes of a tick make of the store.
use docker_coredns_sync.Prelude.{
  All, Bool, Bool-cases, In, List, Option, Option-cases, Result, Text, [], ap, arith, err,
  if◌then◌else◌, inl, inr, nat_eq, none, ok, refl, some, subst, sym, text_beq, text_beq_iff,
  text_eq, ℕ, ◌↔◌, ◌∙◌, ◌∷◌, ◌≡◌, ◌⊎◌,
}
use docker_coredns_sync.Domain.Intent.{RecordIntent}
use docker_coredns_sync.Registry.{Json, marshal_etcd_value}
use docker_coredns_sync.Registry.Path.{key_base_for_fqdn}
use docker_coredns_sync.Registry.Index.{index_key}
use docker_coredns_sync.Registry.Wire.{Selected, Selected-cases}
use docker_coredns_sync.Registry.Client.{EtcdRegistry, RegistryError, register}
use docker_coredns_sync.Registry.Client.Store.{KeepsStore, ReadsCurrent, register-Registered}
use docker_coredns_sync.Registry.Client.Remove.{remove}
use docker_coredns_sync.Core.Engine.Pass.{apply_changes, write_all, count_error}
use docker_coredns_sync.Core.Engine.Pass.Outcome.{Applied, Succeed, apply_changes-Applied}
use docker_coredns_sync.Registry.Client.Remove.Exact.{remove-Removed}
use docker_coredns_sync.Core.Engine.Sync.{upstream, write_error}

some_inj : (s t : Text) → ◌≡◌ {A = Option Text} (some s) (some t) → s ≡ t
some_inj s t h = ground (arith, h)

write_error-ok :
    {World : Type 0} (r : Result RegistryError (Unit {0}) × World)
    → (write_error r).0 ≡ none
    → r ≡ (ok tt, (write_error r).1)
write_error-ok (ok tt, w) h = refl
write_error-ok (err e, w) h = absurd (ground (arith, h))

module _ {World : Type 0} (value_at : World → Text → Option Text) (er : EtcdRegistry World)
    (store : KeepsStore value_at er.client) (current : ReadsCurrent value_at er.client)
    (json : Json) where
  -- The pair is one that Remove of the record intent selects.
  abbrev pub Drops : RecordIntent → Text → Text → Type 0
  Drops ri k v = Selected json (key_base_for_fqdn er.cfg.path_prefix ri.rec.name) ri k v

  -- The pair is one that Register of the record intent writes.
  abbrev pub Makes : RecordIntent → Text → Text → Type 0
  Makes ri k v =
      (idx : ℕ) × (k ≡ index_key (key_base_for_fqdn er.cfg.path_prefix ri.rec.name) idx)
      × (marshal_etcd_value json ri ≡ some v)

  remove_iff :
      (ri : RecordIntent) (w w' : World)
      → remove er json ri w ≡ (ok tt, w')
      → (k v : Text) → (value_at w' k ≡ some v) ↔ ((value_at w k ≡ some v) × (¬ Drops ri k v))
  remove_iff ri w w' h k v =
      let base = key_base_for_fqdn er.cfg.path_prefix ri.rec.name in
      let (gone, same) = remove-Removed value_at er store json ri w w' h k in
      (
        λ there. elim (Option-cases (value_at w k)) [
          | inl empty ↦
              absurd (ground (arith, empty, there, same (λ u e. absurd (ground (arith, empty, e)))))
          | inr (u, stored) ↦ elim (Selected-cases json base ri k u) [
            | inl s ↦ absurd (ground (arith, there, gone u stored s))
            | inr n ↦
                let kept =
                  same (λ x e. subst (λ y. ¬ Drops ri k y) (some_inj u x (sym stored ∙ e)) n) in
                let one : u ≡ v = some_inj u v (sym stored ∙ sym kept ∙ there) in
                (sym kept ∙ there, subst (λ y. ¬ Drops ri k y) one n)
          ]
        ],
        λ p. same (λ x e. subst (λ y. ¬ Drops ri k y) (some_inj v x (sym p.0 ∙ e)) p.1) ∙ p.0,
      )

  -- What a registration does to a pair
  record Adds (ri : RecordIntent) (w w' : World) : Type 0 where
    keeps : (k v : Text) → value_at w k ≡ some v → value_at w' k ≡ some v
    from : (k v : Text) → value_at w' k ≡ some v → (value_at w k ≡ some v) ⊎ Makes ri k v
    stores : (k : Text) × (v : Text) × Makes ri k v × (value_at w' k ≡ some v)

  register-Adds :
      (ri : RecordIntent) (w w' : World) → register er json ri w ≡ (ok tt, w') → Adds ri w w'
  register-Adds ri w w' h =
      let (idx, value, made, empty, written) =
        register-Registered value_at er store current json ri w w' h in
      let key = index_key (key_base_for_fqdn er.cfg.path_prefix ri.rec.name) idx in
      record {
        keeps = λ k v e. elim (Bool-cases (text_beq key k)) [
          | inl same ↦ absurd (
              ground
                (arith, e, empty, ap (λ (x : Text). value_at w x) ((text_beq_iff key k).0 same)))
          | inr other ↦ written k ∙ ap (λ b. if b then some value else value_at w k) other ∙ e
        ];
        from = λ k v e. elim (Bool-cases (text_beq key k)) [
          | inl same ↦
              let now = written k ∙ ap (λ b. if b then some value else value_at w k) same in
              inr (idx, sym ((text_beq_iff key k).0 same), made ∙ sym now ∙ e)
          | inr other ↦
              inl (sym (written k ∙ ap (λ b. if b then some value else value_at w k) other) ∙ e)
        ];
        stores = (
          key,
          value,
          (idx, refl, made),
          written key
              ∙ ap (λ b. if b then some value else value_at w key) ((text_beq_iff key key).1 refl),
        );
      }

  abbrev remove_step : RecordIntent → World → Option RegistryError × World
  remove_step ri w = write_error (remove er json ri w)

  abbrev register_step : RecordIntent → World → Option RegistryError × World
  register_step ri w = write_error (register er json ri w)

  removals_iff :
      (ris : List RecordIntent) (n : ℕ) (w : World)
      → Succeed remove_step ris w
      → (k v : Text)
      → (value_at (write_all remove_step ris n w).1 k ≡ some v)
        ↔ ((value_at w k ≡ some v) × All (λ ri. ¬ Drops ri k v) ris)
  unfolding write_all
  removals_iff [] n w done k v = (λ e. (e, tt), λ p. p.0)
  removals_iff (ri ∷ ris) n w (first, done) k v =
      let w₁ = (remove_step ri w).1 in
      let one = remove_iff ri w w₁ (write_error-ok (remove er json ri w) first) k v in
      let rest = removals_iff ris (count_error (remove_step ri w).0 n) w₁ done k v in
      (
        λ e. let p = rest.0 e in let q = one.0 p.0 in (q.0, (q.1, p.1)),
        λ p. rest.1 (one.1 (p.0, p.1.0), p.1.1),
      )

  -- What all registrations do to the pairs
  record AddsAll (ris : List RecordIntent) (w w' : World) : Type 0 where
    keeps : (k v : Text) → value_at w k ≡ some v → value_at w' k ≡ some v
    from :
        (k v : Text)
        → value_at w' k ≡ some v
        → (value_at w k ≡ some v) ⊎ ((ri : RecordIntent) × In ri ris × Makes ri k v)
    stores :
        (ri : RecordIntent)
        → In ri ris
        → (k : Text) × (v : Text) × Makes ri k v × (value_at w' k ≡ some v)

  registrations-AddsAll :
      (ris : List RecordIntent) (n : ℕ) (w : World)
      → Succeed register_step ris w
      → AddsAll ris w (write_all register_step ris n w).1
  unfolding write_all
  registrations-AddsAll [] n w done = record {
    keeps = λ k v e. e;
    from = λ k v e. inl e;
    stores = λ ri m. absurd m;
  }
  registrations-AddsAll (ri ∷ ris) n w (first, done) =
      let w₁ = (register_step ri w).1 in
      let one = register-Adds ri w w₁ (write_error-ok (register er json ri w) first) in
      let rest = registrations-AddsAll ris (count_error (register_step ri w).0 n) w₁ done in
      record {
        keeps = λ k v e. rest.keeps k v (one.keeps k v e);
        from = λ k v e. elim (rest.from k v e) [
          | inl earlier ↦ elim (one.from k v earlier) [
            | inl old ↦ inl old
            | inr made ↦ inr (ri, inl refl, made)
          ]
          | inr (r, m, made) ↦ inr (r, inr m, made)
        ];
        stores = λ r m. elim m [
          | inl e ↦
              let (k, v, made, there) = one.stores in
              (k, v, subst (λ x. Makes x k v) (sym e) made, rest.keeps k v there)
          | inr m' ↦ rest.stores r m'
        ];
      }

  -- The store after the writes of a plan: a pair that was stored stays unless a record that is removed
  -- drops it, every pair is one that stayed or one of a record that is added, and each of these has one.
  abbrev pub Effect : List RecordIntent → List RecordIntent → World → World → Type 0
  Effect to_add to_remove w w' =
      ((k v : Text)
        → value_at w k ≡ some v
        → All (λ ri. ¬ Drops ri k v) to_remove
        → value_at w' k ≡ some v)
      × ((k v : Text)
          → value_at w' k ≡ some v
          → ((value_at w k ≡ some v) × All (λ ri. ¬ Drops ri k v) to_remove)
            ⊎ ((ri : RecordIntent) × In ri to_add × Makes ri k v))
      × ((ri : RecordIntent)
          → In ri to_add
          → (k : Text) × (v : Text) × Makes ri k v × (value_at w' k ≡ some v))

  pub Applied-Effect :
      (is_active : Bool) (plan : List RecordIntent × List RecordIntent) (w w' : World)
      → Applied (upstream er json is_active) plan w w'
      → Effect plan.0 plan.1 w w'
  unfolding upstream
  Applied-Effect is_active (to_add, to_remove) w w' (removed_all, registered, last) =
      let middle = (write_all remove_step to_remove 0 w).1 in
      let dropped = λ (k v : Text). removals_iff to_remove 0 w removed_all k v in
      let added : AddsAll to_add middle w' =
        subst (AddsAll to_add middle) last (registrations-AddsAll to_add 0 middle registered) in
      (
        λ k v e none_drops. added.keeps k v ((dropped k v).1 (e, none_drops)),
        λ k v e. elim (added.from k v e) [
          | inl earlier ↦ inl ((dropped k v).0 earlier)
          | inr made ↦ inr made
        ],
        added.stores,
      )

  -- If the members of etcd that answer serializable reads are up to date and all writes of a tick succeed, then the store holds after them what it held before, less the pairs
  -- that match a record to remove under the base of its name, and a pair for each record to add, at an
  -- indexed key of its name and with its value; and it holds no other pair.
  pub apply_changes-Effect :
      (is_active : Bool) (to_add to_remove : List RecordIntent) (w w' : World)
      → apply_changes (upstream er json is_active) to_add to_remove w ≡ (none, w')
      → Effect to_add to_remove w w'
  apply_changes-Effect is_active to_add to_remove w w' h =
      Applied-Effect is_active (to_add, to_remove) w w'
        (apply_changes-Applied (upstream er json is_active) (to_add, to_remove) w w' h)
