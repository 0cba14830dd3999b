-- ===== src/Registry/Client/Inversion.antt =====
-- How a chain of calls ends without an error.
use docker_coredns_sync.Prelude.{Result, Text, ap, arith, err, nat_eq, ok, refl, text_eq, ◌≡◌}
use docker_coredns_sync.Registry.Client.{
  ◌>>=◌, Action, Call, EtcdRegistry, RegistryError, checked, return, settle,
}

pub ok-eq : {A : Type 0} (a b : A) → ◌≡◌ {A = Result RegistryError A} (ok a) (ok b) → b ≡ a
ok-eq a b h = cc

module _ {World : Type 0} where
  after-ok :
      {A B : Type 0} (r : Result RegistryError A × World) (f : A → Action World B) (b : B)
      (w' : World)
      → (elim r.0 [ ok a ↦ f a r.1 | err e ↦ (err e, r.1) ]) ≡ (ok b, w')
      → (a : A) × (w₁ : World) × (r ≡ (ok a, w₁)) × (f a w₁ ≡ (ok b, w'))
  after-ok (ok a, w₁) f b w' h = (a, w₁, refl, h)
  after-ok (err e, w₁) f b w' h = absurd (ground arith)

  pub return-ok :
      {A : Type 0} (r : Result RegistryError A) (w : World) (a : A) (w' : World)
      → return r w ≡ (ok a, w')
      → (r ≡ ok a) × (w ≡ w')
  unfolding return
  return-ok r w a w' h = (ap (λ p. p.0) h, ap (λ p. p.1) h)

  pub >>=-ok :
      {A B : Type 0} (m : Action World A) (f : A → Action World B) (w : World) (b : B) (w' : World)
      → (m >>= f) w ≡ (ok b, w')
      → (a : A) × (w₁ : World) × (m w ≡ (ok a, w₁)) × (f a w₁ ≡ (ok b, w'))
  >>=-ok m f w b w' h = after-ok (m w) f b w' h

  module _ (er : EtcdRegistry World) where
    settle-ok :
        {A : Type 0} (wrap : Text → RegistryError) (r : Result Text A × World) (a : A) (w' : World)
        → settle er wrap r ≡ (ok a, w')
        → r ≡ (ok a, w')
    unfolding settle
    settle-ok wrap (ok b, w) a w' h = ground arith
    settle-ok wrap (err e, w) a w' h = absurd (ground arith)

    pub checked-ok :
        {A : Type 0} (op : Call World A) (wrap : Text → RegistryError) (w : World) (a : A)
        (w' : World)
        → checked er op wrap w ≡ (ok a, w')
        → op w ≡ (ok a, w')
    unfolding checked
    checked-ok op wrap w a w' h = settle-ok wrap (op w) a w' h
