-- ===== src/App/Handles.antt =====
-- The handles that are open after a run.
use docker_coredns_sync.Prelude.{
  Bool-cases, List, Option, Result, Text, ap, arith, err, inl, inr, nat_eq, none, ok, refl, some,
  sym, text_eq, ◌≡◌, ◌≢◌, ◌⊎◌,
}
use docker_coredns_sync.Config.{Config, EtcdConfig, http_server_enabled}
use docker_coredns_sync.App.{
  App, AppError, Factories, Handle, after_docker, after_etcd, after_listen, app_of, close_app,
  close_both, close_server, new_with_factories, run_app, run_with_deps,
}

-- What the libraries document of handles: a call that succeeds opens the one that it gives, one that fails
-- opens none, and a closed handle is not open.
pub record OpensHandles {World : Type 0} (f : Factories World) (IsOpen : World → Handle → Type 0)
    : Type 0 where
  pub opens_docker :
      (w w' : World) (h k : Handle)
      → f.docker_client w ≡ (ok h, w')
      → IsOpen w' k
      → (k ≡ h) ⊎ IsOpen w k
  pub no_docker :
      (w w' : World) (e : Text) (k : Handle)
      → f.docker_client w ≡ (err e, w')
      → IsOpen w' k
      → IsOpen w k
  pub opens_etcd :
      (cfg : EtcdConfig) (w w' : World) (h k : Handle)
      → f.etcd_client cfg w ≡ (ok h, w')
      → IsOpen w' k
      → (k ≡ h) ⊎ IsOpen w k
  pub no_etcd :
      (cfg : EtcdConfig) (w w' : World) (e : Text) (k : Handle)
      → f.etcd_client cfg w ≡ (err e, w')
      → IsOpen w' k
      → IsOpen w k
  pub opens_listener :
      (addr : Text) (w w' : World) (h k : Handle)
      → f.listen addr w ≡ (ok h, w')
      → IsOpen w' k
      → (k ≡ h) ⊎ IsOpen w k
  pub no_listener :
      (addr : Text) (w w' : World) (e : Text) (k : Handle)
      → f.listen addr w ≡ (err e, w')
      → IsOpen w' k
      → IsOpen w k
  pub closes : (h k : Handle) (w : World) → IsOpen (f.close h w).1 k → (k ≢ h) × IsOpen w k

module _ {World : Type 0} (f : Factories World) (IsOpen : World → Handle → Type 0)
    (laws : OpensHandles f IsOpen) where
  -- The handles of an app, over those that were open at w₀
  abbrev Holds : World → App → World → Type 0
  Holds w₀ app w =
      (k : Handle)
      → IsOpen w k
      → (k ≡ app.docker_client) ⊎ (k ≡ app.etcd_client) ⊎ (app.http_server ≡ some k) ⊎ IsOpen w₀ k

  abbrev Built : World → Result AppError App × World → Type 0
  Built w₀ (err e, w) = (k : Handle) → IsOpen w k → IsOpen w₀ k
  Built w₀ (ok app, w) = Holds w₀ app w

  after_listen-Built :
      (w₀ w : World) (cfg : Config) (docker etcd : Handle) (r : Result Text Handle × World)
      → f.listen cfg.http.listen_addr w ≡ r
      → ((k : Handle) → IsOpen w k → (k ≡ docker) ⊎ (k ≡ etcd) ⊎ IsOpen w₀ k)
      → Built w₀ (after_listen f cfg docker etcd r)
  unfolding after_listen close_both app_of
  after_listen-Built w₀ w cfg docker etcd (err e, w₁) same held = λ k opened₂.
      let (not_etcd, opened₁) = laws.closes etcd k (f.close docker w₁).1 opened₂ in
      let (not_docker, opened) = laws.closes docker k w₁ opened₁ in
      elim (held k (laws.no_listener cfg.http.listen_addr w w₁ e k same opened)) [
        | inl d ↦ absurd (not_docker d)
        | inr (inl x) ↦ absurd (not_etcd x)
        | inr (inr old) ↦ old
      ]
  after_listen-Built w₀ w cfg docker etcd (ok server, w₁) same held = λ k opened.
      elim (laws.opens_listener cfg.http.listen_addr w w₁ server k same opened) [
        | inl e ↦ inr (inr (inl (ap (λ (h : Handle). some h) (sym e))))
        | inr before_it ↦ elim (held k before_it) [
          | inl d ↦ inl d
          | inr (inl x) ↦ inr (inl x)
          | inr (inr old) ↦ inr (inr (inr old))
        ]
      ]

  after_etcd-Built :
      (w₀ w : World) (cfg : Config) (docker : Handle) (r : Result Text Handle × World)
      → f.etcd_client cfg.etcd w ≡ r
      → ((k : Handle) → IsOpen w k → (k ≡ docker) ⊎ IsOpen w₀ k)
      → Built w₀ (after_etcd f cfg docker r)
  unfolding after_etcd app_of
  after_etcd-Built w₀ w cfg docker (err e, w₁) same held = λ k opened₁.
      let (not_docker, opened) = laws.closes docker k w₁ opened₁ in
      elim (held k (laws.no_etcd cfg.etcd w w₁ e k same opened)) [
        | inl d ↦ absurd (not_docker d)
        | inr old ↦ old
      ]
  after_etcd-Built w₀ w cfg docker (ok etcd, w₁) same held =
      let both : (k : Handle) → IsOpen w₁ k → (k ≡ docker) ⊎ (k ≡ etcd) ⊎ IsOpen w₀ k = λ k opened.
        elim (laws.opens_etcd cfg.etcd w w₁ etcd k same opened) [
          | inl e ↦ inr (inl e)
          | inr before_it ↦ elim (held k before_it) [ inl d ↦ inl d | inr old ↦ inr (inr old) ]
        ] in
      elim (Bool-cases (http_server_enabled cfg)) [
        | inl on ↦
            rw on (
              after_listen-Built w₀ w₁ cfg docker etcd (f.listen cfg.http.listen_addr w₁) refl both)
        | inr off ↦ rw off (λ k opened. elim (both k opened) [
          | inl d ↦ inl d
          | inr (inl x) ↦ inr (inl x)
          | inr (inr old) ↦ inr (inr (inr old))
        ])
      ]

  after_docker-Built :
      (w₀ : World) (cfg : Config) (r : Result Text Handle × World)
      → f.docker_client w₀ ≡ r
      → Built w₀ (after_docker f cfg r)
  unfolding after_docker
  after_docker-Built w₀ cfg (err e, w₁) same = λ k opened. laws.no_docker w₀ w₁ e k same opened
  after_docker-Built w₀ cfg (ok docker, w₁) same =
      after_etcd-Built w₀ w₁ cfg docker (f.etcd_client cfg.etcd w₁) refl
        (λ k opened. laws.opens_docker w₀ w₁ docker k same opened)

  close_server-Closed :
      (o : Option Handle) (errs : List Text) (w : World) (k : Handle)
      → IsOpen (close_server f o errs w).1 k
      → (o ≢ some k) × IsOpen w k
  unfolding close_server
  close_server-Closed none errs w k opened = (λ e. absurd (ground (arith, e)), opened)
  close_server-Closed (some server) errs w k opened =
      let (other, was) = laws.closes server k w opened in (λ e. other (ground (arith, e)), was)

  close_app-Closed :
      (w₀ w : World) (app : App) (k : Handle)
      → Holds w₀ app w
      → IsOpen (close_app f app w).1 k
      → IsOpen w₀ k
  unfolding close_app
  close_app-Closed w₀ w app k holds opened₃ =
      let w₁ = (f.close app.docker_client w).1 in
      let w₂ = (f.close app.etcd_client w₁).1 in
      let (not_server, opened₂) = close_server-Closed app.http_server _ w₂ k opened₃ in
      let (not_etcd, opened₁) = laws.closes app.etcd_client k w₁ opened₂ in
      let (not_docker, opened) = laws.closes app.docker_client k w opened₁ in
      elim (holds k opened) [
        | inl d ↦ absurd (not_docker d)
        | inr (inl x) ↦ absurd (not_etcd x)
        | inr (inr (inl s)) ↦ absurd (not_server s)
        | inr (inr (inr old)) ↦ old
      ]

  run_app-Closed :
      (w₀ : World) (run : App → World → Option (Option Text) × World)
      (r : Result AppError App × World) (k : Handle)
      → ((app : App) (w : World) (h : Handle) → IsOpen (run app w).1 h → IsOpen w h)
      → Built w₀ r
      → IsOpen (run_app f run r).1 k
      → IsOpen w₀ k
  unfolding run_app
  run_app-Closed w₀ run (err e, w) k keeps built opened = built k opened
  run_app-Closed w₀ run (ok app, w) k keeps built opened =
      close_app-Closed w₀ (run app w).1 app k (λ h opened_h. built h (keeps app w h opened_h))
        opened

  -- If a call of the libraries opens no handle but the one that it gives, and Close closes its handle, even
  -- when it returns an error, and the run of the application opens none itself, then after runWithDeps no
  -- handle is open that was not open before: neither when the application could not be built nor when it
  -- ran, whatever the errors.
  pub run_leaks_nothing :
      (run : App → World → Option (Option Text) × World) (cfg : Config) (w : World) (k : Handle)
      → ((app : App) (x : World) (h : Handle) → IsOpen (run app x).1 h → IsOpen x h)
      → IsOpen (run_with_deps f run cfg w).1 k
      → IsOpen w k
  unfolding run_with_deps new_with_factories
  run_leaks_nothing run cfg w k keeps opened =
      run_app-Closed w run (after_docker f cfg (f.docker_client w)) k keeps
        (after_docker-Built w cfg (f.docker_client w) refl) opened
