-- ===== src/Process/Ends.antt =====
-- How the process ends.
use shoot_grafter.Base.{String, ◌≡◌, ◌↔◌, ◌⊎◌, ◌∙◌, refl, sym, subst, inl, inr}
use shoot_grafter.Kube.{Error, ok, err, Result-cases}
use shoot_grafter.Process.{
  Outcome, exits, panics, returns, ProcessApi, init, main, run, get_kubeconfig_or_die, context_of,
  options, goes_on, ends,
}

module _ (E : ProcessApi) (kubecontext metrics_addr : String) where
  -- A type is not registered.
  pub data IsUnregistered : Type 0 where
    no_client_go : (x : Error) → E.add_client_go E.new_scheme ≡ err x → IsUnregistered
    no_api_group :
        (s : E.Scheme) (x : Error)
        → E.add_client_go E.new_scheme ≡ ok s
        → E.add_api_group s ≡ err x
        → IsUnregistered
    no_v1alpha1 :
        (s t : E.Scheme) (x : Error)
        → E.add_client_go E.new_scheme ≡ ok s
        → E.add_api_group s ≡ ok t
        → E.add_greenhouse_v1alpha1 t ≡ err x
        → IsUnregistered
    no_v1alpha2 :
        (s t u : E.Scheme) (x : Error)
        → E.add_client_go E.new_scheme ≡ ok s
        → E.add_api_group s ≡ ok t
        → E.add_greenhouse_v1alpha1 t ≡ ok u
        → E.add_greenhouse_v1alpha2 u ≡ err x
        → IsUnregistered

  -- All types are registered, which leads to this scheme.
  pub record IsRegistered (scheme : E.Scheme) : Type 0 where
    pub first : E.Scheme
    pub second : E.Scheme
    pub third : E.Scheme
    pub client_go : E.add_client_go E.new_scheme ≡ ok first
    pub api_group : E.add_api_group first ≡ ok second
    pub v1alpha1 : E.add_greenhouse_v1alpha1 second ≡ ok third
    pub v1alpha2 : E.add_greenhouse_v1alpha2 third ≡ ok scheme

  -- What happens until the process ends like this.
  pub data Ran (o : Outcome) : Type 0 where
    unregistered : IsUnregistered → o ≡ panics → Ran o
    unconfigured :
        (scheme : E.Scheme) (x : Error)
        → IsRegistered scheme
        → E.get_config_with_context (context_of E kubecontext) ≡ err x
        → o ≡ exits 1
        → Ran o
    unmanaged :
        (scheme : E.Scheme) (config : E.Config) (x : Error)
        → IsRegistered scheme
        → E.get_config_with_context (context_of E kubecontext) ≡ ok config
        → E.new_manager config (options E scheme metrics_addr) ≡ err x
        → o ≡ panics
        → Ran o
    not_set_up :
        (scheme : E.Scheme) (config : E.Config) (mgr : E.Manager) (x : Error)
        → IsRegistered scheme
        → E.get_config_with_context (context_of E kubecontext) ≡ ok config
        → E.new_manager config (options E scheme metrics_addr) ≡ ok mgr
        → E.set_up_with_manager mgr ≡ err x
        → o ≡ exits 1
        → Ran o
    stopped :
        (scheme : E.Scheme) (config : E.Config) (mgr : E.Manager) (x : Error)
        → IsRegistered scheme
        → E.get_config_with_context (context_of E kubecontext) ≡ ok config
        → E.new_manager config (options E scheme metrics_addr) ≡ ok mgr
        → E.set_up_with_manager mgr ≡ ok tt
        → E.start mgr ≡ err x
        → o ≡ exits 1
        → Ran o
    ended :
        (scheme : E.Scheme) (config : E.Config) (mgr : E.Manager)
        → IsRegistered scheme
        → E.get_config_with_context (context_of E kubecontext) ≡ ok config
        → E.new_manager config (options E scheme metrics_addr) ≡ ok mgr
        → E.set_up_with_manager mgr ≡ ok tt
        → E.start mgr ≡ ok tt
        → o ≡ returns
        → Ran o

  init-IsUnregistered : IsUnregistered → init E ≡ ends panics
  unfolding init
  init-IsUnregistered (no_client_go x a) = rw a refl
  init-IsUnregistered (no_api_group s x a b) = rw a (rw b refl)
  init-IsUnregistered (no_v1alpha1 s t x a b c) = rw a (rw b (rw c refl))
  init-IsUnregistered (no_v1alpha2 s t u x a b c d) = rw a (rw b (rw c (rw d refl)))

  init-IsRegistered : (scheme : E.Scheme) → IsRegistered scheme → init E ≡ goes_on scheme
  unfolding init
  init-IsRegistered scheme r = rw r.client_go (rw r.api_group (rw r.v1alpha1 (rw r.v1alpha2 refl)))

  registered : IsUnregistered ⊎ ((scheme : E.Scheme) × IsRegistered scheme)
  registered = elim (Result-cases (E.add_client_go E.new_scheme)) [
    | inr (x, a) ↦ inl (no_client_go x a)
    | inl (s, a) ↦ elim (Result-cases (E.add_api_group s)) [
      | inr (x, b) ↦ inl (no_api_group s x a b)
      | inl (t, b) ↦ elim (Result-cases (E.add_greenhouse_v1alpha1 t)) [
        | inr (x, c) ↦ inl (no_v1alpha1 s t x a b c)
        | inl (u, c) ↦ elim (Result-cases (E.add_greenhouse_v1alpha2 u)) [
          | inr (x, d) ↦ inl (no_v1alpha2 s t u x a b c d)
          | inl (scheme, d) ↦ inr (
            scheme,
            record {
              first = s;
              second = t;
              third = u;
              client_go = a;
              api_group = b;
              v1alpha1 = c;
              v1alpha2 = d;
            },
          )
        ]
      ]
    ]
  ]

  Ran-run : (o : Outcome) → Ran o → run E kubecontext metrics_addr ≡ o
  unfolding run main get_kubeconfig_or_die
  Ran-run o (unregistered u e) = rw (init-IsUnregistered u) (sym e)
  Ran-run o (unconfigured s x r a e) = rw (init-IsRegistered s r) (rw a (sym e))
  Ran-run o (unmanaged s c x r a b e) = rw (init-IsRegistered s r) (rw a (rw b (sym e)))
  Ran-run o (not_set_up s c m x r a b d e) = rw (init-IsRegistered s r) (rw a (rw b (rw d (sym e))))
  Ran-run o (stopped s c m x r a b d f e) =
      rw (init-IsRegistered s r) (rw a (rw b (rw d (rw f (sym e)))))
  Ran-run o (ended s c m r a b d f e) =
      rw (init-IsRegistered s r) (rw a (rw b (rw d (rw f (sym e)))))

  ran : (o : Outcome) × Ran o
  ran = elim registered [
    | inl u ↦ (panics, unregistered u refl)
    | inr (s, r) ↦ elim (Result-cases (E.get_config_with_context (context_of E kubecontext))) [
      | inr (x, a) ↦ (exits 1, unconfigured s x r a refl)
      | inl (c, a) ↦ elim (Result-cases (E.new_manager c (options E s metrics_addr))) [
        | inr (x, b) ↦ (panics, unmanaged s c x r a b refl)
        | inl (m, b) ↦ elim (Result-cases (E.set_up_with_manager m)) [
          | inr (x, d) ↦ (exits 1, not_set_up s c m x r a b d refl)
          | inl (_, d) ↦ elim (Result-cases (E.start m)) [
            | inr (x, f) ↦ (exits 1, stopped s c m x r a b d f refl)
            | inl (_, f) ↦ (returns, ended s c m r a b d f refl)
          ]
        ]
      ]
    ]
  ]

module _ (E : ProcessApi) where
  -- The process panics exactly if a type cannot be registered, or if the configuration is loaded and
  -- the manager cannot be constructed; it exits with code 1 exactly if all types are registered and
  -- the configuration is not loaded, or the manager is constructed and the controller is not set up
  -- or the manager ends with an error; and it returns from main exactly if all succeed.
  pub run_iff :
      (kubecontext metrics_addr : String) (o : Outcome)
      → (run E kubecontext metrics_addr ≡ o) ↔ Ran E kubecontext metrics_addr o
  run_iff kubecontext metrics_addr o =
      let (end, r) = ran E kubecontext metrics_addr in
      (
        λ e.
            subst (Ran E kubecontext metrics_addr)
              (sym (Ran-run E kubecontext metrics_addr end r) ∙ e) r,
        λ r'. Ran-run E kubecontext metrics_addr o r',
      )
