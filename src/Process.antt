-- ===== src/Process.antt =====
-- main.go: the start of the process.
pub mod Ends
use shoot_grafter.Base.{ℕ, String, Bool, false, if◌then◌else◌, ◌==◌}
use shoot_grafter.Kube.{Error, Result, ok, err}

-- How the process ends: with an exit code, with a panic, or by its return from main.
pub data Outcome : Type 0 where
  exits : ℕ → Outcome
  panics returns : Outcome

-- A step that goes on with a value, or ends the process.
pub data Step {ℓ} (A : Type ℓ) : Type ℓ where
  goes_on : A → Step A
  ends : Outcome → Step A

infixl 5 ◌>>=◌
abbrev pub ◌>>=◌ {ℓ κ} : {A : Type ℓ} {B : Type κ} → Step A → (A → Step B) → Step B
goes_on a >>= f = f a
ends o >>= f = ends o

-- `ctrl.Options`
pub record Options (Scheme : Type 0) : Type 0 where
  pub scheme : Scheme
  pub bind_address : String
  pub leader_election : Bool

-- Functions of other packages, and the two of this repository that main only calls: the
-- registration of the API group and the set-up of the controller, whose outcome alone matters here.
pub record ProcessApi : Type 1 where
  pub Scheme : Type 0
  pub Config : Type 0
  pub Manager : Type 0
  pub new_scheme : Scheme
  pub add_client_go : Scheme → Result Scheme
  pub add_greenhouse_v1alpha1 : Scheme → Result Scheme
  pub add_greenhouse_v1alpha2 : Scheme → Result Scheme
  -- `AddToScheme` of the API group, which the builder of the scheme makes
  pub add_api_group : Scheme → Result Scheme
  pub getenv : String → String
  -- `config.GetConfigWithContext`, and `ctrl.NewManager`
  pub get_config_with_context : String → Result Config
  pub new_manager : Config → Options Scheme → Result Manager
  -- `SetupWithManager` of the CareInstruction controller, and `mgr.Start`
  pub set_up_with_manager : Manager → Result (Unit {0})
  pub start : Manager → Result (Unit {0})

module _ (E : ProcessApi) where
  -- `utilruntime.Must`
  abbrev must : {A : Type 0} → Result A → Step A
  must (ok a) = goes_on a
  must (err e) = ends panics

  -- A step whose error is logged and ends the process.
  abbrev or_exit : {A : Type 0} → Result A → Step A
  or_exit (ok a) = goes_on a
  or_exit (err e) = ends (exits 1)

  -- `init`
  unfoldable pub init : Step E.Scheme
  init = do
    s ← must (E.add_client_go E.new_scheme)
    s ← must (E.add_api_group s)
    s ← must (E.add_greenhouse_v1alpha1 s)
    must (E.add_greenhouse_v1alpha2 s)

  -- The context of the flag, or else that of the environment.
  abbrev pub context_of : String → String
  context_of kubecontext = if kubecontext == "" then E.getenv "KUBECONTEXT" else kubecontext

  unfoldable pub get_kubeconfig_or_die : String → Step E.Config
  get_kubeconfig_or_die kubecontext = or_exit (E.get_config_with_context (context_of kubecontext))

  abbrev pub options : E.Scheme → String → Options E.Scheme
  options scheme metrics_addr = record {
    scheme = scheme;
    bind_address = metrics_addr;
    leader_election = false;
  }

  -- An error is logged, and the manager that is nil is followed.
  abbrev followed : {A : Type 0} → Result A → Step A
  followed (ok a) = goes_on a
  followed (err e) = ends panics

  -- `main`, with the values of the flags
  unfoldable pub main : String → String → E.Scheme → Step (Unit {0})
  unfolding get_kubeconfig_or_die
  main kubecontext metrics_addr scheme = do
    config ← get_kubeconfig_or_die kubecontext
    mgr ← followed (E.new_manager config (options scheme metrics_addr))
    _ ← or_exit (E.set_up_with_manager mgr)
    or_exit (E.start mgr)

  abbrev outcome : Step (Unit {0}) → Outcome
  outcome (goes_on _) = returns
  outcome (ends o) = o

  -- The whole process
  unfoldable pub run : String → String → Outcome
  unfolding init main
  run kubecontext metrics_addr = outcome (init >>= main kubecontext metrics_addr)
