-- ===== src/ShootController.antt =====
-- controller/shoot: the controller that one CareInstruction starts for the Shoots of its garden.
pub mod SecretData
pub mod Annotations
pub mod Labels
pub mod Propagated
pub mod Auth
pub mod Rbac
pub mod Access
pub mod Reconcile
pub mod Keeps
pub mod Ensures
pub mod Leaves
pub mod Settled
pub mod Garden
pub mod Connected
pub mod Writes
pub mod Ownership
use shoot_grafter.Base.{
  ℕ, String, ◌<>◌, Bool, true, false, Option, none, some, List, [], ◌∷◌, ◌++◌, if◌then◌else◌,
}
use shoot_grafter.Kube.{Error, Result, ok, err, Shoot, Secret}
use shoot_grafter.Kube.Exec.{Exec, pure}
use shoot_grafter.Kube.Client.{Client}
use shoot_grafter.Api.{CareInstruction}

-- `corev1.EventTypeNormal` and `corev1.EventTypeWarning`
pub data EventType : Type 0 where
  normal warning : EventType

-- An event on the CareInstruction, on the Greenhouse cluster.
pub record Event : Type 0 where
  pub type : EventType
  pub reason : String
  pub message : String

-- The state of all clusters, and the events so far.
pub record Run (W : Type 0) : Type 0 where
  pub world : W
  pub events : List Event

-- Names of Greenhouse (`greenhouseapis`).
pub record Names : Type 0 where
  pub api_server_url_annotation : String
  pub cluster_workerless_annotation : String
  pub secret_type_oidc_config : String

-- The calls that lead to a client of a Shoot's own cluster.
pub record ShootAccess (W : Type 0) : Type 1 where
  pub ClientConfig : Type 0
  pub RestConfig : Type 0
  pub Scheme : Type 0
  -- `SubResource("adminkubeconfig").Create`, of the expiration in seconds
  pub create_admin_kubeconfig : Shoot → ℕ → W → Result String × W
  -- `clientcmd.NewClientConfigFromBytes`, and then `ClientConfig`
  pub new_client_config : String → Result ClientConfig
  pub client_config : ClientConfig → Result RestConfig
  pub new_scheme : Scheme
  pub add_core : Scheme → Result Scheme
  pub add_rbac : Scheme → Result Scheme
  pub new_client : RestConfig → Scheme → Result (Client W)

-- Functions of other packages.
pub record Externals (W : Type 0) : Type 1 where
  pub names : Names
  -- `base64.StdEncoding.Encode`
  pub encode_base64 : String → String
  -- `lifecycle.NewPropagator(shoot, secret).CopyLabels(keys)`
  pub copy_labels : Shoot → Secret → List String → Secret
  -- `cel.EvaluateTyped[bool]`
  pub evaluate_cel : String → Shoot → Result Bool
  pub access : ShootAccess W

pub record ShootController (W : Type 0) : Type 0 where
  pub greenhouse_client : Client W
  pub garden_client : Client W
  pub name : String
  pub care_instruction : CareInstruction
  -- whether `EventRecorder` is there
  pub has_event_recorder : Bool

-- `ctrl.Result`, in seconds
pub record CtrlResult : Type 0 where
  pub requeue_after : ℕ

abbrev pub done : CtrlResult
done = record { requeue_after = 0 }

-- `GenerateName`
abbrev pub generate_name : String → String
generate_name garden_cluster_name = "shoot-controller-" <> garden_cluster_name

module _ {W : Type 0} where
  -- A call of a client that reads.
  unfoldable pub read {ℓ} : {A : Type ℓ} → (W → Result A) → Exec (Run W) A
  read call s = (call s.world, s)

  -- A call of a client that writes.
  unfoldable pub write {ℓ} : {A : Type ℓ} → (W → Result A × W) → Exec (Run W) A
  write call s = let (r, w) = call s.world in (r, record s { world = w })

  -- `emitEvent`, on the CareInstruction
  unfoldable pub emit_event :
      ShootController W → EventType → String → String → Exec (Run W) (Unit {0})
  emit_event r type reason message s =
      if r.has_event_recorder
      then (
        ok tt,
        record s {
          events = s.events ++ (record { type = type; reason = reason; message = message } ∷ []);
        },
      )
      else (ok tt, s)
