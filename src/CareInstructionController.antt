-- ===== src/CareInstructionController.antt =====
-- controller/careinstruction: the garden managers that the controller of CareInstructions starts
-- and stops (careinstruction_controller.go), and the access to a garden (client.go).
pub mod Gardens
pub mod Access
pub mod Manager
pub mod Shoots
pub mod Report
pub mod Handlers
pub mod Sound
pub mod Lives
pub mod Rules
pub mod Kept
pub mod Selected
pub mod Success
pub mod Ends
pub mod Bounds
pub mod Concluded
pub mod Consistent
pub mod Reports
pub mod Known
pub mod Serves
pub mod Steady
pub mod Again
pub mod Idle
pub mod Errors
pub mod Renewal
pub mod Seeded
pub mod Others
pub mod Alone
pub mod Owned
pub mod Isolated
pub mod Runners
pub mod Simulates
pub mod Made
pub mod Refines
pub mod Reached
use shoot_grafter.Base.{ℕ, String, ◌<>◌, Bool, Option, List}
use shoot_grafter.Base.Dict.{Dict}
use shoot_grafter.Kube.{Result, Cluster, Shoot, LabelSelector}
use shoot_grafter.Metrics.{Gauges}
use shoot_grafter.Kube.Client.{Client}
use shoot_grafter.Api.{CareInstruction, CareInstructionSpec}

-- The `garden` of a CareInstruction. A start has a number, which names its manager, the context
-- that its cancel function ends, and the channel that is closed when the manager has stopped.
pub record Garden (Config C : Type 0) : Type 0 where
  pub mgr : Option ℕ
  pub garden_config : Option Config
  pub garden_client : Option C
  pub care_instruction_spec : CareInstructionSpec
  pub cancel_func : Option ℕ
  pub stop_chan : Option ℕ
  pub auth_config_map_hash : String

-- The gardens of `CareInstructionReconciler` (a nil map is empty), the number of the next start,
-- the starts whose context is cancelled, and those whose channel is closed.
pub record Fleet (Config C : Type 0) : Type 0 where
  pub gardens : Dict (Garden Config C)
  pub next : ℕ
  pub cancelled : List ℕ
  pub closed : List ℕ

-- Functions of other packages.
pub record GardenApi (W : Type 0) : Type 1 where
  pub RestConfig : Type 0
  pub Scheme : Type 0
  -- `reflect.DeepEqual`
  pub same_config : Option RestConfig → Option RestConfig → Bool
  pub same_spec : CareInstructionSpec → CareInstructionSpec → Bool
  -- `hex` of the SHA-256 sum of a text
  pub sha256 : String → String
  -- `clientcmd.RESTConfigFromKubeConfig`
  pub rest_config_from_kube_config : String → Result RestConfig
  -- `lifecycle.NewRemoteKubeCfg`
  pub new_remote_kube_cfg : Cluster → W → Result RestConfig
  pub new_scheme : Scheme
  pub add_core : Scheme → Result Scheme
  pub add_gardener : Scheme → Result Scheme
  pub add_authentication : Scheme → Result Scheme
  -- `client.New`, and `ctrl.NewManager` in a namespace
  pub new_client : RestConfig → Scheme → Result (Client W)
  pub new_manager : RestConfig → Scheme → String → Result (Unit {0})
  -- `metav1.LabelSelectorAsSelector`, and `cel.EvaluateTyped[bool]`
  pub as_selector : LabelSelector → Result LabelSelector
  pub evaluate_cel : String → Shoot → Result Bool
  -- `Patch` of a CareInstruction, of the base and the object
  pub patch_care_instruction : CareInstruction → CareInstruction → W → Result CareInstruction × W
  -- `IndexField` for the owner label, and `SetupWithManager` of the shoot controller
  pub index_field : RestConfig → Result (Unit {0})
  pub set_up_shoot_controller : RestConfig → CareInstruction → Result (Unit {0})

-- What a run of the controller works on: the clusters, the gardens, and the CareInstruction, which
-- the handlers change in place, and the gauges.
pub record State (Config W : Type 0) : Type 0 where
  pub clusters : W
  pub fleet : Fleet Config (Client W)
  pub instruction : CareInstruction
  -- whether the garden's pointer is to the specification of this very object
  pub shares_spec : Bool
  pub gauges : Gauges

-- The key of a CareInstruction's garden, with its namespace.
abbrev pub garden_key : CareInstruction → String
garden_key ci = ci.namespace <> ("/" <> ci.name)
