-- ===== src/Api.antt =====
-- api/v1alpha1/careinstruction_types.go: the CareInstruction resource, its constants and methods.
pub mod Lists
pub mod Memory
pub mod DeepCopy
use shoot_grafter.Base.{
  String, Bool, true, Option, none, some, List, ◌==◌, ◌!=◌, if◌then◌else◌, select, ℕ,
}
use shoot_grafter.Base.Dict.{GoMap}
use shoot_grafter.Kube.{Condition, ObjectMeta, LabelSelector, Shoot, Result, ok}
use shoot_grafter.Kube.Conditions.{ConditionApi}

abbrev pub garden_cluster_access_ready : String
garden_cluster_access_ready = "GardenClusterAccessReady"

abbrev pub shoot_controller_started_condition : String
shoot_controller_started_condition = "ShootControllerStarted"

abbrev pub delete_condition : String
delete_condition = "Delete"

abbrev pub shoots_reconciled_condition : String
shoots_reconciled_condition = "ShootsReconciled"

abbrev pub care_instruction_label : String
care_instruction_label = "shoot-grafter.cloudoperators.dev/careinstruction"

abbrev pub auth_config_map_label : String
auth_config_map_label = "shoot-grafter.cloudoperators.dev/auth-configmap"

abbrev pub reconcile_annotation : String
reconcile_annotation = "shoot-grafter.cloudoperators.dev/reconcile"

abbrev pub shoot_status_onboarded : String
shoot_status_onboarded = "Onboarded"

abbrev pub shoot_status_failed : String
shoot_status_failed = "Failed"

abbrev pub shoot_status_excluded : String
shoot_status_excluded = "Excluded"

pub record ShootSelector : Type 0 where
  pub label_selector : Option LabelSelector
  pub expression : String

pub record SecretKeyReference : Type 0 where
  pub name : String
  pub key : String

pub record CareInstructionSpec : Type 0 where
  pub garden_cluster_kube_config_secret_name : SecretKeyReference
  pub garden_cluster_name : String
  pub garden_namespace : String
  pub shoot_selector : Option ShootSelector
  pub propagate_labels : List String
  pub additional_labels : GoMap String
  pub additional_annotations : GoMap String
  pub enable_rbac : Bool
  pub authentication_config_map_name : String

pub record ShootStatus : Type 0 where
  pub name : String
  pub status : String
  pub message : String

pub record CareInstructionStatus : Type 0 where
  pub conditions : List Condition
  pub shoots : List ShootStatus
  pub total_target_shoots : ℕ
  pub created_clusters : ℕ
  pub failed_clusters : ℕ
  pub shoot_controller_restart_count : ℕ

pub record CareInstruction : Type 0 where
  pub meta : ObjectMeta
  pub open meta use *
  pub spec : CareInstructionSpec
  pub status : CareInstructionStatus

pub get_conditions : CareInstruction → List Condition
get_conditions c = c.status.conditions

-- Writes the conditions of the status.
abbrev pub with_conditions : CareInstruction → List Condition → CareInstruction
with_conditions c cs = record c { status = record (c.status) { conditions = cs } }

unfoldable pub set_condition : ConditionApi → CareInstruction → Condition → CareInstruction
set_condition C c condition = with_conditions c (C.set_condition condition c.status.conditions)

unfoldable pub remove_condition : CareInstruction → String → CareInstruction
remove_condition c condition_type =
    with_conditions c (select (λ cond. cond.type != condition_type) c.status.conditions)

-- `MatchesCELFilter`, over Greenhouse's `cel.EvaluateTyped[bool]`
unfoldable pub matches_cel_filter :
    (String → Shoot → Result Bool) → CareInstruction → Shoot → Result Bool
matches_cel_filter evaluate c shoot = elim c.spec.shoot_selector [
  | none ↦ ok true
  | some s ↦ if s.expression == "" then ok true else evaluate s.expression shoot
]
