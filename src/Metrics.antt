-- ===== src/Metrics.antt =====
-- controller/careinstruction/metrics.go: the gauges that show the status of a CareInstruction.
pub mod Mirror
use shoot_grafter.Base.{
  ℕ, String, Bool, ◌&&◌, Option, none, some, List, [], ◌∷◌, if◌then◌else◌, ◌==◌,
}
use shoot_grafter.Api.{CareInstruction, ShootStatus, shoot_status_onboarded}

-- `prometheus.Labels`, with its label names
pub record Labels : Type 0 where
  pub care_instruction : String
  pub namespace : String
  pub garden_namespace : String

pub record ShootLabels : Type 0 where
  pub instruction : Labels
  pub shoot_name : String

abbrev pub same_labels : Labels → Labels → Bool
same_labels l m =
    l.care_instruction == m.care_instruction
    && l.namespace == m.namespace
    && l.garden_namespace == m.garden_namespace

abbrev pub same_shoot_labels : ShootLabels → ShootLabels → Bool
same_shoot_labels l m = same_labels l.instruction m.instruction && l.shoot_name == m.shoot_name

-- The four gauge vectors; labels that were never used have no value.
pub record Gauges : Type 0 where
  pub total_target_shoots : Labels → Option ℕ
  pub created_clusters : Labels → Option ℕ
  pub failed_clusters : Labels → Option ℕ
  pub shoot_onboarded : ShootLabels → Option ℕ

-- The gauges when the process starts.
abbrev pub no_gauges : Gauges
no_gauges = record {
  total_target_shoots = λ l. none;
  created_clusters = λ l. none;
  failed_clusters = λ l. none;
  shoot_onboarded = λ l. none;
}

-- `With(labels).Set(value)`
abbrev pub set_gauge {ℓ} : {L : Type ℓ} → (L → L → Bool) → L → ℕ → (L → Option ℕ) → L → Option ℕ
set_gauge same l v gauge m = if same m l then some v else gauge m

abbrev pub labels_of : CareInstruction → Labels
labels_of ci = record {
  care_instruction = ci.name;
  namespace = ci.namespace;
  garden_namespace = ci.spec.garden_namespace;
}

unfoldable pub update_total_target_shoots_metric : CareInstruction → Gauges → Gauges
update_total_target_shoots_metric ci g = record g {
  total_target_shoots =
      set_gauge same_labels (labels_of ci) ci.status.total_target_shoots g.total_target_shoots;
}

unfoldable pub update_created_clusters_metric : CareInstruction → Gauges → Gauges
update_created_clusters_metric ci g = record g {
  created_clusters =
      set_gauge same_labels (labels_of ci) ci.status.created_clusters g.created_clusters;
}

unfoldable pub update_failed_clusters_metric : CareInstruction → Gauges → Gauges
update_failed_clusters_metric ci g = record g {
  failed_clusters =
      set_gauge same_labels (labels_of ci) ci.status.failed_clusters g.failed_clusters;
}

-- The value of the gauge of a shoot.
abbrev pub onboarded_value : ShootStatus → ℕ
onboarded_value s = if s.status == shoot_status_onboarded then 1 else 0

-- The loop over the shoots of the status.
unfoldable pub set_onboarded :
    Labels → List ShootStatus → (ShootLabels → Option ℕ) → ShootLabels → Option ℕ
set_onboarded labels [] gauge = gauge
set_onboarded labels (s ∷ shoots) gauge = set_onboarded labels shoots (
    set_gauge same_shoot_labels (record { instruction = labels; shoot_name = s.name })
      (onboarded_value s) gauge)

unfoldable pub update_onboarded_shoots_metrics : CareInstruction → Gauges → Gauges
unfolding set_onboarded
update_onboarded_shoots_metrics ci g = record g {
  shoot_onboarded = set_onboarded (labels_of ci) ci.status.shoots g.shoot_onboarded;
}

-- `UpdateCareInstructionMetrics`
unfoldable pub update_care_instruction_metrics : CareInstruction → Gauges → Gauges
unfolding update_total_target_shoots_metric update_created_clusters_metric
    update_failed_clusters_metric update_onboarded_shoots_metrics
update_care_instruction_metrics ci g = update_onboarded_shoots_metrics ci (
    update_failed_clusters_metric ci
      (update_created_clusters_metric ci (update_total_target_shoots_metric ci g)))
