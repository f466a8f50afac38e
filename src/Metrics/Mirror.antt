-- ===== src/Metrics/Mirror.antt =====
-- What the gauges show after an update.
use shoot_grafter.Base.{ℕ, true, Option, none, some, List, [], ◌∷◌, if◌then◌else◌, ◌≡◌, refl, arith}
use shoot_grafter.Base.TextOrder.{find, DistinctKeys}
use shoot_grafter.Api.{CareInstruction, ShootStatus}
use shoot_grafter.ShootStatus.Report.{name_of}
use shoot_grafter.Metrics.{
  Labels, ShootLabels, Gauges, same_labels, same_shoot_labels, set_gauge, labels_of,
  onboarded_value, set_onboarded, update_care_instruction_metrics,
}

-- What is to be shown of a shoot, given its status.
abbrev pub shown : Option ShootStatus → Option ℕ → Option ℕ
shown none old = old
shown (some s) old = some (onboarded_value s)

same_labels_refl : (l : Labels) → same_labels l l ≡ true
same_labels_refl l = ground arith

set_onboarded_lem :
    (labels : Labels) (shoots : List ShootStatus) (gauge : ShootLabels → Option ℕ) (l : ShootLabels)
    → DistinctKeys name_of shoots
    → set_onboarded labels shoots gauge l ≡ (
        if same_labels l.instruction labels
        then shown (find name_of l.shoot_name shoots) (gauge l)
        else gauge l)
unfolding set_onboarded
set_onboarded_lem labels [] gauge l u = ground arith
set_onboarded_lem labels (s ∷ shoots) gauge l (fresh, u) = ground (
  arith,
  set_onboarded_lem labels shoots
      (set_gauge same_shoot_labels (record { instruction = labels; shoot_name = s.name })
        (onboarded_value s) gauge)
      l u,
)

-- The gauges at these labels after an update, where a gauge is set once.
abbrev pub set_once : CareInstruction → ℕ → (Labels → Option ℕ) → Labels → Option ℕ
set_once ci v gauge l = if same_labels l (labels_of ci) then some v else gauge l

-- If no two shoots of the status have the same name, then after UpdateCareInstructionMetrics the
-- three counters under the labels of the CareInstruction are those of its status, and those under
-- other labels are as before; the gauge of a shoot under its labels is 1 if its entry is Onboarded
-- and 0 if it has another one. The gauge of a shoot without an entry, and those of other
-- CareInstructions, are as before, so that the last value of a shoot that is gone stays.
pub update_care_instruction_metrics_lem :
    (ci : CareInstruction) (g : Gauges)
    → DistinctKeys name_of ci.status.shoots
    → ((l : Labels)
        → (update_care_instruction_metrics ci g).total_target_shoots l
          ≡ set_once ci ci.status.total_target_shoots g.total_target_shoots l)
      × ((l : Labels)
          → (update_care_instruction_metrics ci g).created_clusters l
            ≡ set_once ci ci.status.created_clusters g.created_clusters l)
      × ((l : Labels)
          → (update_care_instruction_metrics ci g).failed_clusters l
            ≡ set_once ci ci.status.failed_clusters g.failed_clusters l)
      × ((l : ShootLabels)
          → (update_care_instruction_metrics ci g).shoot_onboarded l ≡ (
              if same_labels l.instruction (labels_of ci)
              then shown (find name_of l.shoot_name ci.status.shoots) (g.shoot_onboarded l)
              else g.shoot_onboarded l))
unfolding update_care_instruction_metrics
update_care_instruction_metrics_lem ci g u = (
  λ l. refl,
  λ l. refl,
  λ l. refl,
  λ l. set_onboarded_lem (labels_of ci) ci.status.shoots g.shoot_onboarded l u,
)
