-- ===== src/Tests/Updates.antt =====
-- Events of ConfigMaps, metrics, and the default of a CareInstruction.
use shoot_grafter.Base.{
  true, false, none, some, [], ◌∷◌, ◌≡◌, refl, text_dec, if◌then◌else◌, is_some,
}
use shoot_grafter.Base.Dict.{lookup}
use shoot_grafter.Base.TextOrder.{find}
use shoot_grafter.Kube.{ok, Shoot}
use shoot_grafter.Kube.Client.{Client}
use shoot_grafter.Api.{
  CareInstruction, matches_cel_filter, shoot_status_onboarded, shoot_status_failed,
}
use shoot_grafter.Api.Lists.{list_selected_shoots}
use shoot_grafter.Metrics.{
  Labels, ShootLabels, no_gauges, same_labels, labels_of, update_care_instruction_metrics,
}
use shoot_grafter.Metrics.Mirror.{shown, set_once, update_care_instruction_metrics_lem}
use shoot_grafter.Webhook.{default_instruction}
use shoot_grafter.Webhook.Selection.{default_instruction_lem}
use shoot_grafter.Tests.Clusters.{Owners, mine}

abbrev reported : CareInstruction
reported = record mine {
  status = record (mine.status) {
    shoots =
        (record { name = "a"; status = shoot_status_onboarded; message = "" })
        ∷ (record { name = "b"; status = shoot_status_failed; message = "" })
        ∷ [];
    total_target_shoots = 2;
    failed_clusters = 1;
  };
}

update_care_instruction_metrics_example :
    ((l : Labels)
      → (update_care_instruction_metrics reported no_gauges).total_target_shoots l
        ≡ set_once reported 2 (λ m. none) l)
    × ((l : Labels)
        → (update_care_instruction_metrics reported no_gauges).created_clusters l
          ≡ set_once reported 0 (λ m. none) l)
    × ((l : Labels)
        → (update_care_instruction_metrics reported no_gauges).failed_clusters l
          ≡ set_once reported 1 (λ m. none) l)
    × ((l : ShootLabels)
        → (update_care_instruction_metrics reported no_gauges).shoot_onboarded l ≡ (
            if same_labels l.instruction (labels_of reported)
            then shown (find (λ s. s.name) l.shoot_name reported.status.shoots) none
            else none))
unfolding lookup text_dec
update_care_instruction_metrics_example =
    update_care_instruction_metrics_lem reported no_gauges (refl, (refl, tt))

default_instruction_example :
    (d : CareInstruction) × (default_instruction (some mine) ≡ ok d)
    × (is_some d.spec.shoot_selector ≡ true)
    × ((garden : Client Owners) (w : Owners)
        → list_selected_shoots (λ s. ok s) d garden w
          ≡ list_selected_shoots (λ s. ok s) mine garden w)
    × ((s : Shoot)
        → matches_cel_filter (λ e t. ok false) d s ≡ matches_cel_filter (λ e t. ok false) mine s)
    × (default_instruction (some d) ≡ ok d)
default_instruction_example = default_instruction_lem (λ s. ok s) (λ e t. ok false) mine
