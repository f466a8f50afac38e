-- ===== src/Tests/Statuses.antt =====
-- Statuses and conditions of concrete CareInstructions.

use shoot_grafter.Base.{
  String, true, none, some, List, [], ◌∷◌, ◌≡◌, refl, ◌==◌, text_dec, if◌then◌else◌, or_else,
  contains,
}
use shoot_grafter.Base.Dict.{Dict, lookup}
use shoot_grafter.Base.TextOrder.{find, IsSorted}
use shoot_grafter.Kube.{Cluster}
use shoot_grafter.Api.{CareInstruction}
use shoot_grafter.Status.{reconcile_status, initialize_conditions_to_unknown, known_condition_types}
use shoot_grafter.Status.Ready.{
  condition, summary, first_failing, unknown_of, reconcile_status_lem,
  initialize_conditions_to_unknown_lem,
}
use shoot_grafter.ShootStatus.{ConflictInfo, build_shoot_statuses}
use shoot_grafter.ShootStatus.Expected.{expected}
use shoot_grafter.ShootStatus.Report.{name_of, build_shoot_statuses_lem, build_shoot_statuses_order}
use shoot_grafter.Tests.Conditions.{greenhouse, greenhouse-IsLawful}
use shoot_grafter.Tests.Maps.{forward, forward-IsRange, rotated, rotated-IsRange}
use shoot_grafter.Tests.Clusters.{mine, cluster_of_owner}

abbrev excluded : Dict String
excluded = ("a", "filtered out by CEL expression") ∷ ("d", "CEL evaluation failed: x") ∷ []

abbrev owned : List Cluster
owned = cluster_of_owner "b" "mine" ∷ cluster_of_owner "a" "mine" ∷ []

abbrev conflicts : Dict ConflictInfo
conflicts = ("c", record { owner = "other"; ready = true }) ∷ []

build_shoot_statuses_example :
    IsSorted name_of (build_shoot_statuses greenhouse forward excluded owned conflicts).0
    × ((k : String)
        → find name_of k (build_shoot_statuses greenhouse forward excluded owned conflicts).0
          ≡ expected greenhouse (lookup k excluded) (lookup k conflicts) k owned)
unfolding lookup text_dec
build_shoot_statuses_example =
    build_shoot_statuses_lem greenhouse forward forward-IsRange excluded owned conflicts
      (refl, (refl, tt)) (refl, tt)

build_shoot_statuses_order_example :
    build_shoot_statuses greenhouse forward excluded owned conflicts
    ≡ build_shoot_statuses greenhouse rotated excluded owned conflicts
unfolding lookup text_dec
build_shoot_statuses_order_example =
    build_shoot_statuses_order greenhouse forward rotated forward-IsRange rotated-IsRange excluded
      excluded owned conflicts conflicts (refl, (refl, tt)) (refl, (refl, tt)) (refl, tt) (refl, tt)
      (λ k. refl) (λ k. refl)

-- The shoot controller has not started.
abbrev started_not : CareInstruction
started_not = record mine {
  status = record (mine.status) {
    conditions =
        (record {
          type = "ShootControllerStarted";
          status = "False";
          reason = "ShootControllerError";
          message = "m";
        })
        ∷ [];
  };
}

reconcile_status_example :
    condition greenhouse (reconcile_status greenhouse started_not) "Ready" ≡ (
      if "Ready" == "Ready"
      then some (
          summary greenhouse
            (first_failing greenhouse (condition greenhouse started_not) known_condition_types))
      else condition greenhouse started_not "Ready")
reconcile_status_example = reconcile_status_lem greenhouse greenhouse-IsLawful started_not "Ready"

initialize_conditions_to_unknown_example :
    condition greenhouse (initialize_conditions_to_unknown greenhouse started_not) "Delete"
    ≡ or_else
        (condition greenhouse started_not "Delete")
        (if contains "Delete" known_condition_types then some (unknown_of "Delete") else none)
initialize_conditions_to_unknown_example =
    initialize_conditions_to_unknown_lem greenhouse greenhouse-IsLawful started_not "Delete"
