-- ===== src/Tests/Reports.antt =====
-- A garden with two Shoots, one of which is left out, and a ready Cluster for the other.
use shoot_grafter.Base.{
  String, Option, none, some, [], ◌∷◌, ◌≡◌, ◌↔◌, refl, ◌==◌, text_dec, All, count_if,
}
use shoot_grafter.Base.Dict.{lookup, insert}
use shoot_grafter.Base.TextOrder.{sort_by}
use shoot_grafter.Kube.{ok, Error, Shoot, Cluster}
use shoot_grafter.Kube.Exec.{◌>>=◌, pure, attempt}
use shoot_grafter.Kube.Client.{Client}
use shoot_grafter.Kube.Conditions.{condition_true}
use shoot_grafter.Api.{CareInstruction, matches_cel_filter}
use shoot_grafter.Api.Lists.{list_selected_shoots, list_own_clusters}
use shoot_grafter.ShootStatus.{
  build_shoot_statuses, merge_reports, is_failed, set_all, set_status, cluster_status,
  shoot_status_rank,
}
use shoot_grafter.ShootController.{Run, read, write}
use shoot_grafter.CareInstructionController.{State, GardenApi}
use shoot_grafter.CareInstructionController.Shoots.{
  Selection, select_shoots, counts_match, matched_owned_count, handle_auth_change,
  annotate_clusters,
}
use shoot_grafter.CareInstructionController.Selected.{HasCluster}
use shoot_grafter.CareInstructionController.Report.{conclude, report, conflicts_of, verdict}
use shoot_grafter.CareInstructionController.Reports.{Reported, report-Reported}
use shoot_grafter.CareInstructionController.Ends.{conclude_iff}
use shoot_grafter.Tests.Conditions.{greenhouse, greenhouse-IsLawful}
use shoot_grafter.Tests.Maps.{forward, forward-IsRange}
use shoot_grafter.Tests.Clusters.{Owners, client, mine, spec, cluster_of_owner, meta_of}
use shoot_grafter.Tests.Gardens.{gardener, one_garden}

abbrev pub shoot_named : String → Shoot
shoot_named name = record {
  meta = meta_of "garden-project" name none;
  generation = 1;
  spec = record { workers = []; kube_api_server = none };
  advertised_addresses = [];
  last_operation_state = none;
}

abbrev pub ready_cluster : Cluster
ready_cluster = record (cluster_of_owner "a" "mine") {
  conditions = (record { type = "Ready"; status = condition_true; reason = ""; message = "" }) ∷ [];
}

abbrev pub listing : Client Owners
listing = record client {
  list_shoots = λ options w. ok (shoot_named "a" ∷ shoot_named "b" ∷ []);
  list_clusters = λ options w. ok (ready_cluster ∷ []);
}

-- The filter lets the Shoot `a` pass.
abbrev pub filtering : GardenApi Owners
filtering = record gardener { evaluate_cel = λ expression shoot. ok (shoot.name == "a") }

abbrev pub filtered : CareInstruction
filtered = record mine {
  spec = record spec { shoot_selector = some (record { label_selector = none; expression = "x" }) };
}

abbrev pub filtered_run : Run (State String Owners)
filtered_run = record { world = record one_garden { instruction = filtered }; events = [] }

report_succeeds : (report greenhouse filtering forward listing listing filtered_run).0 ≡ ok tt
unfolding report ◌>>=◌ pure attempt read write list_selected_shoots list_own_clusters
    matches_cel_filter select_shoots handle_auth_change annotate_clusters conclude conflicts_of
    counts_match matched_owned_count verdict build_shoot_statuses merge_reports set_all set_status
    cluster_status shoot_status_rank sort_by lookup insert text_dec
report_succeeds = refl

report-Reported_example :
    Reported greenhouse greenhouse-IsLawful forward forward-IsRange filtering listing listing
      filtered filtered_run.world.clusters
      (report greenhouse filtering forward listing listing filtered_run).1.world.instruction
report-Reported_example =
    report-Reported greenhouse greenhouse-IsLawful forward forward-IsRange filtering listing listing
      filtered_run report_succeeds

abbrev no_error : Option Error
no_error = none

-- A Shoot without a Cluster.
abbrev one_missing : Selection
one_missing = record { included = shoot_named "c" ∷ []; excluded = [] }

conclude_iff_example :
    ((conclude greenhouse filtering forward listing one_missing [] [] no_error filtered_run).0
      ≡ ok tt)
    ↔ ((no_error ≡ none)
        × All (HasCluster []) one_missing.included
        × (count_if is_failed (build_shoot_statuses greenhouse forward [] [] []).0 ≡ 0))
conclude_iff_example =
    conclude_iff greenhouse forward forward-IsRange filtering listing one_missing [] [] no_error
      filtered_run
