-- ===== src/Tests/Handlers.antt =====
-- Runs of the handlers of a CareInstruction.
use shoot_grafter.Base.{
  ◌==◌, Option, Bool, false, arith, some, ◌∷◌, String, ◌≡◌, refl, [], none, text_dec,
}
use shoot_grafter.Base.Dict.{lookup}
use shoot_grafter.Kube.{ok, Secret}
use shoot_grafter.Kube.Client.{Client}
use shoot_grafter.Kube.Exec.{◌>>=◌}
use shoot_grafter.ShootController.{Run, read, write}
use shoot_grafter.CareInstructionController.{State, GardenApi, garden_key}
use shoot_grafter.CareInstructionController.Steady.{IsReflexive}
use shoot_grafter.CareInstructionController.Idle.{reconcile_manager-twice}
use shoot_grafter.CareInstructionController.Manager.{
  reconcile_manager, recreate_manager, prepare_manager, initial_hash, is_current,
}
use shoot_grafter.CareInstructionController.Gardens.{register}
use shoot_grafter.CareInstructionController.Access.{get_garden_cluster_access}
use shoot_grafter.CareInstructionController.Shoots.{handle_annotation}
use shoot_grafter.CareInstructionController.Report.{
  reconcile_shoots_n_clusters, reset, status_step, report, report_reset,
}
use shoot_grafter.CareInstructionController.Handlers.{ensure_created, ensure_deleted}
use shoot_grafter.CareInstructionController.Errors.{
  IsOutcome, managing, reporting, ensure_created_lem,
}
use shoot_grafter.CareInstructionController.Concluded.{IsConsistent}
use shoot_grafter.CareInstructionController.Consistent.{reconcile_shoots_n_clusters-IsConsistent}
use shoot_grafter.CareInstructionController.Sound.{IsSound}
use shoot_grafter.CareInstructionController.Kept.{ensure_created-IsSound}
use shoot_grafter.CareInstructionController.Serves.{reconcile_manager-Serves}
use shoot_grafter.CareInstructionController.Known.{Serves}
use shoot_grafter.Api.{set_condition}
use shoot_grafter.Tests.Conditions.{greenhouse, greenhouse-IsLawful}
use shoot_grafter.Tests.Maps.{forward, forward-IsRange}
use shoot_grafter.Tests.Clusters.{Owners, client, mine, meta_of}
use shoot_grafter.Tests.Gardens.{gardener, one_garden, one_garden-IsSound}

abbrev pub first_run : Run (State String Owners)
first_run = record { world = one_garden; events = [] }

ensure_created_example :
    IsSound (ensure_created greenhouse gardener forward client first_run).1.world.fleet
    × IsSound (ensure_deleted greenhouse gardener forward client first_run).1.world.fleet
ensure_created_example =
    ensure_created-IsSound greenhouse gardener forward client first_run one_garden-IsSound

abbrev kubeconfig : Secret
kubeconfig = record {
  meta = meta_of "greenhouse" "garden" none;
  contents = some (("kubeconfig", "new") ∷ []);
  type = "Opaque";
}

-- The Secret with the way to the garden is there.
abbrev pub serving : Client Owners
serving = record client { get_secret = λ key w. ok kubeconfig }

first_run_succeeds : (reconcile_manager greenhouse gardener serving first_run).0 ≡ ok tt
unfolding lookup text_dec ◌>>=◌ read write get_garden_cluster_access set_condition register
    prepare_manager initial_hash is_current recreate_manager reconcile_manager
first_run_succeeds = refl

reconcile_manager-Serves_example :
    (S : Serves
      (garden_key mine)
      (reconcile_manager greenhouse gardener serving first_run).1.world.fleet)
    × (report_reset greenhouse gardener forward serving
          (reconcile_manager greenhouse gardener serving first_run).1
        ≡ (status_step greenhouse gardener forward serving reset >>= λ _.
              handle_annotation greenhouse gardener forward serving >>= λ _.
              report greenhouse gardener forward serving S.client)
            (reconcile_manager greenhouse gardener serving first_run).1)
reconcile_manager-Serves_example =
    reconcile_manager-Serves greenhouse gardener forward serving first_run one_garden-IsSound
      first_run_succeeds

abbrev same_option : Option String → Option String → Bool
same_option (some a) (some b) = a == b
same_option _ _ = false

abbrev pub stable : GardenApi Owners
stable = record gardener { same_config = same_option }

pub stable-IsReflexive : IsReflexive stable
stable-IsReflexive = record { same_config-refl = λ c. ground arith; same_spec-refl = λ c. refl }

stable_run_succeeds : (reconcile_manager greenhouse stable serving first_run).0 ≡ ok tt
unfolding lookup text_dec ◌>>=◌ read write get_garden_cluster_access set_condition register
    prepare_manager initial_hash is_current recreate_manager reconcile_manager
stable_run_succeeds = refl

reconcile_manager-twice_example :
    ((reconcile_manager greenhouse stable serving
        (reconcile_manager greenhouse stable serving first_run).1).0
      ≡ ok tt)
    × ((reconcile_manager greenhouse stable serving
          (reconcile_manager greenhouse stable serving first_run).1).1.world.fleet
        ≡ (reconcile_manager greenhouse stable serving first_run).1.world.fleet)
reconcile_manager-twice_example =
    reconcile_manager-twice greenhouse greenhouse-IsLawful stable stable-IsReflexive serving
      first_run one_garden-IsSound stable_run_succeeds

ensure_created_lem_example :
    IsOutcome greenhouse greenhouse-IsLawful stable forward serving
      (managing greenhouse greenhouse-IsLawful stable forward serving first_run).0
      (reporting greenhouse greenhouse-IsLawful stable forward serving first_run).0
      (reporting greenhouse greenhouse-IsLawful stable forward serving first_run)
      (ensure_created greenhouse stable forward serving first_run)
ensure_created_lem_example =
    ensure_created_lem greenhouse greenhouse-IsLawful stable forward serving first_run

reconcile_shoots_n_clusters-IsConsistent_example :
    IsConsistent
      (reconcile_shoots_n_clusters greenhouse gardener forward serving
        first_run).1.world.instruction
unfolding lookup text_dec
reconcile_shoots_n_clusters-IsConsistent_example =
    reconcile_shoots_n_clusters-IsConsistent greenhouse forward forward-IsRange gardener serving
      first_run refl
