-- ===== src/CareInstructionController/Handlers.antt =====
-- careinstruction_controller.go: what the lifecycle calls for a CareInstruction.
use shoot_grafter.Base.{String, none, some, if◌then◌else◌, ◌==◌}
use shoot_grafter.Base.Dict.{lookup, entries, MapRange}
use shoot_grafter.Kube.{Error, ok, err, is_not_found}
use shoot_grafter.Kube.Exec.{pure, raise, attempt, ◌>>=◌}
use shoot_grafter.Kube.Client.{Client}
use shoot_grafter.Kube.Conditions.{ConditionApi}
use shoot_grafter.Api.{
  CareInstruction, auth_config_map_label, set_condition, shoot_controller_started_condition,
  shoots_reconciled_condition,
}
use shoot_grafter.Status.{initialize_conditions_to_unknown}
use shoot_grafter.ShootController.{read, write}
use shoot_grafter.ShootController.Auth.{with_auth_label}
use shoot_grafter.CareInstructionController.{GardenApi}
use shoot_grafter.CareInstructionController.Manager.{reconcile_manager, cleanup_care_instruction}
use shoot_grafter.CareInstructionController.Report.{Step, reconcile_shoots_n_clusters}

-- `v1alpha1.CommonCleanupFinalizer`, which GetFinalizerName returns
abbrev pub common_cleanup_finalizer : String
common_cleanup_finalizer = "shoot-grafter.cloudoperators.dev/finalizer"

module _ {W : Type 0} (C : ConditionApi) (G : GardenApi W) (R : MapRange)
    (greenhouse : Client W) where
  -- `ensureAuthConfigMapLabeled`
  unfoldable pub ensure_auth_config_map_labeled : Step C G R greenhouse (Unit {0})
  ensure_auth_config_map_labeled = do
    ci ← read (λ st. ok st.instruction)
    if ci.spec.authentication_config_map_name == ""
        then pure tt
        else (attempt (
              read (λ st.
                greenhouse.get_config_map
                  (record {
                    namespace = ci.namespace;
                    name = ci.spec.authentication_config_map_name;
                  })
                  st.clusters))
            >>= λ got. elim got [
              | err e ↦ if is_not_found e then pure tt else raise e
              | ok cm ↦ elim (lookup auth_config_map_label (entries cm.labels)) [
                | some _ ↦ pure tt
                | none ↦
                    write (λ st.
                      let (r, w) =
                        greenhouse.patch_config_map cm (with_auth_label cm) st.clusters in
                      (r, record st { clusters = w }))
                    >>= λ _. pure tt
              ]
            ])

  abbrev on_instruction : (CareInstruction → CareInstruction) → Step C G R greenhouse (Unit {0})
  on_instruction f = write (λ st. (ok tt, record st { instruction = f st.instruction }))

  -- A condition that is false, for the reason of an error.
  abbrev false_for : String → String → Error → CareInstruction → CareInstruction
  false_for t reason e ci = set_condition C ci (C.false_condition t reason e.message)

  -- `EnsureCreated`: an error stands for `lifecycle.Failed`.
  unfoldable pub ensure_created : Step C G R greenhouse (Unit {0})
  ensure_created = do
    _ ← on_instruction (initialize_conditions_to_unknown C)
    _ ← attempt ensure_auth_config_map_labeled
    managed ← attempt (reconcile_manager C G greenhouse)
    elim managed [
      | err e ↦
          on_instruction (false_for shoot_controller_started_condition "ShootControllerError" e)
          >>= λ _. raise e
      | ok _ ↦ attempt (reconcile_shoots_n_clusters C G R greenhouse) >>= λ reported.
          elim reported [
            | err e ↦
                on_instruction (false_for shoots_reconciled_condition "ShootsReconciledError" e)
            | ok _ ↦ pure tt
          ]
    ]

  -- `EnsureDeleted`
  unfoldable pub ensure_deleted : Step C G R greenhouse (Unit {0})
  ensure_deleted = do
    _ ← on_instruction (initialize_conditions_to_unknown C)
    write (λ st. (ok tt, cleanup_care_instruction C G greenhouse st))

  -- `EnsureSuspended`
  unfoldable pub ensure_suspended : Step C G R greenhouse (Unit {0})
  ensure_suspended = pure tt
