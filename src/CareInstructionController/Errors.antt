-- ===== src/CareInstructionController/Errors.antt =====
-- What EnsureCreated does with the errors of its steps.
use shoot_grafter.Base.{String, some, ◌≡◌, refl, arith, inl, inr}
use shoot_grafter.Base.Dict.{MapRange}
use shoot_grafter.Kube.{Error, Result, ok, err, Result-cases}
use shoot_grafter.Kube.Exec.{pure, raise, attempt, ◌>>=◌}
use shoot_grafter.Kube.Client.{Client}
use shoot_grafter.Kube.Conditions.{ConditionApi, IsLawful, condition_false}
use shoot_grafter.Api.{
  CareInstruction, set_condition, shoot_controller_started_condition, shoots_reconciled_condition,
}
use shoot_grafter.Status.{initialize_conditions_to_unknown}
use shoot_grafter.ShootController.{Run, read, write}
use shoot_grafter.CareInstructionController.{State, GardenApi}
use shoot_grafter.CareInstructionController.Manager.{reconcile_manager}
use shoot_grafter.CareInstructionController.Report.{reconcile_shoots_n_clusters}
use shoot_grafter.CareInstructionController.Handlers.{
  ensure_auth_config_map_labeled, ensure_created,
}

module _ {W : Type 0} (C : ConditionApi) (L : IsLawful C) (G : GardenApi W) (R : MapRange)
    (greenhouse : Client W) where
  abbrev pub Outcome : Type 0
  Outcome = Result (Unit {0}) × Run (State G.RestConfig W)

  -- The run after the conditions are initialized.
  abbrev initialized : Run (State G.RestConfig W) → Run (State G.RestConfig W)
  initialized s = record s {
    world = record (s.world) {
      instruction = initialize_conditions_to_unknown C s.world.instruction;
    };
  }

  -- The runs of reconcileManager and of reconcileShootsNClusters in it.
  abbrev pub managing : Run (State G.RestConfig W) → Outcome
  managing s =
      reconcile_manager C G greenhouse
        (ensure_auth_config_map_labeled C G R greenhouse (initialized s)).1

  abbrev pub reporting : Run (State G.RestConfig W) → Outcome
  reporting s = reconcile_shoots_n_clusters C G R greenhouse (managing s).1

  -- The condition of this type is false, for this reason and with the message of the error.
  abbrev pub IsFalseFor : String → String → Error → CareInstruction → Type 0
  IsFalseFor t reason e ci =
      C.get_condition_by_type ci.status.conditions t
      ≡ some (record { type = t; status = condition_false; reason = reason; message = e.message })

  set_false-IsFalseFor :
      (t reason : String) (e : Error) (ci : CareInstruction)
      → IsFalseFor t reason e (set_condition C ci (C.false_condition t reason e.message))
  unfolding set_condition
  set_false-IsFalseFor t reason e ci = rw (L.false_condition_lem, L.get-set) (ground arith)

  -- The outcome of EnsureCreated, given the results of the two runs.
  abbrev pub IsOutcome : Result (Unit {0}) → Result (Unit {0}) → Outcome → Outcome → Type 0
  IsOutcome (err e) reported reporting (r, t) =
      (r ≡ err e)
      × IsFalseFor shoot_controller_started_condition "ShootControllerError" e t.world.instruction
  IsOutcome (ok _) (err e) reporting (r, t) =
      (r ≡ ok tt)
      × IsFalseFor shoots_reconciled_condition "ShootsReconciledError" e t.world.instruction
  IsOutcome (ok _) (ok _) reporting out = out ≡ reporting

  -- EnsureCreated fails exactly with the error of reconcileManager, and the condition
  -- ShootControllerStarted then tells it. An error of reconcileShootsNClusters is told by the
  -- condition ShootsReconciled alone: EnsureCreated succeeds. Without an error, the outcome is
  -- that of reconcileShootsNClusters. The error of labelling the auth ConfigMap is of no effect.
  pub ensure_created_lem :
      (s : Run (State G.RestConfig W))
      → IsOutcome (managing s).0 (reporting s).0 (reporting s) (ensure_created C G R greenhouse s)
  unfolding ensure_created ◌>>=◌ read write attempt pure raise
  ensure_created_lem s = elim (Result-cases (managing s).0) [
    | inr (e, m) ↦ rw m (refl, set_false-IsFalseFor _ _ e _)
    | inl (_, m) ↦ elim (Result-cases (reporting s).0) [
      | inr (e, r) ↦ rw m (rw r (refl, set_false-IsFalseFor _ _ e _))
      | inl (_, r) ↦ rw m (rw r refl)
    ]
  ]
