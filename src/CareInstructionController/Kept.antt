-- ===== src/CareInstructionController/Kept.antt =====
-- The handlers as a whole keep the gardens sound.
use shoot_grafter.Base.{
  String, Bool, true, false, Option, none, some, List, inl, inr, Bool-cases, Option-cases, ◌==◌,
}
use shoot_grafter.Base.Dict.{lookup, entries, MapRange}
use shoot_grafter.Kube.{Error, is_not_found, Cluster}
use shoot_grafter.Kube.Client.{Client}
use shoot_grafter.Kube.Conditions.{ConditionApi}
use shoot_grafter.Api.{CareInstruction, auth_config_map_label}
use shoot_grafter.ShootController.{Run}
use shoot_grafter.ShootController.Keeps.{
  Keeps, Keeps-read, Keeps-write, Keeps-bind, Keeps-tried, Keeps-pure, Keeps-raise, Keeps-if,
  Keeps-attempt,
}
use shoot_grafter.CareInstructionController.{Garden, State, GardenApi, garden_key}
use shoot_grafter.CareInstructionController.Gardens.{set_hash}
use shoot_grafter.CareInstructionController.Manager.{
  reconcile_manager, restart_shoot_controller, cleanup_care_instruction,
}
use shoot_grafter.CareInstructionController.Shoots.{
  Selection, asks_for_run, take_response, handle_annotation,
}
use shoot_grafter.CareInstructionController.Report.{
  conclude, report, report_with, report_garden, report_reset, reconcile_shoots_n_clusters,
}
use shoot_grafter.CareInstructionController.Handlers.{
  ensure_auth_config_map_labeled, ensure_created, ensure_deleted,
}
use shoot_grafter.CareInstructionController.Rules.{
  after_change, Keeps-handle_auth_change, Keeps-annotate_clusters,
}
use shoot_grafter.CareInstructionController.Sound.{IsSound}
use shoot_grafter.CareInstructionController.Sound.Stops.{set_hash-IsSound, set_spec-IsSound}
use shoot_grafter.CareInstructionController.Lives.{
  SoundHere, reconcile_manager-IsSound, restart_shoot_controller-IsSound,
}

module _ {W : Type 0} (C : ConditionApi) (G : GardenApi W) (R : MapRange)
    (greenhouse : Client W) where
  abbrev Sound : State G.RestConfig W → Type 0
  Sound st = IsSound st.fleet

  restarted-Sound :
      (st : State G.RestConfig W)
      → IsSound st.fleet
      → IsSound (restart_shoot_controller C G greenhouse st).fleet
  restarted-Sound st h = (restart_shoot_controller-IsSound C G greenhouse st h).0

  take_response-Sound :
      (ci : CareInstruction) (st : State G.RestConfig W)
      → IsSound st.fleet
      → IsSound (take_response C G R greenhouse ci st).fleet
  unfolding take_response
  take_response-Sound ci st h = elim (Bool-cases st.shares_spec) [
    | inl e ↦ rw e (set_spec-IsSound (garden_key st.instruction) st.fleet h ci.spec)
    | inr e ↦ rw e h
  ]

  Keeps-handle_annotation : Keeps Sound (handle_annotation C G R greenhouse)
  unfolding handle_annotation
  Keeps-handle_annotation = Keeps-bind _ _ (Keeps-read _) (λ base.
      Keeps-if (asks_for_run base.meta) _ _
        (λ _. Keeps-bind _ _ (Keeps-write _ (λ st h. h)) (λ _.
          Keeps-bind _ _ (Keeps-write _ (λ st h. h)) (λ response. Keeps-write _ (λ st h.
            restarted-Sound (take_response C G R greenhouse response st)
              (take_response-Sound response st h)))))
        (λ _. Keeps-pure tt))

  auth_change-Sound :
      (b : Bool) (key hash : String) (st : State G.RestConfig W)
      → IsSound st.fleet
      → IsSound (after_change C G R greenhouse b key hash st).fleet
  auth_change-Sound true key hash st h =
      restarted-Sound (record st { fleet = set_hash key hash st.fleet })
        (set_hash-IsSound key st.fleet h hash)
  auth_change-Sound false key hash st h = h

  Keeps-conclude :
      (sel : Selection) (clusters left : List Cluster) (failed : Option Error)
      → Keeps Sound (conclude C G R greenhouse sel clusters left failed)
  unfolding conclude
  Keeps-conclude sel clusters left failed = Keeps-bind _ _ (Keeps-read _) (λ ci.
      Keeps-bind _ _ (Keeps-read _) (λ conflicts.
        Keeps-bind _ _ (Keeps-write _ (λ st h. h))
          (λ _. Keeps-bind _ _ (Keeps-read _) (λ _. Keeps-write _ (λ st h. h)))))

  Keeps-report : (garden : Client W) → Keeps Sound (report C G R greenhouse garden)
  unfolding report
  Keeps-report garden = Keeps-bind _ _ (Keeps-read _) (λ ci.
      Keeps-bind _ _ (Keeps-read _) (λ shoots. Keeps-bind _ _ (Keeps-write _ (λ st h. h)) (λ _.
        Keeps-bind _ _
          (Keeps-handle_auth_change C G R greenhouse
            (λ before h b. auth_change-Sound b (garden_key before.instruction)))
          (λ _. Keeps-bind _ _ (Keeps-read _) (λ clusters.
            Keeps-bind _ _ (Keeps-write _ (λ st h. h)) (λ _.
              Keeps-bind _ _
                (Keeps-annotate_clusters C G R greenhouse (λ st w h. h) garden clusters none)
                (λ answer. Keeps-conclude _ clusters answer.0 answer.1)))))))

  Keeps-report_with : (c : Option (Client W)) → Keeps Sound (report_with C G R greenhouse c)
  unfolding report_with
  Keeps-report_with none = Keeps-raise _
  Keeps-report_with (some garden) = Keeps-report garden

  Keeps-report_garden :
      (g : Option (Garden G.RestConfig (Client W))) → Keeps Sound (report_garden C G R greenhouse g)
  unfolding report_garden
  Keeps-report_garden none = Keeps-raise _
  Keeps-report_garden (some g) =
      Keeps-bind _ _ Keeps-handle_annotation (λ _. Keeps-report_with g.garden_client)

  pub Keeps-reconcile_shoots_n_clusters :
      Keeps (SoundHere C G greenhouse) (reconcile_shoots_n_clusters C G R greenhouse)
  unfolding reconcile_shoots_n_clusters report_reset
  Keeps-reconcile_shoots_n_clusters =
      let kept : Keeps Sound (report_reset C G R greenhouse) =
        Keeps-bind _ _ (Keeps-write _ (λ st h. h))
          (λ _. Keeps-bind _ _ (Keeps-read _) (λ found. Keeps-report_garden found)) in
      record { at = λ s h. kept.at s h }

  Keeps-label : Keeps Sound (ensure_auth_config_map_labeled C G R greenhouse)
  unfolding ensure_auth_config_map_labeled
  Keeps-label = Keeps-bind _ _ (Keeps-read _) (λ ci.
      Keeps-if (ci.spec.authentication_config_map_name == "") _ _ (λ _. Keeps-pure tt)
        (λ _.
          Keeps-tried _ _ (Keeps-read _)
            (λ e. Keeps-if (is_not_found e) _ _ (λ _. Keeps-pure tt) (λ _. Keeps-raise e))
            (λ cm. elim (Option-cases (lookup auth_config_map_label (entries cm.labels))) [
              | inl e ↦ rw e (Keeps-bind _ _ (Keeps-write _ (λ st h. h)) (λ _. Keeps-pure tt))
              | inr (l, e) ↦ rw e (Keeps-pure tt)
            ])))

  Keeps-reconcile_manager : Keeps Sound (reconcile_manager C G greenhouse)
  Keeps-reconcile_manager = record { at = λ s h. reconcile_manager-IsSound C G greenhouse s h }

  -- Whatever the clusters answer and wherever it fails, EnsureCreated on sound gardens leaves sound
  -- gardens, and so does EnsureDeleted.
  pub ensure_created-IsSound :
      (s : Run (State G.RestConfig W))
      → IsSound s.world.fleet
      → IsSound (ensure_created C G R greenhouse s).1.world.fleet
        × IsSound (ensure_deleted C G R greenhouse s).1.world.fleet
  unfolding ensure_created ensure_deleted cleanup_care_instruction
  ensure_created-IsSound s h =
      let created : Keeps Sound (ensure_created C G R greenhouse) =
        Keeps-bind _ _ (Keeps-write _ (λ st h. h)) (λ _.
          Keeps-bind _ _ (Keeps-attempt _ Keeps-label) (λ _.
            Keeps-tried _ _ Keeps-reconcile_manager
              (λ e. Keeps-bind _ _ (Keeps-write _ (λ st h. h)) (λ _. Keeps-raise e))
              (λ _.
                Keeps-tried _ _ Keeps-reconcile_shoots_n_clusters (λ e. Keeps-write _ (λ st h. h))
                  (λ _. Keeps-pure tt)))) in
      let deleted : Keeps Sound (ensure_deleted C G R greenhouse) =
        Keeps-bind _ _ (Keeps-write _ (λ st h. h))
          (λ _. Keeps-write _ (λ st h. (restart_shoot_controller-IsSound C G greenhouse st h).1)) in
      (created.at s h, deleted.at s h)
