-- ===== src/CareInstructionController/Consistent.antt =====
-- What every run of reconcileShootsNClusters leaves of the status, also one that fails.
use shoot_grafter.Base.{false, none, some, Option, List, length, ◌≡◌, refl, arith}
use shoot_grafter.Base.Dict.{MapRange, IsRange}
use shoot_grafter.Kube.{Error, Cluster}
use shoot_grafter.Kube.Client.{Client}
use shoot_grafter.Kube.Conditions.{ConditionApi}
use shoot_grafter.Api.{matches_cel_filter}
use shoot_grafter.ShootController.{Run}
use shoot_grafter.ShootController.Keeps.{
  Keeps, Keeps-read, Keeps-look, Keeps-write, Keeps-if, Keeps-pure,
}
use shoot_grafter.ShootController.Ensures.{Ensures-write}
use shoot_grafter.ShootController.Leaves.{
  Leaves, Leaves-bind, Leaves-after, Leaves-after_with, Leaves-keep, Leaves-raise, Leaves-write,
}
use shoot_grafter.CareInstructionController.{State, GardenApi, garden_key, Garden}
use shoot_grafter.CareInstructionController.Shoots.{
  no_selection, select_shoots, asks_for_run, handle_annotation,
}
use shoot_grafter.CareInstructionController.Selected.{select_shoots-NodupKeys}
use shoot_grafter.CareInstructionController.Rules.{
  Keeps-handle_auth_change, Keeps-annotate_clusters,
}
use shoot_grafter.CareInstructionController.Bounds.{select_shoots-size}
use shoot_grafter.CareInstructionController.Report.{
  report, report_with, report_garden, report_reset, reconcile_shoots_n_clusters,
}
use shoot_grafter.CareInstructionController.Concluded.{
  IsConsistent, blank-IsConsistent, IsBlank, Blank, Consistent, blank, still, IsCountedBlank,
  IsTotalBlank, restarted-IsTotalBlank, annotate_clusters-length, conclude-IsConsistent,
}

module _ {W : Type 0} (C : ConditionApi) (R : MapRange) (M : IsRange R) (G : GardenApi W)
    (greenhouse : Client W) where
  report-IsConsistent :
      (garden : Client W) → Leaves Blank Consistent (report C G R greenhouse garden)
  unfolding report
  report-IsConsistent garden = Leaves-after _ _ (Keeps-read _) blank (λ ci.
      Leaves-after _ _ (Keeps-read _) blank (λ shoots.
        let sel = select_shoots (matches_cel_filter G.evaluate_cel ci) shoots no_selection in
        let n = length shoots in
        let weaken : (st : State G.RestConfig W) → IsTotalBlank n st → Consistent st =
          λ st h. blank st h.is_blank in
        Leaves-bind (λ _. IsTotalBlank n) _ _
          (Leaves-keep _ (Keeps-write _ (λ st h. still h refl refl)) blank)
          (Ensures-write _ (λ st _ h e. record { is_blank = still h refl refl; shoots = refl }))
          (λ _.
            Leaves-after _ _
              (Keeps-handle_auth_change C G R greenhouse (λ before _ b hash st h.
                restarted-IsTotalBlank C R M G greenhouse n b (garden_key before.instruction) hash
                  st h))
              weaken
              (λ _. Leaves-after _ _ (Keeps-read _) weaken (λ clusters.
                Leaves-bind (λ _. IsCountedBlank n (length clusters)) _ _
                  (Leaves-keep _
                    (Keeps-write _
                      (λ st h. record { is_blank = still h.is_blank refl refl; shoots = h.shoots }))
                    weaken)
                  (Ensures-write _ (λ st _ h e. record {
                    is_blank = still h.is_blank refl refl;
                    shoots = h.shoots;
                    clusters = refl;
                  }))
                  (λ _.
                    Leaves-after_with
                      (λ (answer : List Cluster × Option Error). length answer.0 ≡ length clusters)
                      _ _
                      (Keeps-annotate_clusters C G R greenhouse
                        (λ st x h. record {
                          is_blank = h.is_blank;
                          shoots = h.shoots;
                          clusters = h.clusters;
                        })
                        garden clusters none)
                      (annotate_clusters-length C R M G greenhouse garden clusters none)
                      (λ st h. blank st h.is_blank)
                      (λ answer l.
                        conclude-IsConsistent C R M G greenhouse sel clusters answer.0 answer.1 n
                          (select_shoots-NodupKeys (matches_cel_filter G.evaluate_cel ci) shoots
                            no_selection tt)
                          (ground (
                            arith,
                            select_shoots-size (matches_cel_filter G.evaluate_cel ci) shoots
                                no_selection,
                          ))
                          l)))))))

  -- Nothing is said yet, and no run is asked for.
  abbrev Quiet : State G.RestConfig W → Type 0
  Quiet st = IsBlank st.instruction × (asks_for_run st.instruction.meta ≡ false)

  Keeps-handle_annotation : Keeps Quiet (handle_annotation C G R greenhouse)
  unfolding handle_annotation
  Keeps-handle_annotation =
      Keeps-look _ _
        (λ st ci h e. Keeps-if (asks_for_run ci.meta) _ _ (λ y. ground arith) (λ _. Keeps-pure tt))

  report_with-IsConsistent :
      (o : Option (Client W)) → Leaves Blank Consistent (report_with C G R greenhouse o)
  unfolding report_with
  report_with-IsConsistent none = Leaves-raise _ blank
  report_with-IsConsistent (some garden) = report-IsConsistent garden

  report_garden-IsConsistent :
      (o : Option (Garden G.RestConfig (Client W)))
      → Leaves Quiet Consistent (report_garden C G R greenhouse o)
  unfolding report_garden
  report_garden-IsConsistent none = Leaves-raise _ (λ st (h, _). blank st h)
  report_garden-IsConsistent (some g) =
      Leaves-after _ _ Keeps-handle_annotation (λ st (h, _). blank st h)
        (λ _. record { at = λ s (h, _). (report_with-IsConsistent g.garden_client).at s h })

  -- If the annotation of the CareInstruction does not ask for a run, then after a run of
  -- reconcileShootsNClusters, wherever it fails, the entries of the status are ascending by name,
  -- FailedClusters is the number of those that are Failed, and there are no more entries than
  -- TotalTargetShoots and CreatedClusters together.
  pub reconcile_shoots_n_clusters-IsConsistent :
      (s : Run (State G.RestConfig W))
      → asks_for_run s.world.instruction.meta ≡ false
      → IsConsistent (reconcile_shoots_n_clusters C G R greenhouse s).1.world.instruction
  unfolding reconcile_shoots_n_clusters report_reset
  reconcile_shoots_n_clusters-IsConsistent s quiet =
      let run : Leaves (λ (st : State G.RestConfig W). asks_for_run st.instruction.meta ≡ false)
          Consistent (report_reset C G R greenhouse) =
        Leaves-bind (λ _. Quiet) _ _
          (Leaves-write _ (λ st h. blank-IsConsistent _ (record { shoots = refl; failed = refl })))
          (Ensures-write _ (λ st _ h e. (record { shoots = refl; failed = refl }, h)))
          (λ _.
            Leaves-after _ _ (Keeps-read _) (λ st (h, _). blank st h)
              (λ found. report_garden-IsConsistent found)) in
      run.at s quiet
