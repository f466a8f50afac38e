-- ===== src/CareInstructionController/Report.antt =====
-- careinstruction_controller.go: reconcileShootsNClusters as a whole.
use shoot_grafter.Base.{
  ℕ, String, Bool, not, Option, none, some, List, [], ◌∷◌, if◌then◌else◌, ◌!=◌, ltb, length,
  contains,
}
use shoot_grafter.Base.Dict.{Dict, lookup, insert, entries, MapRange}
use shoot_grafter.Kube.{Error, new_error, Result, ok, err, is_not_found, Shoot, Cluster}
use shoot_grafter.Kube.Exec.{Exec, raise, ◌>>=◌}
use shoot_grafter.Kube.Client.{Client}
use shoot_grafter.Kube.Conditions.{ConditionApi}
use shoot_grafter.Api.{
  CareInstruction, CareInstructionStatus, set_condition, matches_cel_filter, care_instruction_label,
  shoots_reconciled_condition,
}
use shoot_grafter.Api.Lists.{list_selected_shoots, list_own_clusters}
use shoot_grafter.ShootStatus.{ConflictInfo, build_shoot_statuses}
use shoot_grafter.ShootController.{Run, read, write}
use shoot_grafter.Metrics.{update_care_instruction_metrics}
use shoot_grafter.CareInstructionController.{Garden, State, GardenApi, garden_key}
use shoot_grafter.CareInstructionController.Shoots.{
  nil_dereference, Selection, no_selection, select_shoots, cluster_names, counts_match,
  handle_annotation, handle_auth_change, annotate_clusters, or_empty,
}

-- The status at the start of a run.
abbrev pub reset : CareInstructionStatus → CareInstructionStatus
reset s = record s {
  total_target_shoots = 0;
  created_clusters = 0;
  failed_clusters = 0;
  shoots = [];
}

-- What the Cluster that bears the name of a Shoot says of its owner.
abbrev pub conflict_of :
    ConditionApi
    → CareInstruction
    → Shoot
    → Result Cluster
    → Dict ConflictInfo
    → Result (Dict ConflictInfo)
conflict_of C ci s (err e) found = if is_not_found e then ok found else err e
conflict_of C ci s (ok c) found = elim (lookup care_instruction_label (entries c.labels)) [
  | none ↦ ok found
  | some owner ↦
      if owner != ci.name
      then ok (insert s.name (record { owner = owner; ready = C.is_ready_true c.conditions }) found)
      else ok found
]

-- The error at the end of a run.
unfoldable pub verdict : Option Error → Bool → ℕ → Result (Unit {0})
verdict (some e) all_matched failed = err e
verdict none all_matched failed =
    if not all_matched
    then err (new_error "shoot count and cluster count do not match")
    else if ltb 0 failed
    then err (new_error "cluster is not ready")
    else ok tt

module _ {W : Type 0} (C : ConditionApi) (G : GardenApi W) (R : MapRange)
    (greenhouse : Client W) where
  abbrev pub Step {ℓ} : Type ℓ → Type ℓ
  Step A = Exec (Run (State G.RestConfig W)) A

  -- The loop over the Shoots without a Cluster of this CareInstruction.
  unfoldable pub find_conflicts :
      CareInstruction
      → List String
      → W
      → List Shoot
      → Dict ConflictInfo
      → Result (Dict ConflictInfo)
  find_conflicts ci names w [] found = ok found
  find_conflicts ci names w (s ∷ shoots) found =
      elim (if contains s.name names
        then ok found
        else conflict_of C ci s
            (greenhouse.get_cluster (record { namespace = ci.namespace; name = s.name }) w) found) [
              | err e ↦ err e
              | ok found' ↦ find_conflicts ci names w shoots found'
            ]

  -- Conflicts are looked for only if a Shoot has no Cluster of this CareInstruction.
  unfoldable pub conflicts_of :
      CareInstruction → List Shoot → List Cluster → W → Result (Dict ConflictInfo)
  unfolding find_conflicts
  conflicts_of ci included clusters w =
      let searched = find_conflicts ci (cluster_names clusters) w included [] in
      if counts_match included clusters then ok [] else searched

  abbrev pub status_step : (CareInstructionStatus → CareInstructionStatus) → Step (Unit {0})
  status_step f = write (λ st. (
    ok tt,
    record st { instruction = record (st.instruction) { status = f st.instruction.status } },
  ))

  -- The statuses are set before an error is returned.
  unfoldable pub conclude : Selection → List Cluster → List Cluster → Option Error → Step (Unit {0})
  conclude sel clusters left failed = do
    ci ← read (λ st. ok st.instruction)
    conflicts ← read (λ st. conflicts_of ci sel.included clusters st.clusters)
    let built = build_shoot_statuses C R sel.excluded left conflicts
    _ ← status_step (λ s. record s { shoots = built.0; failed_clusters = built.1 })
    _ ← read (λ _. verdict failed (counts_match sel.included clusters) built.1)
    write (λ st. (
      ok tt,
      record st {
        instruction = set_condition C st.instruction (
            C.true_condition shoots_reconciled_condition "Reconciled"
              "All shoots and clusters are reconciled");
      },
    ))

  unfoldable pub report : Client W → Step (Unit {0})
  report garden = do
    ci ← read (λ st. ok st.instruction)
    shoots ←
        read (λ st.
          or_empty C G R greenhouse (list_selected_shoots G.as_selector ci garden st.clusters))
    _ ← status_step (λ s. record s { total_target_shoots = length shoots })
    _ ← handle_auth_change C G R greenhouse
    clusters ← read (λ st. or_empty C G R greenhouse (list_own_clusters ci greenhouse st.clusters))
    _ ← status_step (λ s. record s { created_clusters = length clusters })
    answer ← annotate_clusters C G R greenhouse garden clusters none
    conclude (select_shoots (matches_cel_filter G.evaluate_cel ci) shoots no_selection) clusters
        answer.0 answer.1

  -- The pointer to the client of the garden is followed after the annotation is handled.
  unfoldable pub report_with : Option (Client W) → Step (Unit {0})
  report_with none = raise nil_dereference
  report_with (some garden) = report garden

  unfoldable pub report_garden : Option (Garden G.RestConfig (Client W)) → Step (Unit {0})
  report_garden none = raise nil_dereference
  report_garden (some g) = handle_annotation C G R greenhouse >>= λ _. report_with g.garden_client

  abbrev measured :
      Result (Unit {0}) × Run (State G.RestConfig W)
      → Result (Unit {0}) × Run (State G.RestConfig W)
  measured (r, s) = (
    r,
    record s {
      world = record (s.world) {
        gauges = update_care_instruction_metrics s.world.instruction s.world.gauges;
      };
    },
  )

  unfoldable pub report_reset : Step (Unit {0})
  report_reset = do
    _ ← status_step reset
    found ← read (λ st. ok (lookup (garden_key st.instruction) st.fleet.gardens))
    report_garden found

  -- `reconcileShootsNClusters`, with the deferred update of the gauges
  unfoldable pub reconcile_shoots_n_clusters : Step (Unit {0})
  reconcile_shoots_n_clusters s = measured (report_reset s)
