-- ===== src/CareInstructionController/Reports.antt =====
-- What the report on the Shoots of a garden says when it succeeds.
use shoot_grafter.Base.{
  Bool, ℕ, String, Bool, true, false, none, List, ◌≡◌, ◌≢◌, refl, arith, All, length, Bool-cases,
  inl, inr,
}
use shoot_grafter.Base.Dict.{MapRange, IsRange}
use shoot_grafter.Kube.{Result, ok, err, Shoot, Cluster}
use shoot_grafter.Kube.Client.{Client}
use shoot_grafter.Kube.Conditions.{ConditionApi, IsLawful}
use shoot_grafter.Api.{CareInstruction, matches_cel_filter}
use shoot_grafter.Api.Lists.{list_selected_shoots, list_own_clusters}
use shoot_grafter.ShootController.{Run}
use shoot_grafter.ShootController.Ensures.{
  Ensures, Ensures-bind, Ensures-after, Ensures-read, Ensures-write,
}
use shoot_grafter.CareInstructionController.{State, GardenApi, garden_key}
use shoot_grafter.CareInstructionController.Manager.{restart_shoot_controller}
use shoot_grafter.CareInstructionController.Gardens.{set_hash, restart}
use shoot_grafter.CareInstructionController.Shoots.{no_selection, select_shoots, or_empty}
use shoot_grafter.CareInstructionController.Selected.{
  All-zip, HasCluster, select_shoots-included, select_shoots-excluded, select_shoots-NodupKeys,
}
use shoot_grafter.CareInstructionController.Success.{
  IsCounted, IsClean, IsLeftOut, IsConcluded, conclude-IsConcluded,
}
use shoot_grafter.CareInstructionController.Rules.{
  after_change, Keeps-handle_auth_change, Keeps-annotate_clusters,
}
use shoot_grafter.CareInstructionController.Report.{report}

module _ {W : Type 0} (C : ConditionApi) (L : IsLawful C) (R : MapRange) (M : IsRange R)
    (G : GardenApi W) (greenhouse : Client W) where
  -- The Shoots are those that the garden lists for the CareInstruction.
  abbrev pub Listed : Client W → CareInstruction → W → List Shoot → Type 0
  Listed garden ci w shoots =
      or_empty C G R greenhouse (list_selected_shoots G.as_selector ci garden w) ≡ ok shoots

  -- The Clusters are those that belong to the CareInstruction.
  abbrev pub Owned : CareInstruction → W → List Cluster → Type 0
  Owned ci w clusters = or_empty C G R greenhouse (list_own_clusters ci greenhouse w) ≡ ok clusters

  record IsListed (w : W) (n : ℕ) (st : State G.RestConfig W) : Type 0 where
    pub clusters : st.clusters ≡ w
    pub shoots : st.instruction.status.total_target_shoots ≡ n

  restarted-IsListed :
      (w : W) (n : ℕ) (b : Bool) (key hash : String) (st : State G.RestConfig W)
      → IsListed w n st
      → IsListed w n (after_change C G R greenhouse b key hash st)
  unfolding restart_shoot_controller
  restarted-IsListed w n true key hash st h =
      let key' = garden_key st.instruction in
      elim (Bool-cases (restart key' (set_hash key hash st.fleet)).0) [
        | inl e ↦ record { clusters = h.clusters; shoots = rw e h.shoots }
        | inr e ↦ record { clusters = h.clusters; shoots = rw e h.shoots }
      ]
  restarted-IsListed w n false key hash st h = h

  -- What becomes of a Shoot, given the answer of the filter: it has a Cluster, or its entry says
  -- that it is left out.
  abbrev pub Accounted : Result Bool → List Cluster → CareInstruction → Shoot → Type 0
  Accounted (ok true) clusters after s = HasCluster clusters s
  Accounted (ok false) clusters after s = IsLeftOut after s.name
  Accounted (err e) clusters after s = IsLeftOut after s.name

  -- What a report that succeeds says of these Shoots and Clusters.
  pub record IsReported (ci : CareInstruction) (shoots : List Shoot) (clusters : List Cluster)
      (after : CareInstruction) : Type 0 where
    pub total : after.status.total_target_shoots ≡ length shoots
    pub created : after.status.created_clusters ≡ length clusters
    pub clean : IsClean C after
    pub accounted :
        All (λ s. Accounted (matches_cel_filter G.evaluate_cel ci s) clusters after s) shoots

  Accounted_lem :
      (r : Result Bool) (clusters : List Cluster) (after : CareInstruction) (s : Shoot)
      → (r ≡ ok true → HasCluster clusters s)
      → (r ≢ ok true → IsLeftOut after s.name)
      → Accounted r clusters after s
  Accounted_lem (ok true) clusters after s f g = f refl
  Accounted_lem (ok false) clusters after s f g = g (λ e. ground arith)
  Accounted_lem (err x) clusters after s f g = g (λ e. ground arith)

  concluded-IsReported :
      (ci : CareInstruction) (shoots : List Shoot) (clusters : List Cluster)
      (st : State G.RestConfig W)
      → IsConcluded C L R M G greenhouse
          (length shoots)
          (length clusters)
          (select_shoots (matches_cel_filter G.evaluate_cel ci) shoots no_selection)
          clusters
          st
      → IsReported ci shoots clusters st.instruction
  concluded-IsReported ci shoots clusters st h =
      let matches = matches_cel_filter G.evaluate_cel ci in
      record {
        total = h.counted.shoots;
        created = h.counted.clusters;
        clean = h.clean;
        accounted =
            All-zip
              (λ s f g.
                Accounted_lem (matches s) clusters st.instruction s f
                  (λ n. h.left_out s.name (g n)))
              shoots
              (select_shoots-included matches (HasCluster clusters) shoots no_selection h.owned).1
              (select_shoots-excluded matches shoots no_selection).1;
      }

  -- The Shoots and Clusters that were listed, and what is said of them.
  pub record Reported (garden : Client W) (ci : CareInstruction) (w : W) (after : CareInstruction)
      : Type 0 where
    pub shoots : List Shoot
    pub clusters : List Cluster
    pub listed : Listed garden ci w shoots
    pub owned : Owned ci w clusters
    pub is_reported : IsReported ci shoots clusters after

  abbrev Begins : CareInstruction → W → State G.RestConfig W → Type 0
  Begins ci w st = (st.instruction ≡ ci) × (st.clusters ≡ w)

  Ensures-report :
      (garden : Client W) (ci : CareInstruction) (w : W)
      → Ensures
          (Begins ci w)
          (λ (_ : Unit {0}) st. Reported garden ci w st.instruction)
          (report C G R greenhouse garden)
  unfolding report
  Ensures-report garden ci w =
      Ensures-bind (λ c st. (c ≡ ci) × (st.clusters ≡ w)) _ _
        (Ensures-read _ (λ st c (i, k) e. (ground arith, k)))
        (λ c.
          Ensures-bind (λ shoots st. (c ≡ ci) × (st.clusters ≡ w) × Listed garden ci w shoots) _ _
            (Ensures-read _ (λ st shoots (i, k) e. (i, k, rw (← i) (rw (← k) e))))
            (λ shoots.
              Ensures-bind
                (λ _ st. IsListed w (length shoots) st × (c ≡ ci) × Listed garden ci w shoots) _ _
                (Ensures-write _
                  (λ st _ (i, k, l) e. (record { clusters = k; shoots = refl }, i, l)))
                (λ _.
                  Ensures-after _ _
                    (Keeps-handle_auth_change C G R greenhouse (λ before _ b hash st (h, i, l). (
                      restarted-IsListed w (length shoots) b (garden_key before.instruction) hash st
                          h,
                      i,
                      l,
                    )))
                    (λ _.
                      Ensures-bind
                        (λ clusters st.
                          IsListed w (length shoots) st
                          × (c ≡ ci)
                          × Listed garden ci w shoots
                          × Owned ci w clusters)
                        _ _
                        (Ensures-read _
                          (λ st clusters (h, i, l) e. (h, i, l, rw (← i) (rw (← h.clusters) e))))
                        (λ clusters.
                          Ensures-bind
                            (λ _ st.
                              IsCounted (length shoots) (length clusters) st
                              × (c ≡ ci)
                              × Listed garden ci w shoots
                              × Owned ci w clusters)
                            _ _
                            (Ensures-write _ (λ st _ (h, i, l, o) e.
                              (record { shoots = h.shoots; clusters = refl }, i, l, o)))
                            (λ _.
                              Ensures-after _ _
                                (Keeps-annotate_clusters C G R greenhouse
                                  (λ st x (h, i, l, o).
                                    (record { shoots = h.shoots; clusters = h.clusters }, i, l, o))
                                  garden clusters none)
                                (λ answer. record {
                                  at = λ s u (h, i, l, o) e. record {
                                    shoots = shoots;
                                    clusters = clusters;
                                    listed = l;
                                    owned = o;
                                    is_reported = rw (← i) (
                                        concluded-IsReported c shoots clusters _ (
                                          (conclude-IsConcluded C L R M G greenhouse (length shoots)
                                              (length clusters)
                                              (select_shoots (matches_cel_filter G.evaluate_cel c)
                                                shoots no_selection)
                                              clusters answer.0 answer.1
                                              (select_shoots-NodupKeys
                                                (matches_cel_filter G.evaluate_cel c) shoots
                                                no_selection tt)).at
                                            s u h e));
                                  };
                                })))))))

  -- If the report on the Shoots of a garden returns no error, then the status counts the Shoots
  -- that the garden lists and the Clusters that belong to the CareInstruction; each Shoot that
  -- matches the filter has such a Cluster, and the entry of each other one says that it is left
  -- out; no entry is Failed, the entries are ascending by name, and the condition ShootsReconciled
  -- is true.
  pub report-Reported :
      (garden : Client W) (s : Run (State G.RestConfig W))
      → (report C G R greenhouse garden s).0 ≡ ok tt
      → Reported garden s.world.instruction s.world.clusters
          (report C G R greenhouse garden s).1.world.instruction
  report-Reported garden s e =
      (Ensures-report garden s.world.instruction s.world.clusters).at s tt (refl, refl) e
