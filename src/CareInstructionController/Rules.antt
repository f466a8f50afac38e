-- ===== src/CareInstructionController/Rules.antt =====
-- Which facts the steps of reconcileShootsNClusters keep.
use shoot_grafter.Base.{subst, ◌≡◌, arith, String, Bool, Option, List, [], ◌∷◌, if◌then◌else◌, ◌==◌}
use shoot_grafter.Base.Dict.{MapRange}
use shoot_grafter.Kube.{Error, is_not_found, Cluster}
use shoot_grafter.Kube.Client.{Client}
use shoot_grafter.Kube.Conditions.{ConditionApi}
use shoot_grafter.ShootController.Keeps.{
  Keeps, Keeps-look, Keeps-read, Keeps-write, Keeps-bind, Keeps-tried, Keeps-pure, Keeps-raise,
  Keeps-if,
}
use shoot_grafter.CareInstructionController.{State, GardenApi, garden_key}
use shoot_grafter.CareInstructionController.Gardens.{set_hash}
use shoot_grafter.CareInstructionController.Manager.{restart_shoot_controller}
use shoot_grafter.CareInstructionController.Shoots.{
  asks_for_run, handle_auth_change, annotate_cluster, annotate_clusters,
}

module _ {W : Type 0} (C : ConditionApi) (G : GardenApi W) (R : MapRange)
    (greenhouse : Client W) where
  -- The gardens after a look at the auth ConfigMap.
  abbrev pub after_change : Bool → String → String → State G.RestConfig W → State G.RestConfig W
  after_change b key hash st =
      if b
      then restart_shoot_controller C G greenhouse
          (record st { fleet = set_hash key hash st.fleet })
      else st

  -- The fact is not about the clusters.
  abbrev pub ClustersAside : (State G.RestConfig W → Type 0) → Type 0
  ClustersAside P = (st : State G.RestConfig W) (w : W) → P st → P (record st { clusters = w })

  module _ {P : State G.RestConfig W → Type 0} where
    pub Keeps-handle_auth_change :
        ((before : State G.RestConfig W)
          → P before
          → (b : Bool) (hash : String) (st : State G.RestConfig W) → P st
          → P (after_change b (garden_key before.instruction) hash st))
        → Keeps P (handle_auth_change C G R greenhouse)
    unfolding handle_auth_change
    Keeps-handle_auth_change restarted = Keeps-look _ _ (λ before ci h e.
        let it : before.instruction ≡ ci = ground arith in
        let own : (b : Bool) (hash : String) (st : State G.RestConfig W)
            → P st
            → P (after_change b (garden_key ci) hash st) =
          subst
            (λ c.
              (b : Bool) (hash : String) (st : State G.RestConfig W)
              → P st
              → P (after_change b (garden_key c) hash st))
            it (restarted before h) in
        Keeps-if (ci.spec.authentication_config_map_name == "") _ _ (λ _. Keeps-pure tt)
          (λ _.
            Keeps-tried _ _ (Keeps-read _)
              (λ e. Keeps-if (is_not_found e) _ _ (λ _. Keeps-pure tt) (λ _. Keeps-raise e))
              (λ cm. Keeps-write _ (λ st h. own _ _ st h))))

    Keeps-annotate_cluster :
        ClustersAside P
        → (garden : Client W) (c : Cluster) → Keeps P (annotate_cluster C G R greenhouse garden c)
    unfolding annotate_cluster
    Keeps-annotate_cluster aside garden c = Keeps-bind _ _ (Keeps-read _) (λ ci.
        Keeps-tried _ _ (record { at = λ s h. aside s.world _ h }) (λ e. Keeps-pure _)
          (λ _.
            Keeps-tried _ _ (Keeps-write _ (λ st h. aside st _ h)) (λ e. Keeps-pure _)
              (λ r. Keeps-pure _)))

    pub Keeps-annotate_clusters :
        ClustersAside P
        → (garden : Client W) (cs : List Cluster) (failed : Option Error)
        → Keeps P (annotate_clusters C G R greenhouse garden cs failed)
    unfolding annotate_clusters
    Keeps-annotate_clusters aside garden [] failed = Keeps-pure _
    Keeps-annotate_clusters aside garden (c ∷ cs) failed =
        Keeps-bind _ _
          (Keeps-if (asks_for_run c.meta) _ _ (λ _. Keeps-annotate_cluster aside garden c)
            (λ _. Keeps-pure _))
          (λ (left, e).
            Keeps-bind _ _ (Keeps-annotate_clusters aside garden cs _)
              (λ (rest, failed'). Keeps-pure _))
