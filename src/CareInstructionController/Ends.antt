-- ===== src/CareInstructionController/Ends.antt =====
-- When the end of a report succeeds.
use shoot_grafter.Base.{
  Bool, true, Option, none, some, List, [], ◌≡◌, ◌↔◌, refl, sym, ◌∙◌, ap, arith, All, count_if, inl,
  inr, ℕ,
}
use shoot_grafter.Base.Dict.{Dict, MapRange, IsRange}
use shoot_grafter.Kube.{Error, Result, ok, err, Result-cases, Cluster}
use shoot_grafter.Kube.Exec.{◌>>=◌}
use shoot_grafter.Kube.Client.{Client}
use shoot_grafter.Kube.Conditions.{ConditionApi}
use shoot_grafter.ShootStatus.{ConflictInfo, build_shoot_statuses, is_failed}
use shoot_grafter.ShootStatus.Report.{failed-count}
use shoot_grafter.ShootController.{Run, read, write}
use shoot_grafter.CareInstructionController.{State, GardenApi}
use shoot_grafter.CareInstructionController.Shoots.{Selection, counts_match}
use shoot_grafter.CareInstructionController.Selected.{
  HasCluster, counts_match-All, All-counts_match,
}
use shoot_grafter.CareInstructionController.Success.{verdict_lem}
use shoot_grafter.CareInstructionController.Report.{conflicts_of, verdict, conclude}

verdict_ok :
    (failed : Option Error) (all_matched : Bool) (n : ℕ)
    → failed ≡ none
    → all_matched ≡ true
    → n ≡ 0
    → verdict failed all_matched n ≡ ok tt
unfolding verdict
verdict_ok (some e) b n f h z = ground arith
verdict_ok none b n f h z = ground arith

module _ {W : Type 0} (C : ConditionApi) (R : MapRange) (M : IsRange R) (G : GardenApi W)
    (greenhouse : Client W) (sel : Selection) (clusters left : List Cluster) (failed : Option Error)
    (s : Run (State G.RestConfig W)) where
  abbrev matched : Bool
  matched = counts_match sel.included clusters

  abbrev searched : Result (Dict ConflictInfo)
  searched =
      conflicts_of C G R greenhouse s.world.instruction sel.included clusters s.world.clusters

  searched-matched : matched ≡ true → searched ≡ ok []
  unfolding conflicts_of
  searched-matched e = ground arith

  conclude-verdict :
      (conflicts : Dict ConflictInfo)
      → searched ≡ ok conflicts
      → (conclude C G R greenhouse sel clusters left failed s).0
        ≡ verdict failed matched (build_shoot_statuses C R sel.excluded left conflicts).1
  unfolding conclude ◌>>=◌ read write
  conclude-verdict conflicts e =
      rw e
        (elim (Result-cases
          (verdict failed matched (build_shoot_statuses C R sel.excluded left conflicts).1)) [
            | inl (u, v) ↦ rw v refl
            | inr (x, v) ↦ rw v refl
          ])

  conclude-error :
      (x : Error)
      → searched ≡ err x
      → (conclude C G R greenhouse sel clusters left failed s).0 ≡ err x
  unfolding conclude ◌>>=◌ read write
  conclude-error x e = rw e refl

  abbrev NoneFailed : Type 0
  NoneFailed = count_if is_failed (build_shoot_statuses C R sel.excluded left []).0 ≡ 0

  -- The end of the report returns no error exactly when no annotation failed, each included Shoot
  -- has a Cluster of this CareInstruction, and none of the statuses is Failed.
  pub conclude_iff :
      ((conclude C G R greenhouse sel clusters left failed s).0 ≡ ok tt)
      ↔ ((failed ≡ none) × All (HasCluster clusters) sel.included × NoneFailed)
  conclude_iff = (
    λ e. elim (Result-cases searched) [
      | inl (conflicts, c) ↦
          let (f, all, z) =
            verdict_lem failed matched (build_shoot_statuses C R sel.excluded left conflicts).1
              (sym (conclude-verdict conflicts c) ∙ e) in
          let same : conflicts ≡ [] = ground (arith, searched-matched all) in
          (
            f,
            counts_match-All sel.included clusters all,
            sym (failed-count C R M sel.excluded left [])
                ∙ ap (λ x. (build_shoot_statuses C R sel.excluded left x).1) (sym same)
                ∙ z,
          )
      | inr (x, c) ↦ ground (arith, conclude-error x c)
    ],
    λ (f, owned, z).
        let all = All-counts_match sel.included clusters owned in
        conclude-verdict [] (searched-matched all)
        ∙ verdict_ok failed matched _ f all (failed-count C R M sel.excluded left [] ∙ z),
  )
