-- ===== src/CareInstructionController/Success.antt =====
-- What a report that succeeds says.
use shoot_grafter.Base.{
  ℕ, String, Bool, true, Option, none, some, List, [], ◌≡◌, refl, sym, ◌∙◌, ap, subst, arith, All,
  is_some, count_if, Option-cases, inl, inr,
}
use shoot_grafter.Base.Dict.{Dict, lookup, NodupKeys, MapRange, IsRange}
use shoot_grafter.Base.TextOrder.{find, IsSorted}
use shoot_grafter.Kube.{Error, ok, Cluster}
use shoot_grafter.Kube.Client.{Client}
use shoot_grafter.Kube.Conditions.{ConditionApi, IsLawful, condition_true}
use shoot_grafter.Api.{CareInstruction, set_condition, shoots_reconciled_condition}
use shoot_grafter.ShootStatus.{ConflictInfo, build_shoot_statuses, excluded_status, is_failed}
use shoot_grafter.ShootStatus.Report.{name_of, build_shoot_statuses_lem, failed-count}
use shoot_grafter.ShootStatus.Expected.{expected}
use shoot_grafter.ShootController.Keeps.{Keeps-read}
use shoot_grafter.ShootController.Ensures.{
  Ensures, Ensures-bind, Ensures-after, Ensures-read, Ensures-write,
}
use shoot_grafter.CareInstructionController.{State, GardenApi}
use shoot_grafter.CareInstructionController.Shoots.{Selection, counts_match}
use shoot_grafter.CareInstructionController.Selected.{HasCluster, counts_match-All}
use shoot_grafter.CareInstructionController.Report.{conflicts_of, verdict, conclude}

pub verdict_lem :
    (failed : Option Error) (all_matched : Bool) (n : ℕ)
    → verdict failed all_matched n ≡ ok tt
    → (failed ≡ none) × (all_matched ≡ true) × (n ≡ 0)
unfolding verdict
verdict_lem (some e) b n h = ground arith
verdict_lem none b n h = ground arith

-- The counters of the Shoots and of the Clusters.
pub record IsCounted {Config W : Type 0} (n m : ℕ) (st : State Config W) : Type 0 where
  pub shoots : st.instruction.status.total_target_shoots ≡ n
  pub clusters : st.instruction.status.created_clusters ≡ m

-- The statuses of a CareInstruction where every Shoot is onboarded or left out.
pub record IsClean (C : ConditionApi) (ci : CareInstruction) : Type 0 where
  pub sorted : IsSorted name_of ci.status.shoots
  pub none_failed : count_if is_failed ci.status.shoots ≡ 0
  pub no_failure : ci.status.failed_clusters ≡ 0
  pub is_true :
      C.get_condition_by_type ci.status.conditions shoots_reconciled_condition
      ≡ some (record {
        type = shoots_reconciled_condition;
        status = condition_true;
        reason = "Reconciled";
        message = "All shoots and clusters are reconciled";
      })

-- The entry of this name says that the Shoot is left out.
abbrev pub IsLeftOut : CareInstruction → String → Type 0
IsLeftOut ci k =
    (reason : String) × (find name_of k ci.status.shoots ≡ some (excluded_status (k, reason)))

module _ {W : Type 0} (C : ConditionApi) (L : IsLawful C) (R : MapRange) (M : IsRange R)
    (G : GardenApi W) (greenhouse : Client W) where
  -- What is known when the statuses are set.
  record IsBuilt (n m : ℕ) (sel : Selection) (left : List Cluster) (conflicts : Dict ConflictInfo)
      (st : State G.RestConfig W) : Type 0 where
    pub counted : IsCounted n m st
    pub shoots :
        st.instruction.status.shoots ≡ (build_shoot_statuses C R sel.excluded left conflicts).0
    pub failed :
        st.instruction.status.failed_clusters
        ≡ (build_shoot_statuses C R sel.excluded left conflicts).1

  pub record IsConcluded (n m : ℕ) (sel : Selection) (clusters : List Cluster)
      (st : State G.RestConfig W) : Type 0 where
    pub counted : IsCounted n m st
    pub clean : IsClean C st.instruction
    pub owned : All (HasCluster clusters) sel.included
    pub left_out :
        (k : String) → is_some (lookup k sel.excluded) ≡ true → IsLeftOut st.instruction k

  built-IsConcluded :
      (n m : ℕ) (sel : Selection) (clusters left : List Cluster) (st : State G.RestConfig W)
      → NodupKeys sel.excluded
      → IsBuilt n m sel left [] st
      → counts_match sel.included clusters ≡ true
      → (build_shoot_statuses C R sel.excluded left []).1 ≡ 0
      → IsConcluded n m sel clusters (record st {
        instruction = set_condition C st.instruction (
            C.true_condition shoots_reconciled_condition "Reconciled"
              "All shoots and clusters are reconciled");
      })
  unfolding set_condition
  built-IsConcluded n m sel clusters left st u b e z =
      let (sorted, found) = build_shoot_statuses_lem C R M sel.excluded left [] u tt in
      record {
        counted = record { shoots = b.counted.shoots; clusters = b.counted.clusters };
        clean = record {
          sorted = rw b.shoots sorted;
          none_failed = rw b.shoots (sym (failed-count C R M sel.excluded left []) ∙ z);
          no_failure = b.failed ∙ z;
          is_true = rw (L.true_condition_lem, L.get-set) (ground arith);
        };
        owned = counts_match-All sel.included clusters e;
        left_out = λ k h. elim (Option-cases (lookup k sel.excluded)) [
          | inl f ↦ ground arith
          | inr (reason, f) ↦
              (reason, rw b.shoots (found k ∙ ap (λ o. expected C o (lookup k []) k left) f))
        ];
      }

  no_conflicts :
      (ci : CareInstruction) (sel : Selection) (clusters : List Cluster) (w : W)
      (conflicts : Dict ConflictInfo)
      → conflicts_of C G R greenhouse ci sel.included clusters w ≡ ok conflicts
      → counts_match sel.included clusters ≡ true
      → conflicts ≡ []
  unfolding conflicts_of
  no_conflicts ci sel clusters w conflicts e h = ground arith

  pub conclude-IsConcluded :
      (n m : ℕ) (sel : Selection) (clusters left : List Cluster) (failed : Option Error)
      → NodupKeys sel.excluded
      → Ensures
          (IsCounted n m)
          (λ (_ : Unit {0}). IsConcluded n m sel clusters)
          (conclude C G R greenhouse sel clusters left failed)
  unfolding conclude
  conclude-IsConcluded n m sel clusters left failed u =
      let matched = counts_match sel.included clusters in
      Ensures-after _ _ (Keeps-read _) (λ ci.
        Ensures-bind (λ conflicts st. IsCounted n m st × (matched ≡ true → conflicts ≡ [])) _ _
          (Ensures-read _
            (λ st conflicts h e. (h, no_conflicts ci sel clusters st.clusters conflicts e)))
          (λ conflicts.
            Ensures-bind
              (λ _ st. IsBuilt n m sel left conflicts st × (matched ≡ true → conflicts ≡ [])) _ _
              (Ensures-write _ (λ st _ (h, c) e. (
                record {
                  counted = record { shoots = h.shoots; clusters = h.clusters };
                  shoots = refl;
                  failed = refl;
                },
                c,
              )))
              (λ _.
                Ensures-bind
                  (λ _ st.
                    IsBuilt n m sel left [] st
                    × (matched ≡ true)
                    × ((build_shoot_statuses C R sel.excluded left []).1 ≡ 0))
                  _ _
                  (Ensures-read _ (λ st u' (b, c) e.
                    let (_, all, none_failed) =
                      verdict_lem failed matched
                        (build_shoot_statuses C R sel.excluded left conflicts).1 e in
                    (
                      subst (λ x. IsBuilt n m sel left x st) (c all) b,
                      all,
                      subst (λ x. (build_shoot_statuses C R sel.excluded left x).1 ≡ 0) (c all)
                          none_failed,
                    )))
                  (λ _.
                    Ensures-write _
                      (λ st _ (b, e, z) _. built-IsConcluded n m sel clusters left st u b e z)))))
