-- ===== src/CareInstructionController/Concluded.antt =====
-- What the end of the report on the Shoots leaves in the status.
use shoot_grafter.Base.{
  ℕ, suc, ◌+◌, ◌≤◌, String, Bool, true, false, Option, List, [], ◌∷◌, length, count_if, ◌≡◌, refl,
  ◌∙◌, arith, ap, Bool-cases, inl, inr,
}
use shoot_grafter.Base.Dict.{Dict, NodupKeys, MapRange, IsRange}
use shoot_grafter.Base.TextOrder.{IsSorted}
use shoot_grafter.Kube.{Error, Cluster}
use shoot_grafter.Kube.Client.{Client}
use shoot_grafter.Kube.Conditions.{ConditionApi}
use shoot_grafter.Api.{CareInstruction, set_condition}
use shoot_grafter.ShootStatus.{ConflictInfo, is_failed, build_shoot_statuses}
use shoot_grafter.ShootStatus.Report.{name_of, build_shoot_statuses_lem, failed-count}
use shoot_grafter.ShootStatus.Bounds.{length-built}
use shoot_grafter.ShootController.Keeps.{Keeps-read, Keeps-write, Yields, Yields-pure, Yields-then}
use shoot_grafter.ShootController.Ensures.{Ensures-read, Ensures-write}
use shoot_grafter.ShootController.Leaves.{
  Leaves, Leaves-bind, Leaves-after, Leaves-keep, Leaves-write,
}
use shoot_grafter.CareInstructionController.{State, GardenApi, garden_key}
use shoot_grafter.CareInstructionController.Gardens.{set_hash, restart}
use shoot_grafter.CareInstructionController.Manager.{restart_shoot_controller}
use shoot_grafter.CareInstructionController.Shoots.{Selection, annotate_clusters}
use shoot_grafter.CareInstructionController.Rules.{after_change}
use shoot_grafter.CareInstructionController.Bounds.{sorted_out, conflicts_of-size}
use shoot_grafter.CareInstructionController.Report.{conclude}

-- The entries are ascending by name, FailedClusters counts those that are Failed, and there are no
-- more entries than Shoots and Clusters were counted.
pub record IsConsistent (ci : CareInstruction) : Type 0 where
  pub sorted : IsSorted name_of ci.status.shoots
  pub counted : ci.status.failed_clusters ≡ count_if is_failed ci.status.shoots
  pub bounded : length ci.status.shoots ≤ ci.status.total_target_shoots + ci.status.created_clusters

-- No entry is there yet.
pub record IsBlank (ci : CareInstruction) : Type 0 where
  pub shoots : ci.status.shoots ≡ []
  pub failed : ci.status.failed_clusters ≡ 0

pub blank-IsConsistent : (ci : CareInstruction) → IsBlank ci → IsConsistent ci
blank-IsConsistent ci b = record {
  sorted = rw b.shoots tt;
  counted = rw b.shoots (b.failed);
  bounded = rw b.shoots (ground arith);
}

abbrev pub Blank : {X W : Type 0} → State X W → Type 0
Blank st = IsBlank st.instruction

abbrev pub Consistent : {X W : Type 0} → State X W → Type 0
Consistent st = IsConsistent st.instruction

pub blank : {X W : Type 0} (st : State X W) → Blank st → Consistent st
blank st b = blank-IsConsistent st.instruction b

pub still :
    {ci ci' : CareInstruction}
    → IsBlank ci
    → ci'.status.shoots ≡ ci.status.shoots
    → ci'.status.failed_clusters ≡ ci.status.failed_clusters
    → IsBlank ci'
still b e f = record { shoots = e ∙ b.shoots; failed = f ∙ b.failed }

-- Nothing is said yet, and these are the counters.
pub record IsCountedBlank {X W : Type 0} (n m : ℕ) (st : State X W) : Type 0 where
  pub is_blank : IsBlank st.instruction
  pub shoots : st.instruction.status.total_target_shoots ≡ n
  pub clusters : st.instruction.status.created_clusters ≡ m

pub record IsTotalBlank {X W : Type 0} (n : ℕ) (st : State X W) : Type 0 where
  pub is_blank : IsBlank st.instruction
  pub shoots : st.instruction.status.total_target_shoots ≡ n

module _ {W : Type 0} (C : ConditionApi) (R : MapRange) (M : IsRange R) (G : GardenApi W)
    (greenhouse : Client W) where
  pub restarted-IsTotalBlank :
      (n : ℕ) (b : Bool) (key hash : String) (st : State G.RestConfig W)
      → IsTotalBlank n st
      → IsTotalBlank n (after_change C G R greenhouse b key hash st)
  unfolding restart_shoot_controller
  restarted-IsTotalBlank n true key hash st h =
      let key' = garden_key st.instruction in
      elim (Bool-cases (restart key' (set_hash key hash st.fleet)).0) [
        | inl e ↦ record { is_blank = rw e (still h.is_blank refl refl); shoots = rw e h.shoots }
        | inr e ↦ record { is_blank = rw e (still h.is_blank refl refl); shoots = rw e h.shoots }
      ]
  restarted-IsTotalBlank n false key hash st h = h

  -- The loop over the Clusters loses none.
  pub annotate_clusters-length :
      (garden : Client W) (cs : List Cluster) (failed : Option Error)
      → Yields
          (λ (answer : List Cluster × Option Error). length answer.0 ≡ length cs)
          (annotate_clusters C G R greenhouse garden cs failed)
  unfolding annotate_clusters
  annotate_clusters-length garden [] failed = Yields-pure _ _ refl
  annotate_clusters-length garden (c ∷ cs) failed =
      Yields-then (λ _. Unit {0}) _ _ _ (record { value = λ s a e. tt })
        (λ (left, e) _.
          Yields-then (λ (answer : List Cluster × Option Error). length answer.0 ≡ length cs) _ _ _
            (annotate_clusters-length garden cs _)
            (λ (rest, failed') l. Yields-pure _ _ (ap suc l)))

  built-IsConsistent :
      (sel : Selection) (clusters left : List Cluster) (n : ℕ) (conflicts : Dict ConflictInfo)
      (st : State G.RestConfig W)
      → NodupKeys sel.excluded
      → NodupKeys conflicts
      → sorted_out sel ≤ n
      → length left ≡ length clusters
      → length conflicts ≤ length sel.included
      → IsCountedBlank n (length clusters) st
      → IsConsistent (record (st.instruction) {
        status = record (st.instruction.status) {
          shoots = (build_shoot_statuses C R sel.excluded left conflicts).0;
          failed_clusters = (build_shoot_statuses C R sel.excluded left conflicts).1;
        };
      })
  built-IsConsistent sel clusters left n conflicts st u v size l c h = record {
    sorted = (build_shoot_statuses_lem C R M sel.excluded left conflicts u v).0;
    counted = failed-count C R M sel.excluded left conflicts;
    bounded =
        ground (arith, h.shoots, h.clusters, length-built C R M sel.excluded left conflicts u v);
  }

  pub conclude-IsConsistent :
      (sel : Selection) (clusters left : List Cluster) (failed : Option Error) (n : ℕ)
      → NodupKeys sel.excluded
      → sorted_out sel ≤ n
      → length left ≡ length clusters
      → Leaves
          (IsCountedBlank n (length clusters))
          Consistent
          (conclude C G R greenhouse sel clusters left failed)
  unfolding conclude set_condition
  conclude-IsConsistent sel clusters left failed n u size l =
      let weaken : (st : State G.RestConfig W)
          → IsCountedBlank n (length clusters) st
          → Consistent st =
        λ st h. blank st h.is_blank in
      Leaves-after _ _ (Keeps-read _) weaken (λ ci.
        Leaves-bind
          (λ (conflicts : Dict ConflictInfo) st.
            IsCountedBlank n (length clusters) st
            × NodupKeys conflicts
            × (length conflicts ≤ length sel.included))
          _ _ (Leaves-keep _ (Keeps-read _) weaken)
          (Ensures-read _ (λ st conflicts h e.
            let (v, c) =
              conflicts_of-size C G R greenhouse ci sel.included clusters st.clusters conflicts e in
            (h, v, c)))
          (λ conflicts.
            Leaves-bind (λ _. Consistent) _ _
              (Leaves-write _ (λ st (h, v, c).
                built-IsConsistent sel clusters left n conflicts st u v size l c h))
              (Ensures-write _ (λ st _ (h, v, c) e.
                built-IsConsistent sel clusters left n conflicts st u v size l c h))
              (λ _.
                Leaves-after _ _ (Keeps-read _) (λ st h. h)
                  (λ _.
                    Leaves-keep _
                      (Keeps-write _ (λ st h. record {
                        sorted = h.sorted;
                        counted = h.counted;
                        bounded = h.bounded;
                      }))
                      (λ st h. h)))))
