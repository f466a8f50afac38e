-- ===== src/CareInstructionController/Bounds.antt =====
-- How many Shoots are included or left out, and how many conflicts are found.
use shoot_grafter.Base.{
  ℕ, suc, ◌+◌, ◌≤◌, String, ◌<>◌, Bool, true, false, List, [], ◌∷◌, ◌++◌, length, ◌≡◌, refl, arith,
  Bool-cases, Option-cases, inl, inr, contains,
}
use shoot_grafter.Base.Dict.{Dict, lookup, entries, NodupKeys, insert-NodupKeys, MapRange}
use shoot_grafter.Kube.{Result, ok, err, Shoot, Cluster, Result-cases}
use shoot_grafter.Kube.Client.{Client}
use shoot_grafter.Kube.Conditions.{ConditionApi}
use shoot_grafter.Api.{CareInstruction, care_instruction_label}
use shoot_grafter.ShootStatus.{ConflictInfo}
use shoot_grafter.ShootStatus.Bounds.{length-insert}
use shoot_grafter.CareInstructionController.{GardenApi}
use shoot_grafter.CareInstructionController.Shoots.{
  Selection, cluster_names, select_shoots, select_shoot,
}
use shoot_grafter.CareInstructionController.Report.{conflict_of, find_conflicts, conflicts_of}

length-snoc : {A : Type 0} (xs : List A) (x : A) → length (xs ++ (x ∷ [])) ≡ suc (length xs)
length-snoc [] x = refl
length-snoc (y ∷ xs) x = ground (arith, length-snoc xs x)

-- A Shoot is included or left out.
abbrev pub sorted_out : Selection → ℕ
sorted_out sel = length sel.included + length sel.excluded

select_shoot-size :
    (r : Result Bool) (s : Shoot) (sel : Selection)
    → sorted_out (select_shoot r s sel) ≤ suc (sorted_out sel)
select_shoot-size (ok true) s sel = ground (arith, length-snoc sel.included s)
select_shoot-size (ok false) s sel =
    ground (arith, length-insert s.name "filtered out by CEL expression" sel.excluded)
select_shoot-size (err e) s sel =
    ground (arith, length-insert s.name ("CEL evaluation failed: " <> e.message) sel.excluded)

pub select_shoots-size :
    (matches : Shoot → Result Bool) (shoots : List Shoot) (sel : Selection)
    → sorted_out (select_shoots matches shoots sel) ≤ length shoots + sorted_out sel
unfolding select_shoots
select_shoots-size matches [] sel = ground arith
select_shoots-size matches (s ∷ shoots) sel = ground (
  arith,
  select_shoot-size (matches s) s sel,
  select_shoots-size matches shoots (select_shoot (matches s) s sel),
)

conflict_of-size :
    (C : ConditionApi) (ci : CareInstruction) (s : Shoot) (r : Result Cluster)
    (found found' : Dict ConflictInfo)
    → NodupKeys found
    → conflict_of C ci s r found ≡ ok found'
    → NodupKeys found' × (length found' ≤ suc (length found))
conflict_of-size C ci s (err e) found found' u h = ground arith
conflict_of-size C ci s (ok c) found found' u h =
    elim (Option-cases (lookup care_instruction_label (entries c.labels))) [
      | inl e ↦ ground arith
      | inr (owner, e) ↦
          let info : ConflictInfo = record {
            owner = owner;
            ready = C.is_ready_true c.conditions;
          } in
          ground (arith, length-insert s.name info found, insert-NodupKeys s.name info found u)
    ]

module _ {W : Type 0} (C : ConditionApi) (G : GardenApi W) (R : MapRange)
    (greenhouse : Client W) where
  find_conflicts-size :
      (ci : CareInstruction) (names : List String) (w : W) (shoots : List Shoot)
      (found found' : Dict ConflictInfo)
      → NodupKeys found
      → find_conflicts C G R greenhouse ci names w shoots found ≡ ok found'
      → NodupKeys found' × (length found' ≤ length shoots + length found)
  unfolding find_conflicts
  find_conflicts-size ci names w [] found found' u h = ground arith
  find_conflicts-size ci names w (s ∷ shoots) found found' u h =
      let answer = greenhouse.get_cluster (record { namespace = ci.namespace; name = s.name }) w in
      elim (Bool-cases (contains s.name names)) [
        | inl y ↦ ground (arith, find_conflicts-size ci names w shoots found found' u)
        | inr n ↦ elim (Result-cases (conflict_of C ci s answer found)) [
          | inl (next, e) ↦
              let (u', l) = conflict_of-size C ci s answer found next u e in
              ground (arith, find_conflicts-size ci names w shoots next found' u')
          | inr (x, e) ↦ ground arith
        ]
      ]

  -- No more conflicts are found than there are Shoots.
  pub conflicts_of-size :
      (ci : CareInstruction) (included : List Shoot) (clusters : List Cluster) (w : W)
      (conflicts : Dict ConflictInfo)
      → conflicts_of C G R greenhouse ci included clusters w ≡ ok conflicts
      → NodupKeys conflicts × (length conflicts ≤ length included)
  unfolding conflicts_of
  conflicts_of-size ci included clusters w conflicts e =
      ground (arith, find_conflicts-size ci (cluster_names clusters) w included [] conflicts tt)
