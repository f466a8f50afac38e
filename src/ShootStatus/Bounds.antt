-- ===== src/ShootStatus/Bounds.antt =====
-- How many entries `buildShootStatuses` makes.
use shoot_grafter.Base.{String, List, [], ◌∷◌, map, length, suc, ◌+◌, ◌≤◌, ◌≡◌, refl, arith}
use shoot_grafter.Base.Dict.{Dict, MapRange, IsRange, NodupKeys, insert}
use shoot_grafter.Base.MapsEqual.{length_same}
use shoot_grafter.Base.TextOrder.{length-sort_by}
use shoot_grafter.Kube.{Cluster}
use shoot_grafter.Kube.Conditions.{ConditionApi}
use shoot_grafter.Api.{ShootStatus}
use shoot_grafter.ShootStatus.{
  ConflictInfo, set_status, set_all, values, excluded_status, cluster_status, conflict_status,
  merge_reports, build_shoot_statuses,
}
use shoot_grafter.ShootStatus.Expected.{merge_reports-NodupKeys}
use shoot_grafter.ShootStatus.Report.{built}

pub length-insert :
    {V : Type 0} (k : String) (v : V) (m : Dict V) → length (insert k v m) ≤ suc (length m)
unfolding insert
length-insert k v [] = ground arith
length-insert k v (_ ∷ m) = ground (arith, length-insert k v m)

length-map : {A B : Type 0} (f : A → B) (xs : List A) → length (map f xs) ≡ length xs
length-map f [] = refl
length-map f (x ∷ xs) = ground (arith, length-map f xs)

length-values : (m : Dict ShootStatus) → length (values m) ≡ length m
length-values [] = refl
length-values (_ ∷ m) = ground (arith, length-values m)

length-set_status :
    (m : Dict ShootStatus) (s : ShootStatus) → length (set_status m s) ≤ suc (length m)
unfolding set_status
length-set_status m s = ground (arith, length-insert s.name s m)

-- A loop of reports adds one entry for each report at most.
length-set_all :
    (m : Dict ShootStatus) (rs : List ShootStatus) → length (set_all m rs) ≤ length m + length rs
unfolding set_all
length-set_all m [] = ground arith
length-set_all m (r ∷ rs) =
    ground (arith, length-set_status m r, length-set_all (set_status m r) rs)

module _ (C : ConditionApi) (R : MapRange) (L : IsRange R) where
  length-range : {V : Type 0} (m : Dict V) → NodupKeys m → length (R.range V m) ≡ length m
  length-range {V} m u =
      length_same (R.range V m) m (L.range-NodupKeys V m u) u (λ k. L.lookup-range V m k u)

  length-merge_reports :
      (excluded : Dict String) (owned : List Cluster) (conflicts : Dict ConflictInfo)
      → NodupKeys excluded
      → NodupKeys conflicts
      → length (merge_reports C R excluded owned conflicts)
        ≤ length excluded + length owned + length conflicts
  unfolding merge_reports
  length-merge_reports excluded owned conflicts u w =
      let first = map excluded_status (R.range String excluded) in
      let second = map (cluster_status C) owned in
      let third = map conflict_status (R.range ConflictInfo conflicts) in
      ground (
        arith,
        length-set_all [] first,
        length-set_all (set_all [] first) second,
        length-set_all (set_all (set_all [] first) second) third,
        length-map excluded_status (R.range String excluded),
        length-map (cluster_status C) owned,
        length-map conflict_status (R.range ConflictInfo conflicts),
        length-range excluded u,
        length-range conflicts w,
      )

  -- There are no more entries than reports.
  pub length-built :
      (excluded : Dict String) (owned : List Cluster) (conflicts : Dict ConflictInfo)
      → NodupKeys excluded
      → NodupKeys conflicts
      → length (built C R L excluded owned conflicts).0
        ≤ length excluded + length owned + length conflicts
  unfolding build_shoot_statuses
  length-built excluded owned conflicts u w =
      let merged = merge_reports C R excluded owned conflicts in
      ground (
        arith,
        length-sort_by (λ (s : ShootStatus). s.name) (values (R.range ShootStatus merged)),
        length-values (R.range ShootStatus merged),
        length-range merged (merge_reports-NodupKeys C R L excluded owned conflicts),
        length-merge_reports excluded owned conflicts u w,
      )
