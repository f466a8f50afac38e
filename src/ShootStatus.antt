-- ===== src/ShootStatus.antt =====
-- controller/careinstruction/shootstatus.go: one status entry for each shoot name.
pub mod Merge
pub mod Joined
pub mod Expected
pub mod Report
pub mod Bounds
use shoot_grafter.Base.{
  ℕ, String, ◌<>◌, Bool, true, false, Option, none, some, List, [], ◌∷◌, map, ◌==◌, ◌!=◌, text_dec,
  if◌then◌else◌, ltb, count_if, ◌&&◌,
}
use shoot_grafter.Base.Dict.{Dict, lookup, insert, MapRange}
use shoot_grafter.Base.TextOrder.{sort_by}
use shoot_grafter.Kube.{Condition, Cluster}
use shoot_grafter.Kube.Conditions.{ConditionApi}
use shoot_grafter.Api.{
  ShootStatus, shoot_status_onboarded, shoot_status_failed, shoot_status_excluded,
}

pub record ConflictInfo : Type 0 where
  pub owner : String
  pub ready : Bool

unfoldable pub shoot_status_rank : String → ℕ
shoot_status_rank status =
    if status == shoot_status_excluded then 2 else (if status == shoot_status_failed then 1 else 0)

-- The closure `setStatus`, over the map `byName`.
unfoldable pub set_status : Dict ShootStatus → ShootStatus → Dict ShootStatus
unfolding shoot_status_rank
set_status by_name s = elim (lookup s.name by_name) [
  | none ↦ insert s.name s by_name
  | some current ↦
      if ltb (shoot_status_rank s.status) (shoot_status_rank current.status)
      then by_name
      else insert s.name s by_name
]

-- A loop that calls `setStatus` for each report.
unfoldable pub set_all : Dict ShootStatus → List ShootStatus → Dict ShootStatus
unfolding set_status
set_all by_name [] = by_name
set_all by_name (s ∷ reports) = set_all (set_status by_name s) reports

abbrev pub excluded_status : String × String → ShootStatus
excluded_status (name, reason) = record {
  name = name;
  status = shoot_status_excluded;
  message = reason;
}

-- The message of a cluster that is not ready.
abbrev pub failure_message : Option Condition → String
failure_message none = ""
failure_message (some c) = if c.message != "" then c.message else ""

unfoldable pub cluster_status : ConditionApi → Cluster → ShootStatus
cluster_status C cluster =
    if C.is_ready_true cluster.conditions
    then record { name = cluster.name; status = shoot_status_onboarded; message = "" }
    else record {
      name = cluster.name;
      status = shoot_status_failed;
      message = failure_message (C.get_condition_by_type cluster.conditions C.ready_condition);
    }

abbrev pub conflict_message : String → String
conflict_message owner = "Cluster managed by different CareInstruction: " <> owner

unfoldable pub conflict_status : String × ConflictInfo → ShootStatus
conflict_status (name, conflict) = record {
  name = name;
  status = if conflict.ready then shoot_status_onboarded else shoot_status_failed;
  message = conflict_message conflict.owner;
}

abbrev pub is_failed : ShootStatus → Bool
is_failed s = s.status == shoot_status_failed

-- The values that `range` meets.
abbrev pub values : Dict ShootStatus → List ShootStatus
values [] = []
values ((_, s) ∷ m) = s ∷ values m

module _ (C : ConditionApi) (R : MapRange) where
  -- The map after the three loops.
  unfoldable pub merge_reports : Dict String → List Cluster → Dict ConflictInfo → Dict ShootStatus
  unfolding set_all cluster_status conflict_status
  merge_reports excluded owned_clusters conflicts =
      set_all
        (set_all (set_all [] (map excluded_status (R.range String excluded)))
          (map (cluster_status C) owned_clusters))
        (map conflict_status (R.range ConflictInfo conflicts))

  unfoldable pub build_shoot_statuses :
      Dict String → List Cluster → Dict ConflictInfo → List ShootStatus × ℕ
  unfolding merge_reports sort_by
  build_shoot_statuses excluded owned_clusters conflicts =
      let met = values (R.range ShootStatus (merge_reports excluded owned_clusters conflicts)) in
      (sort_by (λ s. s.name) met, count_if is_failed met)
