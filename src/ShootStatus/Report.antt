-- ===== src/ShootStatus/Report.antt =====
-- The result of `buildShootStatuses`: sorted, one entry for each name, and independent of the order
-- in which Go meets the entries of a map.
use shoot_grafter.Base.{ℕ, String, none, List, [], ◌∷◌, count_if, ◌≡◌, ◌∙◌, sym, ap, ap₂, arith}
use shoot_grafter.Base.Dict.{Dict, lookup, MapRange, IsRange, NodupKeys, lookup-nil, lookup-cons}
use shoot_grafter.Base.TextOrder.{
  find, find-sort_by, DistinctKeys, IsSorted, sort_by-IsSorted, count_if-sort_by, IsSorted-unique,
}
use shoot_grafter.Kube.{Cluster}
use shoot_grafter.Kube.Conditions.{ConditionApi}
use shoot_grafter.Api.{ShootStatus}
use shoot_grafter.ShootStatus.{ConflictInfo, merge_reports, values, is_failed, build_shoot_statuses}
use shoot_grafter.ShootStatus.Expected.{
  expected, lookup-merge_reports, merge_reports-NodupKeys, merge_reports-IsKeyed,
}
use shoot_grafter.ShootStatus.Merge.{IsKeyed}

IsKeyed-head :
    (j : String) (s : ShootStatus) (m : Dict ShootStatus) → IsKeyed ((j, s) ∷ m) → s.name ≡ j
IsKeyed-head j s m h = h j s (ground (arith, lookup-cons j j s m))

IsKeyed-tail :
    (j : String) (s : ShootStatus) (m : Dict ShootStatus)
    → lookup j m ≡ none
    → IsKeyed ((j, s) ∷ m)
    → IsKeyed m
IsKeyed-tail j s m fresh h k r e = h k r (ground (arith, lookup-cons k j s m))

abbrev pub name_of : ShootStatus → String
name_of s = s.name

-- What the values of a keyed map hold under a name.
find-values :
    (k : String) (m : Dict ShootStatus)
    → NodupKeys m
    → IsKeyed m
    → find name_of k (values m) ≡ lookup k m
find-values k [] u h = sym (lookup-nil k)
find-values k ((j, s) ∷ m) (fresh, u) h = ground (
  arith,
  lookup-cons k j s m,
  find-values k m u (IsKeyed-tail j s m fresh h),
  IsKeyed-head j s m h,
)

values-DistinctKeys :
    (m : Dict ShootStatus) → NodupKeys m → IsKeyed m → DistinctKeys name_of (values m)
values-DistinctKeys [] u h = tt
values-DistinctKeys ((j, s) ∷ m) (fresh, u) h =
    let h' = IsKeyed-tail j s m fresh h in
    (rw (IsKeyed-head j s m h) (find-values j m u h' ∙ fresh), values-DistinctKeys m u h')

module _ (C : ConditionApi) (R : MapRange) (L : IsRange R) where
  module _ (excluded : Dict String) (owned : List Cluster) (conflicts : Dict ConflictInfo) where
    abbrev merged : Dict ShootStatus
    merged = merge_reports C R excluded owned conflicts

    abbrev met : Dict ShootStatus
    met = R.range ShootStatus merged

    met-NodupKeys : NodupKeys met
    met-NodupKeys =
        L.range-NodupKeys ShootStatus merged
          (merge_reports-NodupKeys C R L excluded owned conflicts)

    lookup-met : (k : String) → lookup k met ≡ lookup k merged
    lookup-met k =
        L.lookup-range ShootStatus merged k (merge_reports-NodupKeys C R L excluded owned conflicts)

    met-IsKeyed : IsKeyed met
    met-IsKeyed k s e =
        merge_reports-IsKeyed C R L excluded owned conflicts k s (sym (lookup-met k) ∙ e)

    met-DistinctKeys : DistinctKeys name_of (values met)
    met-DistinctKeys = values-DistinctKeys met met-NodupKeys met-IsKeyed

    abbrev pub built : List ShootStatus × ℕ
    built = build_shoot_statuses C R excluded owned conflicts

  -- For maps without a repeated key, and an iteration that meets every key once with its value, the
  -- statuses are strictly ascending by name, so that a name has one entry at most, and the entry of
  -- a name is the one that the description by cases gives it.
  pub build_shoot_statuses_lem :
      (excluded : Dict String) (owned : List Cluster) (conflicts : Dict ConflictInfo)
      → NodupKeys excluded
      → NodupKeys conflicts
      → IsSorted name_of (built excluded owned conflicts).0
        × ((k : String)
            → find name_of k (built excluded owned conflicts).0
              ≡ expected C (lookup k excluded) (lookup k conflicts) k owned)
  unfolding build_shoot_statuses
  build_shoot_statuses_lem excluded owned conflicts ue uc = (
    sort_by-IsSorted name_of (values (met excluded owned conflicts))
        (met-DistinctKeys excluded owned conflicts),
    λ k.
        find-sort_by name_of k (values (met excluded owned conflicts))
          (met-DistinctKeys excluded owned conflicts)
        ∙ find-values k (met excluded owned conflicts) (met-NodupKeys excluded owned conflicts)
            (met-IsKeyed excluded owned conflicts)
        ∙ lookup-met excluded owned conflicts k
        ∙ lookup-merge_reports C R L excluded owned conflicts k ue uc,
  )

  -- The second result is the number of statuses that are Failed.
  pub failed-count :
      (excluded : Dict String) (owned : List Cluster) (conflicts : Dict ConflictInfo)
      → (built excluded owned conflicts).1 ≡ count_if is_failed (built excluded owned conflicts).0
  unfolding build_shoot_statuses
  failed-count excluded owned conflicts =
      sym (count_if-sort_by name_of is_failed (values (met excluded owned conflicts)))

module _ (C : ConditionApi) (R S : MapRange) (L : IsRange R) (M : IsRange S) where
  -- For maps without a repeated key, the whole result depends on their contents alone: neither the order in which their
  -- entries stand nor the order in which Go meets them matters.
  pub build_shoot_statuses_order :
      (excluded excluded' : Dict String) (owned : List Cluster)
      (conflicts conflicts' : Dict ConflictInfo)
      → NodupKeys excluded
      → NodupKeys excluded'
      → NodupKeys conflicts
      → NodupKeys conflicts'
      → ((k : String) → lookup k excluded ≡ lookup k excluded')
      → ((k : String) → lookup k conflicts ≡ lookup k conflicts')
      → build_shoot_statuses C R excluded owned conflicts
        ≡ build_shoot_statuses C S excluded' owned conflicts'
  build_shoot_statuses_order excluded excluded' owned conflicts conflicts' ue ue' uc uc' he hc =
      let (sorted, here) = build_shoot_statuses_lem C R L excluded owned conflicts ue uc in
      let (sorted', there) = build_shoot_statuses_lem C S M excluded' owned conflicts' ue' uc' in
      let same : (build_shoot_statuses C R excluded owned conflicts).0
          ≡ (build_shoot_statuses C S excluded' owned conflicts').0 =
        IsSorted-unique name_of _ _ sorted sorted'
          (λ k. here k ∙ ap₂ (λ e c. expected C e c k owned) (he k) (hc k) ∙ sym (there k)) in
      ap₂ (λ (xs : List ShootStatus) (n : ℕ). (xs, n)) same
        (failed-count C R L excluded owned conflicts
          ∙ ap (count_if is_failed) same
          ∙ sym (failed-count C S M excluded' owned conflicts'))
