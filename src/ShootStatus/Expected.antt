-- ===== src/ShootStatus/Expected.antt =====
-- What the loops of `buildShootStatuses` collect under each name, against a description by cases.
use shoot_grafter.Base.{
  String, Bool, true, false, not, Option, none, some, List, [], ◌∷◌, map, ◌==◌, text_dec, ◌&&◌,
  if◌then◌else◌, ltb, ◌≡◌, refl, ◌∙◌, sym, ap, ap₂, arith, ◌≢◌, inl, inr, or_else, or_else-none,
  Option-cases,
}
use shoot_grafter.Base.Dict.{Dict, lookup, MapRange, IsRange, NodupKeys, lookup-nil}
use shoot_grafter.Kube.{Cluster}
use shoot_grafter.Kube.Conditions.{ConditionApi}
use shoot_grafter.Api.{ShootStatus}
use shoot_grafter.ShootStatus.{
  ConflictInfo, shoot_status_rank, excluded_status, cluster_status, conflict_status, merge_reports,
}
use shoot_grafter.ShootStatus.Merge.{
  stronger, strongest, lookup-set_all, IsKeyed, set_thrice-NodupKeys, set_thrice-IsKeyed,
}
use shoot_grafter.ShootStatus.Joined.{
  rank-excluded, rank-failed, rank-onboarded, strongest-map, picked, skip, joined,
}

module _ (C : ConditionApi) where
  -- The last report of a cluster with this name and readiness.
  abbrev pub last_report : Bool → String → List Cluster → Option ShootStatus
  last_report true k [] = none
  last_report true k (c ∷ cs) =
      or_else (last_report true k cs)
        (if k == c.name && C.is_ready_true c.conditions then some (cluster_status C c) else none)
  last_report false k [] = none
  last_report false k (c ∷ cs) = or_else (last_report false k cs) (
      if k == c.name && not (C.is_ready_true c.conditions) then some (cluster_status C c) else none)

  -- The entry of a name, from what is known of the name: an exclusion comes first, then a failure
  -- (a conflict's before a cluster's), then a conflict over a ready cluster, then a ready cluster.
  abbrev pub expected :
      Option String → Option ConflictInfo → String → List Cluster → Option ShootStatus
  expected (some reason) conflict k owned = some (excluded_status (k, reason))
  expected none none k owned = or_else (last_report false k owned) (last_report true k owned)
  expected none (some c) k owned =
      if c.ready
      then or_else (last_report false k owned) (some (conflict_status (k, c)))
      else some (conflict_status (k, c))

  abbrev upgraded :
      Option ShootStatus → Option ShootStatus → Option ShootStatus → Option ShootStatus
  upgraded none unready ready = or_else unready ready
  upgraded (some s) unready ready =
      if ltb 1 (shoot_status_rank s.status)
      then some s
      else or_else unready
          (if ltb 0 (shoot_status_rank s.status) then some s else or_else ready (some s))

  cluster_status_lem :
      (c : Cluster)
      → ((cluster_status C c).name ≡ c.name)
        × (shoot_status_rank (cluster_status C c).status
            ≡ (if C.is_ready_true c.conditions then 0 else 1))
  unfolding cluster_status
  cluster_status_lem c = ground (arith, rank-failed, rank-onboarded)

  -- One more report, of rank 0 if it is ready and of rank 1 if not.
  upgraded-stronger :
      (o : Option ShootStatus) (c : ShootStatus) (b : Bool) (unready ready : Option ShootStatus)
      → shoot_status_rank c.status ≡ (if b then 0 else 1)
      → upgraded (stronger o c) unready ready
        ≡ upgraded o
            (or_else unready (if not b then some c else none))
            (or_else ready (if b then some c else none))
  upgraded-stronger none c true unready none e = ground arith
  upgraded-stronger none c true unready (some r) e = ground arith
  upgraded-stronger none c false unready ready e = ground arith
  upgraded-stronger (some s) c true unready none e = ground arith
  upgraded-stronger (some s) c true unready (some r) e = ground arith
  upgraded-stronger (some s) c false none ready e = ground arith
  upgraded-stronger (some s) c false (some u) ready e = ground arith

  -- A cluster of this name adds its report, and another adds nothing.
  last_report-cons :
      (k : String) (c : Cluster) (cs : List Cluster)
      → k ≡ c.name
      → (last_report false k (c ∷ cs)
          ≡ or_else
              (last_report false k cs)
              (if not (C.is_ready_true c.conditions) then some (cluster_status C c) else none))
        × (last_report true k (c ∷ cs)
            ≡ or_else
                (last_report true k cs)
                (if C.is_ready_true c.conditions then some (cluster_status C c) else none))
  last_report-cons k c cs e = (ground arith, ground arith)

  last_report-cons_ne :
      (k : String) (c : Cluster) (cs : List Cluster)
      → k ≢ c.name
      → (last_report false k (c ∷ cs) ≡ last_report false k cs)
        × (last_report true k (c ∷ cs) ≡ last_report true k cs)
  last_report-cons_ne k c cs n = (
    ap (or_else (last_report false k cs)) (skip _ _ _ _ n) ∙ or_else-none _,
    ap (or_else (last_report true k cs)) (skip _ _ _ _ n) ∙ or_else-none _,
  )

  strongest-cons :
      (k : String) (o : Option ShootStatus) (r : ShootStatus) (rs : List ShootStatus)
      → k ≡ r.name
      → strongest k o (r ∷ rs) ≡ strongest k (stronger o r) rs
  strongest-cons k o r rs e = ground arith

  strongest-cons_ne :
      (k : String) (o : Option ShootStatus) (r : ShootStatus) (rs : List ShootStatus)
      → k ≢ r.name
      → strongest k o (r ∷ rs) ≡ strongest k o rs
  strongest-cons_ne k o r rs n = ground arith

  strongest-clusters :
      (k : String) (o : Option ShootStatus) (cs : List Cluster)
      → strongest k o (map (cluster_status C) cs)
        ≡ upgraded o (last_report false k cs) (last_report true k cs)
  strongest-clusters k none [] = refl
  strongest-clusters k (some s) [] = ground arith
  strongest-clusters k o (c ∷ cs) =
      let report = cluster_status C c in
      elim (text_dec k c.name) [
        | yes e ↦
            let (unready, ready) = last_report-cons k c cs e in
            strongest-cons k o report (map (cluster_status C) cs) (e ∙ sym (cluster_status_lem c).0)
            ∙ strongest-clusters k (stronger o report) cs
            ∙ upgraded-stronger o report (C.is_ready_true c.conditions) _ _ (cluster_status_lem c).1
            ∙ ap₂ (upgraded o) (sym unready) (sym ready)
        | no n ↦
            let (unready, ready) = last_report-cons_ne k c cs n in
            strongest-cons_ne k o report (map (cluster_status C) cs)
              (λ e. n (e ∙ (cluster_status_lem c).0))
            ∙ strongest-clusters k o cs
            ∙ ap₂ (upgraded o) (sym unready) (sym ready)
      ]

  rank-last_report-false :
      (k : String) (cs : List Cluster) (s : ShootStatus)
      → last_report false k cs ≡ some s
      → shoot_status_rank s.status ≡ 1
  rank-last_report-false k [] s e = cc
  rank-last_report-false k (c ∷ cs) s e =
      elim (picked (last_report false k cs) _ (cluster_status C c) s e) [
        | inl f ↦ rank-last_report-false k cs s f
        | inr (b, f) ↦ rw (← f) (ground (arith, cluster_status_lem c))
      ]

  rank-last_report-true :
      (k : String) (cs : List Cluster) (s : ShootStatus)
      → last_report true k cs ≡ some s
      → shoot_status_rank s.status ≡ 0
  rank-last_report-true k [] s e = cc
  rank-last_report-true k (c ∷ cs) s e =
      elim (picked (last_report true k cs) _ (cluster_status C c) s e) [
        | inl f ↦ rank-last_report-true k cs s f
        | inr (b, f) ↦ rw (← f) (ground (arith, cluster_status_lem c))
      ]

  conflict_status_lem :
      (k : String) (c : ConflictInfo)
      → shoot_status_rank (conflict_status (k, c)).status ≡ (if c.ready then 0 else 1)
  unfolding conflict_status
  conflict_status_lem k c = ground (arith, rank-failed, rank-onboarded)

  strongest-all :
      (k : String) (ex : Option String) (con : Option ConflictInfo) (owned : List Cluster)
      → joined
          (upgraded
            (joined none ex (λ r. excluded_status (k, r)))
            (last_report false k owned)
            (last_report true k owned))
          con
          (λ c. conflict_status (k, c))
        ≡ expected ex con k owned
  strongest-all k (some reason) none owned = ground (arith, rank-excluded)
  strongest-all k (some reason) (some c) owned =
      ground (arith, rank-excluded, conflict_status_lem k c)
  strongest-all k none none owned = refl
  strongest-all k none (some c) owned = elim (Option-cases (last_report false k owned)) [
    | inl e ↦ elim (Option-cases (last_report true k owned)) [
      | inl f ↦ rw (e, f) (ground arith)
      | inr (s, f) ↦
          rw (e, f) (ground (arith, conflict_status_lem k c, rank-last_report-true k owned s f))
    ]
    | inr (s, e) ↦
        rw e (ground (arith, conflict_status_lem k c, rank-last_report-false k owned s e))
  ]

  module _ (R : MapRange) (L : IsRange R) where
    pub lookup-merge_reports :
        (excluded : Dict String) (owned : List Cluster) (conflicts : Dict ConflictInfo) (k : String)
        → NodupKeys excluded
        → NodupKeys conflicts
        → lookup k (merge_reports C R excluded owned conflicts)
          ≡ expected (lookup k excluded) (lookup k conflicts) k owned
    unfolding merge_reports conflict_status
    lookup-merge_reports excluded owned conflicts k ue uc =
        rw
          (
            lookup-set_all,
            strongest-map conflict_status (λ j v. refl) k _ (R.range ConflictInfo conflicts)
                (L.range-NodupKeys ConflictInfo conflicts uc),
            lookup-set_all,
            strongest-clusters,
            lookup-set_all,
            strongest-map excluded_status (λ j v. refl) k _ (R.range String excluded)
                (L.range-NodupKeys String excluded ue),
            lookup-nil,
            L.lookup-range String excluded k ue,
            L.lookup-range ConflictInfo conflicts k uc,
          )
          (strongest-all k (lookup k excluded) (lookup k conflicts) owned)

    pub merge_reports-NodupKeys :
        (excluded : Dict String) (owned : List Cluster) (conflicts : Dict ConflictInfo)
        → NodupKeys (merge_reports C R excluded owned conflicts)
    unfolding merge_reports
    merge_reports-NodupKeys excluded owned conflicts =
        set_thrice-NodupKeys (map excluded_status (R.range String excluded))
          (map (cluster_status C) owned) (map conflict_status (R.range ConflictInfo conflicts))

    pub merge_reports-IsKeyed :
        (excluded : Dict String) (owned : List Cluster) (conflicts : Dict ConflictInfo)
        → IsKeyed (merge_reports C R excluded owned conflicts)
    unfolding merge_reports
    merge_reports-IsKeyed excluded owned conflicts =
        set_thrice-IsKeyed (map excluded_status (R.range String excluded))
          (map (cluster_status C) owned) (map conflict_status (R.range ConflictInfo conflicts))
