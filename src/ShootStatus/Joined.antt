-- ===== src/ShootStatus/Joined.antt =====
-- The ranks of the statuses, and the report that a loop over a map joins to one that was there.
use shoot_grafter.Base.{
  String, Bool, true, false, Option, none, some, [], ◌∷◌, map, ◌==◌, ◌&&◌, if◌then◌else◌, ◌≡◌, ◌≤◌,
  refl, arith, ◌≢◌, ◌⊎◌, inl, inr, or_else,
}
use text.Mathlib.TextEquality.{eq_iff}
use shoot_grafter.Base.Dict.{Dict, lookup, NodupKeys, lookup-nil, lookup-cons}
use shoot_grafter.Api.{
  ShootStatus, shoot_status_onboarded, shoot_status_failed, shoot_status_excluded,
}
use shoot_grafter.ShootStatus.{shoot_status_rank}
use shoot_grafter.ShootStatus.Merge.{stronger, strongest}

pub excluded-ne-failed : shoot_status_excluded ≢ shoot_status_failed
excluded-ne-failed = ground (arith, eq_iff shoot_status_excluded shoot_status_failed)

pub onboarded-ne-failed : shoot_status_onboarded ≢ shoot_status_failed
onboarded-ne-failed = ground (arith, eq_iff shoot_status_onboarded shoot_status_failed)

pub onboarded-ne-excluded : shoot_status_onboarded ≢ shoot_status_excluded
onboarded-ne-excluded = ground (arith, eq_iff shoot_status_onboarded shoot_status_excluded)

pub rank-excluded : shoot_status_rank shoot_status_excluded ≡ 2
unfolding shoot_status_rank
rank-excluded = ground arith

pub rank-failed : shoot_status_rank shoot_status_failed ≡ 1
unfolding shoot_status_rank
rank-failed = ground (arith, excluded-ne-failed)

pub rank-onboarded : shoot_status_rank shoot_status_onboarded ≡ 0
unfolding shoot_status_rank
rank-onboarded = ground (arith, onboarded-ne-failed, onboarded-ne-excluded)

pub rank-le-two : (status : String) → shoot_status_rank status ≤ 2
unfolding shoot_status_rank
rank-le-two status = ground arith

-- The report of a map's loop joins what was there.
abbrev pub joined :
    {V : Type 0} → Option ShootStatus → Option V → (V → ShootStatus) → Option ShootStatus
joined o none report = o
joined o (some v) report = stronger o (report v)

pub strongest-map :
    {V : Type 0} (report : String × V → ShootStatus)
    (named : (k : String) (v : V) → (report (k, v)).name ≡ k) (k : String) (o : Option ShootStatus)
    (m : Dict V)
    → NodupKeys m
    → strongest k o (map report m) ≡ joined o (lookup k m) (λ v. report (k, v))
strongest-map report named k o [] u = rw lookup-nil refl
strongest-map report named k o ((j, v) ∷ m) (fresh, u) = ground (
  arith,
  named j v,
  lookup-cons k j v m,
  strongest-map report named k o m u,
  strongest-map report named k (stronger o (report (j, v))) m u,
)

pub picked :
    (o : Option ShootStatus) (b : Bool) (s t : ShootStatus)
    → or_else o (if b then some s else none) ≡ some t
    → (o ≡ some t) ⊎ ((b ≡ true) × (s ≡ t))
picked none true s t e = inr (refl, ground arith)
picked none false s t e = cc
picked (some r) b s t e = inl e

pub skip :
    (k j : String) (b : Bool) (s : ShootStatus)
    → k ≢ j
    → (if k == j && b then some s else none) ≡ none
skip k j b s n = ground arith
