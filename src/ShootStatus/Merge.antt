-- ===== src/ShootStatus/Merge.antt =====
-- What the loops of `buildShootStatuses` leave under each name.
use shoot_grafter.Base.{
  String, Option, none, some, List, [], ◌∷◌, ◌==◌, if◌then◌else◌, ltb, ◌≡◌, refl, sym, ◌∙◌, ap,
  arith,
}
use shoot_grafter.Base.Dict.{Dict, lookup, NodupKeys, lookup-nil, lookup-insert, insert-NodupKeys}
use shoot_grafter.Api.{ShootStatus}
use shoot_grafter.ShootStatus.{shoot_status_rank, set_status, set_all}

-- The report that stays when `r` comes after `o`.
abbrev pub stronger : Option ShootStatus → ShootStatus → Option ShootStatus
stronger none r = some r
stronger (some c) r =
    if ltb (shoot_status_rank r.status) (shoot_status_rank c.status) then some c else some r

abbrev pub strongest : String → Option ShootStatus → List ShootStatus → Option ShootStatus
strongest k o [] = o
strongest k o (r ∷ rs) = strongest k (if k == r.name then stronger o r else o) rs

lookup-set_status :
    (k : String) (m : Dict ShootStatus) (s : ShootStatus)
    → lookup k (set_status m s) ≡ (if k == s.name then stronger (lookup k m) s else lookup k m)
unfolding set_status
lookup-set_status k m s = ground (arith, lookup-insert k s.name s m)

pub lookup-set_all :
    (k : String) (m : Dict ShootStatus) (rs : List ShootStatus)
    → lookup k (set_all m rs) ≡ strongest k (lookup k m) rs
unfolding set_all
lookup-set_all k m [] = refl
lookup-set_all k m (r ∷ rs) =
    lookup-set_all k (set_status m r) rs ∙ ap (λ o. strongest k o rs) (lookup-set_status k m r)

set_status-NodupKeys :
    (m : Dict ShootStatus) (s : ShootStatus) → NodupKeys m → NodupKeys (set_status m s)
unfolding set_status
set_status-NodupKeys m s u = ground (arith, insert-NodupKeys s.name s m u)

pub set_all-NodupKeys :
    (m : Dict ShootStatus) (rs : List ShootStatus) → NodupKeys m → NodupKeys (set_all m rs)
unfolding set_all
set_all-NodupKeys m [] u = u
set_all-NodupKeys m (r ∷ rs) u = set_all-NodupKeys (set_status m r) rs (set_status-NodupKeys m r u)

-- Entries stand under their own names.
abbrev pub IsKeyed : Dict ShootStatus → Type 0
IsKeyed m = (k : String) (s : ShootStatus) → lookup k m ≡ some s → s.name ≡ k

abbrev Named : String → Option ShootStatus → Type 0
Named k o = (s : ShootStatus) → o ≡ some s → s.name ≡ k

strongest-Named :
    (k : String) (o : Option ShootStatus) (rs : List ShootStatus)
    → Named k o
    → Named k (strongest k o rs)
strongest-Named k o [] h = h
strongest-Named k none (r ∷ rs) h =
    strongest-Named k (if k == r.name then some r else none) rs (λ s e. ground arith)
strongest-Named k (some c) (r ∷ rs) h =
    strongest-Named k (if k == r.name then stronger (some c) r else some c) rs
      (λ s e. ground (arith, h c refl))

pub set_all-IsKeyed :
    (m : Dict ShootStatus) (rs : List ShootStatus) → IsKeyed m → IsKeyed (set_all m rs)
set_all-IsKeyed m rs h k s e =
    strongest-Named k (lookup k m) rs (h k) s (sym (lookup-set_all k m rs) ∙ e)

-- Three loops in a row, from the empty map.
module _ (xs ys zs : List ShootStatus) where
  pub set_thrice-NodupKeys : NodupKeys (set_all (set_all (set_all [] xs) ys) zs)
  set_thrice-NodupKeys =
      set_all-NodupKeys (set_all (set_all [] xs) ys) zs
        (set_all-NodupKeys (set_all [] xs) ys (set_all-NodupKeys [] xs tt))

  pub set_thrice-IsKeyed : IsKeyed (set_all (set_all (set_all [] xs) ys) zs)
  set_thrice-IsKeyed = set_all-IsKeyed (set_all (set_all [] xs) ys) zs (
      set_all-IsKeyed (set_all [] xs) ys
        (set_all-IsKeyed [] xs (λ k s e. cc (lookup-nil {V = ShootStatus} k))))
