-- ===== src/Tests/Maps.antt =====
-- Iterations over a map, in two orders.
use shoot_grafter.Base.{
  String, [], ◌∷◌, ◌++◌, ◌≡◌, refl, none, some, ◌==◌, if◌then◌else◌, or_else, arith,
}
use shoot_grafter.Base.Dict.{Dict, MapRange, IsRange, NodupKeys, lookup, lookup-nil, lookup-cons}

-- The iteration in the order of the entries.
abbrev pub forward : MapRange
forward = record { range = λ V m. m }

pub forward-IsRange : IsRange forward
forward-IsRange = record { range-NodupKeys = λ V m u. u; lookup-range = λ V m k u. refl }

abbrev rotate : (V : Type 0) → Dict V → Dict V
rotate V [] = []
rotate V (e ∷ m) = m ++ (e ∷ [])

-- The iteration that starts at the second entry.
abbrev pub rotated : MapRange
rotated = record { range = rotate }

lookup-snoc :
    (V : Type 0) (m : Dict V) (j : String) (v : V) (k : String)
    → lookup k (m ++ ((j, v) ∷ [])) ≡ or_else (lookup k m) (if k == j then some v else none)
lookup-snoc V [] j v k = rw (lookup-cons, lookup-nil) refl
lookup-snoc V ((i, w) ∷ m) j v k =
    ground
      (arith, lookup-cons k i w (m ++ ((j, v) ∷ [])), lookup-cons k i w m, lookup-snoc V m j v k)

snoc-NodupKeys :
    (V : Type 0) (m : Dict V) (j : String) (v : V)
    → lookup j m ≡ none
    → NodupKeys m
    → NodupKeys (m ++ ((j, v) ∷ []))
snoc-NodupKeys V [] j v e u = (lookup-nil j, tt)
snoc-NodupKeys V ((i, w) ∷ m) j v e (fresh, u) = (
  ground (arith, lookup-snoc V m j v i, lookup-cons j i w m),
  snoc-NodupKeys V m j v (ground (arith, lookup-cons j i w m)) u,
)

rotate-NodupKeys : (V : Type 0) (m : Dict V) → NodupKeys m → NodupKeys (rotate V m)
rotate-NodupKeys V [] u = tt
rotate-NodupKeys V ((j, v) ∷ m) (fresh, u) = snoc-NodupKeys V m j v fresh u

lookup-rotate :
    (V : Type 0) (m : Dict V) (k : String) → NodupKeys m → lookup k (rotate V m) ≡ lookup k m
lookup-rotate V [] k u = refl
lookup-rotate V ((j, v) ∷ m) k (fresh, u) =
    ground (arith, lookup-snoc V m j v k, lookup-cons k j v m)

pub rotated-IsRange : IsRange rotated
rotated-IsRange = record { range-NodupKeys = rotate-NodupKeys; lookup-range = lookup-rotate }
