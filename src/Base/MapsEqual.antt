-- ===== src/Base/MapsEqual.antt =====
-- `maps.Equal`, on maps of texts.
use Prim.Native.Nat.{suc}
use Prim.Native.String.{String}
use mathlib.Core.Path.{◌≡◌, refl}
use mathlib.Core.Logic.{◌↔◌}
use mathlib.Core.Bool.{Bool, true, false, ◌&&◌}
use mathlib.Core.Option.{Option, none, some}
use mathlib.Core.List.{[], ◌∷◌}
use native.Mathlib.Omega.{arith}
use shoot_grafter.Base.Tests.{◌==◌, nat_eq, length}
use shoot_grafter.Base.Dict.{
  Dict, lookup, delete, NodupKeys, lookup-nil, lookup-cons, lookup-delete,
}

-- Whether this is the text that was found.
abbrev pub holds : Option String → String → Bool
holds none v = false
holds (some w) v = v == w

-- The loop over the entries of the first map.
unfoldable pub all_in : Dict String → Dict String → Bool
all_in [] n = true
all_in ((k, v) ∷ m) n = holds (lookup k n) v && all_in m n

unfoldable pub maps_equal : Dict String → Dict String → Bool
unfolding all_in
maps_equal m n = nat_eq (length m) (length n) && all_in m n

module _ {V : Type 0} where
  length-delete_fresh :
      (k : String) (n : Dict V) → lookup k n ≡ none → length (delete k n) ≡ length n
  unfolding delete lookup
  length-delete_fresh k [] e = refl
  length-delete_fresh k (_ ∷ n) e = ground (arith, length-delete_fresh k n)

  pub length-delete :
      (k : String) (v : V) (n : Dict V)
      → NodupKeys n
      → lookup k n ≡ some v
      → length n ≡ suc (length (delete k n))
  unfolding delete lookup
  length-delete k v [] u e = ground arith
  length-delete k v ((j, w) ∷ n) (fresh, u) e =
      ground (arith, length-delete k v n u, length-delete_fresh k n)

  pub delete-NodupKeys : (k : String) (n : Dict V) → NodupKeys n → NodupKeys (delete k n)
  unfolding delete
  delete-NodupKeys k [] u = tt
  delete-NodupKeys k ((j, w) ∷ n) (fresh, u) =
      ground (arith, delete-NodupKeys k n u, lookup-delete j k n)

  -- Maps that hold the same under every key have the same size.
  pub length_same :
      (m n : Dict V)
      → NodupKeys m
      → NodupKeys n
      → ((k : String) → lookup k m ≡ lookup k n)
      → length m ≡ length n
  length_same [] [] u w h = refl
  length_same [] ((k, v) ∷ n) u w h = ground (arith, h k, lookup-nil {V = V} k, lookup-cons k k v n)
  length_same ((j, v) ∷ m) n (fresh, u) w h =
      let here : lookup j n ≡ some v = ground (arith, h j, lookup-cons j j v m) in
      ground (
        arith,
        length-delete j v n w here,
        length_same m (delete j n) u (delete-NodupKeys j n w)
            (λ k. ground (arith, h k, lookup-cons k j v m, lookup-delete k j n)),
      )

all_in-delete :
    (k : String) (m n : Dict String) → lookup k m ≡ none → all_in m (delete k n) ≡ all_in m n
unfolding all_in
all_in-delete k [] n e = refl
all_in-delete k ((j, w) ∷ m) n e =
    ground (arith, lookup-cons k j w m, lookup-delete j k n, all_in-delete k m n)

same_lookup :
    (m n : Dict String) (k : String)
    → NodupKeys m
    → NodupKeys n
    → length m ≡ length n
    → all_in m n ≡ true
    → lookup k m ≡ lookup k n
unfolding all_in
same_lookup [] [] k u w e a = refl
same_lookup [] (_ ∷ _) k u w e a = ground arith
same_lookup ((j, v) ∷ m) n k (fresh, u) w e a = ground (
  arith,
  lookup-cons k j v m,
  lookup-delete k j n,
  length-delete j v n w,
  all_in-delete j m n fresh,
  same_lookup m (delete j n) k u (delete-NodupKeys j n w),
)

all_in_same :
    (m n : Dict String) → NodupKeys m → ((k : String) → lookup k m ≡ lookup k n) → all_in m n ≡ true
unfolding all_in
all_in_same [] n u h = refl
all_in_same ((j, v) ∷ m) n (fresh, u) h =
    let here : lookup j n ≡ some v = ground (arith, h j, lookup-cons j j v m) in
    let rest : all_in m (delete j n) ≡ true =
      all_in_same m (delete j n) u
        (λ k. ground (arith, h k, lookup-cons k j v m, lookup-delete k j n)) in
    ground (arith, all_in-delete j m n fresh)

-- It is true exactly when the maps hold the same under every key.
pub maps_equal_iff :
    (m n : Dict String)
    → NodupKeys m
    → NodupKeys n
    → (maps_equal m n ≡ true) ↔ ((k : String) → lookup k m ≡ lookup k n)
unfolding maps_equal
maps_equal_iff m n u w = (
  λ e k. same_lookup m n k u w (ground arith) (ground arith),
  λ h. ground (arith, all_in_same m n u h, length_same m n u w h),
)
