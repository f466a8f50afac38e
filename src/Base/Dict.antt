-- ===== src/Base/Dict.antt =====
-- Go maps with text keys: association lists in some order. Proofs elsewhere go by the laws.
use Prim.Native.String.{String}
use mathlib.Core.Path.{◌≡◌, refl}
use mathlib.Core.Option.{Option, none, some}
use mathlib.Core.List.{List, [], ◌∷◌}
use native.Mathlib.Omega.{arith}
use shoot_grafter.Base.Tests.{◌==◌, if◌then◌else◌, or_else, is_some, contains}

abbrev pub Dict {ℓ} : Type ℓ → Type ℓ
Dict V = List (String × V)

module _ {ℓ} {V : Type ℓ} where
  abbrev pub keys : Dict V → List String
  keys [] = []
  keys ((k, _) ∷ m) = k ∷ keys m

  -- `v, ok := m[k]`
  unfoldable pub lookup : String → Dict V → Option V
  lookup k [] = none
  lookup k ((j, v) ∷ m) = if k == j then some v else lookup k m

  -- `m[k] = v`
  unfoldable pub insert : String → V → Dict V → Dict V
  insert k v [] = (k, v) ∷ []
  insert k v ((j, w) ∷ m) = if k == j then (k, v) ∷ m else (j, w) ∷ insert k v m

  -- `delete(m, k)`
  unfoldable pub delete : String → Dict V → Dict V
  delete k [] = []
  delete k ((j, w) ∷ m) = let rest = delete k m in if k == j then rest else (j, w) ∷ rest

  -- `maps.Copy(dst, src)`
  unfoldable pub copy : Dict V → Dict V → Dict V
  copy dst [] = dst
  copy dst ((k, v) ∷ src) = insert k v (copy dst src)

  -- What every Go map satisfies: no key is listed twice.
  abbrev pub NodupKeys : Dict V → Type ℓ
  NodupKeys [] = Unit
  NodupKeys ((k, _) ∷ m) = (lookup k m ≡ none) × NodupKeys m

  pub lookup-nil : (k : String) → lookup k [] ≡ none
  unfolding lookup
  lookup-nil k = refl

  pub lookup-cons :
      (k j : String) (v : V) (m : Dict V)
      → lookup k ((j, v) ∷ m) ≡ (if k == j then some v else lookup k m)
  unfolding lookup
  lookup-cons k j v m = refl

  pub lookup-insert :
      (j k : String) (v : V) (m : Dict V)
      → lookup j (insert k v m) ≡ (if j == k then some v else lookup j m)
  unfolding lookup insert
  lookup-insert j k v [] = refl
  lookup-insert j k v (_ ∷ m) = ground (arith, lookup-insert j k v m)

  pub lookup-delete :
      (j k : String) (m : Dict V) → lookup j (delete k m) ≡ (if j == k then none else lookup j m)
  unfolding lookup delete
  lookup-delete j k [] = ground arith
  lookup-delete j k (_ ∷ m) = ground (arith, lookup-delete j k m)

  pub lookup-copy :
      (j : String) (dst src : Dict V)
      → lookup j (copy dst src) ≡ or_else (lookup j src) (lookup j dst)
  unfolding lookup copy
  lookup-copy j dst [] = refl
  lookup-copy j dst ((k, v) ∷ src) =
      ground (arith, lookup-insert j k v (copy dst src), lookup-copy j dst src)

  pub contains-keys : (k : String) (m : Dict V) → contains k (keys m) ≡ is_some (lookup k m)
  unfolding lookup
  contains-keys k [] = refl
  contains-keys k (_ ∷ m) = ground (arith, contains-keys k m)

  pub insert-NodupKeys : (k : String) (v : V) (m : Dict V) → NodupKeys m → NodupKeys (insert k v m)
  unfolding insert
  insert-NodupKeys k v [] u = (lookup-nil k, tt)
  insert-NodupKeys k v ((j, w) ∷ m) (fresh, u) =
      ground (arith, insert-NodupKeys k v m u, lookup-insert j k v m)

-- A map that may be nil. Reads of a nil map find nothing; `if m == nil { m = make(…) }` goes on
-- with its entries.
abbrev pub GoMap {ℓ} : Type ℓ → Type ℓ
GoMap V = Option (Dict V)

abbrev pub entries {ℓ} : {V : Type ℓ} → GoMap V → Dict V
entries none = []
entries (some m) = m

-- The iterations of `range m`: Go leaves the order open, so the statements hold for each.
pub record MapRange : Type 1 where
  pub range : (V : Type 0) → Dict V → Dict V

-- An iteration meets every key once, with its value.
pub record IsRange (R : MapRange) : Type 1 where
  pub range-NodupKeys : (V : Type 0) (m : Dict V) → NodupKeys m → NodupKeys (R.range V m)
  pub lookup-range :
      (V : Type 0) (m : Dict V) (k : String) → NodupKeys m → lookup k (R.range V m) ≡ lookup k m
