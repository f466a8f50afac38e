-- ===== src/Base/TextOrder.antt =====
-- Go's `<` on texts, the order of their UTF-8 bytes, and sorting by a text key. `sort.Strings` and
-- `sort.Slice` are modelled by insertion: where the keys differ the sorted list is unique.
use Prim.Native.Nat.{ℕ, suc, Ordering, compare as compare_nat}
use Prim.Native.String.{String, compare}
use Prim.Native.String.compare
use mathlib.Core.Path.{◌≡◌, refl, sym, ◌∙◌, ap₂, subst}
use mathlib.Core.Logic.{◌≢◌}
use mathlib.Core.Bool.{Bool, true, false}
use mathlib.Core.Option.{Option, none, some}
use mathlib.Core.List.{List, [], ◌∷◌}
use native.Mathlib.Omega.{arith}
use text.Mathlib.Text.{is_lt}
use text.Mathlib.TextEquality.{path_by_compare}
use text.Mathlib.TextPositions.{compare_refl}
use shoot_grafter.Base.Tests.{◌==◌, if◌then◌else◌, contains, All, count_if, length}

flip : Ordering → Ordering
flip Ordering.lt = Ordering.gt
flip Ordering.eq = Ordering.eq
flip Ordering.gt = Ordering.lt

compare_nat-flip : (m n : ℕ) → compare_nat m n ≡ flip (compare_nat n m)
unfolding flip
compare_nat-flip m n = ground arith

compare-flip : (s t : String) → compare s t ≡ flip (compare t s)
unfolding flip
compare-flip String.[] String.[] = refl
compare-flip String.[] (String.◌∷◌ d t) = rw (compare.nil-cons, compare.cons-nil) refl
compare-flip (String.◌∷◌ c s) String.[] = rw (compare.nil-cons, compare.cons-nil) refl
compare-flip (String.◌∷◌ c s) (String.◌∷◌ d t) =
    ground (arith, compare.cons-cons c d s t, compare.cons-cons d c t s, compare-flip s t)

-- `s < t`
unfoldable pub text_ltb : String → String → Bool
text_ltb s t = is_lt (compare s t)

compare_lt_trans :
    (s t u : String)
    → compare s t ≡ Ordering.lt
    → compare t u ≡ Ordering.lt
    → compare s u ≡ Ordering.lt
compare_lt_trans String.[] String.[] u h k = k
compare_lt_trans String.[] (String.◌∷◌ d t) String.[] h k = cc (compare.cons-nil d t)
compare_lt_trans String.[] (String.◌∷◌ d t) (String.◌∷◌ e u) h k = compare.nil-cons e u
compare_lt_trans (String.◌∷◌ c s) String.[] u h k = cc (compare.cons-nil c s)
compare_lt_trans (String.◌∷◌ c s) (String.◌∷◌ d t) String.[] h k = cc (compare.cons-nil d t)
compare_lt_trans (String.◌∷◌ c s) (String.◌∷◌ d t) (String.◌∷◌ e u) h k = ground (
  arith,
  compare.cons-cons c d s t,
  compare.cons-cons d e t u,
  compare.cons-cons c e s u,
  compare_lt_trans s t u,
)

pub text_ltb_trans :
    (s t u : String) → text_ltb s t ≡ true → text_ltb t u ≡ true → text_ltb s u ≡ true
unfolding text_ltb
text_ltb_trans s t u h k = ground (arith, compare_lt_trans s t u)

pub text_ltb_irrefl : (s : String) → text_ltb s s ≡ false
unfolding text_ltb
text_ltb_irrefl s = rw compare_refl refl

pub text_ltb_total : (s t : String) → s ≢ t → text_ltb s t ≡ false → text_ltb t s ≡ true
unfolding text_ltb flip
text_ltb_total s t h k = ground (arith, compare-flip t s, path_by_compare s t)

module _ {ℓ} {A : Type ℓ} (key : A → String) where
  -- The loop of an insertion sort, by the key.
  unfoldable pub insert_sorted : A → List A → List A
  insert_sorted a [] = a ∷ []
  insert_sorted a (b ∷ l) = if text_ltb (key b) (key a) then b ∷ insert_sorted a l else a ∷ b ∷ l

  -- `sort.Slice(l, func(i, j) { return key(l[i]) < key(l[j]) })`
  unfoldable pub sort_by : List A → List A
  unfolding insert_sorted text_ltb
  sort_by [] = []
  sort_by (a ∷ l) = insert_sorted a (sort_by l)

  abbrev pub AllAbove : String → List A → Type 0
  AllAbove k [] = Unit
  AllAbove k (b ∷ l) = (text_ltb k (key b) ≡ true) × AllAbove k l

  -- Strictly ascending by the key, so that no key stands twice.
  abbrev pub IsSorted : List A → Type 0
  IsSorted [] = Unit
  IsSorted (a ∷ l) = AllAbove (key a) l × IsSorted l

  -- The element with a key.
  abbrev pub find : String → List A → Option A
  find k [] = none
  find k (a ∷ l) = if k == key a then some a else find k l

  AllAbove-insert_sorted :
      (k : String) (a : A) (l : List A)
      → text_ltb k (key a) ≡ true
      → AllAbove k l
      → AllAbove k (insert_sorted a l)
  unfolding insert_sorted
  AllAbove-insert_sorted k a [] h all = (h, tt)
  AllAbove-insert_sorted k a (b ∷ l) h all = ground (arith, AllAbove-insert_sorted k a l h)

  AllAbove-trans : (j k : String) (l : List A) → text_ltb j k ≡ true → AllAbove k l → AllAbove j l
  AllAbove-trans j k [] h all = tt
  AllAbove-trans j k (b ∷ l) h all =
      (text_ltb_trans j k (key b) h all.0, AllAbove-trans j k l h all.1)

  insert_sorted-IsSorted :
      (a : A) (l : List A) → find (key a) l ≡ none → IsSorted l → IsSorted (insert_sorted a l)
  unfolding insert_sorted
  insert_sorted-IsSorted a [] fresh s = (tt, tt)
  insert_sorted-IsSorted a (b ∷ l) fresh s = ground (
    arith,
    insert_sorted-IsSorted a l,
    AllAbove-insert_sorted (key b) a l,
    text_ltb_total (key b) (key a),
    AllAbove-trans (key a) (key b) l,
  )

  find-insert_sorted :
      (k : String) (a : A) (l : List A)
      → find (key a) l ≡ none
      → find k (insert_sorted a l) ≡ (if k == key a then some a else find k l)
  unfolding insert_sorted
  find-insert_sorted k a [] fresh = refl
  find-insert_sorted k a (b ∷ l) fresh = ground (arith, find-insert_sorted k a l)

  -- Sorting keeps what stands under each key.
  abbrev pub DistinctKeys : List A → Type ℓ
  DistinctKeys [] = Unit
  DistinctKeys (a ∷ l) = (find (key a) l ≡ none) × DistinctKeys l

  pub find-sort_by : (k : String) (l : List A) → DistinctKeys l → find k (sort_by l) ≡ find k l
  unfolding sort_by
  find-sort_by k [] u = refl
  find-sort_by k (a ∷ l) (fresh, u) =
      ground
        (arith, find-sort_by k l u, find-sort_by (key a) l u, find-insert_sorted k a (sort_by l))

  pub sort_by-IsSorted : (l : List A) → DistinctKeys l → IsSorted (sort_by l)
  unfolding sort_by
  sort_by-IsSorted [] u = tt
  sort_by-IsSorted (a ∷ l) (fresh, u) =
      insert_sorted-IsSorted a (sort_by l) (find-sort_by (key a) l u ∙ fresh) (sort_by-IsSorted l u)

  pub count_if-insert_sorted :
      (p : A → Bool) (a : A) (l : List A) → count_if p (insert_sorted a l) ≡ count_if p (a ∷ l)
  unfolding insert_sorted
  count_if-insert_sorted p a [] = refl
  count_if-insert_sorted p a (b ∷ l) = ground (arith, count_if-insert_sorted p a l)

  pub count_if-sort_by : (p : A → Bool) (l : List A) → count_if p (sort_by l) ≡ count_if p l
  unfolding sort_by
  count_if-sort_by p [] = refl
  count_if-sort_by p (a ∷ l) =
      ground (arith, count_if-sort_by p l, count_if-insert_sorted p a (sort_by l))

  length-insert_sorted : (a : A) (l : List A) → length (insert_sorted a l) ≡ suc (length l)
  unfolding insert_sorted
  length-insert_sorted a [] = refl
  length-insert_sorted a (b ∷ l) = ground (arith, length-insert_sorted a l)

  pub length-sort_by : (l : List A) → length (sort_by l) ≡ length l
  unfolding sort_by
  length-sort_by [] = refl
  length-sort_by (a ∷ l) = ground (arith, length-sort_by l, length-insert_sorted a (sort_by l))

  find_above : (k : String) (l : List A) → AllAbove k l → find k l ≡ none
  find_above k [] all = refl
  find_above k (b ∷ l) all = ground (arith, find_above k l all.1, text_ltb_irrefl k)

  ltb_of_find :
      (j k : String) (l : List A) (a : A) → AllAbove j l → find k l ≡ some a → text_ltb j k ≡ true
  ltb_of_find j k [] a all e = cc
  ltb_of_find j k (b ∷ l) a all e = ground (arith, ltb_of_find j k l a all.1)

  heads_agree :
      (a b : A) (xs ys : List A)
      → IsSorted (a ∷ xs)
      → IsSorted (b ∷ ys)
      → ((k : String) → find k (a ∷ xs) ≡ find k (b ∷ ys))
      → a ≡ b
  heads_agree a b xs ys sx sy h = ground (
    arith,
    h (key a),
    h (key b),
    ltb_of_find (key b) (key a) ys a sy.0,
    ltb_of_find (key a) (key b) xs b sx.0,
    text_ltb_trans (key a) (key b) (key a),
    text_ltb_irrefl (key a),
  )

  tails_agree :
      (a : A) (xs ys : List A)
      → IsSorted (a ∷ xs)
      → IsSorted (a ∷ ys)
      → ((k : String) → find k (a ∷ xs) ≡ find k (a ∷ ys))
      → (k : String) → find k xs ≡ find k ys
  tails_agree a xs ys sx sy h k =
      ground (arith, h k, find_above (key a) xs sx.0, find_above (key a) ys sy.0)

  -- A sorted list is determined by what stands under each key.
  pub IsSorted-unique :
      (xs ys : List A)
      → IsSorted xs
      → IsSorted ys
      → ((k : String) → find k xs ≡ find k ys)
      → xs ≡ ys
  IsSorted-unique [] [] sx sy h = refl
  IsSorted-unique [] (b ∷ ys) sx sy h = ground (arith, h (key b))
  IsSorted-unique (a ∷ xs) [] sx sy h = ground (arith, h (key a))
  IsSorted-unique (a ∷ xs) (b ∷ ys) sx sy h =
      let e = heads_agree a b xs ys sx sy h in
      let sy' : IsSorted (a ∷ ys) = subst (λ c. IsSorted (c ∷ ys)) (sym e) sy in
      let h' : (k : String) → find k (a ∷ xs) ≡ find k (a ∷ ys) =
        subst (λ c. (k : String) → find k (a ∷ xs) ≡ find k (c ∷ ys)) (sym e) h in
      ap₂ ◌∷◌ e (IsSorted-unique xs ys sx.1 sy.1 (tails_agree a xs ys sx sy' h'))

contains-insert_sorted :
    (k a : String) (l : List String)
    → contains k (insert_sorted (λ s. s) a l) ≡ (if k == a then true else contains k l)
unfolding insert_sorted
contains-insert_sorted k a [] = refl
contains-insert_sorted k a (b ∷ l) = ground (arith, contains-insert_sorted k a l)

pub contains-sort_by :
    (k : String) (l : List String) → contains k (sort_by (λ s. s) l) ≡ contains k l
unfolding sort_by
contains-sort_by k [] = refl
contains-sort_by k (a ∷ l) =
    ground (arith, contains-sort_by k l, contains-insert_sorted k a (sort_by (λ s. s) l))

All-insert_sorted :
    (P : String → Type 0) (a : String) (l : List String)
    → P a
    → All P l
    → All P (insert_sorted (λ s. s) a l)
unfolding insert_sorted
All-insert_sorted P a [] h all = (h, tt)
All-insert_sorted P a (b ∷ l) h all = ground (arith, All-insert_sorted P a l h all.1)

pub All-sort_by : (P : String → Type 0) (l : List String) → All P l → All P (sort_by (λ s. s) l)
unfolding sort_by
All-sort_by P [] all = tt
All-sort_by P (a ∷ l) all = All-insert_sorted P a (sort_by (λ s. s) l) all.0 (All-sort_by P l all.1)
