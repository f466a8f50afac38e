-- ===== src/CareInstructionController/Selected.antt =====
-- The loop over the Shoots: which are included, and which are left out.
use shoot_grafter.Base.{
  ◌≤◌, String, ◌<>◌, Bool, true, false, List, [], ◌∷◌, ◌++◌, ◌≡◌, ◌≢◌, ◌⊎◌, refl, arith, All,
  is_some, count_if, length, contains, Bool-cases, inl, inr, subst,
}
use shoot_grafter.Base.Dict.{lookup, insert, lookup-insert, NodupKeys, insert-NodupKeys}
use shoot_grafter.Kube.{Result, ok, err, Shoot, Cluster}
use shoot_grafter.CareInstructionController.Shoots.{
  Selection, select_shoot, select_shoots, cluster_names, matched_owned_count, counts_match,
}

All-snoc {ℓ κ} :
    {A : Type ℓ} (P : A → Type κ) (xs : List A) (x : A) → All P (xs ++ (x ∷ [])) → All P xs × P x
All-snoc P [] x h = (tt, h.0)
All-snoc P (y ∷ xs) x (p, h) = let (ps, q) = All-snoc P xs x h in ((p, ps), q)

pub All-zip {ℓ κ μ ν} :
    {A : Type ℓ} {P : A → Type κ} {Q : A → Type μ} {S : A → Type ν}
    → ((x : A) → P x → Q x → S x)
    → (xs : List A) → All P xs
    → All Q xs
    → All S xs
All-zip f [] h k = tt
All-zip f (x ∷ xs) (p, ps) (q, qs) = (f x p q, All-zip f xs ps qs)

count_if-le {ℓ} : {A : Type ℓ} (p : A → Bool) (xs : List A) → count_if p xs ≤ length xs
count_if-le p [] = ground arith
count_if-le p (x ∷ xs) = ground (arith, count_if-le p xs)

-- A test that counts every element passes every element.
count_if-All {ℓ} :
    {A : Type ℓ} (p : A → Bool) (xs : List A) → length xs ≡ count_if p xs → All (λ x. p x ≡ true) xs
count_if-All p [] e = tt
count_if-All p (x ∷ xs) e = elim (Bool-cases (p x)) [
  | inl y ↦ (y, count_if-All p xs (ground arith))
  | inr n ↦ ground (arith, count_if-le p xs)
]

All-count_if {ℓ} :
    {A : Type ℓ} (p : A → Bool) (xs : List A) → All (λ x. p x ≡ true) xs → length xs ≡ count_if p xs
All-count_if p [] h = refl
All-count_if p (x ∷ xs) (y, h) = ground (arith, All-count_if p xs h)

-- The Shoot has a Cluster among these.
abbrev pub HasCluster : List Cluster → Shoot → Type 0
HasCluster clusters s = contains s.name (cluster_names clusters) ≡ true

pub counts_match-All :
    (included : List Shoot) (clusters : List Cluster)
    → counts_match included clusters ≡ true
    → All (HasCluster clusters) included
unfolding counts_match matched_owned_count
counts_match-All included clusters e =
    count_if-All (λ s. contains s.name (cluster_names clusters)) included (ground arith)

pub All-counts_match :
    (included : List Shoot) (clusters : List Cluster)
    → All (HasCluster clusters) included
    → counts_match included clusters ≡ true
unfolding counts_match matched_owned_count
All-counts_match included clusters h =
    ground (arith, All-count_if (λ s. contains s.name (cluster_names clusters)) included h)

-- A Shoot is left out for a reason unless it matches.
select_shoot-cases :
    (r : Result Bool) (s : Shoot)
    → (r ≡ ok true)
      ⊎ ((r ≢ ok true)
          × (reason : String) × ((sel : Selection)
              → select_shoot r s sel ≡ record sel { excluded = insert s.name reason sel.excluded }))
select_shoot-cases (ok true) s = inl refl
select_shoot-cases (ok false) s =
    inr (λ e. ground arith, "filtered out by CEL expression", λ sel. refl)
select_shoot-cases (err e) s =
    inr (λ e'. ground arith, "CEL evaluation failed: " <> e.message, λ sel. refl)

module _ (matches : Shoot → Result Bool) where
  -- What holds of all that are included holds of every Shoot that matches.
  pub select_shoots-included {κ} :
      (P : Shoot → Type κ) (shoots : List Shoot) (sel : Selection)
      → All P (select_shoots matches shoots sel).included
      → All P sel.included × All (λ s. matches s ≡ ok true → P s) shoots
  unfolding select_shoots
  select_shoots-included P [] sel h = (h, tt)
  select_shoots-included P (s ∷ shoots) sel h =
      let (hs, rest) = select_shoots-included P shoots (select_shoot (matches s) s sel) h in
      elim (select_shoot-cases (matches s) s) [
        | inl e ↦
            let hs' : All P (select_shoot (ok true) s sel).included =
              subst (λ r. All P (select_shoot r s sel).included) e hs in
            let (old, new) = All-snoc P sel.included s hs' in (old, ((λ _. new), rest))
        | inr (n, reason, eq) ↦
            let old : All P sel.included = subst (λ t. All P t.included) (eq sel) hs in
            (old, ((λ e. elim (n e) [ ]), rest))
      ]

  -- Every Shoot that does not match is left out for a reason, and the reasons that were there stay.
  pub select_shoots-excluded :
      (shoots : List Shoot) (sel : Selection)
      → ((k : String)
          → is_some (lookup k sel.excluded) ≡ true
          → is_some (lookup k (select_shoots matches shoots sel).excluded) ≡ true)
        × All
            (λ s.
              matches s ≢ ok true
              → is_some (lookup s.name (select_shoots matches shoots sel).excluded) ≡ true)
            shoots
  unfolding select_shoots
  select_shoots-excluded [] sel = (λ k h. h, tt)
  select_shoots-excluded (s ∷ shoots) sel =
      let (keep, rest) = select_shoots-excluded shoots (select_shoot (matches s) s sel) in
      elim (select_shoot-cases (matches s) s) [
        | inl e ↦ (λ k h. keep k (rw e h), ((λ n. elim (n e) [ ]), rest))
        | inr (n, reason, eq) ↦ (
          λ k h. keep k (rw (eq sel) (ground (arith, lookup-insert k s.name reason sel.excluded))),
          (
            (λ _.
                keep s.name
                  (rw (eq sel) (ground (arith, lookup-insert s.name s.name reason sel.excluded)))),
            rest,
          ),
        )
      ]

  pub select_shoots-NodupKeys :
      (shoots : List Shoot) (sel : Selection)
      → NodupKeys sel.excluded
      → NodupKeys (select_shoots matches shoots sel).excluded
  unfolding select_shoots
  select_shoots-NodupKeys [] sel u = u
  select_shoots-NodupKeys (s ∷ shoots) sel u =
      select_shoots-NodupKeys shoots (select_shoot (matches s) s sel)
        (elim (select_shoot-cases (matches s) s) [
          | inl e ↦ rw e u
          | inr (n, reason, eq) ↦ rw (eq sel) (insert-NodupKeys s.name reason sel.excluded u)
        ])
