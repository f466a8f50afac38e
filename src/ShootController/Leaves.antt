-- ===== src/ShootController/Leaves.antt =====
-- What an action leaves true of the clusters, whether it succeeds or fails.
use shoot_grafter.Base.{◌≡◌, refl}
use shoot_grafter.Kube.{Error, Result, ok, err}
use shoot_grafter.Kube.Exec.{Exec, raise, continue, ◌>>=◌}
use shoot_grafter.ShootController.{Run, write}
use shoot_grafter.ShootController.Keeps.{Keeps, Yields}
use shoot_grafter.ShootController.Ensures.{Ensures}

-- From `P`, the action leads to `Q`, also where it fails.
pub record Leaves {κ} {W : Type 0} {A : Type κ} (P Q : W → Type 0) (m : Exec (Run W) A)
    : Type κ where
  pub at : (s : Run W) → P s.world → Q (m s).1.world

leaves_continue {κ μ} :
    {W : Type 0} {A : Type κ} {B : Type μ} (Q : W → Type 0) (res : Result A)
    (f : A → Exec (Run W) B) (s : Run W)
    → Q s.world
    → ((a : A) → res ≡ ok a → Q (f a s).1.world)
    → Q (continue res f s).1.world
leaves_continue Q (ok a) f s failed next = next a refl
leaves_continue Q (err x) f s failed next = failed

module _ {W : Type 0} {P Q : W → Type 0} where
  -- The first action leads to `R` if it succeeds.
  pub Leaves-bind {κ μ} :
      {A : Type κ} {B : Type μ} (R : A → W → Type 0) (m : Exec (Run W) A) (f : A → Exec (Run W) B)
      → Leaves P Q m
      → Ensures P R m
      → ((a : A) → Leaves (R a) Q (f a))
      → Leaves P Q (m >>= f)
  unfolding ◌>>=◌
  Leaves-bind R m f failed first next = record {
    at = λ s h.
        leaves_continue Q (m s).0 f (m s).1 (failed.at s h)
          (λ a e. (next a).at (m s).1 (first.at s a h e));
  }

  -- The first action keeps `P`, and no more is needed of it.
  pub Leaves-after {κ μ} :
      {A : Type κ} {B : Type μ} (m : Exec (Run W) A) (f : A → Exec (Run W) B)
      → Keeps P m
      → ((w : W) → P w → Q w)
      → ((a : A) → Leaves P Q (f a))
      → Leaves P Q (m >>= f)
  unfolding ◌>>=◌
  Leaves-after m f keep weaken next = record {
    at = λ s h.
        leaves_continue Q (m s).0 f (m s).1 (weaken (m s).1.world (keep.at s h))
          (λ a e. (next a).at (m s).1 (keep.at s h));
  }

  -- The same, where something is known of its value.
  pub Leaves-after_with {κ μ ν} :
      {A : Type κ} {B : Type μ} (Y : A → Type ν) (m : Exec (Run W) A) (f : A → Exec (Run W) B)
      → Keeps P m
      → Yields Y m
      → ((w : W) → P w → Q w)
      → ((a : A) → Y a → Leaves P Q (f a))
      → Leaves P Q (m >>= f)
  unfolding ◌>>=◌
  Leaves-after_with Y m f keep yields weaken next = record {
    at = λ s h.
        leaves_continue Q (m s).0 f (m s).1 (weaken (m s).1.world (keep.at s h))
          (λ a e. (next a (yields.value s a e)).at (m s).1 (keep.at s h));
  }

  pub Leaves-keep {κ} :
      {A : Type κ} (m : Exec (Run W) A) → Keeps P m → ((w : W) → P w → Q w) → Leaves P Q m
  Leaves-keep m keep weaken = record { at = λ s h. weaken (m s).1.world (keep.at s h) }

  pub Leaves-raise {κ} :
      {A : Type κ} (e : Error) → ((w : W) → P w → Q w) → Leaves P Q (raise {A = A} e)
  unfolding raise
  Leaves-raise e weaken = record { at = λ s h. weaken s.world h }

  pub Leaves-write {κ} :
      {A : Type κ} (call : W → Result A × W)
      → ((w : W) → P w → Q (call w).1)
      → Leaves P Q (write call)
  unfolding write
  Leaves-write call post = record { at = λ s h. post s.world h }
