-- ===== src/ShootController/Ensures.antt =====
-- What is true of the clusters and of the value after an action that succeeds.
use shoot_grafter.Base.{Bool, true, false, ◌≡◌, refl, arith, subst, if◌then◌else◌}
use shoot_grafter.Kube.{Error, Result, ok, err}
use shoot_grafter.Kube.Exec.{Exec, pure, raise, attempt, continue, ◌>>=◌}
use shoot_grafter.ShootController.{Run, read, write}
use shoot_grafter.ShootController.Keeps.{Keeps}

-- From `P`, an action that succeeds leads to `Q`.
pub record Ensures {κ} {W : Type 0} {A : Type κ} (P : W → Type 0) (Q : A → W → Type 0)
    (m : Exec (Run W) A) : Type κ where
  pub at : (s : Run W) (a : A) → P s.world → (m s).0 ≡ ok a → Q a (m s).1.world

ensures_continue {κ μ} :
    {W : Type 0} {A : Type κ} {B : Type μ} (R : A → W → Type 0) (Q : B → W → Type 0)
    (res : Result A) (f : A → Exec (Run W) B) (s : Run W) (b : B)
    → ((a : A) → res ≡ ok a → R a s.world)
    → ((a : A) → Ensures (R a) Q (f a))
    → (continue res f s).0 ≡ ok b
    → Q b (continue res f s).1.world
ensures_continue R Q (ok a) f s b here next e = (next a).at s b (here a refl) e
ensures_continue R Q (err x) f s b here next e = ground arith

module _ {W : Type 0} {P : W → Type 0} where
  pub Ensures-bind {κ μ} :
      {A : Type κ} {B : Type μ} (R : A → W → Type 0) {Q : B → W → Type 0} (m : Exec (Run W) A)
      (f : A → Exec (Run W) B)
      → Ensures P R m
      → ((a : A) → Ensures (R a) Q (f a))
      → Ensures P Q (m >>= f)
  unfolding ◌>>=◌
  Ensures-bind R {Q} m f first next = record {
    at = λ s b h e. ensures_continue R Q (m s).0 f (m s).1 b (λ a e'. first.at s a h e') next e;
  }

  -- The action keeps `P`, and no more is needed of it.
  pub Ensures-after {κ μ} :
      {A : Type κ} {B : Type μ} {Q : B → W → Type 0} (m : Exec (Run W) A) (f : A → Exec (Run W) B)
      → Keeps P m
      → ((a : A) → Ensures P Q (f a))
      → Ensures P Q (m >>= f)
  unfolding ◌>>=◌
  Ensures-after {Q = Q} m f keep next = record {
    at = λ s b h e. ensures_continue (λ a. P) Q (m s).0 f (m s).1 b (λ a e'. keep.at s h) next e;
  }

  -- The same for an action whose error is looked at.
  pub Ensures-tried {κ μ} :
      {A : Type κ} {B : Type μ} {Q : B → W → Type 0} (m : Exec (Run W) A)
      (f : Result A → Exec (Run W) B)
      → Keeps P m
      → ((e : Error) → Ensures P Q (f (err e)))
      → ((a : A) → Ensures P Q (f (ok a)))
      → Ensures P Q (attempt m >>= f)
  unfolding ◌>>=◌ attempt
  Ensures-tried {A = A} {Q = Q} m f keep on_err on_ok = record {
    at = λ s b h e.
        let each : (res : Result A) → Ensures P Q (f res) = elim [
          | err x ↦ on_err x
          | ok a ↦ on_ok a
        ] in
        (each (m s).0).at (m s).1 b (keep.at s h) e;
  }

  -- A read is an answer of the clusters as they are.
  pub Ensures-read {κ} :
      {A : Type κ} {Q : A → W → Type 0} (call : W → Result A)
      → ((w : W) (a : A) → P w → call w ≡ ok a → Q a w)
      → Ensures P Q (read call)
  unfolding read
  Ensures-read call post = record { at = λ s a h e. post s.world a h e }

  pub Ensures-write {κ} :
      {A : Type κ} {Q : A → W → Type 0} (call : W → Result A × W)
      → ((w : W) (a : A) → P w → (call w).0 ≡ ok a → Q a (call w).1)
      → Ensures P Q (write call)
  unfolding write
  Ensures-write call post = record { at = λ s a h e. post s.world a h e }

  pub Ensures-raise {κ} :
      {A : Type κ} {Q : A → W → Type 0} (x : Error) → Ensures P Q (raise {A = A} x)
  unfolding raise
  Ensures-raise x = record { at = λ s a h e. ground arith }

  pub Ensures-pure {κ} :
      {A : Type κ} {Q : A → W → Type 0} (a : A) → ((w : W) → P w → Q a w) → Ensures P Q (pure a)
  unfolding pure
  Ensures-pure {Q = Q} a post = record {
    at = λ s b h e.
        let same : a ≡ b = ground arith in subst (λ x. Q x s.world) same (post s.world h);
  }

  -- A read whose error is looked at: the result is the answer of the clusters as they are.
  pub Ensures-attempt-read {κ} :
      {A : Type κ} {Q : Result A → W → Type 0} (call : W → Result A)
      → ((w : W) → P w → Q (call w) w)
      → Ensures P Q (attempt (read call))
  unfolding attempt read
  Ensures-attempt-read {Q = Q} call post = record {
    at = λ s res h e.
        let same : call s.world ≡ res = ground arith in
        subst (λ x. Q x s.world) same (post s.world h);
  }

  -- An action that keeps a fact.
  pub Ensures-kept {κ} : {A : Type κ} (m : Exec (Run W) A) → Keeps P m → Ensures P (λ (_ : A). P) m
  Ensures-kept m keep = record { at = λ s a h e. keep.at s h }

  pub Ensures-if {κ} :
      {A : Type κ} {Q : A → W → Type 0} (b : Bool) (m n : Exec (Run W) A)
      → (b ≡ true → Ensures P Q m)
      → (b ≡ false → Ensures P Q n)
      → Ensures P Q (if b then m else n)
  Ensures-if true m n x y = x refl
  Ensures-if false m n x y = y refl

  -- A write whose error is looked at.
  pub Ensures-attempt-write {κ} :
      {A : Type κ} {Q : Result A → W → Type 0} (call : W → Result A × W)
      → ((w : W) → P w → Q (call w).0 (call w).1)
      → Ensures P Q (attempt (write call))
  unfolding attempt write
  Ensures-attempt-write {Q = Q} call post = record {
    at = λ s res h e.
        let same : (call s.world).0 ≡ res = ground arith in
        subst (λ x. Q x (call s.world).1) same (post s.world h);
  }

-- A fact that does not depend on the clusters.
pub Ensures-given {κ} :
    {W : Type 0} {A : Type κ} {Q : A → W → Type 0} {F : Type 0} (m : Exec (Run W) A)
    → (F → Ensures (λ _. F) Q m)
    → Ensures (λ _. F) Q m
Ensures-given m next = record { at = λ s a h e. (next h).at s a h e }
