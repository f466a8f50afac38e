-- ===== src/ShootController/Keeps.antt =====
-- Facts about the clusters that an action keeps, with a rule for each way to build an action.
use shoot_grafter.Base.{
  String, Bool, true, false, if◌then◌else◌, ◌≡◌, refl, inl, inr, Bool-cases, arith, subst,
}
use shoot_grafter.Kube.{Error, Result, ok, err, Result-cases}
use shoot_grafter.Kube.Exec.{Exec, pure, raise, attempt, continue, ◌>>=◌}
use shoot_grafter.ShootController.{ShootController, Run, EventType, read, write, emit_event}

-- `P` holds of the clusters after the action if it does before, also where the action fails.
pub record Keeps {κ} {W : Type 0} {A : Type κ} (P : W → Type 0) (m : Exec (Run W) A) : Type 0 where
  pub at : (s : Run W) → P s.world → P (m s).1.world

-- `Q` holds of the value of the action, where it has one.
pub record Yields {κ ν} {W : Type 0} {A : Type κ} (Q : A → Type ν) (m : Exec (Run W) A)
    : Type (κ ⊔ ν) where
  pub value : (s : Run W) (a : A) → (m s).0 ≡ ok a → Q a

yields_continue {κ μ ν} :
    {W : Type 0} {A : Type κ} {B : Type μ} (Q : B → Type ν) (res : Result A)
    (f : A → Exec (Run W) B) (s : Run W)
    → ((a : A) → Yields Q (f a))
    → (b : B) → (continue res f s).0 ≡ ok b
    → Q b
yields_continue Q (ok a) f s yields b e = (yields a).value s b e
yields_continue Q (err x) f s yields b e = ground arith

keeps_continue {κ μ} :
    {W : Type 0} (P : W → Type 0) {A : Type κ} {B : Type μ} (res : Result A)
    (f : A → Exec (Run W) B) (s : Run W)
    → ((a : A) → res ≡ ok a → P (f a s).1.world)
    → P s.world
    → P (continue res f s).1.world
keeps_continue P (ok a) f s keep h = keep a refl
keeps_continue P (err e) f s keep h = h

module _ {W : Type 0} where
  pub Yields-read {κ ν} :
      {A : Type κ} (Q : A → Type ν) (call : W → Result A)
      → ((w : W) (a : A) → call w ≡ ok a → Q a)
      → Yields Q (read call)
  unfolding read
  Yields-read Q call yields = record { value = λ s a e. yields s.world a e }

  pub Yields-bind {κ μ ν} :
      {A : Type κ} {B : Type μ} (Q : B → Type ν) (m : Exec (Run W) A) (f : A → Exec (Run W) B)
      → ((a : A) → Yields Q (f a))
      → Yields Q (m >>= f)
  unfolding ◌>>=◌
  Yields-bind Q m f yields = record {
    value = λ s b e. yields_continue Q (m s).0 f (m s).1 yields b e;
  }

  pub Yields-pure {κ ν} : {A : Type κ} (Q : A → Type ν) (a : A) → Q a → Yields {W = W} Q (pure a)
  unfolding pure
  Yields-pure Q a q = record { value = λ s b e. let same : a ≡ b = ground arith in subst Q same q }

  -- The value of the first action is known.
  pub Yields-then {κ μ ν π} :
      {A : Type κ} {B : Type μ} (R : A → Type π) (Q : B → Type ν) (m : Exec (Run W) A)
      (f : A → Exec (Run W) B)
      → Yields R m
      → ((a : A) → R a → Yields Q (f a))
      → Yields Q (m >>= f)
  unfolding ◌>>=◌
  Yields-then R Q m f first yields = record {
    value = λ s b e. elim (Result-cases (m s).0) [
      | inl (a, k) ↦
          (yields a (first.value s a k)).value (m s).1 b
            (subst (λ r. (continue r f (m s).1).0 ≡ ok b) k e)
      | inr (x, k) ↦
          let failed : (continue (err x) f (m s).1).0 ≡ ok b =
            subst (λ r. (continue r f (m s).1).0 ≡ ok b) k e in
          ground arith
    ];
  }

module _ {W : Type 0} {P : W → Type 0} where
  pub Keeps-pure {κ} : {A : Type κ} (a : A) → Keeps P (pure a)
  unfolding pure
  Keeps-pure a = record { at = λ s h. h }

  pub Keeps-raise {κ} : {A : Type κ} (e : Error) → Keeps P (raise {A = A} e)
  unfolding raise
  Keeps-raise e = record { at = λ s h. h }

  pub Keeps-read {κ} : {A : Type κ} (call : W → Result A) → Keeps P (read call)
  unfolding read
  Keeps-read call = record { at = λ s h. h }

  -- A read whose answer is about the clusters as they are.
  pub Keeps-look {κ μ} :
      {A : Type κ} {B : Type μ} (call : W → Result A) (f : A → Exec (Run W) B)
      → ((w : W) (a : A) → P w → call w ≡ ok a → Keeps P (f a))
      → Keeps P (read call >>= f)
  unfolding ◌>>=◌ read
  Keeps-look call f keep = record {
    at = λ s h. keeps_continue P (call s.world) f s (λ a e. (keep s.world a h e).at s h) h;
  }

  pub Keeps-write {κ} :
      {A : Type κ} (call : W → Result A × W) → ((w : W) → P w → P (call w).1) → Keeps P (write call)
  unfolding write
  Keeps-write call keep = record { at = λ s h. keep s.world h }

  -- A write whose answer tells something.
  pub Keeps-answered {κ μ} :
      {A : Type κ} {B : Type μ} (call : W → Result A × W) (f : A → Exec (Run W) B)
      → ((w : W) → P w → P (call w).1)
      → ((w : W) (a : A) → P w → (call w).0 ≡ ok a → Keeps P (f a))
      → Keeps P (write call >>= f)
  unfolding ◌>>=◌ write
  Keeps-answered call f keep next = record {
    at = λ s h.
        keeps_continue P (call s.world).0 f (record s { world = (call s.world).1 })
          (λ a e. (next s.world a h e).at (record s { world = (call s.world).1 }) (keep s.world h))
          (keep s.world h);
  }

  pub Keeps-attempt {κ} : {A : Type κ} (m : Exec (Run W) A) → Keeps P m → Keeps P (attempt m)
  unfolding attempt
  Keeps-attempt m keep = record { at = keep.at }

  pub Keeps-emit_event :
      (r : ShootController W) (t : EventType) (reason message : String)
      → Keeps P (emit_event r t reason message)
  unfolding emit_event
  Keeps-emit_event r t reason message = record {
    at = λ s h. elim (Bool-cases r.has_event_recorder) [ inl e ↦ rw e h | inr e ↦ rw e h ];
  }

  pub Keeps-bind {κ μ} :
      {A : Type κ} {B : Type μ} (m : Exec (Run W) A) (f : A → Exec (Run W) B)
      → Keeps P m
      → ((a : A) → Keeps P (f a))
      → Keeps P (m >>= f)
  unfolding ◌>>=◌
  Keeps-bind m f keep_m keep_f = record {
    at = λ s h.
        keeps_continue P (m s).0 f (m s).1 (λ a e. (keep_f a).at (m s).1 (keep_m.at s h))
          (keep_m.at s h);
  }

  -- An action whose error is looked at, and what is done about it.
  pub Keeps-tried {κ μ} :
      {A : Type κ} {B : Type μ} (m : Exec (Run W) A) (f : Result A → Exec (Run W) B)
      → Keeps P m
      → ((e : Error) → Keeps P (f (err e)))
      → ((a : A) → Keeps P (f (ok a)))
      → Keeps P (attempt m >>= f)
  Keeps-tried m f keep_m keep_err keep_ok =
      Keeps-bind (attempt m) f (Keeps-attempt m keep_m)
        (elim [ err e ↦ keep_err e | ok a ↦ keep_ok a ])

  pub Keeps-if {κ} :
      {A : Type κ} (b : Bool) (m n : Exec (Run W) A)
      → (b ≡ true → Keeps P m)
      → (b ≡ false → Keeps P n)
      → Keeps P (if b then m else n)
  Keeps-if true m n keep_m keep_n = keep_m refl
  Keeps-if false m n keep_m keep_n = keep_n refl

  -- After a write whose error is looked at, what is done about it keeps what the write made true.
  pub after_write {κ μ} :
      {A : Type κ} {B : Type μ} (call : W → Result A × W) (f : Result A → Exec (Run W) B)
      (s : Run W)
      → ((e : Error) → Keeps P (f (err e)))
      → ((a : A) → Keeps P (f (ok a)))
      → P (call s.world).1
      → P ((attempt (write call) >>= f) s).1.world
  unfolding ◌>>=◌ attempt write
  after_write {A = A} call f s keep_err keep_ok h =
      let each : (res : Result A) → Keeps P (f res) = elim [
        | err e ↦ keep_err e
        | ok a ↦ keep_ok a
      ] in
      (each (call s.world).0).at (record s { world = (call s.world).1 }) h

  -- The same, where `Q` is known of the value.
  pub Keeps-tried_with {κ μ ν} :
      {A : Type κ} {B : Type μ} (Q : A → Type ν) (m : Exec (Run W) A)
      (f : Result A → Exec (Run W) B)
      → Keeps P m
      → Yields Q m
      → ((e : Error) → Keeps P (f (err e)))
      → ((a : A) → Q a → Keeps P (f (ok a)))
      → Keeps P (attempt m >>= f)
  unfolding ◌>>=◌ attempt
  Keeps-tried_with Q m f keep_m yields keep_err keep_ok = record {
    at = λ s h. elim (Result-cases (m s).0) [
      | inl (a, e) ↦ rw e ((keep_ok a (yields.value s a e)).at (m s).1 (keep_m.at s h))
      | inr (e, e') ↦ rw e' ((keep_err e).at (m s).1 (keep_m.at s h))
    ];
  }
