-- ===== src/CareInstructionController/Made.antt =====
-- Only starts that were made are cancelled, whatever changes.
use shoot_grafter.Base.{ℕ, String, some, ◌∷◌, ◌≡◌, arith, inl, inr, Option-cases}
use shoot_grafter.Base.Dict.{Dict, lookup}
use shoot_grafter.Api.{CareInstructionSpec}
use shoot_grafter.CareInstructionController.{Garden, Fleet}
use shoot_grafter.CareInstructionController.Gardens.{
  register, stop_existing, start, restart, remove, set_hash, set_spec, remove-some, restart-some,
}
use shoot_grafter.CareInstructionController.Sound.{IsSound}
use shoot_grafter.CareInstructionController.Runners.{IsMade}

module _ {Config C : Type 0} (key : String) (f : Fleet Config C) (S : IsSound f)
    (M : IsMade f) where
  pub register-IsMade :
      (spec : CareInstructionSpec) (hash : String) → IsMade (register key spec hash f)
  unfolding register
  register-IsMade spec hash = record { made = λ n c. ground (arith, M.made n) }

  pub stop_existing-IsMade : IsMade (stop_existing key f)
  unfolding stop_existing
  stop_existing-IsMade = elim (Option-cases (lookup key f.gardens)) [
    | inl e ↦ rw (stop_existing, e) M
    | inr (g, e) ↦ elim (Option-cases g.mgr) [
      | inl o ↦ rw (stop_existing, e, o) (record { made = M.made })
      | inr (m, o) ↦
          let c = S.own key g m e o in
          rw (stop_existing, e, o, c)
            (record { made = λ n d. ground (arith, M.made n, S.made key g m e c) })
    ]
  ]

  pub start-IsMade :
      (config : Config) (client : C) (spec : CareInstructionSpec)
      → IsMade (start key config client spec f)
  unfolding start
  start-IsMade config client spec = record { made = λ n c. ground (arith, M.made n) }

  cancelled-IsMade :
      (g : Garden Config C) (m : ℕ) (gardens : Dict (Garden Config C))
      → lookup key f.gardens ≡ some g
      → g.cancel_func ≡ some m
      → IsMade (record f { cancelled = m ∷ f.cancelled; gardens = gardens })
  cancelled-IsMade g m gardens e c = record {
    made = λ n d. ground (arith, M.made n, S.made key g m e c);
  }

  pub restart-IsMade : IsMade (restart key f).1
  unfolding restart
  restart-IsMade = elim (Option-cases (lookup key f.gardens)) [
    | inl e ↦ rw (restart, e) M
    | inr (g, e) ↦ elim (Option-cases g.cancel_func) [
      | inl c ↦ rw (restart, e, c) M
      | inr (m, c) ↦ rw (restart-some key f g m e c) (cancelled-IsMade g m _ e c)
    ]
  ]

  pub remove-IsMade : IsMade (remove key f)
  unfolding remove
  remove-IsMade = elim (Option-cases (lookup key f.gardens)) [
    | inl e ↦ rw (remove, e) M
    | inr (g, e) ↦ elim (Option-cases g.cancel_func) [
      | inl c ↦ rw (remove, e, c) M
      | inr (m, c) ↦ rw (remove-some key f g m e c) (cancelled-IsMade g m _ e c)
    ]
  ]

  pub set_hash-IsMade : (hash : String) → IsMade (set_hash key hash f)
  unfolding set_hash
  set_hash-IsMade hash = record { made = λ n c. ground (arith, M.made n) }

  pub set_spec-IsMade : (spec : CareInstructionSpec) → IsMade (set_spec key spec f)
  unfolding set_spec
  set_spec-IsMade spec = record { made = λ n c. ground (arith, M.made n) }
