-- ===== src/CareInstructionController/Others.antt =====
-- The gardens of other CareInstructions.
use shoot_grafter.Base.{
  ℕ, String, Option, none, some, ◌≡◌, ◌≢◌, refl, ap, arith, inl, inr, Option-cases,
}
use shoot_grafter.Base.Dict.{lookup, lookup-insert, lookup-delete}
use shoot_grafter.Api.{CareInstructionSpec}
use shoot_grafter.CareInstructionController.{Garden, Fleet}
use shoot_grafter.CareInstructionController.Gardens.{
  new_garden, register, stop_manager, stop_existing, started, start, restart, remove, set_hash,
  set_spec,
}

module _ {Config C : Type 0} (j key : String) (n : j ≢ key) (f : Fleet Config C) where
  pub register-other :
      (spec : CareInstructionSpec) (hash : String)
      → lookup j (register key spec hash f).gardens ≡ lookup j f.gardens
  unfolding register
  register-other spec hash =
      let new : Garden Config C = new_garden spec hash in
      elim (Option-cases (lookup key f.gardens)) [
        | inl e ↦ rw (register, e) (ground (arith, lookup-insert j key new f.gardens))
        | inr (g, e) ↦ rw (register, e) refl
      ]

  pub stop_manager-other : (m c : Option ℕ) → (stop_manager m c f).gardens ≡ f.gardens
  stop_manager-other none c = refl
  stop_manager-other (some m) none = refl
  stop_manager-other (some m) (some k) = refl

  pub stop_existing-other : lookup j (stop_existing key f).gardens ≡ lookup j f.gardens
  unfolding stop_existing
  stop_existing-other = elim (Option-cases (lookup key f.gardens)) [
    | inl e ↦ rw (stop_existing, e) refl
    | inr (g, e) ↦ rw (stop_existing, e) (ap (lookup j) (stop_manager-other g.mgr g.cancel_func))
  ]

  pub start-other :
      (config : Config) (client : C) (spec : CareInstructionSpec)
      → lookup j (start key config client spec f).gardens ≡ lookup j f.gardens
  unfolding start
  start-other config client spec = elim (Option-cases (lookup key f.gardens)) [
    | inl e ↦ rw (start, e) refl
    | inr (g, e) ↦
        rw (start, e)
          (ground (arith, lookup-insert j key (started config client spec f.next g) f.gardens))
  ]

  pub restart-other : lookup j (restart key f).1.gardens ≡ lookup j f.gardens
  unfolding restart
  restart-other = elim (Option-cases (lookup key f.gardens)) [
    | inl e ↦ rw (restart, e) refl
    | inr (g, e) ↦ elim (Option-cases g.cancel_func) [
      | inl c ↦ rw (restart, e, c) refl
      | inr (m, c) ↦
          let halted : Garden Config C = record g { mgr = none } in
          rw (restart, e, c) (ground (arith, lookup-insert j key halted f.gardens))
    ]
  ]

  pub remove-other : lookup j (remove key f).gardens ≡ lookup j f.gardens
  unfolding remove
  remove-other = elim (Option-cases (lookup key f.gardens)) [
    | inl e ↦ rw (remove, e) refl
    | inr (g, e) ↦ elim (Option-cases g.cancel_func) [
      | inl c ↦ rw (remove, e, c) refl
      | inr (m, c) ↦ rw (remove, e, c) (ground (arith, lookup-delete j key f.gardens))
    ]
  ]

  pub set_hash-other : (hash : String) → lookup j (set_hash key hash f).gardens ≡ lookup j f.gardens
  unfolding set_hash
  set_hash-other hash = elim (Option-cases (lookup key f.gardens)) [
    | inl e ↦ rw (set_hash, e) refl
    | inr (g, e) ↦
        let new : Garden Config C = record g { auth_config_map_hash = hash } in
        rw (set_hash, e) (ground (arith, lookup-insert j key new f.gardens))
  ]

  pub set_spec-other :
      (spec : CareInstructionSpec) → lookup j (set_spec key spec f).gardens ≡ lookup j f.gardens
  unfolding set_spec
  set_spec-other spec = elim (Option-cases (lookup key f.gardens)) [
    | inl e ↦ rw (set_spec, e) refl
    | inr (g, e) ↦
        let new : Garden Config C = record g { care_instruction_spec = spec } in
        rw (set_spec, e) (ground (arith, lookup-insert j key new f.gardens))
  ]
