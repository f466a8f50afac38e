-- ===== src/CareInstructionController/Simulates.antt =====
-- Each change of the gardens is a move of the abstract machine.
use shoot_grafter.Base.{
  ℕ, String, false, none, some, ◌∷◌, ◌≡◌, ◌≢◌, refl, arith, inl, inr, if◌then◌else◌, ◌==◌,
  Option-cases, Bool-cases, text_dec,
}
use shoot_grafter.Base.Dict.{Dict, lookup, insert, lookup-insert, lookup-delete}
use shoot_grafter.Api.{CareInstructionSpec}
use shoot_grafter.CareInstructionController.{Garden, Fleet}
use shoot_grafter.CareInstructionController.Gardens.{
  has, new_garden, register, stop_existing, started, start, restart, remove, set_hash, set_spec,
  remove-some, restart-some,
}
use shoot_grafter.CareInstructionController.Sound.{IsSound, IsHalted}
use shoot_grafter.CareInstructionController.Runners.{Move, stay, halt, begin, view, running, IsMade}

module _ {Config C : Type 0} (key : String) (f : Fleet Config C) (S : IsSound f)
    (M : IsMade f) where
  -- To cancel the start of one garden halts no other.
  cancelled-other :
      (k : String) (g : Garden Config C) (m : ℕ)
      → k ≢ key
      → lookup key f.gardens ≡ some g
      → g.cancel_func ≡ some m
      → running (lookup k f.gardens) (m ∷ f.cancelled) ≡ running (lookup k f.gardens) f.cancelled
  cancelled-other k g m n e c = elim (Option-cases (lookup k f.gardens)) [
    | inl l ↦ rw l refl
    | inr (h, l) ↦ elim (Option-cases h.mgr) [
      | inl o ↦ rw (l, o) refl
      | inr (x, o) ↦ rw (l, o) (ground (arith, S.own k h x l o, S.apart k key h g x))
    ]
  ]

  pub Move-register :
      (spec : CareInstructionSpec) (hash : String)
      → Move key (view f) (view (register key spec hash f))
  unfolding register
  Move-register spec hash = elim (Option-cases (lookup key f.gardens)) [
    | inl e ↦
        let new : Garden Config C = new_garden spec hash in
        rw (register, e) (stay (λ k. ground (arith, lookup-insert k key new f.gardens)) refl)
    | inr (g, e) ↦ rw (register, e) (stay (λ k. refl) refl)
  ]

  -- The manager is cancelled, and at most that of its garden changes.
  cancelled-Move :
      (g : Garden Config C) (m : ℕ) (gardens : Dict (Garden Config C))
      → lookup key f.gardens ≡ some g
      → g.cancel_func ≡ some m
      → ((k : String) → k ≢ key → lookup k gardens ≡ lookup k f.gardens)
      → running (lookup key gardens) (m ∷ f.cancelled) ≡ none
      → Move key (view f) (view (record f { cancelled = m ∷ f.cancelled; gardens = gardens }))
  cancelled-Move g m gardens e c same gone =
      halt
        (λ k. elim (text_dec k key) [
          | yes y ↦ ground (arith, gone)
          | no n ↦ rw (same k n) (ground (arith, cancelled-other k g m n e c))
        ])
        refl

  -- A garden without a cancel function has no manager.
  no_manager :
      (g : Garden Config C) → lookup key f.gardens ≡ some g → g.cancel_func ≡ none → g.mgr ≡ none
  no_manager g e c = elim (Option-cases g.mgr) [
    | inl o ↦ o
    | inr (m, o) ↦ ground (arith, S.own key g m e o)
  ]

  pub Move-stop_existing : Move key (view f) (view (stop_existing key f))
  unfolding stop_existing
  Move-stop_existing = elim (Option-cases (lookup key f.gardens)) [
    | inl e ↦ rw (stop_existing, e) (stay (λ k. refl) refl)
    | inr (g, e) ↦ elim (Option-cases g.mgr) [
      | inl o ↦ rw (stop_existing, e, o) (stay (λ k. refl) refl)
      | inr (m, o) ↦
          let c = S.own key g m e o in
          rw (stop_existing, e, o, c)
            (cancelled-Move g m f.gardens e c (λ k n. refl) (rw (e, o) (ground arith)))
    ]
  ]

  pub Move-restart : Move key (view f) (view (restart key f).1)
  unfolding restart
  Move-restart = elim (Option-cases (lookup key f.gardens)) [
    | inl e ↦ rw (restart, e) (stay (λ k. refl) refl)
    | inr (g, e) ↦ elim (Option-cases g.cancel_func) [
      | inl c ↦ rw (restart, e, c) (stay (λ k. refl) refl)
      | inr (m, c) ↦
          let halted : Garden Config C = record g { mgr = none } in
          rw (restart-some key f g m e c) (
            cancelled-Move g m (insert key halted f.gardens) e c
              (λ k n. ground (arith, lookup-insert k key halted f.gardens))
              (ground (arith, lookup-insert key key halted f.gardens)))
    ]
  ]

  -- After the removal nothing runs for the key, and the same as before for the others.
  pub remove-Gone :
      ((k : String)
        → (view (remove key f)).serving k ≡ (if k == key then none else (view f).serving k))
      × ((view (remove key f)).next ≡ (view f).next)
  unfolding remove
  remove-Gone = elim (Option-cases (lookup key f.gardens)) [
    | inl e ↦ rw (remove, e) (λ k. ground arith, refl)
    | inr (g, e) ↦ elim (Option-cases g.cancel_func) [
      | inl c ↦ rw (remove, e, c) (λ k. ground (arith, no_manager g e c), refl)
      | inr (m, c) ↦ rw (remove-some key f g m e c) (
        λ k. elim (text_dec k key) [
          | yes y ↦ ground (arith, lookup-delete k key f.gardens)
          | no n ↦ ground (arith, lookup-delete k key f.gardens, cancelled-other k g m n e c)
        ],
        refl,
      )
    ]
  ]

  pub Move-remove : Move key (view f) (view (remove key f))
  Move-remove = halt remove-Gone.0 remove-Gone.1

  -- A change of a garden that leaves its manager alone.
  replaced-Move :
      (g new : Garden Config C)
      → lookup key f.gardens ≡ some g
      → new.mgr ≡ g.mgr
      → Move key (view f) (view (record f { gardens = insert key new f.gardens }))
  replaced-Move g new e same = stay (λ k. ground (arith, lookup-insert k key new f.gardens)) refl

  pub Move-set_hash : (hash : String) → Move key (view f) (view (set_hash key hash f))
  unfolding set_hash
  Move-set_hash hash = elim (Option-cases (lookup key f.gardens)) [
    | inl e ↦ rw (set_hash, e) (stay (λ k. refl) refl)
    | inr (g, e) ↦
        rw (set_hash, e) (replaced-Move g (record g { auth_config_map_hash = hash }) e refl)
  ]

  pub Move-set_spec : (spec : CareInstructionSpec) → Move key (view f) (view (set_spec key spec f))
  unfolding set_spec
  Move-set_spec spec = elim (Option-cases (lookup key f.gardens)) [
    | inl e ↦ rw (set_spec, e) (stay (λ k. refl) refl)
    | inr (g, e) ↦
        rw (set_spec, e) (replaced-Move g (record g { care_instruction_spec = spec }) e refl)
  ]

  -- The number of the next start was never cancelled.
  next-fresh : has f.next f.cancelled ≡ false
  next-fresh = elim (Bool-cases (has f.next f.cancelled)) [
    | inl y ↦ ground (arith, M.made f.next y)
    | inr n ↦ n
  ]

  none_serves : IsHalted key f → running (lookup key f.gardens) f.cancelled ≡ none
  none_serves H = elim (Option-cases (lookup key f.gardens)) [
    | inl e ↦ rw e refl
    | inr (g, e) ↦ elim (Option-cases g.mgr) [
      | inl o ↦ rw (e, o) refl
      | inr (m, o) ↦ rw (e, o) (ground (arith, H.halted g m e o))
    ]
  ]

  pub Move-start :
      IsHalted key f
      → (config : Config) (client : C) (spec : CareInstructionSpec)
      → Move key (view f) (view (start key config client spec f))
  unfolding start
  Move-start H config client spec = elim (Option-cases (lookup key f.gardens)) [
    | inl e ↦ rw (start, e) (stay (λ k. refl) refl)
    | inr (g, e) ↦
        let new : Garden Config C = started config client spec f.next g in
        rw (start, e)
          (begin (none_serves H)
            (λ k. ground (arith, lookup-insert k key new f.gardens, next-fresh)) refl)
  ]
